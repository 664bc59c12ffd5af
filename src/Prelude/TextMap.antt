-- ===== src/Prelude/TextMap.antt =====
-- A `std::map` with keys that are texts, whose order nobody reads.
use mathlib.Core.Path.{◌≡◌, refl}
use mathlib.Core.Logic.{◌≢◌, ◌⊎◌, inl, inr}
use cevent_loop.Prelude.Tests.{Bool-cases, if◌then◌else◌}
use cevent_loop.Prelude.Text.{Text, same_text, same_text_iff}

module _ {ℓ} {V : Type ℓ} where
  abbrev pub put_text : (Text → V) → Text → V → Text → V
  put_text m k v j = if same_text k j then v else m j

  pub put_text_cases :
      (m : Text → V) (k j : Text) (v : V)
      → ((k ≡ j) × (put_text m k v j ≡ v)) ⊎ ((k ≢ j) × (put_text m k v j ≡ m j))
  put_text_cases m k j v = elim (Bool-cases (same_text k j)) [
    | inl t ↦ inl ((same_text_iff k j).0 t, rw t)
    | inr f ↦ inr ((λ e. let t = (same_text_iff k j).1 e in cc (t, f)), rw f)
  ]

  pub put_text_self : (m : Text → V) (k : Text) (v : V) → put_text m k v k ≡ v
  put_text_self m k v = let t = (same_text_iff k k).1 refl in rw t refl

  pub put_text_ne : (m : Text → V) (k j : Text) (v : V) → k ≢ j → put_text m k v j ≡ m j
  put_text_ne m k j v n = elim (Bool-cases (same_text k j)) [
    | inl t ↦ absurd (n ((same_text_iff k j).0 t))
    | inr f ↦ rw f refl
  ]
