-- ===== src/TcpServer/Order.antt =====
-- The order of the functors in the history of one loop.
use mathlib.Core.List.{
  Mem, mem-cons_self, mem-cons_of_mem, Subset, Mem-prop, not-mem-nil, eq-or-mem_of_mem-cons,
}
use mathlib.Core.Logic.Or
use mathlib.Core.Path.{subst, sym}
use cevent_loop.Prelude.{List, [], ◌∷◌, ◌++◌}
use cevent_loop.TcpServer.{Task, listens, quits, establishes, destroys, removes}

-- A `connectDestroyed` has the `connectEstablished` of its connection among those that came before it.
abbrev pub Earlier : Task → List Task → Type 0
Earlier listens seen = Unit
Earlier quits seen = Unit
Earlier (establishes c) seen = Unit
Earlier (destroys c) seen = Mem (establishes c) seen
Earlier (removes c) seen = Unit

-- So it is for each functor of a list, behind those that were seen.
abbrev pub Proper : List Task → List Task → Type 0
Proper seen [] = Unit
Proper seen (t ∷ ts) = Earlier t seen × Proper (t ∷ seen) ts

cons-Subset : {A : Type 0} (x : A) (xs ys : List A) → Mem x ys → Subset xs ys → Subset (x ∷ xs) ys
cons-Subset x xs ys h sub a m =
    Or.elim (Mem-prop {a = a} {l = ys}) (eq-or-mem_of_mem-cons m)
      (λ e. subst (λ y. Mem y ys) (sym e) h) (sub a)

pub Earlier-more :
    (t : Task) {seen more : List Task} → Subset seen more → Earlier t seen → Earlier t more
Earlier-more listens sub h = tt
Earlier-more quits sub h = tt
Earlier-more (establishes c) sub h = tt
Earlier-more (destroys c) sub h = sub (establishes c) h
Earlier-more (removes c) sub h = tt

Proper-more :
    (ts : List Task) {seen more : List Task} → Subset seen more → Proper seen ts → Proper more ts
Proper-more [] sub h = tt
Proper-more (t ∷ ts) {seen} {more} sub (e, h) = (
  Earlier-more t sub e,
  Proper-more ts {seen = t ∷ seen} {more = t ∷ more}
      (cons-Subset t seen (t ∷ more) mem-cons_self (λ a m. mem-cons_of_mem t (sub a m))) h,
)

-- A functor that waits for no other may come in between.
pub Proper-between :
    (t : Task)
    → ((seen : List Task) → Earlier t seen)
    → (xs ys : List Task) (seen : List Task) → Proper seen (xs ++ ys)
    → Proper seen ((xs ++ (t ∷ [])) ++ ys)
Proper-between t free [] ys seen h = (free seen, Proper-more ys (λ a m. mem-cons_of_mem t m) h)
Proper-between t free (x ∷ xs) ys seen (e, h) = (e, Proper-between t free xs ys (x ∷ seen) h)

-- At the end there may come one that follows what it waits for.
pub Proper-last :
    (t : Task) (xs seen : List Task)
    → Proper seen xs
    → ((all : List Task) → Subset seen all → Subset xs all → Earlier t all)
    → Proper seen (xs ++ (t ∷ []))
Proper-last t [] seen h due = (due seen (λ a m. m) (λ a m. absurd (not-mem-nil m)), tt)
Proper-last t (x ∷ xs) seen (e, h) due = (
  e,
  Proper-last t xs (x ∷ seen) h (λ all before behind.
      due all (λ a m. before a (mem-cons_of_mem x m))
        (cons-Subset x xs all (before x mem-cons_self) behind)),
)
