-- ===== src/Exception/Lines.antt =====
-- The lines of a stack trace.
use cevent_loop.Prelude.{
  ℕ, suc, ◌+◌, ◌-◌, ◌≡◌, ◌⊎◌, inl, inr, refl, sym, ap, ◌∙◌, Option, none, some, List, [], ◌∷◌, ◌++◌,
  append_assoc, length, length-append, ◌==◌, ◌≢◌, Bool-cases, true, false, leb, map, take, drop,
  arith,
}
use cevent_loop.Prelude.Segments.{take-append-exact, drop-append-exact}
use cevent_loop.Prelude.Text.{Text}
use cevent_loop.Buffer.Lines.{Absent}
use cevent_loop.Exception.{
  Demangle, new, Marks, mark, scan, name_at, demangled_line, frame_line, frame_lines,
  get_stack_trace,
}

-- A frame with a function's name, as in "bin/test(_ZN3Bar4testEv+0x79) [0x401909]", or without.
pub data Frame : Type 0 where
  symbol : Text → Text → Text → Frame
  plain : Text → Frame

abbrev pub frame_text : Frame → Text
frame_text (symbol file name offset) = file ++ (40 ∷ (name ++ (43 ∷ offset)))
frame_text (plain text) = text

-- What a reader of the trace expects.
abbrev pub readable : Demangle → Frame → Text
readable demangle (symbol file name offset) = elim (demangle name) [
  | none ↦ frame_text (symbol file name offset)
  | some text ↦ file ++ (40 ∷ (text ++ (43 ∷ offset)))
]
readable demangle (plain text) = text

-- The parenthesis and the plus around a name are the last of the line; a plain frame lacks one of them.
abbrev pub Marked : Frame → Type 0
Marked (symbol file name offset) = Absent 40 name × Absent 40 offset × Absent 43 offset
Marked (plain text) = Absent 40 text ⊎ Absent 43 text

abbrev pub AllMarked : List Frame → Type 0
AllMarked [] = Unit
AllMarked (f ∷ fs) = Marked f × AllMarked fs

abbrev pub lines_of : Demangle → List Frame → Text
lines_of demangle [] = []
lines_of demangle (f ∷ fs) = (readable demangle f ++ (b'\n' ∷ [])) ++ lines_of demangle fs

scan-append :
    (p : ℕ) (m : Marks) (xs ys : Text) → scan p m (xs ++ ys) ≡ scan (p + length xs) (scan p m xs) ys
unfolding scan
scan-append p m [] ys = ap (λ q. scan q m ys) (omega arith)
scan-append p m (x ∷ xs) ys =
    scan-append (suc p) (mark p x m) xs ys
    ∙ ap (λ q. scan q (scan (suc p) (mark p x m) xs) ys) (omega arith)

mark-left_par : (p x : ℕ) (m : Marks) → x ≢ 40 → (mark p x m).left_par ≡ m.left_par
unfolding mark
mark-left_par p x m n = elim (Bool-cases (x == 40)) [
  | inl e ↦ absurd (n (ground (arith, e)))
  | inr e ↦ rw e (elim (Bool-cases (x == 43)) [ inl f ↦ rw f refl | inr f ↦ rw f refl ])
]

mark-plus : (p x : ℕ) (m : Marks) → x ≢ 43 → (mark p x m).plus ≡ m.plus
unfolding mark
mark-plus p x m n = elim (Bool-cases (x == 40)) [
  | inl e ↦ rw e refl
  | inr e ↦
      rw e
        (elim (Bool-cases (x == 43)) [ inl f ↦ absurd (n (ground (arith, f))) | inr f ↦ rw f refl ])
]

sees : {x y : ℕ} → (y == x) ≡ false → x ≢ y
sees n e = absurd (ground (arith, n, e))

scan-left_par : (p : ℕ) (m : Marks) (xs : Text) → Absent 40 xs → (scan p m xs).left_par ≡ m.left_par
unfolding scan mark
scan-left_par p m [] a = refl
scan-left_par p m (x ∷ xs) (n, a) =
    scan-left_par (suc p) (mark p x m) xs a ∙ mark-left_par p x m (sees n)

scan-plus : (p : ℕ) (m : Marks) (xs : Text) → Absent 43 xs → (scan p m xs).plus ≡ m.plus
unfolding scan mark
scan-plus p m [] a = refl
scan-plus p m (x ∷ xs) (n, a) = scan-plus (suc p) (mark p x m) xs a ∙ mark-plus p x m (sees n)

abbrev unmarked : Marks
unmarked = record { left_par = none; plus = none }

module _ (file name offset : Text) where
  abbrev line : Text
  line = frame_text (symbol file name offset)

  abbrev par_at : ℕ
  par_at = 0 + length file

  abbrev plus_at : ℕ
  plus_at = suc par_at + length name

  symbol_marks :
      Marked (symbol file name offset)
      → ((scan 0 unmarked line).left_par ≡ some par_at)
        × ((scan 0 unmarked line).plus ≡ some plus_at)
  unfolding scan mark
  symbol_marks (no_par, no_par', no_plus) =
      let m₁ = scan 0 unmarked file in
      let m₂ = scan (suc par_at) (mark par_at 40 m₁) name in
      let whole : scan 0 unmarked line ≡ scan (suc plus_at) (mark plus_at 43 m₂) offset =
        scan-append 0 unmarked file (40 ∷ (name ++ (43 ∷ offset)))
        ∙ scan-append (suc par_at) (mark par_at 40 m₁) name (43 ∷ offset) in
      (
        ap (λ (m : Marks). m.left_par) whole
            ∙ scan-left_par (suc plus_at) (mark plus_at 43 m₂) offset no_par'
            ∙ scan-left_par (suc par_at) (mark par_at 40 m₁) name no_par,
        ap (λ (m : Marks). m.plus) whole
            ∙ scan-plus (suc plus_at) (mark plus_at 43 m₂) offset no_plus,
      )

  front : Text
  front = file ++ (40 ∷ [])

  line_front : line ≡ front ++ (name ++ (43 ∷ offset))
  unfolding front
  line_front = sym (append_assoc file (40 ∷ []) (name ++ (43 ∷ offset)))

  length-front : par_at + 1 ≡ length front
  unfolding front
  length-front = omega (arith, length-append file (40 ∷ []))

  name-found : name_at par_at plus_at line ≡ name
  name-found =
      let within : leb (par_at + 1) plus_at ≡ true = ground arith in
      let long : plus_at - (par_at + 1) ≡ length name = omega arith in
      let rest : drop (par_at + 1) line ≡ name ++ (43 ∷ offset) =
        ap (drop (par_at + 1)) line_front ∙ drop-append-exact (par_at + 1) front _ length-front in
      rw (within, rest) (take-append-exact _ name (43 ∷ offset) long)

  front-taken : take (par_at + 1) line ≡ front
  front-taken =
      ap (take (par_at + 1)) line_front ∙ take-append-exact (par_at + 1) front _ length-front

  behind_name : drop plus_at line ≡ 43 ∷ offset
  behind_name =
      let split : line ≡ (front ++ name) ++ (43 ∷ offset) =
        line_front ∙ sym (append_assoc front name (43 ∷ offset)) in
      ap (drop plus_at) split
      ∙ drop-append-exact plus_at (front ++ name) (43 ∷ offset)
          (omega (arith, length-append front name, length-front))

  demangled_line_lem :
      (demangle : Demangle) (o : Option Text)
      → demangle name ≡ o
      → demangled_line demangle par_at plus_at line ≡ readable demangle (symbol file name offset)
  unfolding demangled_line front
  demangled_line_lem demangle none e = rw (demangled_line, readable, name-found, e) refl
  demangled_line_lem demangle (some text) e =
      rw (demangled_line, readable, name-found, e, front-taken, behind_name)
        (append_assoc file (40 ∷ []) (text ++ (43 ∷ offset)))

without_plus :
    (demangle : Demangle) (text : Text)
    → (scan 0 unmarked text).plus ≡ none
    → (o : Option ℕ) → (scan 0 unmarked text).left_par ≡ o
    → frame_line demangle text ≡ text
unfolding frame_line
without_plus demangle text plus none e = rw (frame_line, e) refl
without_plus demangle text plus (some l) e = rw (frame_line, e, plus) refl

frame_line_lem :
    (demangle : Demangle) (f : Frame)
    → Marked f
    → frame_line demangle (frame_text f) ≡ readable demangle f
unfolding frame_line
frame_line_lem demangle (symbol file name offset) m =
    let (left, plus) = symbol_marks file name offset m in
    rw (frame_line, left, plus) (demangled_line_lem file name offset demangle (demangle name) refl)
frame_line_lem demangle (plain text) (inl no_par) =
    let left = scan-left_par 0 unmarked text no_par in rw (frame_line, left) refl
frame_line_lem demangle (plain text) (inr no_plus) =
    without_plus demangle text (scan-plus 0 unmarked text no_plus) (scan 0 unmarked text).left_par
      refl

frame_lines_lem :
    (demangle : Demangle) (fs : List Frame)
    → AllMarked fs
    → frame_lines demangle (map frame_text fs) ≡ lines_of demangle fs
unfolding frame_lines
frame_lines_lem demangle [] m = refl
frame_lines_lem demangle (f ∷ fs) (m, ms) =
    rw (frame_line_lem demangle f m, frame_lines_lem demangle fs ms) refl

-- Where the parenthesis and the plus around a name are the last ones of their line, and a line without a
-- name lacks one of the two: each frame behind the first three is a line of the trace, in order, with its
-- name in the demangled form if there is one, and as it is otherwise. Where the system gives no frames
-- the trace is empty.
pub trace_lem :
    (demangle : Demangle) (a b c what : Text) (fs : List Frame)
    → AllMarked fs
    → ((new demangle (some (a ∷ b ∷ c ∷ map frame_text fs)) what).stack ≡ lines_of demangle fs)
      × ((new demangle none what).stack ≡ [])
unfolding new get_stack_trace
trace_lem demangle a b c what fs m = (frame_lines_lem demangle fs m, refl)
