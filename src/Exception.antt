-- ===== src/Exception.antt =====
-- CEventLoop/Exception.h and Exception.cc: the stack trace that an exception keeps. The texts that
-- `backtrace_symbols` makes, or its failure, and what `__cxa_demangle` makes of a name, or its failure,
-- are arguments.
mod Tests
pub mod Lines
use cevent_loop.Prelude.{
  ℕ, suc, ◌+◌, Bool, true, false, Option, none, some, List, [], ◌∷◌, ◌++◌, ◌==◌, leb, if◌then◌else◌,
  take, drop,
}
use cevent_loop.Prelude.Segments.{segment}
use cevent_loop.Prelude.Text.{Text}

-- `message_` and `stack_`
pub record Exception : Type 0 where
  pub message : Text
  pub stack : Text

abbrev pub Demangle : Type 0
Demangle = Text → Option Text

-- `left_par` and `plus`, as positions in the line.
pub record Marks : Type 0 where
  pub left_par : Option ℕ
  pub plus : Option ℕ

unfoldable pub mark : ℕ → ℕ → Marks → Marks
mark p x m =
    if x == 40
    then record m { left_par = some p }
    else if x == 43
    then record m { plus = some p }
    else m

-- The loop over a line, from a position on.
unfoldable pub scan : ℕ → Marks → Text → Marks
unfolding mark
scan p m [] = m
scan p m (x ∷ xs) = scan (suc p) (mark p x m) xs

-- The text from behind the parenthesis up to the zero byte that is put over the plus.
abbrev pub name_at : ℕ → ℕ → Text → Text
name_at l p line = if leb (l + 1) p then segment (l + 1) p line else drop (l + 1) line

unfoldable pub demangled_line : Demangle → ℕ → ℕ → Text → Text
demangled_line demangle l p line = elim (demangle (name_at l p line)) [
  | none ↦ line
  | some name ↦ take (l + 1) line ++ (name ++ drop p line)
]

-- What is appended for a frame, before the line feed.
unfoldable pub frame_line : Demangle → Text → Text
unfolding scan demangled_line
frame_line demangle line =
    let m = scan 0 (record { left_par = none; plus = none }) line in
    elim m.left_par [
      | none ↦ line
      | some l ↦ elim m.plus [ none ↦ line | some p ↦ demangled_line demangle l p line ]
    ]

unfoldable pub frame_lines : Demangle → List Text → Text
unfolding frame_line
frame_lines demangle [] = []
frame_lines demangle (line ∷ rest) =
    (frame_line demangle line ++ (b'\n' ∷ [])) ++ frame_lines demangle rest

-- `GetStackTrace`: the first three frames are left out.
unfoldable pub get_stack_trace : Demangle → Option (List Text) → Text
unfolding frame_lines
get_stack_trace demangle none = []
get_stack_trace demangle (some strings) = frame_lines demangle (drop 3 strings)

unfoldable pub new : Demangle → Option (List Text) → Text → Exception
unfolding get_stack_trace
new demangle strings what = record { message = what; stack = get_stack_trace demangle strings }
