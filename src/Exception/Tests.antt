-- ===== src/Exception/Tests.antt =====
-- A trace of a frame with a name and one without.
use cevent_loop.Prelude.{
  ◌≡◌, refl, inl, none, some, List, [], ◌∷◌, map, ◌==◌, if◌then◌else◌, length,
}
use cevent_loop.Prelude.Text.{codes}
use cevent_loop.Exception.{Demangle, new, frame_line}
use cevent_loop.Exception.Lines.{Frame, symbol, plain, frame_text, lines_of, trace_lem}

-- It knows names of three bytes only.
abbrev demangle : Demangle
demangle name = if length name == 3 then some (codes "f()") else none

abbrev frames : List Frame
frames = symbol (codes "bin/t") (codes "_Zf") (codes "0x79) [0x4]") ∷ plain (codes "[0x8]") ∷ []

first_line : frame_line demangle (codes "bin/t(_Zf+0x79) [0x4]") ≡ codes "bin/t(f()+0x79) [0x4]"
unfolding frame_line
first_line = refl

trace_lem_example :
    ((new demangle (some ([] ∷ [] ∷ [] ∷ map frame_text frames)) (codes "bad")).stack
      ≡ lines_of demangle frames)
    × ((new demangle none (codes "bad")).stack ≡ [])
trace_lem_example = trace_lem demangle [] [] [] (codes "bad") frames (
  (
    (refl, (refl, (refl, tt))),
    (refl, (refl, (refl, (refl, (refl, (refl, (refl, (refl, (refl, (refl, (refl, tt))))))))))),
    (refl, (refl, (refl, (refl, (refl, (refl, (refl, (refl, (refl, (refl, (refl, tt))))))))))),
  ),
  (inl (refl, (refl, (refl, (refl, (refl, tt))))), tt),
)
