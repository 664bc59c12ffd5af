-- ===== src/Logging/Lines.antt =====
-- What one statement writes.
use cevent_loop.Prelude.{
  ℕ, ◌≡◌, inl, inr, refl, sym, ap, ◌∙◌, Bool-cases, List, [], ◌∷◌, ◌++◌, append-nil, append_assoc,
  if◌then◌else◌,
}
use cevent_loop.Prelude.Text.{Text}
use cevent_loop.Logging.{
  Settings, Macro, enabled, Logger, new, Item, item_text, stream, stream_all, destruct, log,
}

abbrev pub items_text : List Item → Text
items_text [] = []
items_text (i ∷ is) = item_text i ++ items_text is

stream_all_lem :
    (is : List Item) (l : Logger)
    → stream_all is l ≡ record l { buffer = l.buffer ++ items_text is }
unfolding stream_all stream
stream_all_lem [] l = ap (λ (b : Text). record l { buffer = b }) (sym (append-nil l.buffer))
stream_all_lem (i ∷ is) l =
    stream_all_lem is (record l { buffer = l.buffer ++ item_text i })
    ∙ ap (λ (b : Text). record l { buffer = b })
        (append_assoc l.buffer (item_text i) (items_text is))

-- The output appends to what was written, and `flush` says up to where it has got.
pub record Sink : Type 0 where
  pub written : Text
  pub flushed : Text

abbrev pub Appending : Settings Sink → Type 0
Appending s =
    ((t : Text) (w : Sink) → s.output t w ≡ record w { written = w.written ++ t })
    × ((w : Sink) → s.flush w ≡ record w { flushed = w.written })

abbrev pub line_text : Text → List Item → Text
line_text file items = file ++ (b':' ∷ (items_text items ++ (b'\n' ∷ [])))

destruct_lem :
    (s : Settings Sink) (l : Logger) (w : Sink)
    → Appending s
    → destruct s l w ≡ (
        let text = w.written ++ (l.source_file ++ (b':' ∷ (l.buffer ++ (b'\n' ∷ [])))) in
        record { written = text; flushed = text })
unfolding destruct
destruct_lem s l w (out, flush) = simp (out, flush, append_assoc)

-- A statement in a file, at a line.
pub record Statement : Type 0 where
  pub macro : Macro
  pub file : Text
  pub line : ℕ
  pub items : List Item

unfoldable pub run : Settings Sink → List Statement → Sink → Sink
unfolding log
run s [] w = w
run s (t ∷ ts) w = run s ts (log s t.macro t.file t.line t.items w)

-- The lines of the statements that log.
abbrev pub lines : Settings Sink → List Statement → Text
lines s [] = []
lines s (t ∷ ts) = (if enabled t.macro s.level then line_text t.file t.items else []) ++ lines s ts

pub log_lem :
    (s : Settings Sink) (t : Statement) (w : Sink)
    → Appending s
    → log s t.macro t.file t.line t.items w ≡ (
        if enabled t.macro s.level
        then record {
          written = w.written ++ line_text t.file t.items;
          flushed = w.written ++ line_text t.file t.items;
        }
        else w)
unfolding log new
log_lem s t w a = elim (Bool-cases (enabled t.macro s.level)) [
  | inl on ↦
      rw (on, stream_all_lem t.items (new t.file t.line))
        (destruct_lem s
          (record { buffer = items_text t.items; source_file = t.file; line = t.line }) w a)
  | inr off ↦ rw off refl
]

-- With functions that append to the output and flush it, a run of statements writes, behind what was
-- written, one line for each that logs and nothing for the others, in order: the file, a colon, what it
-- streams and a line feed. No line number is written. If all was flushed before, it is after.
pub run_lem :
    (s : Settings Sink) (ts : List Statement) (w : Sink)
    → Appending s
    → ((run s ts w).written ≡ w.written ++ lines s ts)
      × (w.flushed ≡ w.written → (run s ts w).flushed ≡ (run s ts w).written)
unfolding run
run_lem s [] w a = (sym (append-nil w.written), λ h. h)
run_lem s (t ∷ ts) w a =
    rw (run, log_lem s t w a)
      (elim (Bool-cases (enabled t.macro s.level)) [
        | inl on ↦
            let text : Text = w.written ++ line_text t.file t.items in
            let (more, all) = run_lem s ts (record { written = text; flushed = text }) a in
            rw on
              (more ∙ append_assoc w.written (line_text t.file t.items) (lines s ts), λ h. all refl)
        | inr off ↦ rw off (run_lem s ts w a)
      ])
