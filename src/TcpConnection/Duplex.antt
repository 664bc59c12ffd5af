-- ===== src/TcpConnection/Duplex.antt =====
-- What a connection promises its user: what it says goes out in order, what comes in is handed over,
-- and the end of the input is told.
use mathlib.Core.Path.{subst}
use cevent_loop.Prelude.{◌+◌, ◌≤◌, ◌≡◌, refl, sym, ap, ◌∙◌, List, [], ◌∷◌, arith, length, ok}
use cevent_loop.TcpConnection.{Net, handle_read, handle_write, received}
use cevent_loop.TcpConnection.Deeds.{
  App, Deed, says, hears, misses, flushes, ends, deed, deeds, view, spec_deeds, Live, said, Small,
}
use cevent_loop.TcpConnection.Steps.{Done, nothing, says-Done, hears-Done, ends-Done}

module _ {W : Type 0} (a : App W) where
  then_deeds :
      (d : Deed) (ds : List Deed) (s t u : Net W)
      → deed a d s ≡ ok t
      → deeds a ds t ≡ ok u
      → deeds a (d ∷ ds) s ≡ ok u
  unfolding deeds
  then_deeds d ds s t u e f = rw (e, f) refl

  -- There is room for a deed, and for those after it.
  Roomy : List Deed → Net W → Type 0
  Roomy ds s =
      Small (length s.conn.input_buffer.buf) ds
      × (s.conn.output_buffer.writer_index + said ds ≤ length s.conn.output_buffer.buf)

  deed-Done :
      (d : Deed) (ds : List Deed) (s : Net W)
      → Live s
      → Roomy (d ∷ ds) s
      → (s' : Net W) × (deed a d s ≡ ok s')
        × Done a d s s'
        × Small (length s.conn.input_buffer.buf) ds
  unfolding Roomy deed handle_read handle_write received
  deed-Done (says n text) ds s l ((part, more), fits) =
      let (s', e, k) = says-Done a n text s l part (omega arith) in (s', e, k, more)
  deed-Done (hears time x xs) ds s l ((part, more), fits) =
      let (s', e, k) = hears-Done a time x xs s l part in (s', e, k, more)
  deed-Done (misses x) ds s l (more, fits) = (s, refl, nothing a s l (misses x) refl, more)
  deed-Done flushes ds s l (more, fits) = (s, refl, nothing a s l flushes refl, more)
  deed-Done ends ds s l (more, fits) =
      let (s', e, k) = ends-Done a s l (omega (arith, l.taken, l.input.within)) in (s', e, k, more)

  said-cons : (d : Deed) (ds : List Deed) → said (d ∷ ds) ≡ said (d ∷ []) + said ds
  said-cons (says n text) ds = omega arith
  said-cons (hears time x xs) ds = omega arith
  said-cons (misses x) ds = omega arith
  said-cons flushes ds = omega arith
  said-cons ends ds = omega arith

  -- Whatever happens in the loop's thread on a connection that is in the poller with nothing to read, in
  -- any order, where every read fits in the empty input buffer, all that is said fits in the output
  -- buffer, whose size the high water mark is not below, no write is refused, the message callback takes
  -- everything, the other callbacks leave the connection alone, and there is none for a completed write:
  -- all goes through. What
  -- left or waits to leave is what was said while the connection was up, in order; all that came has been
  -- handed to the user, in order; at the end of the input the user is told of both, the connection is
  -- down, and what is said then goes nowhere; and no descriptor is closed.
  pub duplex_refines :
      (ds : List Deed) (s : Net W)
      → Live s
      → Small (length s.conn.input_buffer.buf) ds
      → s.conn.output_buffer.writer_index + said ds ≤ length s.conn.output_buffer.buf
      → (s' : Net W) × (deeds a ds s ≡ ok s') × (view s' ≡ spec_deeds a ds (view s)) × Live s'
  unfolding deeds Roomy
  duplex_refines [] s l small room = (s, refl, refl, l)
  duplex_refines (d ∷ ds) s l small room =
      let (t, e, k, more) = deed-Done d ds s l (small, room) in
      let (u, f, same, live) =
        duplex_refines ds t k.live (subst (λ n. Small n ds) (sym k.input_size) more)
          (omega (arith, said-cons d ds, k.writer, k.output_size)) in
      (u, then_deeds d ds s t u e f, same ∙ ap (spec_deeds a ds) k.viewed, live)
