-- ===== src/EventLoop/Dispatching.antt =====
-- The channels that `loop` hands events to, in one turn of it.
use cevent_loop.Prelude.{ℕ, ◌≡◌, refl, ap, ◌∙◌, List, [], ◌∷◌, length, map, arith, Exec, ok, ◌>>=◌}
use cevent_loop.Prelude.Int.{pos}
use cevent_loop.Channel.{Callbacks}
use cevent_loop.Poller.{happened, with_revents}
use cevent_loop.Poller.Valid.{IsValid}
use cevent_loop.Poller.Active.{hot}
use cevent_loop.Poller.Poll.{all_mapped, polled, polled-IsValid}
use cevent_loop.EventLoop.Turn.{
  Reactor, cleared, handle_channels, poll_and_handle, calls, run_all, spec_turn, due, mark_all,
}
use cevent_loop.EventLoop.Handlers.{
  bind_assoc, bind_ext, Gentle, calls-AllKeep, run_all-marks, handle_channel_lem,
}
use cevent_loop.EventLoop.Due.{
  modify-other, Apart, Marked, mark_all-Marked, Marked-kept, placed, due-Apart, poll-due,
}

module _ {W : Type 0} (cbs : ℕ → Callbacks (Reactor W)) (time : ℕ)
    (gentle : (c : ℕ) → Gentle (cbs c)) where
  handle_channels_lem :
      (l : List (ℕ × ℕ)) (s : Reactor W)
      → Apart l
      → Marked l s.poller
      → handle_channels cbs time (map (λ x. x.0) l) s ≡ spec_turn cbs time l s
  unfolding handle_channels spec_turn Apart Marked cleared
  handle_channels_lem [] s a m = refl
  handle_channels_lem ((c, r) ∷ rest) s (w, a) (e, m) =
      let fs = calls (cbs c) time r in
      let on : Reactor W → Exec (Reactor W) =
        λ t. handle_channels cbs time (map (λ (x : ℕ × ℕ). x.0) rest) t in
      let marks : (t : Reactor W) → run_all fs s ≡ ok t → Marked rest (cleared c t).poller =
        λ t ran.
          Marked-kept rest s.poller (cleared c t).poller c w
            (λ d n.
              modify-other t.poller c d 0 n
              ∙ run_all-marks fs s t (calls-AllKeep (cbs c) time r (gentle c)) ran d)
            m in
      ap (λ x. x >>= on) (handle_channel_lem cbs time c r s e)
      ∙ bind_assoc (run_all fs s) (λ t. ok (cleared c t)) on
      ∙ bind_ext (run_all fs s) (λ t. on (cleared c t)) (λ t. spec_turn cbs time rest (cleared c t))
          (λ t ran. handle_channels_lem rest (cleared c t) a (marks t ran))

-- Where `::poll` returns the number of entries that have events, and no callback sets the events of
-- channels: `poll` and the `for` of `loop` call, for the channels of exactly those entries, in the order
-- of the array, the callbacks for the events that the system stored, in the order of `handleEvent`, each
-- on what the one before left; a fault ends it. What a callback does to the poller, as to remove another
-- channel, does not change which are called in this turn.
pub poll_and_handle_lem :
    {W : Type 0} (cbs : ℕ → Callbacks (Reactor W)) (n : ℕ) (rs : List ℕ) (s : Reactor W)
    → IsValid s.poller
    → ((c : ℕ) → Gentle (cbs c))
    → n ≡ length (hot (with_revents rs s.poller.pollfds))
    → (let l = due s.poller.channels (with_revents rs s.poller.pollfds) in
        poll_and_handle cbs (happened n rs) s
        ≡ spec_turn cbs 0 l (record s { poller = mark_all l (polled rs s.poller) }))
unfolding poll_and_handle
poll_and_handle_lem cbs n rs s v gentle e =
    let q = polled rs s.poller in
    let v' = polled-IsValid rs v in
    let l = due q.channels q.pollfds in
    let apart = due-Apart q.channels q.heap 0 q.pollfds (
      placed q 0 q.pollfds (λ i p at.
        let (c, r) = v'.entries i p at in (c, r.mapped, r.index_of ∙ ap pos (omega arith)))) in
    let mapped =
      all_mapped q.channels q.pollfds (λ i p at. let (c, r) = v'.entries i p at in (c, r.mapped)) in
    rw (poll-due n rs s.poller mapped e) (
      handle_channels_lem cbs 0 gentle l (record s { poller = mark_all l q }) apart
        (mark_all-Marked l q apart))
