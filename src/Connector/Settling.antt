-- ===== src/Connector/Settling.antt =====
-- What becomes of a descriptor: from `connect` until `handleWrite` has had its turn.
use cevent_loop.Prelude.{
  ℕ, ◌+◌, ◌≡◌, inl, refl, ap, ◌∙◌, Bool, true, false, Option, none, some, ◌∷◌, ◌==◌, Exec, ok,
  ◌>>=◌, ◌&&◌, not,
}
use cevent_loop.Prelude.Int.{ℤ, is_negative}
use cevent_loop.Prelude.Maps.{store_self}
use cevent_loop.Channel
use cevent_loop.Channel.{Channel, ask_writing, ask_nothing}
use cevent_loop.Poller.{Poller, PollFd, disable_all, remove_channel}
use cevent_loop.Poller.Valid.{IsValid, Registered}
use cevent_loop.Poller.Update.{IsFresh}
use cevent_loop.Poller.Interest.{interest-Reaches}
use cevent_loop.TcpConnection.{connecting, connected}
use cevent_loop.Connector.{
  Connector, Errno, Verdict, verdict, wait, retries, gives_up, start_connecting, connect,
  handle_write, invoke, remove_and_reset_channel,
}
use cevent_loop.Connector.Channels.{Unused, placed, placed-IsValid}

-- Whether the descriptor is handed on.
abbrev pub handed_on : Verdict → ℕ → Bool → Bool → Bool
handed_on wait err self flag = err == 0 && not self && flag
handed_on retries err self flag = false
handed_on gives_up err self flag = false

module _ {W : Type 0} where
  -- `connect`, and the call of `handleWrite` when the channel is told that it may write.
  unfoldable pub attempt :
      Option (ℤ → Connector W → Exec (Connector W))
      → Option Errno
      → ℕ
      → Bool
      → ℕ
      → ℕ
      → ℕ
      → ℕ
      → ℤ
      → Connector W
      → Exec (Connector W)
  unfolding connect handle_write
  attempt callback e err self loop address stale_events stale_active fd s =
      connect e loop address stale_events stale_active fd s >>= handle_write callback err self

  -- The descriptor is handed on and not closed, or closed and not handed on.
  abbrev pub Ended : (ℤ → W → W) → ℤ → Connector W → Connector W → Bool → Type 0
  Ended deliver fd s s' true =
      (s'.closed ≡ s.closed) × (s'.world ≡ deliver fd s.world) × (s'.state ≡ connected)
  Ended deliver fd s s' false = (s'.closed ≡ fd ∷ s.closed) × (s'.world ≡ s.world)

  abbrev pub Delivers : (ℤ → W → W) → Option (ℤ → Connector W → Exec (Connector W)) → Type 0
  Delivers deliver callback =
      (fd : ℤ) (t : Connector W)
      → invoke callback fd t ≡ ok (record t { world = deliver fd t.world })

  pub removed :
      (s : Connector W) (c : ℕ) (q p : Poller) (fd : ℤ)
      → s.channel ≡ some c
      → disable_all c s.poller ≡ ok q
      → remove_channel c q ≡ ok p
      → (p.heap c).fd ≡ fd
      → remove_and_reset_channel s ≡ ok (fd, record s { poller = p; resets = s.resets + 1 })
  unfolding remove_and_reset_channel
  removed s c q p fd e f g h = rw (e, f, g, h) refl

  pub started :
      (loop address stale_events stale_active : ℕ) (fd : ℤ) (s : Connector W)
      → IsValid s.poller
      → Unused s.poller address
      → is_negative fd ≡ false
      → s.poller.channels fd ≡ none
      → (p : Poller) × (start_connecting loop address stale_events stale_active fd s
          ≡ ok (record s { channel = some address; state = connecting; poller = p }))
        × IsValid p
        × ((i : ℕ) × (x : PollFd) × Registered p address i x × (x.fd ≡ fd))
  unfolding start_connecting Channel.new ask_writing
  started loop address stale_events stale_active fd s v unused opened free =
      let c : Channel = Channel.new loop fd stale_events stale_active in
      let q : Poller = placed s.poller address c in
      let here : q.heap address ≡ c = store_self s.poller.heap address c in
      let on_it : (q.heap address).fd ≡ fd = ap (λ (x : Channel). x.fd) here in
      let fresh : IsFresh q address = record {
        unindexed = ap (λ (x : Channel). is_negative x.index) here;
        opened = ap is_negative on_it ∙ opened;
        unmapped = ap s.poller.channels on_it ∙ free;
      } in
      let (p, e, v', (i, r)) =
        (interest-Reaches q address (placed-IsValid v address unused c) (inl fresh)).1 in
      (p, rw e refl, v', (i, _, r, on_it))

  pub attempt_waits :
      (callback : Option (ℤ → Connector W → Exec (Connector W))) (e : Option Errno) (err : ℕ)
      (self : Bool) (loop address stale_events stale_active : ℕ) (fd : ℤ) (s s₁ s' : Connector W)
      → verdict e ≡ wait
      → start_connecting loop address stale_events stale_active fd s ≡ ok s₁
      → handle_write callback err self s₁ ≡ ok s'
      → attempt callback e err self loop address stale_events stale_active fd s ≡ ok s'
  unfolding attempt connect
  attempt_waits callback e err self loop address stale_events stale_active fd s s₁ s' w f g =
      rw (attempt, connect, w, f) g
