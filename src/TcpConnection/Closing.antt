-- ===== src/TcpConnection/Closing.antt =====
-- The two ways in which a connection comes to its end, and what each leaves behind.
use cevent_loop.Prelude.{
  ℕ, ◌≡◌, refl, sym, ap, ◌∙◌, inr, List, [], ◌∷◌, Option, none, true, false, Exec, ok, ◌>>=◌,
}
use cevent_loop.Prelude.Int.{ℤ}
use cevent_loop.Prelude.Maps.{put_self}
use cevent_loop.Buffer.{Buffer, stored, read_fd}
use cevent_loop.Channel.{ask_nothing}
use cevent_loop.Poller
use cevent_loop.Poller.{Poller, PollFd}
use cevent_loop.Poller.Valid.{Registered}
use cevent_loop.Poller.Interest.{interest-Reaches}
use cevent_loop.Poller.Remove.{remove_channel-Removed}
use cevent_loop.TcpConnection.{
  Net, Callbacks, disconnected, is_connected, descriptor, invoke, silence, drop_channel, with_state,
  handle_close, connect_destroyed, handle_read, received,
}

module _ {W : Type 0} where
  -- A function that is there, and leaves the connection alone.
  abbrev Harmless : Option (Net W → Exec (Net W)) → Type 0
  Harmless f = (s : Net W) → (w : W) × (invoke f s ≡ ok (record s { world = w }))

  -- The channel is registered with a consistent poller.
  pub record Attached (s : Net W) : Type 0 where
    pub poller : cevent_loop.Poller.Valid.IsValid s.poller
    pub registered : (i : ℕ) × (p : PollFd) × Registered s.poller s.conn.channel i p

  pub silence_lem :
      (s : Net W)
      → Attached s
      → (p : Poller) × (silence s ≡ ok (record s { poller = p }))
        × Attached (record s { poller = p })
        × (descriptor (record s { poller = p }) ≡ descriptor s)
  unfolding silence ask_nothing
  silence_lem s a =
      let (p, e, v, r) = (interest-Reaches s.poller s.conn.channel a.poller (inr a.registered)).2 in
      (p, rw e refl, record { poller = v; registered = (r.0, _, r.1) }, r.1.fd_of ∙ refl)

  pub drop_channel_lem :
      (s : Net W)
      → Attached s
      → (p : Poller) × (drop_channel s ≡ ok (record s { poller = p }))
        × (p.channels (descriptor s) ≡ none)
  unfolding drop_channel
  drop_channel_lem s a =
      let (i, q, r) = a.registered in
      let (p, e, k) = remove_channel-Removed s.conn.channel i q a.poller r in
      (p, rw e refl, k.channels_of (descriptor s) ∙ put_self s.poller.channels (descriptor s) none)

  closes :
      (cb : Callbacks W) (s t u v x : Net W)
      → silence (with_state disconnected s) ≡ ok t
      → invoke cb.connection t ≡ ok u
      → invoke cb.close u ≡ ok v
      → is_connected v.conn.state ≡ false
      → drop_channel v ≡ ok x
      → (handle_close cb true s >>= connect_destroyed cb true) ≡ ok x
  unfolding handle_close connect_destroyed
  closes cb s t u v x e f g down h = rw (e, f, g, down, h) refl

  -- `handleRead` that reads nothing, from what its calls come to.
  pub handle_read-ends :
      (cb : Callbacks W) (time : ℕ) (b : Buffer) (s t u v : Net W)
      → read_fd (stored []) s.conn.input_buffer ≡ ok (stored [], b)
      → silence (with_state disconnected (record s { conn = record s.conn { input_buffer = b } }))
        ≡ ok t
      → invoke cb.connection t ≡ ok u
      → invoke cb.close u ≡ ok v
      → handle_read cb true time (stored []) s ≡ ok v
  unfolding handle_read received handle_close
  handle_read-ends cb time b s t u v d e f g = rw (d, e, f, g) refl

  destroys :
      (cb : Callbacks W) (s t u x : Net W)
      → is_connected s.conn.state ≡ true
      → silence (with_state disconnected s) ≡ ok t
      → invoke cb.connection t ≡ ok u
      → drop_channel (record u { closed = descriptor u ∷ u.closed }) ≡ ok x
      → connect_destroyed cb true s ≡ ok x
  unfolding connect_destroyed
  destroys cb s t u x up e f h = rw (up, e, f, h) refl

  -- What a connection that is gone leaves, with the descriptors that are closed by then.
  pub record Gone (closed : List ℤ) (s s' : Net W) : Type 0 where
    pub down : s'.conn.state ≡ disconnected
    pub unmapped : s'.poller.channels (descriptor s) ≡ none
    pub closed_of : s'.closed ≡ closed

  -- `connectDestroyed` of a connection that is up closes its descriptor and takes it out of the poller.
  -- When the peer closes first, and `handleClose` comes before `connectDestroyed`, the descriptor is
  -- taken out of the poller too, but nothing closes it. The channel is registered, and the callbacks
  -- are there and leave the connection alone.
  end_of_connection :
      (cb : Callbacks W) (s : Net W)
      → Attached s
      → Harmless cb.connection
      → Harmless cb.close
      → (is_connected s.conn.state ≡ true
          → (s' : Net W) × (connect_destroyed cb true s ≡ ok s')
            × Gone (descriptor s ∷ s.closed) s s')
        × ((s' : Net W) × ((handle_close cb true s >>= connect_destroyed cb true) ≡ ok s')
            × Gone s.closed s s')
  end_of_connection cb s a told shut =
      let a₀ : Attached (with_state disconnected s) = record {
        poller = a.poller;
        registered = a.registered;
      } in
      let (p, e, a₁, fd) = silence_lem (with_state disconnected s) a₀ in
      let t : Net W = record (with_state disconnected s) { poller = p } in
      let (w, f) = told t in
      let u : Net W = record t { world = w } in
      let (z, g) = shut u in
      let v : Net W = record u { world = z } in
      let y : Net W = record u { closed = descriptor u ∷ u.closed } in
      let (q, h, gone) =
        drop_channel_lem v (record { poller = a₁.poller; registered = a₁.registered }) in
      let (q', h', gone') =
        drop_channel_lem y (record { poller = a₁.poller; registered = a₁.registered }) in
      (
        λ up. (
          record y { poller = q' },
          destroys cb s t u (record y { poller = q' }) up e f h',
          record {
            down = refl;
            unmapped = ap q'.channels (sym fd) ∙ gone';
            closed_of = ap (λ d. d ∷ s.closed) fd;
          },
        ),
        (
          record v { poller = q },
          closes cb s t u v (record v { poller = q }) e f g refl h,
          record { down = refl; unmapped = ap q.channels (sym fd) ∙ gone; closed_of = refl },
        ),
      )
