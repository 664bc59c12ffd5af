-- ===== src/TcpClient/Established.antt =====
-- CEventLoop/TcpClient.cc: a connection that newConnection has made, with the client's default callback.
use cevent_loop.Prelude.{
  ℕ, ◌≤◌, ◌≡◌, refl, ap, ◌∙◌, true, false, none, some, [], ◌++◌, inl, arith, length,
  length-replicate, ok,
}
use cevent_loop.Prelude.Int.{is_negative}
use cevent_loop.Prelude.Maps.{store_self}
use cevent_loop.Prelude.Text.{codes}
use cevent_loop.Buffer
use cevent_loop.Buffer.{contents}
use cevent_loop.Buffer.Valid
use cevent_loop.Channel
use cevent_loop.Channel.{Channel, call}
use cevent_loop.Poller.{Poller, modify}
use cevent_loop.Poller.Update.{IsFresh}
use cevent_loop.Poller.Interest.{interest-Reaches}
use cevent_loop.TcpConnection.{
  Net, Callbacks, Written, descriptor, took, connected, with_state, connect_established,
}
use cevent_loop.TcpConnection.Keeping.{IsValid}
use cevent_loop.TcpConnection.Sending.{Quiet}
use cevent_loop.Connector.Channels.{Unused, placed, placed-IsValid}
use cevent_loop.TcpClient.{Socket, connection_of, default_connection_callback}
use cevent_loop.TcpClient.Greeting.{greets}

-- The callbacks with which the client greets, and `w` is what the first write comes to.
abbrev pub greeting : {W : Type 0} → Callbacks W → Written → Callbacks W
greeting cb w = record cb { connection = some (default_connection_callback cb true w) }

pub size_of_new : length (Buffer.new 1024).buf ≡ 1032
unfolding Buffer.new
size_of_new = length-replicate {A = ℕ} 1032 0

pub new-IsValid : Buffer.Valid.IsValid (Buffer.new 1024)
unfolding Buffer.new
new-IsValid = record {
  prepend = omega arith;
  ordered = omega arith;
  within = omega (arith, size_of_new);
  small = omega (arith, size_of_new);
  settled = λ e. refl;
}

pub contents-new : contents (Buffer.new 1024) ≡ []
unfolding contents Buffer.new
contents-new = refl

pub writer_of_new : (Buffer.new 1024).writer_index ≡ 8
unfolding Buffer.new
writer_of_new = refl

module _ (k : Socket) where
  -- The poller when `enableReading` is called.
  abbrev tied : Poller → Poller
  tied p =
      modify Channel.tie k.address
        (placed p k.address (Channel.new k.loop k.fd k.stale_events k.stale_active))

  tied_here :
      (p : Poller)
      → (tied p).heap k.address
        ≡ Channel.tie (Channel.new k.loop k.fd k.stale_events k.stale_active)
  unfolding modify
  tied_here p =
      let c : Channel = Channel.new k.loop k.fd k.stale_events k.stale_active in
      let q = placed p k.address c in
      store_self q.heap k.address (Channel.tie (q.heap k.address))
      ∙ ap Channel.tie (store_self p.heap k.address c)

  tied-IsFresh :
      (p : Poller) → is_negative k.fd ≡ false → p.channels k.fd ≡ none → IsFresh (tied p) k.address
  unfolding modify Channel.tie Channel.new
  tied-IsFresh p opened free =
      let here = tied_here p in
      record {
        unindexed = ap (λ (x : Channel). is_negative x.index) here;
        opened = ap (λ (x : Channel). is_negative x.fd) here ∙ opened;
        unmapped = ap (λ (x : Channel). p.channels x.fd) here ∙ free;
      }

  tied-IsValid :
      (p : Poller)
      → cevent_loop.Poller.Valid.IsValid p
      → Unused p k.address
      → cevent_loop.Poller.Valid.IsValid (tied p)
  unfolding modify
  tied-IsValid p v unused =
      let c : Channel = Channel.new k.loop k.fd k.stale_events k.stale_active in
      let q = placed p k.address c in
      placed-IsValid (placed-IsValid v k.address unused c) k.address unused
        (Channel.tie (q.heap k.address))

  -- `connectEstablished` of a connection that was made: it calls the connection callback when the
  -- connection is up and fit for use.
  pub opened_lem :
      {W : Type 0} (cb : Callbacks W) (p : Poller) (world : W)
      → cevent_loop.Poller.Valid.IsValid p
      → Unused p k.address
      → is_negative k.fd ≡ false
      → p.channels k.fd ≡ none
      → (p' : Poller) × (let s : Net W =
            with_state connected (record (connection_of k p world) { poller = p' }) in
          (connect_established cb true (connection_of k p world) ≡ call cb.connection s)
          × IsValid s
          × (descriptor s ≡ k.fd))
  unfolding connect_established connection_of Channel.tie Channel.new
  opened_lem {W} cb p world v unused opened free =
      let (p', e, v', (i, r)) =
        (interest-Reaches (tied p) k.address (tied-IsValid p v unused)
          (inl (tied-IsFresh p opened free))).0 in
      (
        p',
        (
          rw e refl,
          record {
            out = new-IsValid;
            poller = v';
            registered = (i, _, r);
            marked = omega (arith, size_of_new);
          },
          r.fd_of ∙ ap (λ (x : Channel). x.fd) (tied_here p),
        ),
      )

  pub established :
      {W : Type 0} (cb : Callbacks W) (n : ℕ) (p : Poller) (world : W)
      → cevent_loop.Poller.Valid.IsValid p
      → Unused p k.address
      → is_negative k.fd ≡ false
      → p.channels k.fd ≡ none
      → Quiet cb.write_complete
      → n ≤ 11
      → (net : Net W) × (connect_established (greeting cb (took n)) true (connection_of k p world)
          ≡ ok net)
        × IsValid net
        × (net.conn.state ≡ connected)
        × (net.wire ++ contents net.conn.output_buffer ≡ codes "Hello World")
  unfolding connection_of call default_connection_callback
  established {W} cb n p world v unused opened free quiet part =
      let (p', (e, ready, on)) = opened_lem (greeting cb (took n)) p world v unused opened free in
      let s : Net W = with_state connected (record (connection_of k p world) { poller = p' }) in
      let (net, sent, kept) =
        greets cb n s ready refl quiet part (omega (arith, size_of_new, writer_of_new)) in
      (
        net,
        e ∙ sent,
        kept.valid,
        kept.state_of,
        kept.stream ∙ ap (λ t. t ++ codes "Hello World") contents-new,
      )
