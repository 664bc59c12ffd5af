-- ===== src/Echo/Exchange.antt =====
-- The exchange of an EchoServer and an EchoClient on their connections.
use cevent_loop.Prelude.{
  ℕ, zero, suc, ◌+◌, ◌^◌, ◌≤◌, ◌<◌, ◌≡◌, ◌≢◌, refl, sym, ap, ◌∙◌, Bool-cases, ◌⊎◌, inl, inr, true,
  false, some, [], ◌∷◌, ◌++◌, append-nil, append_assoc, if◌then◌else◌, length, drop, ok, ◌>>=◌,
  ◌==◌, arith,
}
use cevent_loop.Prelude.Segments.{drop-append-exact}
use cevent_loop.Prelude.Text.{Text, decimal}
use cevent_loop.Prelude.Decimal.{decimal-ne-nil, length-decimal_4}
use cevent_loop.Buffer.{stored}
use cevent_loop.TcpConnection.{Net, took, handle_read}
use cevent_loop.TcpConnection.Hooks.{no_callbacks, set_message_callback, set_close_callback}
use cevent_loop.TcpServer
use cevent_loop.TcpServer.Hosting.{Hosted, with_server, hooks}
use cevent_loop.TcpClient.{TcpClient, client_hooks}
use cevent_loop.Echo.{send_all, client_answer, server_on_message, client_on_message, first_message}
use cevent_loop.Echo.Dialogue.{server_lem, client_lem}
use cevent_loop.Echo.Wiring.{echo_message, echo_server_hooks, echo_client_hooks, exchange}
use cevent_loop.Echo.Whole.{Idle, holding, after, hears_lem, takes_lem, after-Idle, sends_whole}

-- The digits of so many numbers from one on.
abbrev pub count_from : ℕ → ℕ → Text
count_from zero k = []
count_from (suc j) k = decimal k ++ count_from j (suc k)

cons_of : (text : Text) → text ≢ [] → (x : ℕ) × (xs : Text) × (text ≡ x ∷ xs)
cons_of [] n = absurd (n refl)
cons_of (x ∷ xs) n = (x, xs, refl)

whole_reply :
    {W : Type 0} (text reply : Text) (s : Net W)
    → Idle s
    → length reply < 2 ^ 63
    → send_all no_callbacks true (took (length reply)) reply (after text s)
      ≡ ok (record (after text s) { wire = s.wire ++ reply })
unfolding no_callbacks
whole_reply text reply s i small =
    sends_whole no_callbacks reply (after text s) refl i.up i.nothing_kept small

-- The client sends the next number.
client_hears :
    (time k : ℕ) (text : Text) (s : Net TcpClient)
    → text ≡ decimal k
    → k < 1000
    → Idle s
    → length text ≤ 4
    → length (decimal (suc k)) ≤ 4
    → handle_read (echo_client_hooks (took (length (decimal (suc k))))) true time (stored text) s
      ≡ ok (record (after text s) { wire = s.wire ++ decimal (suc k) })
unfolding echo_client_hooks client_hooks set_message_callback set_close_callback client_on_message
client_hears time k text s e low i short short' =
    let next : client_answer text ≡ ok (decimal (suc k)) =
      ap client_answer e ∙ client_lem k (omega arith) in
    let filled : text ≢ [] = λ n. decimal-ne-nil k (sym e ∙ n) in
    hears_lem (echo_client_hooks (took (length (decimal (suc k))))) time text s i filled short
    ∙ (rw
        (
          takes_lem text s i short,
          ◌>>=◌,
          next,
          whole_reply text (decimal (suc k)) s i (omega arith),
        )
        refl)

module _ {U : Type 0} (c time : ℕ) where
  server_turn :
      (k : ℕ) (s : Net (Hosted U))
      → k ≤ 1000
      → Idle s
      → length (decimal k) ≤ 4
      → (((k == 1000) ≡ true) ⊎ ((k == 1000) ≡ false))
      → echo_message (took (length (decimal k))) time (holding (decimal k) s) ≡ (
          if k == 1000
          then ok (with_server (TcpServer.stop s.world.server) (after (decimal k) s))
          else ok (record (after (decimal k) s) { wire = s.wire ++ decimal k }))
  unfolding echo_message server_on_message
  server_turn k s low i short (inl last) =
      rw (takes_lem (decimal k) s i short, ◌>>=◌, server_lem k (omega arith), last) refl
  server_turn k s low i short (inr other) =
      rw
        (
          takes_lem (decimal k) s i short,
          ◌>>=◌,
          server_lem k (omega arith),
          other,
          whole_reply (decimal k) (decimal k) s i (omega arith),
        )
        refl

  -- The server sends a number back that is not 1000, and stops at 1000.
  server_hears :
      (k : ℕ) (s : Net (Hosted U))
      → k ≤ 1000
      → Idle s
      → length (decimal k) ≤ 4
      → handle_read
          (echo_server_hooks c (took (length (decimal k))))
          true
          time
          (stored (decimal k))
          s
        ≡ (if k == 1000
            then ok (with_server (TcpServer.stop s.world.server) (after (decimal k) s))
            else ok (record (after (decimal k) s) { wire = s.wire ++ decimal k }))
  unfolding echo_server_hooks hooks echo_message set_message_callback set_close_callback
  server_hears k s low i short =
      hears_lem (echo_server_hooks c (took (length (decimal k)))) time (decimal k) s i
        (decimal-ne-nil k) short
      ∙ server_turn k s low i short (Bool-cases (k == 1000))

  last_message :
      (fuel : ℕ) (message : Text) (s s' : Net (Hosted U)) (t : Net TcpClient)
      → handle_read (echo_server_hooks c (took (length message))) true time (stored message) s
        ≡ ok s'
      → drop (length s.wire) s'.wire ≡ []
      → exchange c time (suc fuel) message s t ≡ ok (some (s', t))
  unfolding exchange
  last_message fuel message s s' t e d = rw (e, ◌>>=◌, d) refl

  goes_on :
      (fuel x : ℕ) (message xs text : Text) (s s' : Net (Hosted U)) (t t' : Net TcpClient)
      → handle_read (echo_server_hooks c (took (length message))) true time (stored message) s
        ≡ ok s'
      → drop (length s.wire) s'.wire ≡ x ∷ xs
      → client_answer (x ∷ xs) ≡ ok text
      → handle_read (echo_client_hooks (took (length text))) true time (stored (x ∷ xs)) t ≡ ok t'
      → exchange c time (suc fuel) message s t
        ≡ exchange c time fuel (drop (length t.wire) t'.wire) s' t'
  unfolding exchange
  goes_on fuel x message xs text s s' t t' e d a f = rw (e, ◌>>=◌, d, a, f) refl

  -- What `j` numbers from `k` on leave: the server has sent them back and stopped, the client has sent
  -- the ones behind them.
  pub record Exchanged (j k : ℕ) (s s' : Net (Hosted U)) (t t' : Net TcpClient) : Type 0 where
    pub echoed : s'.wire ≡ s.wire ++ count_from j k
    pub counted : t'.wire ≡ t.wire ++ count_from j (suc k)
    pub stopped : s'.world ≡ record s.world { server = TcpServer.stop s.world.server }
    pub client_on : t'.world ≡ t.world

  counts :
      (j k fuel : ℕ) (s : Net (Hosted U)) (t : Net TcpClient)
      → k + j ≡ 1000
      → j < fuel
      → Idle s
      → Idle t
      → (s' : Net (Hosted U)) × (t' : Net TcpClient) × (exchange c time fuel (decimal k) s t
          ≡ ok (some (s', t')))
        × Exchanged j k s s' t t'
  counts j k zero s t e l i i' = absurd (omega arith)
  counts zero k (suc fuel) s t e l i i' =
      let last : (k == 1000) ≡ true = ground arith in
      let short : length (decimal k) ≤ 4 = length-decimal_4 k (omega arith) in
      let s' : Net (Hosted U) = with_server (TcpServer.stop s.world.server) (after (decimal k) s) in
      (
        s',
        t,
        last_message fuel (decimal k) s s' t
            (server_hears k s (omega arith) i short ∙ (rw last refl))
            (ap (drop (length s.wire)) (sym (append-nil s.wire))
              ∙ drop-append-exact (length s.wire) s.wire [] refl),
        record {
          echoed = sym (append-nil s.wire);
          counted = sym (append-nil t.wire);
          stopped = refl;
          client_on = refl;
        },
      )
  counts (suc j) k (suc fuel) s t e l i i' =
      let other : (k == 1000) ≡ false = ground arith in
      let short : length (decimal k) ≤ 4 = length-decimal_4 k (omega arith) in
      let short' : length (decimal (suc k)) ≤ 4 = length-decimal_4 (suc k) (omega arith) in
      let (x, xs, f) = cons_of (decimal k) (decimal-ne-nil k) in
      let s₁ : Net (Hosted U) = record (after (decimal k) s) { wire = s.wire ++ decimal k } in
      let t₁ : Net TcpClient = record (after (x ∷ xs) t) { wire = t.wire ++ decimal (suc k) } in
      let reply = drop-append-exact (length s.wire) s.wire (decimal k) refl ∙ f in
      let few : length (x ∷ xs) ≤ 4 = rw f at short in
      let one =
        goes_on fuel x (decimal k) xs (decimal (suc k)) s s₁ t t₁
          (server_hears k s (omega arith) i short ∙ (rw other refl)) reply
          (ap client_answer (sym f) ∙ client_lem k (omega arith))
          (client_hears time k (x ∷ xs) t (sym f) (omega arith) i' few short') in
      let next = drop-append-exact (length t.wire) t.wire (decimal (suc k)) refl in
      let (s', t', g, h) =
        counts j (suc k) fuel s₁ t₁ (omega arith) (omega arith)
          (after-Idle (decimal k) (s.wire ++ decimal k) s.world s i short)
          (after-Idle (x ∷ xs) (t.wire ++ decimal (suc k)) t.world t i' few) in
      (
        s',
        t',
        one ∙ ap (λ m. exchange c time fuel m s₁ t₁) next ∙ g,
        record {
          echoed = h.echoed ∙ append_assoc s.wire (decimal k) (count_from j (suc k));
          counted = h.counted ∙ append_assoc t.wire (decimal (suc k)) (count_from j (suc (suc k)));
          stopped = h.stopped;
          client_on = h.client_on;
        },
      )

  -- An EchoServer and an EchoClient on connections that are up with nothing to read and nothing kept,
  -- over a network that brings each message whole, with writes that take everything: from the client's
  -- first message the exchange ends without a fault. The server has sent back the numbers from 0 to 999
  -- and then stopped itself, and the client has sent those from 1 to 1000. Any fuel above a thousand is
  -- enough.
  pub exchange_lem :
      (fuel : ℕ) (s : Net (Hosted U)) (t : Net TcpClient)
      → 1000 < fuel
      → Idle s
      → Idle t
      → (s' : Net (Hosted U)) × (t' : Net TcpClient) × (exchange c time fuel first_message s t
          ≡ ok (some (s', t')))
        × Exchanged 1000 0 s s' t t'
  unfolding decimal
  exchange_lem fuel s t l i i' = counts 1000 0 fuel s t refl l i i'
