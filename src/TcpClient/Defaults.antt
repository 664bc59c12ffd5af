-- ===== src/TcpClient/Defaults.antt =====
-- CEventLoop/TcpClient.cc: a connection whose user leaves the callbacks of the client as they are.
use cevent_loop.Prelude.{
  ℕ, ◌+◌, ◌-◌, ◌≤◌, ◌<◌, ◌≡◌, refl, sym, ap, ◌∙◌, true, Option, none, some, List, [], ◌∷◌, ◌++◌,
  arith, length, length-append, append-nil, append_assoc, leb, inl, inr, Bool-cases, Exec, ok,
  fault, ◌>>=◌, bad_function_call, out_of_bounds,
}
use cevent_loop.Prelude.Segments.{length-overwrite}
use cevent_loop.Buffer
use cevent_loop.Buffer.{Buffer, stored, read_fd, contents}
use cevent_loop.Buffer.Valid
use cevent_loop.Buffer.Valid.{extended, extended-IsValid}
use cevent_loop.Buffer.Queue.{contents-extended}
use cevent_loop.Buffer.Receive.{read_fd_cases}
use cevent_loop.Poller.{Poller}
use cevent_loop.TcpConnection.{
  Net, Written, disconnected, invoke, with_state, silence, handle_read, handle_close, received,
  send_buffer,
}
use cevent_loop.TcpConnection.Closing.{Attached, silence_lem}
use cevent_loop.TcpConnection.Hooks.{
  no_callbacks, set_connection_callback, set_message_callback, set_close_callback,
}
use cevent_loop.TcpClient.{
  default_hooks, client_hooks, default_connection_callback, default_message_callback,
}
use cevent_loop.TcpClient.Greeting.{callback_sends}

invoke_cases :
    {W : Type 0} (f : Option (Net W → Exec (Net W))) (s : Net W)
    → invoke f s ≡ elim f [ none ↦ fault bad_function_call | some g ↦ g s ]
invoke_cases none s = refl
invoke_cases (some g) s = refl

abbrev pub bytes_of : List (ℕ × List ℕ) → List ℕ
bytes_of [] = []
bytes_of ((x, xs) ∷ ps) = (x ∷ xs) ++ bytes_of ps

-- The room behind what is kept.
abbrev pub room : Buffer → ℕ
room b = length b.buf - b.writer_index

abbrev pub with_input : {W : Type 0} → Buffer → Net W → Net W
with_input b s = record s { conn = record s.conn { input_buffer = b } }

module _ {W : Type 0} (w : Written) (close : Option (Net W → Exec (Net W))) where
  -- The connection when its input has ended and its channel asks for nothing.
  abbrev pub ended : Poller → Net W → Net W
  ended p s = record s {
    conn = record s.conn { state = disconnected; input_buffer = extended [] s.conn.input_buffer };
    poller = p;
  }

  says_nothing :
      (s : Net W)
      → s.conn.state ≡ disconnected
      → default_connection_callback no_callbacks true w s ≡ ok s
  unfolding send_buffer
  says_nothing s down = callback_sends no_callbacks w s ∙ (rw down refl)

  ends_lem :
      (time : ℕ) (s t : Net W)
      → read_fd (stored []) s.conn.input_buffer ≡ ok (stored [], extended [] s.conn.input_buffer)
      → silence (
          with_state disconnected
            (record s { conn = record s.conn { input_buffer = extended [] s.conn.input_buffer } }))
        ≡ ok t
      → t.conn.state ≡ disconnected
      → handle_read (default_hooks w close) true time (stored []) s ≡ invoke close t
  unfolding handle_read received handle_close default_hooks client_hooks set_connection_callback
      set_message_callback set_close_callback
  ends_lem time s t d e down = rw (d, e, says_nothing t down) refl

  -- The peer closes a connection of a client whose user left the callbacks of the client as they are, or
  -- set one for the end. The connection goes down, its channel stays with the poller, and nothing more is
  -- sent; then the callback that was set is called, and without one the call of an empty
  -- `std::function` throws.
  pub hangs_up_lem :
      (time : ℕ) (s : Net W)
      → Attached s
      → cevent_loop.Buffer.Valid.IsValid s.conn.input_buffer
      → (p : Poller) × (handle_read (default_hooks w close) true time (stored []) s
          ≡ elim close [ none ↦ fault bad_function_call | some f ↦ f (ended p s) ])
        × Attached (ended p s)
  hangs_up_lem time s a v =
      let b = extended [] s.conn.input_buffer in
      let t : Net W =
        with_state disconnected (record s { conn = record s.conn { input_buffer = b } }) in
      let (p, e, a', d) = silence_lem t (record { poller = a.poller; registered = a.registered }) in
      let reads : read_fd (stored []) s.conn.input_buffer ≡ ok (stored [], b) =
        read_fd_cases [] v ∙ ground arith in
      (
        p,
        ends_lem time s (ended p s) reads e refl ∙ invoke_cases close (ended p s),
        record { poller = a'.poller; registered = a'.registered },
      )

  -- Reads that each store at least one byte.
  unfoldable pub reads : ℕ → List (ℕ × List ℕ) → Net W → Exec (Net W)
  unfolding handle_read default_hooks
  reads time [] s = ok s
  reads time ((x, xs) ∷ ps) s =
      handle_read (default_hooks w close) true time (stored (x ∷ xs)) s >>= reads time ps

  more_reads :
      (time x : ℕ) (xs : List ℕ) (ps : List (ℕ × List ℕ)) (b : Buffer) (s : Net W)
      → read_fd (stored (x ∷ xs)) s.conn.input_buffer ≡ ok (stored (x ∷ xs), b)
      → reads time ((x, xs) ∷ ps) s ≡ reads time ps (with_input b s)
  unfolding reads handle_read received default_hooks client_hooks default_message_callback
      set_connection_callback set_message_callback set_close_callback
  more_reads time x xs ps b s e = rw e refl

  bad_read :
      (time x : ℕ) (xs : List ℕ) (ps : List (ℕ × List ℕ)) (s : Net W)
      → read_fd (stored (x ∷ xs)) s.conn.input_buffer ≡ fault out_of_bounds
      → reads time ((x, xs) ∷ ps) s ≡ fault out_of_bounds
  unfolding reads handle_read
  bad_read time x xs ps s e = rw e refl

  -- What comes to a client whose user left the callbacks as they are stays in the input buffer: as long
  -- as it all fits in the vector, every read goes through and the buffer holds it in order; and when the
  -- vector is full the read that has more is a write past its end.
  pub piles_up_lem :
      (time : ℕ) (ps : List (ℕ × List ℕ)) (s : Net W)
      → cevent_loop.Buffer.Valid.IsValid s.conn.input_buffer
      → (length (bytes_of ps) ≤ room s.conn.input_buffer
          → (b : Buffer) × (reads time ps s ≡ ok (with_input b s))
            × cevent_loop.Buffer.Valid.IsValid b
            × (contents b ≡ contents s.conn.input_buffer ++ bytes_of ps))
        × (room s.conn.input_buffer < length (bytes_of ps) → reads time ps s ≡ fault out_of_bounds)
  unfolding reads
  piles_up_lem time [] s v = (
    λ fits. (s.conn.input_buffer, refl, v, sym (append-nil (contents s.conn.input_buffer))),
    λ over. absurd (omega arith),
  )
  piles_up_lem time ((x, xs) ∷ ps) s v =
      let old = s.conn.input_buffer in
      let n = length (x ∷ xs) in
      let b = extended (x ∷ xs) old in
      elim (Bool-cases (leb n (room old))) [
        | inl fits ↦
            let inside : old.writer_index + n ≤ length old.buf = ground (arith, v.within) in
            let size = length-overwrite old.buf old.writer_index (x ∷ xs) inside in
            let first = more_reads time x xs ps b s (read_fd_cases (x ∷ xs) v ∙ (rw fits refl)) in
            let (all, over) =
              piles_up_lem time ps (with_input b s) (extended-IsValid (x ∷ xs) v inside) in
            let total = length-append (x ∷ xs) (bytes_of ps) in
            (
              λ h.
                  let (b', e, v', c) = all (omega (arith, size, total, h)) in
                  (
                    b',
                    first ∙ e,
                    v',
                    c
                        ∙ ap (λ ys. ys ++ bytes_of ps) (contents-extended (x ∷ xs) v inside)
                        ∙ append_assoc (contents old) (x ∷ xs) (bytes_of ps),
                  ),
              λ h. first ∙ over (omega (arith, size, total, h)),
            )
        | inr full ↦
            let total = length-append (x ∷ xs) (bytes_of ps) in
            (
              λ h. absurd (ground (arith, total, h, full)),
              λ h. bad_read time x xs ps s (read_fd_cases (x ∷ xs) v ∙ (rw full refl)),
            )
      ]
