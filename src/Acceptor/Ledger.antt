-- ===== src/Acceptor/Ledger.antt =====
-- Where the descriptors of an acceptor are.
use cevent_loop.Prelude.{
  ℕ, ◌+◌, ◌≡◌, refl, true, Bool-cases, inl, inr, Option, none, some, List, [], ◌∷◌, arith,
  if◌then◌else◌, Exec, ok, ◌>>=◌,
}
use cevent_loop.Prelude.Int.{ℤ, is_negative, same}
use cevent_loop.Acceptor.{Acceptor, Arrival, handle_read, deliver, swap_idle}

-- How often a descriptor stands in a list.
unfoldable pub one : ℤ → ℤ → ℕ
one fd x = if same fd x then 1 else 0

abbrev pub count : ℤ → List ℤ → ℕ
count fd [] = 0
count fd (x ∷ xs) = one fd x + count fd xs

module _ {W : Type 0} where
  -- Each result of a system call is closed, handed on, kept back or the listening socket, and one of
  -- these as often as it was a result.
  unfoldable pub Balanced : Acceptor W → Type 0
  Balanced s =
      (fd : ℤ)
      → count fd s.got
        ≡ one fd s.accept_socket + one fd s.idle_fd + count fd s.closed + count fd s.handed

  -- An empty function, or one that leaves the acceptor alone.
  abbrev pub Quiet : Option (ℤ → Acceptor W → Exec (Acceptor W)) → Type 0
  Quiet none = Unit
  Quiet (some f) = (fd : ℤ) (s : Acceptor W) → (w : W) × (f fd s ≡ ok (record s { world = w }))

  unfoldable pub run :
      Option (ℤ → Acceptor W → Exec (Acceptor W)) → List Arrival → Acceptor W → Exec (Acceptor W)
  unfolding handle_read
  run callback [] s = ok s
  run callback (a ∷ rest) s = handle_read callback true a s >>= run callback rest

  deliver-Balanced :
      (callback : Option (ℤ → Acceptor W → Exec (Acceptor W))) (fd : ℤ) (s : Acceptor W)
      → Quiet callback
      → Balanced s
      → (s' : Acceptor W) × (deliver callback fd s ≡ ok s') × Balanced s'
  unfolding deliver Balanced
  deliver-Balanced none fd s q b =
      (record s { got = fd ∷ s.got; closed = fd ∷ s.closed }, refl, λ x. omega (arith, b x))
  deliver-Balanced (some f) fd s q b =
      let s₁ : Acceptor W = record s { got = fd ∷ s.got; handed = fd ∷ s.handed } in
      let (w, e) = q fd s₁ in (record s₁ { world = w }, e, λ x. omega (arith, b x))

  pub swap_idle-Balanced : (a : Arrival) (s : Acceptor W) → Balanced s → Balanced (swap_idle a s)
  unfolding swap_idle Balanced
  swap_idle-Balanced a s b x = omega (arith, b x)

  handle_read-Balanced :
      (callback : Option (ℤ → Acceptor W → Exec (Acceptor W))) (a : Arrival) (s : Acceptor W)
      → Quiet callback
      → Balanced s
      → (s' : Acceptor W) × (handle_read callback true a s ≡ ok s') × Balanced s'
  unfolding handle_read
  handle_read-Balanced callback a s q b = elim (Bool-cases (is_negative a.connfd)) [
    | inr good ↦
        let (s', e, b') = deliver-Balanced callback a.connfd s q b in (s', rw (good, e) refl, b')
    | inl bad ↦ elim (Bool-cases a.emfile) [
      | inl full ↦ (swap_idle a s, rw (bad, full) refl, swap_idle-Balanced a s b)
      | inr other ↦ (s, rw (bad, other) refl, b)
    ]
  ]

  pub then_run :
      (callback : Option (ℤ → Acceptor W → Exec (Acceptor W))) (rest : List Arrival)
      (m : Exec (Acceptor W)) (t u : Acceptor W)
      → m ≡ ok t
      → run callback rest t ≡ ok u
      → (m >>= run callback rest) ≡ ok u
  then_run callback rest m t u e f = rw (e, f) refl

  -- Whatever arrives, in whatever order, with EMFILE or not, `handleRead` goes through each time, and
  -- keeps the books: as often as a number was the result of `socket`, `accept` or `open`, it is the
  -- listening socket, the descriptor kept back, one that was closed, or one that was handed on. The
  -- callback is empty or leaves the acceptor alone.
  pub run-Balanced :
      (callback : Option (ℤ → Acceptor W → Exec (Acceptor W))) (arrivals : List Arrival)
      (s : Acceptor W)
      → Quiet callback
      → Balanced s
      → (s' : Acceptor W) × (run callback arrivals s ≡ ok s') × Balanced s'
  unfolding run
  run-Balanced callback [] s q b = (s, refl, b)
  run-Balanced callback (a ∷ rest) s q b =
      let (t, e, b') = handle_read-Balanced callback a s q b in
      let (u, f, b'') = run-Balanced callback rest t q b' in
      (u, then_run callback rest _ t u e f, b'')
