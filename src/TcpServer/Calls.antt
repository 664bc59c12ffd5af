-- ===== src/TcpServer/Calls.antt =====
-- The calls that a run of a server is made of.
use cevent_loop.Prelude.{ℕ, ◌+◌, ◌≤◌, ◌<◌, arith, true, List, [], ◌∷◌, Exec, ok, ◌>>=◌}
use cevent_loop.Prelude.Int.{ℤ}
use cevent_loop.TcpServer.{TcpServer, stop, new_connection, remove_connection_in_loop, run_first}

-- `newConnection` in the thread of the server's loop, `removeConnectionInLoop` and `stop` in any, and a
-- turn of a loop.
pub data Call : Type 0 where
  arrives : ℤ → Call
  closes turns : ℕ → Call
  stops : Call

unfoldable pub call : Call → TcpServer → Exec TcpServer
unfolding new_connection remove_connection_in_loop run_first stop
call (arrives fd) s = new_connection true fd s
call (closes c) s = ok (remove_connection_in_loop c s)
call (turns l) s = run_first l s
call stops s = ok (stop s)

unfoldable pub calls : List Call → TcpServer → Exec TcpServer
unfolding call
calls [] s = ok s
calls (e ∷ es) s = call e s >>= calls es

abbrev pub counted : Call → ℕ → ℕ
counted (arrives fd) n = n + 1
counted (closes c) n = n
counted (turns l) n = n
counted stops n = n

-- What the calls make of the next number.
abbrev pub number_after : List Call → ℕ → ℕ
number_after [] n = n
number_after (e ∷ es) n = number_after es (counted e n)

pub number_after-le : (es : List Call) (n : ℕ) → n ≤ number_after es n
number_after-le [] n = omega arith
number_after-le (arrives fd ∷ es) n = omega (arith, number_after-le es (n + 1))
number_after-le (closes c ∷ es) n = number_after-le es n
number_after-le (turns l ∷ es) n = number_after-le es n
number_after-le (stops ∷ es) n = number_after-le es n

-- With `n` connections made, only such as there are ask to be removed.
abbrev pub Known : List Call → ℕ → Type 0
Known [] n = Unit
Known (arrives fd ∷ es) n = Known es (n + 1)
Known (closes c ∷ es) n = (c < n) × Known es n
Known (turns l ∷ es) n = Known es n
Known (stops ∷ es) n = Known es n

pub Known-rest : (e : Call) (es : List Call) (n : ℕ) → Known (e ∷ es) n → Known es (counted e n)
Known-rest (arrives fd) es n k = k
Known-rest (closes c) es n (h, k) = k
Known-rest (turns l) es n k = k
Known-rest stops es n k = k
