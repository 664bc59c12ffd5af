-- ===== src/Echo/Dialogue.antt =====
-- What the two `onMessage` answer to the digits of a number.
use cevent_loop.Prelude.{
  ℕ, suc, ◌≤◌, ◌<◌, ◌≡◌, refl, ap, ◌∙◌, true, false, none, some, arith, leb, ◌==◌, if◌then◌else◌,
  ok, ◌>>=◌,
}
use cevent_loop.Prelude.Int.{pos, same}
use cevent_loop.Prelude.Text.{decimal, print_int}
use cevent_loop.Prelude.Decimal.{atoi-decimal}
use cevent_loop.Echo.{as_int, read_int, increment, server_answer, client_answer}

read_int-decimal : (n : ℕ) → n ≤ 2147483647 → read_int (decimal n) ≡ ok (pos n)
unfolding read_int as_int
read_int-decimal n h =
    let fits : leb n 2147483647 ≡ true = ground arith in ap as_int (atoi-decimal n) ∙ (rw fits refl)

pub server_lem :
    (n : ℕ)
    → n ≤ 2147483647
    → server_answer (decimal n) ≡ ok (if n == 1000 then none else some (decimal n))
unfolding server_answer same
server_lem n h = rw (read_int-decimal n h) refl

pub client_lem : (n : ℕ) → n < 2147483647 → client_answer (decimal n) ≡ ok (decimal (suc n))
unfolding client_answer increment print_int
client_lem n h =
    let more : (n == 2147483647) ≡ false = ground arith in
    rw (read_int-decimal n (omega arith), ◌>>=◌, more) refl
