-- ===== src/TcpServer/Names.antt =====
-- The names of connections.
use cevent_loop.Prelude.{
  ℕ, ◌≤◌, ◌<◌, ◌≡◌, refl, sym, ap, ◌∙◌, [], ◌∷◌, ◌++◌, arith, length, length-append, drop,
}
use cevent_loop.Prelude.Segments.{take_of_length-le, drop-append-exact}
use cevent_loop.Prelude.Text.{Text, decimal}
use cevent_loop.Prelude.Decimal.{decimal-injective, length-decimal}
use cevent_loop.TcpServer.{conn_name}

pub append-cancel : (xs ys zs : Text) → xs ++ ys ≡ xs ++ zs → ys ≡ zs
append-cancel xs ys zs e =
    sym (drop-append-exact (length xs) xs ys refl)
    ∙ ap (drop (length xs)) e
    ∙ drop-append-exact (length xs) xs zs refl

-- What the format makes, before it is cut.
abbrev pub suffix : Text → ℕ → Text
suffix ip_port id = (b'-' ∷ []) ++ (ip_port ++ (b'#' ∷ decimal id))

conn_name_whole :
    (server ip_port : Text) (id : ℕ)
    → length ip_port ≤ 51
    → id < 10_000_000_000
    → conn_name server ip_port id ≡ server ++ suffix ip_port id
unfolding conn_name
conn_name_whole server ip_port id short small =
    ap (λ t. server ++ t)
      (take_of_length-le 63 (suffix ip_port id)
        (omega (arith, length-decimal id small, length-append ip_port (b'#' ∷ decimal id))))

-- No two numbers of an `int` give the same name, if the text of the address is at most 51 bytes long, as
-- the longest one for IPv6 and a port is.
pub conn_name-injective :
    (server ip_port : Text) (m n : ℕ)
    → length ip_port ≤ 51
    → m < 10_000_000_000
    → n < 10_000_000_000
    → conn_name server ip_port m ≡ conn_name server ip_port n
    → m ≡ n
conn_name-injective server ip_port m n short hm hn e =
    let whole : server ++ suffix ip_port m ≡ server ++ suffix ip_port n =
      sym (conn_name_whole server ip_port m short hm)
      ∙ e
      ∙ conn_name_whole server ip_port n short hn in
    let behind = append-cancel server _ _ whole in
    let numbers = append-cancel ip_port _ _ (append-cancel (b'-' ∷ []) _ _ behind) in
    decimal-injective m n (append-cancel (b'#' ∷ []) _ _ numbers)
