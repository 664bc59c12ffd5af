-- ===== src/TcpClient/Names.antt =====
-- When the names of a client's connections differ.
use cevent_loop.Prelude.{
  ℕ, ◌≤◌, ◌<◌, ◌≡◌, sym, ap, ◌∙◌, [], ◌∷◌, ◌++◌, arith, length, length-append, take,
}
use cevent_loop.Prelude.Segments.{take_of_length-le, take-append-le}
use cevent_loop.Prelude.Text.{Text, decimal}
use cevent_loop.Prelude.Decimal.{decimal-injective, length-decimal_9}
use cevent_loop.TcpServer.Names.{append-cancel}
use cevent_loop.TcpClient.{conn_name}

whole :
    (client ip_port : Text) (id : ℕ)
    → length ip_port ≤ 21
    → id < 1_000_000_000
    → conn_name client ip_port id ≡ client ++ (ip_port ++ (b'#' ∷ decimal id))
unfolding conn_name
whole client ip_port id short small =
    ap (λ t. client ++ t)
      (take_of_length-le 31 (ip_port ++ (b'#' ∷ decimal id))
        (omega (arith, length-decimal_9 id small, length-append ip_port (b'#' ∷ decimal id))))

cut :
    (client ip_port : Text) (id : ℕ)
    → 31 ≤ length ip_port
    → conn_name client ip_port id ≡ client ++ take 31 ip_port
unfolding conn_name
cut client ip_port id long =
    ap (λ t. client ++ t) (take-append-le 31 ip_port (b'#' ∷ decimal id) long)

-- Where the text of the peer's address is at most 21 bytes long, as it is for IPv4, the names of the
-- first thousand million connections differ; where it is 31 bytes long or longer, as it is for most
-- addresses of IPv6, the buffer cuts the number off and all connections have the same name.
pub conn_name_lem :
    (client ip_port : Text) (m n : ℕ)
    → (length ip_port ≤ 21
        → m < 1_000_000_000
        → n < 1_000_000_000
        → conn_name client ip_port m ≡ conn_name client ip_port n
        → m ≡ n)
      × (31 ≤ length ip_port → conn_name client ip_port m ≡ conn_name client ip_port n)
conn_name_lem client ip_port m n = (
  λ short hm hn e.
      let same : client ++ (ip_port ++ (b'#' ∷ decimal m))
          ≡ client ++ (ip_port ++ (b'#' ∷ decimal n)) =
        sym (whole client ip_port m short hm) ∙ e ∙ whole client ip_port n short hn in
      decimal-injective m n
        (append-cancel (b'#' ∷ []) _ _ (append-cancel ip_port _ _ (append-cancel client _ _ same))),
  λ long. cut client ip_port m long ∙ sym (cut client ip_port n long),
)
