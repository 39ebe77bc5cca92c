-- ===== src/TcpServer/Names.antt =====
-- The names of the connections differ.
use summer.Prelude.{ℕ, ◌≤◌, ◌<◌, ◌≡◌, sym, ◌∙◌, arith, [], ◌∷◌, ◌++◌, length, take, length-append}
use summer.Decimal.{Text, decimal, length-decimal, decimal-injective, take_all, cancel}
use summer.TcpServer.{conn_name}

-- What is printed of a number below 10 ^ 8 fits, with the longest address and port.
whole :
    (host_port : Text) (id : ℕ)
    → length host_port ≤ 21
    → id < 100000000
    → take 31 (b':' ∷ (host_port ++ (b'-' ∷ decimal id)))
      ≡ b':' ∷ (host_port ++ (b'-' ∷ decimal id))
whole host_port id h lt = take_all 31 (b':' ∷ (host_port ++ (b'-' ∷ decimal id))) (
    omega
      (arith, length-append host_port (b'-' ∷ decimal id), length-decimal 8 id lt (omega arith)))

-- Connections of one server, with numbers below 10 ^ 8 and an address of up to 21 characters, have
-- the same name only if they have the same number.
pub conn_name-injective :
    (name host_port : Text) (m n : ℕ)
    → length host_port ≤ 21
    → m < 100000000
    → n < 100000000
    → conn_name name host_port m ≡ conn_name name host_port n
    → m ≡ n
unfolding conn_name
conn_name-injective name host_port m n h lt_m lt_n e = decimal-injective m n (
    cancel (b'-' ∷ []) (decimal m) (decimal n) (
      cancel (b':' ∷ host_port) (b'-' ∷ decimal m) (b'-' ∷ decimal n) (
        sym (whole host_port m h lt_m)
        ∙ cancel name (take 31 (b':' ∷ (host_port ++ (b'-' ∷ decimal m))))
            (take 31 (b':' ∷ (host_port ++ (b'-' ∷ decimal n)))) e
        ∙ whole host_port n h lt_n)))
