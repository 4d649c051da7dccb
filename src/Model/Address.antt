-- ===== src/Model/Address.antt =====
-- SourceClient::ipString and Server::address of core/model/model.cpp.
use amule_remote_qt.Base.{ℕ, zero, suc, ◌+◌, ◌*◌, ◌/◌, ◌%◌, ◌^◌, ◌≡◌, refl, [], ◌∷◌, ◌++◌, arith}
use amule_remote_qt.Ec.Bytes.{Bytes, Text, Qt, IsByte, from_big_endian}
use amule_remote_qt.Model.Types.{SourceClient, Server}

-- `%1.%2.%3.%4` of four numbers.
abbrev pub dotted : Qt → ℕ → ℕ → ℕ → ℕ → Text
dotted qt a b c d =
    qt.decimal a ++ b'.' ∷ (qt.decimal b ++ b'.' ∷ (qt.decimal c ++ b'.' ∷ qt.decimal d))

unfoldable pub ip_string : Qt → SourceClient → Text
ip_string qt s =
    dotted qt (s.user_ip / 2 ^ 24 % 256) (s.user_ip / 2 ^ 16 % 256) (s.user_ip / 2 ^ 8 % 256)
      (s.user_ip % 256)

-- `ip[n]` of an array of four bytes.
abbrev pub byte_at : ℕ → Bytes → ℕ
byte_at n [] = 0
byte_at zero (b ∷ bs) = b
byte_at (suc n) (b ∷ bs) = byte_at n bs

unfoldable pub address : Qt → Server → Text
address qt s = dotted qt (byte_at 0 s.ip) (byte_at 1 s.ip) (byte_at 2 s.ip) (byte_at 3 s.ip)

parts :
    (a b c d : ℕ)
    → IsByte a
    → IsByte b
    → IsByte c
    → IsByte d
    → let n = (((0 + a) * 256 + b) * 256 + c) * 256 + d in
      (n / 2 ^ 24 % 256 ≡ a) × (n / 2 ^ 16 % 256 ≡ b) × (n / 2 ^ 8 % 256 ≡ c) × (n % 256 ≡ d)
parts a b c d ha hb hc hd = (omega arith, omega arith, omega arith, omega arith)

-- A source whose address is the big-endian number of four bytes is shown like a server at these
-- bytes.
pub ip_string-address :
    (qt : Qt) (source : SourceClient) (server : Server) (a b c d : ℕ)
    → IsByte a
    → IsByte b
    → IsByte c
    → IsByte d
    → ip_string qt (record source { user_ip = from_big_endian (a ∷ b ∷ c ∷ d ∷ []) })
      ≡ address qt (record server { ip = a ∷ b ∷ c ∷ d ∷ [] })
unfolding ip_string address from_big_endian
ip_string-address qt source server a b c d ha hb hc hd =
    let (first, second, third, fourth) = parts a b c d ha hb hc hd in
    rw (first, second, third, fourth) refl
