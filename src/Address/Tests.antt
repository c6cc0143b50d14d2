-- ===== src/Address/Tests.antt =====
-- src/net/InetAddress.cpp at concrete inputs.
use generic_server.Prelude.{
  ℕ, ◌+◌, ◌/◌, ◌%◌, ◌≡◌, ◌↔◌, refl, Bool, true, false, Option, none, some, List, [], ◌∷◌, ◌++◌,
  replicate, if◌then◌else◌, arith,
}
use generic_server.Prelude.Memory.{blit}
use generic_server.Address.Defs.{
  InetAddress, any, equals, hash, same, set_addr, to_string, from_sockaddr,
}
use generic_server.Address.Equal.{Equal, equals-Equal}
use generic_server.Address.Text.{to_string-set_addr}
use generic_server.Address.Hash.{hash-none}

abbrev junk : List ℕ
junk = replicate 28 7

-- Port 80 of the IPv6 address ::, and of the IPv4 address 0.0.0.0.
abbrev colons : InetAddress
unfolding any blit
colons = any 80 true junk

abbrev zero_v4 : InetAddress
unfolding any blit
zero_v4 = any 80 false junk

not_itself : equals colons colons ≡ false
unfolding equals same any blit
not_itself = refl

v4_itself : equals zero_v4 zero_v4 ≡ true
unfolding equals same any blit
v4_itself = refl

from_itself : equals (from_sockaddr zero_v4) zero_v4 ≡ true
unfolding equals same any blit from_sockaddr
from_itself = refl

equals-Equal_example : (equals colons colons ≡ true) ↔ Equal colons colons
equals-Equal_example = equals-Equal colons colons

hash-none_example : hash colons ≡ none
unfolding any blit same
hash-none_example = hash-none colons refl refl

-- inet_pton and inet_ntop for the text ::1.
abbrev one : List ℕ
one = b':' ∷ b':' ∷ b'1' ∷ []

abbrev one_bytes : List ℕ
one_bytes = replicate 15 0 ++ 1 ∷ []

abbrev pton : Bool → List ℕ → Option (List ℕ)
unfolding same
pton ipv6 ip = if same ip one then some one_bytes else none

abbrev ntop : Bool → List ℕ → List ℕ
unfolding same
ntop ipv6 bytes = if same bytes one_bytes then one else b'?' ∷ []

-- Five digits.
abbrev show : ℕ → List ℕ
show n =
    (b'0' + n / 10000 % 10)
    ∷ (b'0' + n / 1000 % 10)
    ∷ (b'0' + n / 100 % 10)
    ∷ (b'0' + n / 10 % 10)
    ∷ (b'0' + n % 10)
    ∷ []

to_string-set_addr_example :
    to_string ntop show (set_addr pton one 8080 true junk) ≡ some (one ++ b':' ∷ show 8080)
unfolding same
to_string-set_addr_example =
    to_string-set_addr pton ntop show one 8080 true one_bytes junk refl refl refl refl (omega arith)
      (omega arith) (omega arith)
