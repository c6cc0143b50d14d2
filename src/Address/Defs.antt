-- ===== src/Address/Defs.antt =====
-- src/net/InetAddress.h and InetAddress.cpp: the class InetAddress. Its union is the 28 bytes of a
-- sockaddr_in6, of which a sockaddr_in is the first 16, on a machine whose low byte comes first.
-- `pton` and `ntop` are inet_pton and inet_ntop, for IPv6 where the Boolean is true; `show` is what
-- "%d" writes. A field is compared as the bytes that it consists of.
use generic_server.Prelude.{
  ℕ, zero, suc, ◌+◌, ◌-◌, ◌*◌, ◌/◌, ◌%◌, Bool, true, false, not, ◌&&◌, Option, none, some, List, [],
  ◌∷◌, ◌++◌, length, take, replicate, ◌==◌, if◌then◌else◌, ◌>>=◌,
}
use generic_server.Prelude.Int.{pos}
use generic_server.Prelude.Memory.{slice, blit, copy_out}

abbrev pub InetAddress : Type 0
InetAddress = List ℕ

abbrev pub addr_size : ℕ
addr_size = 28

abbrev pub family : InetAddress → List ℕ
family a = slice 0 2 a

abbrev pub port_bytes : InetAddress → List ℕ
port_bytes a = slice 2 2 a

-- `sin_addr`, and `sin6_addr`.
abbrev pub addr4 : InetAddress → List ℕ
addr4 a = slice 4 4 a

abbrev pub addr6 : InetAddress → List ℕ
addr6 a = slice 8 16 a

abbrev pub af_inet : List ℕ
af_inet = 2 ∷ 0 ∷ []

abbrev pub af_inet6 : List ℕ
af_inet6 = 10 ∷ 0 ∷ []

unfoldable pub same : List ℕ → List ℕ → Bool
same [] [] = true
same [] (y ∷ ys) = false
same (x ∷ xs) [] = false
same (x ∷ xs) (y ∷ ys) = x == y && same xs ys

-- The two bytes that the network sends, for the low 16 bits.
abbrev pub htons : ℕ → List ℕ
htons port = port / 256 % 256 ∷ port % 256 ∷ []

unfoldable pub ntohs : List ℕ → ℕ
ntohs [] = 0
ntohs (hi ∷ []) = hi
ntohs (hi ∷ lo ∷ rest) = hi * 256 + lo

abbrev pub zeros : ℕ → List ℕ
zeros n = replicate n 0

abbrev pub is_inet : InetAddress → Bool
is_inet a = same (family a) af_inet

abbrev pub is_ipv6 : InetAddress → Bool
is_ipv6 a = same (family a) af_inet6

-- InetAddress(addr).
unfoldable pub from_sockaddr : List ℕ → InetAddress
unfolding blit
from_sockaddr addr =
    if is_ipv6 addr
    then blit 0 (take 28 addr) (zeros 28)
    else if is_inet addr
    then blit 0 (take 16 addr) (zeros 28)
    else zeros 28

-- InetAddress(port, ipv6); `a` is what the memory held.
unfoldable pub any : ℕ → Bool → List ℕ → InetAddress
unfolding blit
any port true a = blit 2 (htons port) (blit 8 (zeros 16) (blit 0 af_inet6 (blit 0 (zeros 28) a)))
any port false a = blit 2 (htons port) (blit 4 (zeros 4) (blit 0 af_inet (blit 0 (zeros 16) a)))

-- What inet_pton writes; where the text is invalid, nothing.
abbrev pub write_addr : ℕ → Option (List ℕ) → InetAddress → InetAddress
write_addr i none a = a
write_addr i (some bytes) a = blit i bytes a

abbrev pub text_to_ip4 : (Bool → List ℕ → Option (List ℕ)) → List ℕ → ℕ → InetAddress → InetAddress
text_to_ip4 pton ip port a =
    write_addr 4 (pton false ip) (blit 2 (htons port) (blit 0 af_inet (blit 0 (zeros 16) a)))

abbrev pub text_to_ip6 : (Bool → List ℕ → Option (List ℕ)) → List ℕ → ℕ → InetAddress → InetAddress
text_to_ip6 pton ip port a =
    write_addr 8 (pton true ip) (blit 2 (htons port) (blit 0 af_inet6 (blit 0 (zeros 28) a)))

unfoldable pub set_addr :
    (Bool → List ℕ → Option (List ℕ)) → List ℕ → ℕ → Bool → InetAddress → InetAddress
set_addr pton ip port ipv6 a =
    if ipv6 then text_to_ip6 pton ip port a else text_to_ip4 pton ip port a

-- operator==. `memcmp` gives 0 where the bytes are the same.
unfoldable pub equals : InetAddress → InetAddress → Bool
equals a b =
    if is_inet a
    then same (family a) (family b)
      && (same (port_bytes a) (port_bytes b) && same (addr4 a) (addr4 b))
    else same (family a) (family b)
      && (same (port_bytes a) (port_bytes b) && not (same (addr6 a) (addr6 b)))

-- The loop of hash reads `n` words of 8 bytes; what it computes from them is thrown away.
unfoldable pub hash_loop : ℕ → ℕ → ℕ → InetAddress → Option ℕ
hash_loop h i zero a = some h
hash_loop h i (suc n) a = do word ← copy_out i (pos 8) a; hash_loop h (i + 8) n a

unfoldable pub hash : InetAddress → Option ℕ
hash a = if is_inet a then hash_loop 4294967295 4 (4 / 4) a else hash_loop 4294967295 8 (16 / 4) a

-- ipString; for another family the buffer stays as it was made, and reading it is a fault.
unfoldable pub ip_string : (Bool → List ℕ → List ℕ) → InetAddress → Option (List ℕ)
ip_string ntop a =
    if is_inet a
    then some (ntop false (addr4 a))
    else if is_ipv6 a
    then some (ntop true (addr6 a))
    else none

-- toString, in a buffer of 64 bytes.
unfoldable pub to_string : (Bool → List ℕ → List ℕ) → (ℕ → List ℕ) → InetAddress → Option (List ℕ)
to_string ntop show a = do
  s ← ip_string ntop a
  some (s ++ take (63 - length s) (b':' ∷ show (ntohs (port_bytes a))))
