-- ===== src/Address/Hash.antt =====
-- InetAddress::hash (src/net/InetAddress.cpp).
use generic_server.Prelude.{◌≡◌, refl, true, false, none, some, length}
use generic_server.Prelude.Memory.{copy_out}
use generic_server.Address.Defs.{InetAddress, addr_size, is_inet, hash, hash_loop}

-- For an address that is not of the IPv4 family, hash reads four words of 8 bytes from the 16 bytes
-- of the address, past the end of the 28 bytes of the object: a fault.
pub hash-none : (a : InetAddress) → length a ≡ addr_size → is_inet a ≡ false → hash a ≡ none
unfolding hash hash_loop copy_out
hash-none a s e = rw (e, s) refl

-- For IPv4 it is the same number for all addresses.
pub hash_v4 : (a : InetAddress) → length a ≡ addr_size → is_inet a ≡ true → hash a ≡ some 4294967295
unfolding hash hash_loop copy_out
hash_v4 a s e = rw (e, s) refl
