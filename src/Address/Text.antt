-- ===== src/Address/Text.antt =====
-- InetAddress::setAddr and InetAddress::toString (src/net/InetAddress.cpp).
use generic_server.Prelude.{
  ℕ, ◌-◌, ◌<◌, ◌≤◌, ◌≡◌, refl, sym, ap, ◌∙◌, Bool, true, false, Option, some, List, ◌∷◌, ◌++◌,
  length, take_all, arith,
}
use generic_server.Prelude.Memory.{slice}
use generic_server.Address.Defs.{
  InetAddress, addr_size, family, port_bytes, addr4, addr6, af_inet, af_inet6, same, htons, ntohs,
  set_addr, ip_string, to_string,
}
use generic_server.Address.Fields.{Fields, built, built-Fields}

ntohs-htons : (port : ℕ) → port < 65536 → ntohs (htons port) ≡ port
unfolding ntohs
ntohs-htons port h = omega arith

abbrev addr_len : Bool → ℕ
addr_len true = 16
addr_len false = 4

module _ (pton : Bool → List ℕ → Option (List ℕ)) (ntop : Bool → List ℕ → List ℕ)
    (show : ℕ → List ℕ) where
  ip_string-v6 :
      (x : InetAddress) (bytes : List ℕ)
      → family x ≡ af_inet6
      → addr6 x ≡ bytes
      → ip_string ntop x ≡ some (ntop true bytes)
  unfolding ip_string same
  ip_string-v6 x bytes f e = rw (f, e) refl

  ip_string-v4 :
      (x : InetAddress) (bytes : List ℕ)
      → family x ≡ af_inet
      → addr4 x ≡ bytes
      → ip_string ntop x ≡ some (ntop false bytes)
  unfolding ip_string same
  ip_string-v4 x bytes f e = rw (f, e) refl

  print_lem :
      (x : InetAddress) (s : List ℕ) (port : ℕ)
      → ip_string ntop x ≡ some s
      → port_bytes x ≡ htons port
      → length s ≤ 45
      → port < 65536
      → length (show port) ≤ 5
      → to_string ntop show x ≡ some (s ++ b':' ∷ show port)
  unfolding to_string
  print_lem x s port e f l h d =
      rw (e, f, ntohs-htons port h)
        (ap (λ (t : List ℕ). some (s ++ t))
          (take_all (63 - length s) (b':' ∷ show port) (omega arith)))

  -- An address set from a text of at most 45 characters that inet_pton reads, as 16 bytes for IPv6
  -- or 4 for IPv4, and inet_ntop writes back, and from a port below 65536 that takes at most five
  -- digits: toString gives the text, a colon and the port, for both families and whatever the 28
  -- bytes of the address held before.
  pub to_string-set_addr :
      (ip : List ℕ) (port : ℕ) (ipv6 : Bool) (bytes a : List ℕ)
      → length a ≡ addr_size
      → pton ipv6 ip ≡ some bytes
      → length bytes ≡ addr_len ipv6
      → ntop ipv6 bytes ≡ ip
      → length ip ≤ 45
      → port < 65536
      → length (show port) ≤ 5
      → to_string ntop show (set_addr pton ip port ipv6 a) ≡ some (ip ++ b':' ∷ show port)
  unfolding set_addr
  to_string-set_addr ip port true bytes a z p l q s r d =
      let f : Fields 8 28 port bytes af_inet6 a =
        built-Fields 8 28 port bytes af_inet6 a z refl (omega arith) (omega arith) (omega arith) in
      rw p (
        print_lem (built 8 28 port bytes af_inet6 a) ip port
          (ip_string-v6 _ bytes f.family_set
              (ap (λ k. slice 8 k (built 8 28 port bytes af_inet6 a)) (sym l) ∙ f.addr_set)
            ∙ ap some q)
          f.port_set s r d)
  to_string-set_addr ip port false bytes a z p l q s r d =
      let f : Fields 4 16 port bytes af_inet a =
        built-Fields 4 16 port bytes af_inet a z refl (omega arith) (omega arith) (omega arith) in
      rw p (
        print_lem (built 4 16 port bytes af_inet a) ip port
          (ip_string-v4 _ bytes f.family_set
              (ap (λ k. slice 4 k (built 4 16 port bytes af_inet a)) (sym l) ∙ f.addr_set)
            ∙ ap some q)
          f.port_set s r d)
