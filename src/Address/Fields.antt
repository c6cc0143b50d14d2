-- ===== src/Address/Fields.antt =====
-- src/net/InetAddress.cpp: the fields of an address after a write of one of them.
use generic_server.Prelude.{ℕ, ◌+◌, ◌≤◌, ◌≡◌, refl, ◌∙◌, List, length, arith, length-replicate}
use generic_server.Prelude.Memory.{slice-blit_same, slice-blit_below, length-blit, slice, blit}
use generic_server.Address.Defs.{InetAddress, addr_size, family, port_bytes, htons, zeros}

module _ (i z port : ℕ) (bytes fam a : List ℕ) where
  -- An address as the functions build it: the memory is cleared, then the family, the port and the
  -- address are written.
  abbrev pub built : InetAddress
  built = blit i bytes (blit 2 (htons port) (blit 0 fam (blit 0 (zeros z) a)))

  -- Its fields.
  pub record Fields : Type 0 where
    pub sized : length built ≡ addr_size
    pub family_set : family built ≡ fam
    pub port_set : port_bytes built ≡ htons port
    pub addr_set : slice i (length bytes) built ≡ bytes

  pub built-Fields :
      length a ≡ addr_size
      → length fam ≡ 2
      → z ≤ addr_size
      → 4 ≤ i
      → i + length bytes ≤ addr_size
      → Fields
  built-Fields s f h k l =
      let m₀ : List ℕ = blit 0 (zeros z) a in
      let c : length (zeros z) ≡ z = length-replicate {A = ℕ} z 0 in
      let s₀ : length m₀ ≡ addr_size = length-blit 0 (zeros z) a (omega arith) ∙ s in
      let m₁ : List ℕ = blit 0 fam m₀ in
      let s₁ : length m₁ ≡ addr_size = length-blit 0 fam m₀ (omega arith) ∙ s₀ in
      let m₂ : List ℕ = blit 2 (htons port) m₁ in
      let s₂ : length m₂ ≡ addr_size = length-blit 2 (htons port) m₁ (omega arith) ∙ s₁ in
      record {
        sized = length-blit i bytes m₂ (omega arith) ∙ s₂;
        family_set =
            slice-blit_below i bytes m₂ (omega arith) 0 2 (omega arith)
            ∙ slice-blit_below 2 (htons port) m₁ (omega arith) 0 2 (omega arith)
            ∙ slice-blit_same 0 fam m₀ (omega arith) 2 (omega arith);
        port_set =
            slice-blit_below i bytes m₂ (omega arith) 2 2 (omega arith)
            ∙ slice-blit_same 2 (htons port) m₁ (omega arith) 2 (omega arith);
        addr_set = slice-blit_same i bytes m₂ (omega arith) (length bytes) refl;
      }
