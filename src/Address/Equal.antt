-- ===== src/Address/Equal.antt =====
-- InetAddress::operator== (src/net/InetAddress.cpp).
use generic_server.Prelude.{
  ℕ, ap₂, ◌≡◌, ◌≢◌, ◌↔◌, refl, sym, ap, ◌∙◌, Bool, true, false, not, ◌&&◌, List, [], ◌∷◌, ◌==◌,
  ==_iff, Bool-cases, inl, inr, arith,
}
use generic_server.Address.Defs.{
  InetAddress, family, port_bytes, addr4, addr6, af_inet, is_inet, same, equals,
}

pub same_refl : (xs : List ℕ) → same xs xs ≡ true
unfolding same
same_refl [] = refl
same_refl (x ∷ xs) = rw (same_refl xs) (ground arith)

both : (b c : Bool) → (b && c) ≡ true → (b ≡ true) × (c ≡ true)
both true c h = (refl, h)
both false c h = cc

true-not : (b : Bool) → not b ≡ true → b ≡ false
true-not true h = cc
true-not false h = refl

true_ne_false : true ≢ false
true_ne_false e = cc

pub same→≡ : (xs ys : List ℕ) → same xs ys ≡ true → xs ≡ ys
unfolding same
same→≡ [] [] h = refl
same→≡ [] (y ∷ ys) h = cc
same→≡ (x ∷ xs) [] h = cc
same→≡ (x ∷ xs) (y ∷ ys) h =
    let (p, q) = both (x == y) (same xs ys) h in
    ap₂ (λ (c : ℕ) (l : List ℕ). c ∷ l) ((==_iff x y).0 p) (same→≡ xs ys q)

pub ≡→same : (xs ys : List ℕ) → xs ≡ ys → same xs ys ≡ true
≡→same xs ys e = ap (λ (l : List ℕ). same xs l) (sym e) ∙ same_refl xs

pub differ→≢ : (xs ys : List ℕ) → same xs ys ≡ false → xs ≢ ys
differ→≢ xs ys h e = true_ne_false (sym (≡→same xs ys e) ∙ h)

pub ≢→differ : (xs ys : List ℕ) → xs ≢ ys → same xs ys ≡ false
≢→differ xs ys h = elim (Bool-cases (same xs ys)) [
  | inl e ↦ absurd (h (same→≡ xs ys e))
  | inr e ↦ e
]

-- What operator== holds for.
pub data Equal (a b : InetAddress) : Type 0 where
  v4 :
      family a ≡ af_inet
      → family b ≡ family a
      → port_bytes a ≡ port_bytes b
      → addr4 a ≡ addr4 b
      → Equal a b
  not_v4 :
      family a ≢ af_inet
      → family b ≡ family a
      → port_bytes a ≡ port_bytes b
      → addr6 a ≢ addr6 b
      → Equal a b

module _ (a b : InetAddress) where
  equals-v4 :
      is_inet a ≡ true
      → equals a b ≡ (
          same (family a) (family b)
          && (same (port_bytes a) (port_bytes b) && same (addr4 a) (addr4 b)))
  unfolding equals
  equals-v4 e = rw e refl

  equals-not_v4 :
      is_inet a ≡ false
      → equals a b ≡ (
          same (family a) (family b)
          && (same (port_bytes a) (port_bytes b) && not (same (addr6 a) (addr6 b))))
  unfolding equals
  equals-not_v4 e = rw e refl

  equals→Equal : equals a b ≡ true → Equal a b
  equals→Equal h = elim (Bool-cases (is_inet a)) [
    | inl e ↦
        let (p, q) = both _ _ (sym (equals-v4 e) ∙ h) in
        let (r, s) = both _ _ q in
        v4 (same→≡ _ _ e) (sym (same→≡ _ _ p)) (same→≡ _ _ r) (same→≡ _ _ s)
    | inr e ↦
        let (p, q) = both _ _ (sym (equals-not_v4 e) ∙ h) in
        let (r, s) = both _ _ q in
        not_v4 (differ→≢ _ _ e) (sym (same→≡ _ _ p)) (same→≡ _ _ r) (differ→≢ _ _ (true-not _ s))
  ]

  Equal→equals : Equal a b → equals a b ≡ true
  Equal→equals (v4 f g p q) =
      equals-v4 (≡→same _ _ f) ∙ rw (≡→same _ _ (sym g), ≡→same _ _ p, ≡→same _ _ q) refl
  Equal→equals (not_v4 f g p q) =
      equals-not_v4 (≢→differ _ _ f) ∙ rw (≡→same _ _ (sym g), ≡→same _ _ p, ≢→differ _ _ q) refl

-- operator== holds exactly for two IPv4 addresses with the same address and port, and for two
-- addresses of another family, such as IPv6, with the same family and port and different addresses.
pub equals-Equal : (a b : InetAddress) → (equals a b ≡ true) ↔ Equal a b
equals-Equal a b = (equals→Equal a b, Equal→equals a b)
