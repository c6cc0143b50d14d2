-- ===== src/Log/Stream.antt =====
-- src/log/LogStream.cpp: a stream keeps the beginning of what is put into it.
use generic_server.Prelude.{
  ℕ, zero, suc, ◌-◌, ◌≤◌, ◌≡◌, refl, sym, ap, ap₂, ◌∙◌, Option, none, some, List, [], ◌∷◌, ◌++◌,
  length, take, min, arith, append_assoc, append-nil, take-nil, take-append_right, take_all,
}
use mathlib.Core.Path.{subst}
use generic_server.Prelude.Int.{ℤ, pos}
use generic_server.Buffer.{Buffer, append, to_string, remain_size}
use generic_server.Buffer.Valid.{
  IsValid, extend, append-extend, extend-IsValid, to_string-extend, append_char-append,
}
use generic_server.Buffer.Stream.{length-to_string}
use generic_server.Log.Defs.{
  Item, char, c_str, simple, text, int, real, put, put_text, put_all, strnlen,
}

-- The text of an item; of a C string the first max_len characters.
abbrev pub text_of : (ℤ → List ℕ) → Item → List ℕ
text_of show (char c) = c ∷ []
text_of show (c_str none) = []
text_of show (c_str (some s)) = take (strnlen s) s
text_of show (simple s) = s
text_of show (text s) = s
text_of show (int i) = show i
text_of show (real s) = s

unfoldable pub text_of_all : (ℤ → List ℕ) → List Item → List ℕ
text_of_all show [] = []
text_of_all show (i ∷ is) = text_of show i ++ text_of_all show is

-- A buffer that nothing was read from, and the text in it.
pub record Holds (size : ℕ) (s : List ℕ) (b : Buffer) : Type 0 where
  pub valid : IsValid b
  pub unread : b.rptr ≡ 0
  pub sized : b.size ≡ size
  pub holds : to_string b ≡ s

take-min : (a n : ℕ) (s : List ℕ) → take (min a n) s ≡ take n (take a s)
take-min zero n s = ap (λ (k : ℕ). take k s) {y = 0} (omega arith) ∙ sym (take-nil n)
take-min (suc a) zero s = ap (λ (k : ℕ). take k s) {y = 0} (omega arith)
take-min (suc a) (suc n) [] = take-nil (min (suc a) (suc n))
take-min (suc a) (suc n) (c ∷ s) =
    ap (λ (k : ℕ). take k (c ∷ s)) {y = suc (min a n)} (omega arith)
    ∙ ap (λ (l : List ℕ). c ∷ l) (take-min a n s)

take-append-take_left : (n : ℕ) (s t : List ℕ) → take n (take n s ++ t) ≡ take n (s ++ t)
take-append-take_left zero s t = refl
take-append-take_left (suc n) [] t = refl
take-append-take_left (suc n) (c ∷ s) t = ap (λ (l : List ℕ). c ∷ l) (take-append-take_left n s t)

-- What an operation on a stream gives when it keeps the text t.
abbrev pub Keeps : ℕ → List ℕ → Option Buffer → Type 0
Keeps size t r = (b : Buffer) × (r ≡ some b) × Holds size (take size t) b

module _ {size : ℕ} {s : List ℕ} {b : Buffer} (h : Holds size s b) where
  length-held : length s ≡ b.wptr
  length-held = omega (arith, ap length h.holds, length-to_string b h.valid, h.unread)

  append-Holds :
      (src : List ℕ) (len : ℕ)
      → len ≤ length src
      → (n : ℕ) × (b' : Buffer) × (append src (pos len) b ≡ some (n, b'))
        × Holds size (take size (s ++ take len src)) b'
  unfolding extend
  append-Holds src len e =
      let n : ℕ = min len (remain_size b) in
      let enough : n ≤ length src = omega (arith, e) in
      let room : n ≤ remain_size b = omega arith in
      let kept : length s ≤ size = omega (arith, length-held, h.valid, h.sized) in
      let m : n ≡ min len (size - length s) = omega (arith, length-held, h.sized) in
      (
        n,
        extend n src b,
        append-extend b h.valid n src enough room len refl,
        record {
          valid = extend-IsValid b h.valid n src enough room;
          unread = h.unread;
          sized = h.sized;
          holds =
              to_string-extend b h.valid n src enough room
              ∙ ap₂ (λ (l : List ℕ) (k : ℕ). l ++ take k src) h.holds m
              ∙ ap (λ (l : List ℕ). s ++ l) (take-min len (size - length s) src)
              ∙ sym (take-append_right size s (take len src) kept);
        },
      )

  unchanged : Holds size (take size (s ++ [])) b
  unchanged =
      subst (λ (t : List ℕ). Holds size t b)
        (sym (
          ap (take size) (append-nil s)
          ∙ take_all size s (omega (arith, length-held, h.valid, h.sized))))
        h

  put_text-Keeps : (t : List ℕ) → Keeps size (s ++ t) (put_text t b)
  put_text-Keeps t =
      let (n, b', e, k) = append-Holds t (length t) (omega arith) in
      let a : take (length t) t ≡ t = take_all (length t) t (omega arith) in
      (b', rw e, subst (λ (l : List ℕ). Holds size (take size (s ++ l)) b') a k)

  put-Keeps : (show : ℤ → List ℕ) (i : Item) → Keeps size (s ++ text_of show i) (put show i b)
  unfolding put
  put-Keeps show (char c) =
      let (n, b', e, k) = append-Holds (c ∷ []) 1 (omega arith) in
      (b', rw (append_char-append c b h.valid, e), k)
  put-Keeps show (c_str none) = (b, refl, unchanged)
  put-Keeps show (c_str (some t)) =
      let (n, b', e, k) = append-Holds t (strnlen t) (omega arith) in (b', rw e, k)
  put-Keeps show (simple t) = put_text-Keeps t
  put-Keeps show (text t) = put_text-Keeps t
  put-Keeps show (int i) = put_text-Keeps (show i)
  put-Keeps show (real t) = put_text-Keeps t

-- Whatever is put into a stream, one after another, in a buffer of any size: the stream holds the
-- beginning of the whole text, as much as there is room for; nothing faults.
pub put_all-Keeps :
    (show : ℤ → List ℕ) (is : List Item) {size : ℕ} {s : List ℕ} {b : Buffer}
    → Holds size s b
    → Keeps size (s ++ text_of_all show is) (put_all show is b)
unfolding put_all text_of_all
put_all-Keeps show [] {size} {s} {b} h = (b, refl, unchanged h)
put_all-Keeps show (i ∷ is) {size} {s} {b} h =
    let (b₁, e, k) = put-Keeps h show i in
    let (b₂, f, l) = put_all-Keeps show is k in
    (
      b₂,
      rw e f,
      subst (λ (t : List ℕ). Holds size t b₂)
          (take-append-take_left size (s ++ text_of show i) (text_of_all show is)
            ∙ ap (take size) (append_assoc s (text_of show i) (text_of_all show is)))
          l,
    )
