-- ===== src/Base64/RoundTrip.antt =====
-- Decoding what was encoded.
use mathlib.Core.List.{append-nil}
use grain_protocol.Base.{
  ℕ, ◌+◌, ◌*◌, ◌/◌, ◌%◌, ◌<◌, ◌==◌, ==_iff, ◌≡◌, refl, ◌∙◌, ap, sym, arith, code, Bool, true, false,
  ◌&&◌, Option, none, some, List, [], ◌∷◌, if◌then◌else◌, and_parts, Bool-cases, inl, inr,
}
use grain_protocol.Base.Below.{all_below, all_below-lt, AreBytes}
use grain_protocol.Base.Text.{codes}
use grain_protocol.Base64.{four, both, digit, decode, char_of, encode}

abbrev same_digit : Option ℕ → ℕ → Bool
same_digit none n = false
same_digit (some m) n = m == n

same_digit-eq : (o : Option ℕ) (n : ℕ) → same_digit o n ≡ true → o ≡ some n
same_digit-eq none n h = cc
same_digit-eq (some m) n h = ap some ((==_iff m n).0 h)

not_pad : ℕ → Bool
not_pad c = if c == b'=' then false else true

table :
    all_below 64 (λ n. same_digit (digit (code (char_of n))) n && not_pad (code (char_of n))) ≡ true
unfolding all_below char_of not_pad
table = refl

digit-char_of : (n : ℕ) → n < 64 → digit (code (char_of n)) ≡ some n
digit-char_of n h = same_digit-eq _ n (and_parts _ _ (all_below-lt 64 _ n table h)).0

not_pad-eq : (c : ℕ) → not_pad c ≡ true → (c == b'=') ≡ false
unfolding not_pad
not_pad-eq c h = ground arith

char_of-not_pad : (n : ℕ) → n < 64 → (code (char_of n) == b'=') ≡ false
char_of-not_pad n h =
    not_pad-eq (code (char_of n))
      (and_parts (same_digit (digit (code (char_of n))) n) _ (all_below-lt 64 _ n table h)).1

both-nil : (o : Option (List ℕ)) → o ≡ both o (some [])
both-nil none = refl
both-nil (some bs) = ap some (sym (append-nil bs))

-- A group that does not end in padding is four digits, wherever it stands.
decode-group :
    (a b c d : ℕ) (s : List ℕ)
    → (d == b'=') ≡ false
    → decode (a ∷ b ∷ c ∷ d ∷ s) ≡ both (four (digit a) (digit b) (digit c) (digit d)) (decode s)
unfolding decode
decode-group a b c d [] h = elim (Bool-cases (c == b'=')) [
  | inl pad ↦ rw (pad, h) (both-nil _)
  | inr digits ↦ rw (digits, h) (both-nil _)
]
decode-group a b c d (e ∷ s) h = refl

whole :
    (a b c : ℕ) (s : List ℕ)
    → a < 256
    → b < 256
    → c < 256
    → ◌≡◌ {A = Option (List ℕ)}
        (some (
          ((a / 4) * 4 + ((a % 4) * 16 + b / 16) / 16)
          ∷ ((((a % 4) * 16 + b / 16) % 16) * 16 + ((b % 16) * 4 + c / 64) / 4)
          ∷ ((((b % 16) * 4 + c / 64) % 4) * 64 + c % 64)
          ∷ s))
        (some (a ∷ b ∷ c ∷ s))
whole a b c s ha hb hc =
    let x : (a / 4) * 4 + ((a % 4) * 16 + b / 16) / 16 ≡ a = omega arith in
    let y : (((a % 4) * 16 + b / 16) % 16) * 16 + ((b % 16) * 4 + c / 64) / 4 ≡ b = omega arith in
    let z : (((b % 16) * 4 + c / 64) % 4) * 64 + c % 64 ≡ c = omega arith in rw (x, y, z)

-- What was encoded is decoded to the same bytes.
pub decode-encode : (bs : List ℕ) → AreBytes bs → decode (codes (encode bs)) ≡ some bs
unfolding encode decode
decode-encode [] h = refl
decode-encode (a ∷ []) (ha, h) =
    let x : (a / 4) * 4 + ((a % 4) * 16) / 16 ≡ a = omega arith in
    rw (digit-char_of (a / 4) (omega arith), digit-char_of ((a % 4) * 16) (omega arith), x)
decode-encode (a ∷ b ∷ []) (ha, (hb, h)) =
    let x : (a / 4) * 4 + ((a % 4) * 16 + b / 16) / 16 ≡ a = omega arith in
    let y : (((a % 4) * 16 + b / 16) % 16) * 16 + ((b % 16) * 4) / 4 ≡ b = omega arith in
    rw (
      char_of-not_pad ((b % 16) * 4) (omega arith),
      digit-char_of (a / 4) (omega arith),
      digit-char_of ((a % 4) * 16 + b / 16) (omega arith),
      digit-char_of ((b % 16) * 4) (omega arith),
      x,
      y,
    )
decode-encode (a ∷ b ∷ c ∷ s) (ha, (hb, (hc, h))) =
    decode-group (code (char_of (a / 4))) (code (char_of ((a % 4) * 16 + b / 16)))
      (code (char_of ((b % 16) * 4 + c / 64))) (code (char_of (c % 64))) (codes (encode s))
      (char_of-not_pad (c % 64) (omega arith))
    ∙ rw
        (
          digit-char_of (a / 4) (omega arith),
          digit-char_of ((a % 4) * 16 + b / 16) (omega arith),
          digit-char_of ((b % 16) * 4 + c / 64) (omega arith),
          digit-char_of (c % 64) (omega arith),
          decode-encode s h,
        )
        (whole a b c s ha hb hc)
