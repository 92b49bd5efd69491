-- ===== src/Stabilization/Mutations.antt =====
-- What `mutate_bytes` returns: bytes, not many more than it was given, and others.
use grain_protocol.Base.{
  ℕ, zero, suc, ◌+◌, ◌-◌, ◌/◌, ◌%◌, ◌≤◌, ◌<◌, ◌==◌, ◌≡◌, ◌≢◌, refl, ap, arith, bit_xor, true, not,
  ◌&&◌, ltb, List, [], ◌∷◌, ◌++◌, length, length-append, All-append, Bool-cases, inl, inr,
  and_parts,
}
use grain_protocol.Base.Below.{all_below, all_below-lt, AreBytes}
use grain_protocol.Stabilization.Bytes.{max, take, flip_first, flip_last, draw, mutate_bytes}

flips :
    all_below 256 (λ b.
      (ltb (bit_xor b 0x80) 256 && not (bit_xor b 0x80 == b))
      && (ltb (bit_xor b 1) 256 && not (bit_xor b 1 == b)))
    ≡ true
unfolding all_below
flips = refl

flips_at :
    (b : ℕ)
    → b < 256
    → ((bit_xor b 0x80 < 256) × (bit_xor b 0x80 ≢ b)) × ((bit_xor b 1 < 256) × (bit_xor b 1 ≢ b))
flips_at b h =
    let (high, low) =
      and_parts (ltb (bit_xor b 0x80) 256 && not (bit_xor b 0x80 == b)) _
        (all_below-lt 256 _ b flips h) in
    let (high_lt, high_ne) = and_parts (ltb (bit_xor b 0x80) 256) _ high in
    let (low_lt, low_ne) = and_parts (ltb (bit_xor b 1) 256) _ low in
    ((ground arith, λ e. ground arith), (ground arith, λ e. ground arith))

take-AreBytes : (n : ℕ) (bs : List ℕ) → AreBytes bs → AreBytes (take n bs)
unfolding take
take-AreBytes zero bs h = tt
take-AreBytes (suc n) [] h = tt
take-AreBytes (suc n) (b ∷ bs) h = (h.0, take-AreBytes n bs h.1)

length-take : (n : ℕ) (bs : List ℕ) → n ≤ length bs → length (take n bs) ≡ n
unfolding take
length-take zero bs h = refl
length-take (suc n) [] h = absurd (omega arith)
length-take (suc n) (b ∷ bs) h = ap suc (length-take n bs (omega arith))

flip_first-AreBytes : (bs : List ℕ) → AreBytes bs → AreBytes (flip_first bs)
unfolding flip_first
flip_first-AreBytes [] h = (omega arith, tt)
flip_first-AreBytes (b ∷ bs) h = ((flips_at b h.0).0.0, h.1)

flip_last-AreBytes : (bs : List ℕ) → AreBytes bs → AreBytes (flip_last bs)
unfolding flip_last
flip_last-AreBytes [] h = (omega arith, tt)
flip_last-AreBytes (b ∷ []) h = ((flips_at b h.0).1.0, tt)
flip_last-AreBytes (b ∷ c ∷ bs) h = (h.0, flip_last-AreBytes (c ∷ bs) h.1)

length-flip_first : (bs : List ℕ) → length (flip_first bs) ≤ length bs + 1
unfolding flip_first
length-flip_first [] = omega arith
length-flip_first (b ∷ bs) = omega arith

length-flip_last : (bs : List ℕ) → length (flip_last bs) ≤ length bs + 1
unfolding flip_last
length-flip_last [] = omega arith
length-flip_last (b ∷ []) = omega arith
length-flip_last (b ∷ c ∷ bs) = omega (arith, length-flip_last (c ∷ bs))

flip_first-ne : (b : ℕ) (bs : List ℕ) → AreBytes (b ∷ bs) → flip_first (b ∷ bs) ≢ b ∷ bs
unfolding flip_first
flip_first-ne b bs h e = (flips_at b h.0).0.1 (cc)

flip_last-ne : (b : ℕ) (bs : List ℕ) → AreBytes (b ∷ bs) → flip_last (b ∷ bs) ≢ b ∷ bs
unfolding flip_last
flip_last-ne b [] h e = (flips_at b h.0).1.1 (cc)
flip_last-ne b (c ∷ bs) h e = flip_last-ne c bs h.1 (cc)

module _ (random_byte : ℕ → ℕ) where
  length-draw : (n drawn : ℕ) → length (draw random_byte n drawn) ≡ n
  unfolding draw
  length-draw zero drawn = refl
  length-draw (suc n) drawn = ap suc (length-draw n (suc drawn))

  draw-AreBytes :
      ((k : ℕ) → random_byte k < 256) → (n drawn : ℕ) → AreBytes (draw random_byte n drawn)
  unfolding draw
  draw-AreBytes below zero drawn = tt
  draw-AreBytes below (suc n) drawn = (below drawn, draw-AreBytes below n (suc drawn))

  -- The eight ways in which a case is made, one for each remainder of its index.
  by_remainder {ℓ} :
      (P : List ℕ × ℕ → Type ℓ) (src : List ℕ) (idx drawn : ℕ)
      → ((idx % 8) ≡ 0 → P (flip_first src, drawn))
      → ((idx % 8) ≡ 1 → P (flip_last src, drawn))
      → ((idx % 8) ≡ 2 → P (take (length src - 1) src, drawn))
      → ((idx % 8) ≡ 3 → P (take (length src / 2) src, drawn))
      → ((idx % 8) ≡ 4 → P (src ++ (0 ∷ []), drawn))
      → ((idx % 8) ≡ 5 → P (src ++ (255 ∷ []), drawn))
      → ((idx % 8) ≡ 6 → (n : ℕ) → n ≤ max (length src) 8 → P (draw random_byte n drawn, drawn + n))
      → ((idx % 8) ≡ 7 → (n : ℕ) → n ≤ 32 → P (draw random_byte n drawn, drawn + n))
      → P (mutate_bytes random_byte src idx drawn)
  unfolding mutate_bytes
  by_remainder P src idx drawn p0 p1 p2 p3 p4 p5 p6 p7 = elim (Bool-cases ((idx % 8) == 0)) [
    | inl h0 ↦ rw h0 (p0 (ground arith))
    | inr h0 ↦ rw h0 (elim (Bool-cases ((idx % 8) == 1)) [
      | inl h1 ↦ rw h1 (p1 (ground arith))
      | inr h1 ↦ rw h1 (elim (Bool-cases ((idx % 8) == 2)) [
        | inl h2 ↦ rw h2 (p2 (ground arith))
        | inr h2 ↦ rw h2 (elim (Bool-cases ((idx % 8) == 3)) [
          | inl h3 ↦ rw h3 (p3 (ground arith))
          | inr h3 ↦ rw h3 (elim (Bool-cases ((idx % 8) == 4)) [
            | inl h4 ↦ rw h4 (p4 (ground arith))
            | inr h4 ↦ rw h4 (elim (Bool-cases ((idx % 8) == 5)) [
              | inl h5 ↦ rw h5 (p5 (ground arith))
              | inr h5 ↦ rw h5 (elim (Bool-cases ((idx % 8) == 6)) [
                | inl h6 ↦ rw h6 (p6 (ground arith) _ (ground arith))
                | inr h6 ↦ rw h6 (p7 (ground arith) _ (ground arith))
              ])
            ])
          ])
        ])
      ])
    ])
  ]

  -- What is returned are bytes, at most as many as were given and one, or 32.
  pub mutate_bytes-AreBytes :
      ((k : ℕ) → random_byte k < 256)
      → (src : List ℕ) (idx drawn : ℕ) → AreBytes src
      → AreBytes (mutate_bytes random_byte src idx drawn).0
        × (length (mutate_bytes random_byte src idx drawn).0 ≤ max (length src + 1) 32)
  mutate_bytes-AreBytes below src idx drawn h =
      by_remainder (λ p. AreBytes p.0 × (length p.0 ≤ max (length src + 1) 32)) src idx drawn
        (λ _. (flip_first-AreBytes src h, ground (arith, length-flip_first src)))
        (λ _. (flip_last-AreBytes src h, ground (arith, length-flip_last src)))
        (λ _. (
          take-AreBytes (length src - 1) src h,
          ground (arith, length-take (length src - 1) src (omega arith)),
        ))
        (λ _. (
          take-AreBytes (length src / 2) src h,
          ground (arith, length-take (length src / 2) src (omega arith)),
        ))
        (λ _. (
          All-append _ src (0 ∷ []) h (omega arith, tt),
          ground (arith, length-append src (0 ∷ [])),
        ))
        (λ _. (
          All-append _ src (255 ∷ []) h (omega arith, tt),
          ground (arith, length-append src (255 ∷ [])),
        ))
        (λ _ n le. (draw-AreBytes below n drawn, ground (arith, length-draw n drawn)))
        (λ _ n le. (draw-AreBytes below n drawn, ground (arith, length-draw n drawn)))

  -- Of bytes that are some, the first six ways of a case make others.
  pub mutate_bytes-ne :
      (b : ℕ) (bs : List ℕ) (idx drawn : ℕ)
      → AreBytes (b ∷ bs)
      → idx % 8 < 6
      → (mutate_bytes random_byte (b ∷ bs) idx drawn).0 ≢ b ∷ bs
  mutate_bytes-ne b bs idx drawn h few =
      by_remainder (λ p. p.0 ≢ b ∷ bs) (b ∷ bs) idx drawn (λ _. flip_first-ne b bs h)
        (λ _. flip_last-ne b bs h) (λ _ e. shorter (length (b ∷ bs) - 1) (omega arith) e)
        (λ _ e. shorter (length (b ∷ bs) / 2) (omega arith) e)
        (λ _ e. longer (0 ∷ []) (omega arith) e) (λ _ e. longer (255 ∷ []) (omega arith) e)
        (λ r n le e. absurd (omega arith)) (λ r n le e. absurd (omega arith))
    where
      shorter : (n : ℕ) → n < length (b ∷ bs) → take n (b ∷ bs) ≢ b ∷ bs
      shorter n lt e =
          let same : length (take n (b ∷ bs)) ≡ length (b ∷ bs) = ap length e in
          absurd (omega (arith, length-take n (b ∷ bs) (omega arith)))

      longer : (cs : List ℕ) → 0 < length cs → (b ∷ bs) ++ cs ≢ b ∷ bs
      longer cs lt e =
          let same : length ((b ∷ bs) ++ cs) ≡ length (b ∷ bs) = ap length e in
          absurd (omega (arith, length-append (b ∷ bs) cs))
