-- ===== src/Stabilization/Bytes.antt =====
-- `mutate_bytes` of tools/stabilization/run_rc_stab.py. The generator is the stream of the bytes that
-- `rng.getrandbits(8)` returns, and its state is how many were drawn.
use grain_protocol.Base.{
  ℕ, zero, suc, ◌+◌, ◌-◌, ◌/◌, ◌%◌, ◌==◌, ltb, bit_xor, List, [], ◌∷◌, ◌++◌, length, if◌then◌else◌,
}

-- `src[:n]`.
unfoldable pub take : ℕ → List ℕ → List ℕ
take zero bs = []
take (suc n) [] = []
take (suc n) (b ∷ bs) = b ∷ take n bs

-- `arr[0] ^= 0x80` and `arr[-1] ^= 0x01` of bytes that are not empty; b"\x00" and b"\x01" otherwise.
unfoldable pub flip_first : List ℕ → List ℕ
flip_first [] = 0 ∷ []
flip_first (b ∷ bs) = bit_xor b 0x80 ∷ bs

unfoldable pub flip_last : List ℕ → List ℕ
flip_last [] = 1 ∷ []
flip_last (b ∷ []) = bit_xor b 1 ∷ []
flip_last (b ∷ c ∷ bs) = b ∷ flip_last (c ∷ bs)

abbrev pub min : ℕ → ℕ → ℕ
min a b = if ltb b a then b else a

abbrev pub max : ℕ → ℕ → ℕ
max a b = if ltb a b then b else a

-- `bytes(rng.getrandbits(8) for _ in range(n))`, and how many were drawn after it.
module _ (random_byte : ℕ → ℕ) where
  unfoldable pub draw : ℕ → ℕ → List ℕ
  draw zero drawn = []
  draw (suc n) drawn = random_byte drawn ∷ draw n (suc drawn)

  unfoldable pub mutate_bytes : List ℕ → ℕ → ℕ → List ℕ × ℕ
  mutate_bytes src idx drawn =
      let size = length src in
      let fresh = if size == 0 then 8 else size in
      let short = max 1 (min 32 (size + 3)) in
      if (idx % 8) == 0
      then (flip_first src, drawn)
      else if (idx % 8) == 1
      then (flip_last src, drawn)
      else if (idx % 8) == 2
      then (take (size - 1) src, drawn)
      else if (idx % 8) == 3
      then (take (size / 2) src, drawn)
      else if (idx % 8) == 4
      then (src ++ (0 ∷ []), drawn)
      else if (idx % 8) == 5
      then (src ++ (255 ∷ []), drawn)
      else if (idx % 8) == 6
      then (draw fresh drawn, drawn + fresh)
      else (draw short drawn, drawn + short)
