-- ===== src/De/Hint.antt =====
-- borsh/src/de/hint.rs: how many places a vector gets at first, whatever length the input claims.
use borsh_rs.Base.{
  ℕ, ◌*◌, ◌/◌, ◌%◌, ◌^◌, ◌≤◌, ◌<◌, ◌≡◌, ◌⊎◌, inl, inr, min, max, Option, none, some, arith,
  if◌then◌else◌, ◌==◌, refl, false,
}
use native.Mathlib.Decide.{dec_lt}
use native.Mathlib.Nat.{div-mul-le_self, mul-le-mul_right}

-- `el_size` is `size_of::<T>() as u32`; a division by zero panics, which is `none`.
unfoldable pub cautious_of : ℕ → ℕ → Option ℕ
cautious_of el_size hint = if el_size == 0 then none else some (max (min hint (4096 / el_size)) 1)

unfoldable pub cautious : ℕ → ℕ → Option ℕ
unfolding cautious_of
cautious size_of hint = cautious_of (size_of % 2 ^ 32) hint

-- The greater of a number and 1.
places-bounds :
    (size hint q : ℕ)
    → q * size ≤ 4096
    → (0 < max (min hint q) 1)
      × ((max (min hint q) 1 ≤ hint) ⊎ (max (min hint q) 1 ≡ 1))
      × ((max (min hint q) 1 * size ≤ 4096) ⊎ (max (min hint q) 1 ≡ 1))
places-bounds size hint q h = elim (dec_lt 1 (min hint q)) [
  | yes many ↦
      let places : max (min hint q) 1 ≡ min hint q = omega arith in
      let fewer : min hint q * size ≤ q * size = mul-le-mul_right size (omega arith) in
      rw places (omega arith, inl (omega arith), inl (omega (arith, fewer, h)))
  | no few ↦ (omega arith, inr (omega arith), inr (omega arith))
]

-- For a type of 1 to 2^32 - 1 bytes, `cautious` gives a number of places: one at least, no more
-- than the hint unless it is one, and of no more than 4096 bytes in all unless it is one.
pub cautious-bounds :
    (size_of hint : ℕ)
    → 0 < size_of
    → size_of < 2 ^ 32
    → (n : ℕ) × (cautious size_of hint ≡ some n)
      × (0 < n)
      × ((n ≤ hint) ⊎ (n ≡ 1))
      × ((n * size_of ≤ 4096) ⊎ (n ≡ 1))
unfolding cautious cautious_of
cautious-bounds size_of hint z h =
    let fits : size_of % 2 ^ 32 ≡ size_of = omega arith in
    let holds : (size_of == 0) ≡ false = ground arith in
    let (some_place, by_hint, by_size) =
      places-bounds size_of hint (4096 / size_of) (div-mul-le_self 4096 size_of) in
    (max (min hint (4096 / size_of)) 1, rw (fits, holds) refl, some_place, by_hint, by_size)
