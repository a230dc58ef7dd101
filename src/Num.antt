-- ===== src/Num.antt =====
-- `to_le_bytes` and `from_le_bytes` of the integers, and two's complement.
use borsh_rs.Base.{
  ℕ, zero, suc, ◌+◌, ◌-◌, ◌*◌, ◌/◌, ◌%◌, ◌^◌, ◌<◌, ◌≡◌, refl, ap, arith, List, [], ◌∷◌,
}
use borsh_rs.Base.{length, All, ltb, if◌then◌else◌, ◌∙◌, ap₂, Bool-cases, inl, inr, ltb→lt, ltb→le}
use native.Mathlib.Nat.{pow-suc}

abbrev pub IsByte : ℕ → Type 0
IsByte b = b < 256

abbrev pub Bytes : List ℕ → Type 0
Bytes = All IsByte

-- The `n` low bytes of `v`, the lowest first.
unfoldable pub to_le_bytes : ℕ → ℕ → List ℕ
to_le_bytes zero v = []
to_le_bytes (suc n) v = (v % 256) ∷ to_le_bytes n (v / 256)

unfoldable pub from_le_bytes : List ℕ → ℕ
from_le_bytes [] = 0
from_le_bytes (b ∷ bs) = b + 256 * from_le_bytes bs

-- A byte is its own encoding.
pub to_le_bytes-byte : (v : ℕ) → v < 256 → to_le_bytes 1 v ≡ v ∷ []
unfolding to_le_bytes
to_le_bytes-byte v h = ap (λ (b : ℕ). b ∷ []) (omega arith)

pub length-to_le_bytes : (n v : ℕ) → length (to_le_bytes n v) ≡ n
unfolding to_le_bytes
length-to_le_bytes zero v = refl
length-to_le_bytes (suc n) v = ap suc (length-to_le_bytes n (v / 256))

pub to_le_bytes-Bytes : (n v : ℕ) → Bytes (to_le_bytes n v)
unfolding to_le_bytes
to_le_bytes-Bytes zero v = tt
to_le_bytes-Bytes (suc n) v = (omega arith, to_le_bytes-Bytes n (v / 256))

pub from_le_bytes-to_le_bytes : (n v : ℕ) → v < 256 ^ n → from_le_bytes (to_le_bytes n v) ≡ v
unfolding to_le_bytes from_le_bytes
from_le_bytes-to_le_bytes zero v h = omega arith
from_le_bytes-to_le_bytes (suc n) v h =
    omega (arith, from_le_bytes-to_le_bytes n (v / 256) (omega (arith, pow-suc 256 n)))

pub from_le_bytes-lt : (bs : List ℕ) → Bytes bs → from_le_bytes bs < 256 ^ length bs
unfolding from_le_bytes
from_le_bytes-lt [] h = omega arith
from_le_bytes-lt (b ∷ bs) h = omega (arith, pow-suc 256 (length bs), from_le_bytes-lt bs h.1)

pub to_le_bytes-from_le_bytes :
    (bs : List ℕ) → Bytes bs → to_le_bytes (length bs) (from_le_bytes bs) ≡ bs
unfolding to_le_bytes from_le_bytes
to_le_bytes-from_le_bytes [] h = refl
to_le_bytes-from_le_bytes (b ∷ bs) h =
    ap₂ (λ (x : ℕ) (xs : List ℕ). x ∷ xs) (omega arith)
      (ap (to_le_bytes (length bs)) (omega arith) ∙ to_le_bytes-from_le_bytes bs h.1)

-- A signed integer; `negsuc n` is -(n + 1).
pub data ℤ : Type 0 where
  pos : ℕ → ℤ
  negsuc : ℕ → ℤ

-- The bit pattern of an `n`-byte signed integer, and the integer of a pattern.
unfoldable pub to_pattern : ℕ → ℤ → ℕ
to_pattern n (pos k) = k
to_pattern n (negsuc k) = 256 ^ n - suc k

unfoldable pub of_pattern : ℕ → ℕ → ℤ
of_pattern n p = if ltb (2 * p) (256 ^ n) then pos p else negsuc (256 ^ n - suc p)

abbrev pub InRange : ℕ → ℤ → Type 0
InRange n (pos k) = 2 * k < 256 ^ n
InRange n (negsuc k) = 2 * k < 256 ^ n

pub to_pattern-lt : (n : ℕ) (z : ℤ) → 0 < n → InRange n z → to_pattern n z < 256 ^ n
unfolding to_pattern
to_pattern-lt n (pos k) h r = omega arith
to_pattern-lt n (negsuc k) h r = omega arith

pub of_pattern-to_pattern :
    (n : ℕ) (z : ℤ) → 0 < n → InRange n z → of_pattern n (to_pattern n z) ≡ z
unfolding to_pattern of_pattern
of_pattern-to_pattern zero z h r = elim h [ ]
of_pattern-to_pattern (suc n) (pos k) h r = ground arith
of_pattern-to_pattern (suc n) (negsuc k) h r = ground (arith, pow-suc 256 n)

pub of_pattern-InRange : (n p : ℕ) → 0 < n → p < 256 ^ n → InRange n (of_pattern n p)
unfolding of_pattern
of_pattern-InRange zero p h l = elim h [ ]
of_pattern-InRange (suc n) p h l = elim (Bool-cases (ltb (2 * p) (256 ^ suc n))) [
  | inl e ↦ rw e (ltb→lt _ _ e)
  | inr e ↦ rw e (omega (arith, ltb→le _ _ e))
]

pub to_pattern-of_pattern : (n p : ℕ) → p < 256 ^ n → to_pattern n (of_pattern n p) ≡ p
unfolding to_pattern of_pattern
to_pattern-of_pattern n p l = elim (Bool-cases (ltb (2 * p) (256 ^ n))) [
  | inl e ↦ rw e
  | inr e ↦ rw e (omega arith)
]
