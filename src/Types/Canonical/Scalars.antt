-- ===== src/Types/Canonical/Scalars.antt =====
-- Numbers, floats and `bool` are accepted only in the one form that is written.
use borsh_rs.Base.{
  ℕ, ◌^◌, ◌<◌, ◌≡◌, ◌≢◌, sym, ap, ◌∙◌, subst, Bool, true, false, List, [], ◌∷◌, ◌++◌, arith, length,
  ◌==◌, append-nil, ==→eq,
}
use borsh_rs.Io.{M, ok, pure, ◌>>=◌, throw}
use borsh_rs.Io.Slice.{slice_reader}
use borsh_rs.Num.{
  ℤ, pos, negsuc, Bytes, to_le_bytes, from_le_bytes, to_pattern, of_pattern, InRange,
  to_le_bytes-byte, from_le_bytes-lt, to_le_bytes-from_le_bytes, of_pattern-InRange,
  to_pattern-of_pattern,
}
use borsh_rs.De.{
  deserialize_u8, deserialize_usize, deserialize_int, deserialize_isize, deserialize_nonzero,
  deserialize_float, deserialize_bool,
}
use borsh_rs.De.Consumes.{
  Consumes, Consumes->>=, Consumes-pure, Consumes-throw, Consumes-map, Consumes-if,
  Consumes-read_bytes,
}
use borsh_rs.De.Exact.{Exactly, Consumes_mono, Exact-deserialize_u8, Exact-deserialize_uint}
use borsh_rs.Types.{
  unsigned_size, signed_size, Unsigned, u8, u16, u32, u64, u128, usize, Signed, i8, i16, i32, i64,
  i128, isize, bool,
}
use borsh_rs.Types.Spec.{Valid, encode}
use borsh_rs.Types.Dispatch.{deserialize_unsigned, deserialize_signed, is_zero_ℕ, is_zero_ℤ}

abbrev rd : borsh_rs.Io.Read (List ℕ)
rd = slice_reader

pub Exact-unsigned :
    (u : Unsigned)
    → Consumes
        (deserialize_unsigned rd u)
        (Exactly (λ v. v < 256 ^ unsigned_size u) (to_le_bytes (unsigned_size u)))
unfolding deserialize_unsigned deserialize_usize
Exact-unsigned u8 =
    Consumes_mono Exact-deserialize_u8 λ v used h q. (q.0, q.1 ∙ sym (to_le_bytes-byte v q.0))
Exact-unsigned u16 = Exact-deserialize_uint 2
Exact-unsigned u32 = Exact-deserialize_uint 4
Exact-unsigned u64 = Exact-deserialize_uint 8
Exact-unsigned u128 = Exact-deserialize_uint 16
Exact-unsigned usize = Exact-deserialize_uint 8

abbrev pub signed_bytes : ℕ → ℤ → List ℕ
signed_bytes size v = to_le_bytes size (to_pattern size v)

-- The bytes of a buffer are those of the number that it is read as.
pub buffer_bits :
    (size : ℕ) (buf : List ℕ)
    → Bytes buf
    → length buf ≡ size
    → (from_le_bytes buf < 256 ^ size) × (to_le_bytes size (from_le_bytes buf) ≡ buf)
buffer_bits size buf h l = rw (← l) (from_le_bytes-lt buf h, to_le_bytes-from_le_bytes buf h)

pub Exact-int :
    (size : ℕ)
    → 0 < size
    → Consumes (deserialize_int rd size) (Exactly (InRange size) (signed_bytes size))
unfolding deserialize_int
Exact-int size z =
    Consumes-map _ (λ l. of_pattern size (from_le_bytes l)) (Consumes-read_bytes size)
      λ buf used h q.
        let (lt, bytes) = buffer_bits size buf (subst Bytes q.0 h) q.1 in
        (
          of_pattern-InRange size (from_le_bytes buf) z lt,
          q.0 ∙ sym bytes ∙ ap (to_le_bytes size) (sym (to_pattern-of_pattern size _ lt)),
        )

pub Exact-signed :
    (i : Signed)
    → Consumes
        (deserialize_signed rd i)
        (Exactly (InRange (signed_size i)) (signed_bytes (signed_size i)))
unfolding deserialize_signed deserialize_isize
Exact-signed i8 = Exact-int 1 (omega arith)
Exact-signed i16 = Exact-int 2 (omega arith)
Exact-signed i32 = Exact-int 4 (omega arith)
Exact-signed i64 = Exact-int 8 (omega arith)
Exact-signed i128 = Exact-int 16 (omega arith)
Exact-signed isize = Exact-int 8 (omega arith)

pub Exact-nonzero :
    {A : Type 0} {P : A → Type 0} {enc : A → List ℕ} (is_zero : A → Bool) (zero : A)
    {d : M (List ℕ) A}
    → ((a : A) → is_zero a ≡ false → a ≢ zero)
    → Consumes d (Exactly P enc)
    → Consumes (deserialize_nonzero rd is_zero d) (Exactly (λ a. P a × (a ≢ zero)) enc)
unfolding deserialize_nonzero
Exact-nonzero is_zero z ne c = Consumes->>= _ _ c λ a used h q.
    Consumes-if (is_zero a) (λ e. Consumes-throw _ _)
      (λ e. Consumes-pure _ a ((q.0, ne a e), append-nil used ∙ q.1))

pub is_zero_ℕ-false : (v : ℕ) → is_zero_ℕ v ≡ false → v ≢ 0
is_zero_ℕ-false v h = ground arith

pub is_zero_ℤ-false : (v : ℤ) → is_zero_ℤ v ≡ false → v ≢ pos 0
is_zero_ℤ-false (pos n) h = ground arith
is_zero_ℤ-false (negsuc n) h = λ e. cc

pub Exact-float :
    (is_nan : ℕ → Bool) (size : ℕ)
    → Consumes
        (deserialize_float rd is_nan size)
        (Exactly (λ v. (v < 256 ^ size) × (is_nan v ≡ false)) (to_le_bytes size))
unfolding deserialize_float
Exact-float is_nan size = Consumes->>= _ _ (Consumes-read_bytes size) λ buf used h q.
    Consumes-if (is_nan (from_le_bytes buf)) (λ e. Consumes-throw _ _)
      λ e.
        let (lt, bytes) = buffer_bits size buf (subst Bytes q.0 h) q.1 in
        Consumes-pure _ (from_le_bytes buf) ((lt, e), append-nil used ∙ q.0 ∙ sym bytes)

-- A tag byte, and what each value of it leads to.
pub Exact-tag :
    {A : Type 0} {Q : List ℕ → A → Type 0} (f : ℕ → M (List ℕ) A)
    → ((b : ℕ) → Consumes (f b) (λ ys a. Q (b ∷ ys) a))
    → Consumes (deserialize_u8 rd >>= f) Q
Exact-tag {Q} f c =
    Consumes->>= Q f Exact-deserialize_u8
      λ b used h q. subst (λ (l : List ℕ). Consumes (f b) (λ ys a. Q (l ++ ys) a)) (sym q.1) (c b)

pub Exact-bool : Consumes (deserialize_bool rd) (Exactly (Valid bool) (encode bool))
unfolding deserialize_bool encode
Exact-bool = Exact-tag _ λ b.
    Consumes-if (b == 0) (λ e. Consumes-pure _ false (tt, ap (λ (n : ℕ). n ∷ []) (==→eq b 0 e)))
      (λ e.
        Consumes-if (b == 1) (λ e. Consumes-pure _ true (tt, ap (λ (n : ℕ). n ∷ []) (==→eq b 1 e)))
          (λ e. Consumes-throw _ _))
