-- ===== src/De.antt =====
-- borsh/src/de/mod.rs: the trait `BorshDeserialize` and the implementations for the types that
-- hold no other value. `rd` is the reader of the generic parameter `R: Read`.
pub mod Seq
pub mod Map
pub mod Ascending
pub mod Sorted
pub mod Simulate
pub mod Bulk
pub mod Laws
pub mod Consumes
pub mod Exact
pub mod Sum
pub mod Entry
pub mod Hint
use borsh_rs.Base.{
  ℕ, zero, suc, ◌+◌, ◌-◌, ◌*◌, ◌^◌, ◌≤◌, String, Bool, true, false, Option, none, some, List, [],
  ◌∷◌, ◌++◌, length, replicate, ltb, ◌==◌, if◌then◌else◌, min,
}
use borsh_rs.Io.{
  M, Read, Error, ErrorKind, Message, custom, invalid_data, unexpected_eof, msg, fmt, kind,
}
use borsh_rs.Io.{throw, pure, map_err_of, ◌>>=◌, ◌>>◌, and_then, Result, ok, err, out_of_fuel}
use borsh_rs.Num.{ℤ, from_le_bytes, of_pattern}
use borsh_rs.Ser.{is_nan_f32}

-- The last two are `Ok(None)` by default: the caller then reads item by item.
pub record BorshDeserialize (R A : Type 0) : Type 0 where
  pub deserialize_reader : M R A
  pub vec_from_reader : ℕ → M R (Option (List A))
  pub array_from_reader : ℕ → M R (Option (List A))

abbrev pub default_from_reader : {R A : Type 0} → ℕ → M R (Option (List A))
default_from_reader len r = (ok none, r)

abbrev pub invalid : String → Error
invalid text = custom invalid_data (msg text)

abbrev pub unexpected_length : Error
unexpected_length = invalid "Unexpected length of input"

abbrev pub is_eof : ErrorKind → Bool
is_eof unexpected_eof = true
is_eof _ = false

unfoldable pub unexpected_eof_to_unexpected_length_of_input : Error → Error
unfolding kind
unexpected_eof_to_unexpected_length_of_input e = if is_eof (kind e) then unexpected_length else e

module _ {R : Type 0} (rd : Read R) where
  -- `reader.read_exact(&mut buf).map_err(unexpected_eof_to_unexpected_length_of_input)?`
  unfoldable pub read_bytes : ℕ → M R (List ℕ)
  unfolding unexpected_eof_to_unexpected_length_of_input
  read_bytes n = map_err_of unexpected_eof_to_unexpected_length_of_input (rd.read_exact n)

  -- `u16` to `u128`, by the number of bytes. `u8` reads one byte and returns it.
  unfoldable pub deserialize_uint : ℕ → M R ℕ
  unfolding read_bytes
  deserialize_uint size = do buf ← read_bytes size; pure (from_le_bytes buf)

  unfoldable pub deserialize_int : ℕ → M R ℤ
  unfolding read_bytes
  deserialize_int size = do buf ← read_bytes size; pure (of_pattern size (from_le_bytes buf))

  abbrev first : List ℕ → ℕ
  first [] = 0
  first (b ∷ bs) = b

  unfoldable pub deserialize_u8 : M R ℕ
  unfolding read_bytes
  deserialize_u8 = do buf ← read_bytes 1; pure (first buf)

  -- `usize::try_from(u64)` and `isize::try_from(i64)` succeed on a 64-bit target.
  unfoldable pub deserialize_usize : M R ℕ
  unfolding deserialize_uint
  deserialize_usize = deserialize_uint 8

  unfoldable pub deserialize_isize : M R ℤ
  unfolding deserialize_int
  deserialize_isize = deserialize_int 8

  -- `NonZero::new(value).ok_or_else(…)`, for a type whose zero is told by `is_zero`.
  unfoldable pub deserialize_nonzero : {A : Type 0} → (A → Bool) → M R A → M R A
  deserialize_nonzero is_zero deserialize = do
    v ← deserialize
    if is_zero v then throw (invalid "Expected a non-zero value") else pure v

  unfoldable pub deserialize_float : (ℕ → Bool) → ℕ → M R ℕ
  unfolding read_bytes
  deserialize_float is_nan size = do
    buf ← read_bytes size
    let bits = from_le_bytes buf
    if is_nan bits
        then throw (invalid "For portability reasons we do not allow to deserialize NaNs.")
        else pure bits

  unfoldable pub deserialize_bool : M R Bool
  unfolding deserialize_u8
  deserialize_bool = do
    b ← deserialize_u8
    if b == 0
        then pure false
        else if b == 1
        then pure true
        else throw (custom invalid_data (fmt "Invalid bool representation: " b ""))

  unfoldable pub deserialize_unit : M R (Unit {0})
  deserialize_unit = pure tt
