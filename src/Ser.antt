-- ===== src/Ser.antt =====
-- borsh/src/ser/mod.rs and borsh/src/error.rs: the trait `BorshSerialize` and the implementations
-- for the types that hold no other value. `w` is the writer of the generic parameter `W: Write`.
pub mod Seq
pub mod Map
pub mod Sorted
pub mod Sum
pub mod Laws
pub mod Helpers
pub mod SeqLaws
use borsh_rs.Base.{
  ℕ, ◌+◌, ◌*◌, ◌^◌, ◌%◌, Bool, true, false, Option, none, some, List, [], ◌∷◌, length, ltb, ◌==◌,
  if◌then◌else◌,
}
use borsh_rs.Io.{M, Write, Error, custom, invalid_data, msg, throw, pure}
use borsh_rs.Num.{ℤ, to_le_bytes, to_pattern}

-- `u8_slice` is `Some` for the type whose values are bytes, and `None` by default.
pub record BorshSerialize (W A : Type 0) : Type 0 where
  pub serialize : A → M W (Unit {0})
  pub u8_slice : List A → Option (List ℕ)

abbrev pub no_u8_slice : {A : Type 0} → List A → Option (List ℕ)
no_u8_slice xs = none

abbrev pub zst_forbidden : Error
zst_forbidden = custom invalid_data (
    msg
      "Collections of zero-sized types are not allowed due to deny-of-service concerns on deserialization.")

-- `check_zst::<T>()`, of the size of `T`.
unfoldable pub check_zst : {S : Type 0} → ℕ → M S (Unit {0})
check_zst size_of = if size_of == 0 then throw zst_forbidden else pure tt

abbrev pub nan_forbidden : Error
nan_forbidden =
    custom invalid_data (msg "For portability reasons we do not allow to serialize NaNs.")

-- A float is its bit pattern. It is a NaN if the exponent is all ones and the mantissa is not 0.
unfoldable pub is_nan_f32 : ℕ → Bool
is_nan_f32 bits = ltb 0x7f80_0000 (bits % 0x8000_0000)

unfoldable pub is_nan_f64 : ℕ → Bool
is_nan_f64 bits = ltb 0x7ff0_0000_0000_0000 (bits % 0x8000_0000_0000_0000)

module _ {W : Type 0} (w : Write W) where
  unfoldable pub serialize_u8 : ℕ → M W (Unit {0})
  serialize_u8 v = w.write_all (v ∷ [])

  -- `u16` to `u128`, by the number of bytes.
  unfoldable pub serialize_uint : ℕ → ℕ → M W (Unit {0})
  serialize_uint size v = w.write_all (to_le_bytes size v)

  -- `i8` to `i128`.
  unfoldable pub serialize_int : ℕ → ℤ → M W (Unit {0})
  serialize_int size v = w.write_all (to_le_bytes size (to_pattern size v))

  -- `self as u64` and `self as i64` on a 64-bit target.
  unfoldable pub serialize_usize : ℕ → M W (Unit {0})
  unfolding serialize_uint
  serialize_usize v = serialize_uint 8 v

  unfoldable pub serialize_isize : ℤ → M W (Unit {0})
  unfolding serialize_int
  serialize_isize v = serialize_int 8 v

  -- `NonZero`: the value that `get()` returns is serialized.
  unfoldable pub serialize_nonzero : {A : Type 0} → (A → M W (Unit {0})) → A → M W (Unit {0})
  serialize_nonzero serialize v = serialize v

  unfoldable pub serialize_float : (ℕ → Bool) → ℕ → ℕ → M W (Unit {0})
  serialize_float is_nan size bits =
      if is_nan bits then throw nan_forbidden else w.write_all (to_le_bytes size bits)

  unfoldable pub serialize_bool : Bool → M W (Unit {0})
  unfolding serialize_u8
  serialize_bool b = serialize_u8 (if b then 1 else 0)

  -- `()`, `RangeFull` and `PhantomData<T>` write nothing.
  unfoldable pub serialize_unit : M W (Unit {0})
  serialize_unit = pure tt
