-- ===== src/Ser/Seq.antt =====
-- borsh/src/ser/mod.rs: slices, `Vec`, `VecDeque`, `LinkedList`, arrays and strings.
use borsh_rs.Base.{
  ℕ, zero, suc, ◌+◌, ◌^◌, Option, none, some, List, [], ◌∷◌, length, ltb, if◌then◌else◌,
}
use borsh_rs.Io.{M, Write, simple, invalid_data, throw, pure, ◌>>=◌, ◌>>◌}
use borsh_rs.Num.{to_le_bytes}
use borsh_rs.Ser.{BorshSerialize, check_zst, serialize_u8}

module _ {W : Type 0} (w : Write W) where
  -- `u32::try_from(len).map_err(|_| ErrorKind::InvalidData)?`
  unfoldable pub len_to_u32 : ℕ → M W ℕ
  len_to_u32 len = if ltb len (2 ^ 32) then pure len else throw (simple invalid_data)

  -- The four bytes of the length that stand before the items.
  unfoldable pub write_len : ℕ → M W (Unit {0})
  unfolding len_to_u32
  write_len len = do n ← len_to_u32 len; w.write_all (to_le_bytes 4 n)

  module _ {A : Type 0} where
    -- `for item in data { item.serialize(writer)?; }`
    unfoldable pub serialize_each : (A → M W (Unit {0})) → List A → M W (Unit {0})
    serialize_each serialize [] = pure tt
    serialize_each serialize (x ∷ xs) = serialize x >> serialize_each serialize xs

    -- The items at once where they are bytes, and else one by one.
    unfoldable pub serialize_items :
        Option (List ℕ) → (A → M W (Unit {0})) → List A → M W (Unit {0})
    serialize_items (some bytes) serialize xs = w.write_all bytes
    serialize_items none serialize xs = serialize_each serialize xs

    unfoldable pub serialize_slice : BorshSerialize W A → List A → M W (Unit {0})
    unfolding serialize_items serialize_each
    serialize_slice s xs = serialize_items (s.u8_slice xs) s.serialize xs

    -- `impl BorshSerialize for [T]`
    unfoldable pub serialize_unsized : BorshSerialize W A → List A → M W (Unit {0})
    unfolding write_len serialize_slice
    serialize_unsized s xs = do write_len (length xs); serialize_slice s xs

    -- `impl BorshSerialize for Vec<T>`, of the size of `T`.
    unfoldable pub serialize_vec : ℕ → BorshSerialize W A → List A → M W (Unit {0})
    unfolding check_zst serialize_unsized
    serialize_vec size_of s xs = do check_zst size_of; serialize_unsized s xs

    -- `VecDeque`: the two slices of the ring buffer, one after the other.
    unfoldable pub serialize_vec_deque : ℕ → BorshSerialize W A → List A → List A → M W (Unit {0})
    unfolding check_zst write_len serialize_slice
    serialize_vec_deque size_of s front back = do
      check_zst size_of
      write_len (length front + length back)
      serialize_slice s front
      serialize_slice s back

    -- `LinkedList`, and the items of `IndexSet`, `BTreeSet` and a sorted `HashSet`.
    unfoldable pub serialize_counted : ℕ → (A → M W (Unit {0})) → List A → M W (Unit {0})
    unfolding check_zst write_len serialize_each
    serialize_counted size_of serialize xs = do
      check_zst size_of
      write_len (length xs)
      serialize_each serialize xs

    -- `impl BorshSerialize for [T; N]`
    unfoldable pub serialize_array : ℕ → BorshSerialize W A → List A → M W (Unit {0})
    unfolding serialize_items serialize_each
    serialize_array zero s xs = pure tt
    serialize_array (suc n) s xs = serialize_items (s.u8_slice xs) s.serialize xs

  -- `impl BorshSerialize for u8` as the trait's record.
  abbrev pub u8_serialize : BorshSerialize W ℕ
  u8_serialize = record { serialize = serialize_u8 w; u8_slice = λ xs. some xs }

  -- `str` and `String`: `as_bytes().serialize(writer)`.
  unfoldable pub serialize_string : List ℕ → M W (Unit {0})
  unfolding serialize_unsized serialize_u8
  serialize_string s = serialize_unsized u8_serialize s
