-- ===== src/De/Seq.antt =====
-- borsh/src/de/mod.rs: `Vec`, the sequences that are read as a `Vec`, arrays and strings.
use borsh_rs.Base.{
  ℕ, zero, suc, ◌-◌, ◌*◌, Option, none, some, List, [], ◌∷◌, ◌++◌, length, replicate, ltb, ◌==◌,
  if◌then◌else◌, min,
}
use borsh_rs.Io.{M, Read, custom, invalid_data, from_display, throw, pure, ◌>>=◌, ◌>>◌, out_of_fuel}
use borsh_rs.Io.Sink.{usize_max}
use borsh_rs.Ser.{check_zst}
use borsh_rs.De.{BorshDeserialize, read_bytes, deserialize_uint, deserialize_u8}
use borsh_rs.De.{unexpected_length}
use borsh_rs.Utf8.{is_utf8}

-- `vec.resize(vec.len().saturating_mul(2).min(len), 0)` once the vector is full: its new length.
unfoldable pub resize : ℕ → ℕ → ℕ → ℕ
resize pos vec_len len = if pos == vec_len then min (min (vec_len * 2) usize_max) len else vec_len

module _ {R : Type 0} (rd : Read R) where
  -- The loop of `u8::vec_from_reader`. `vec_len` is the length of the vector, and `bytes` its
  -- first `pos` bytes, which are read; the rest is zeros.
  unfoldable pub vec_from_reader_loop : ℕ → ℕ → ℕ → List ℕ → M R (List ℕ)
  vec_from_reader_loop zero len vec_len bytes r = (out_of_fuel, r)
  vec_from_reader_loop (suc fuel) len vec_len bytes r =
      let resized = resize (length bytes) vec_len len in
      let round = (do
        read ← rd.read (resized - length bytes)
        if length read == 0
            then throw unexpected_length
            else vec_from_reader_loop fuel len resized (bytes ++ read)) in
      if ltb (length bytes) len
      then round r
      else pure (bytes ++ replicate (vec_len - length bytes) 0) r

  -- Each round reads a byte at least, so `len + 1` rounds are enough.
  unfoldable pub u8_vec_from_reader : ℕ → M R (Option (List ℕ))
  unfolding vec_from_reader_loop
  u8_vec_from_reader len = do
    vec ← vec_from_reader_loop (suc len) len (min len (1024 * 1024)) []
    pure (some vec)

  unfoldable pub u8_array_from_reader : ℕ → M R (Option (List ℕ))
  unfolding read_bytes
  u8_array_from_reader n = do arr ← read_bytes rd n; pure (some arr)

  abbrev pub u8_deserialize : BorshDeserialize R ℕ
  u8_deserialize = record {
    deserialize_reader = deserialize_u8 rd;
    vec_from_reader = u8_vec_from_reader;
    array_from_reader = u8_array_from_reader;
  }

  module _ {A : Type 0} where
    -- `for _ in 0..len { result.push(T::deserialize_reader(reader)?); }`
    unfoldable pub deserialize_each : M R A → ℕ → M R (List A)
    deserialize_each deserialize zero = pure []
    deserialize_each deserialize (suc n) = do
      x ← deserialize
      xs ← deserialize_each deserialize n
      pure (x ∷ xs)

    unfoldable pub items_or_each : M R A → ℕ → Option (List A) → M R (List A)
    items_or_each deserialize len (some xs) = pure xs
    items_or_each deserialize len none = deserialize_each deserialize len

    -- The items of a `Vec`, once its length is read. `hint::cautious`, which divides by the size of an
    -- item as a u32 for the first capacity, is left out, with its panic at a multiple of 2^32 bytes.
    unfoldable pub vec_items : BorshDeserialize R A → ℕ → M R (List A)
    unfolding items_or_each deserialize_each
    vec_items d len =
        if len == 0
        then pure []
        else do xs ← d.vec_from_reader len; items_or_each d.deserialize_reader len xs

    -- `impl BorshDeserialize for Vec<T>`, of the size of `T`.
    unfoldable pub deserialize_vec : ℕ → BorshDeserialize R A → M R (List A)
    unfolding check_zst deserialize_uint vec_items
    deserialize_vec size_of d = do check_zst size_of; len ← deserialize_uint rd 4; vec_items d len

    -- `impl BorshDeserialize for [T; N]`; `fill_buffer` is the loop over the array's places.
    unfoldable pub deserialize_array : ℕ → BorshDeserialize R A → M R (List A)
    unfolding items_or_each deserialize_each
    deserialize_array n d = do xs ← d.array_from_reader n; items_or_each d.deserialize_reader n xs

  unfoldable pub deserialize_string : M R (List ℕ)
  unfolding deserialize_vec deserialize_u8 u8_vec_from_reader u8_array_from_reader
  deserialize_string = do
    bytes ← deserialize_vec 1 u8_deserialize
    if is_utf8 bytes then pure bytes else throw (custom invalid_data from_display)
