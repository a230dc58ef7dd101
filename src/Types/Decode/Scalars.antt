-- ===== src/Types/Decode/Scalars.antt =====
-- Numbers, floats, `bool` and strings, of borsh/src/de/mod.rs, read back.
use borsh_rs.Base.{
  ℕ, ◌^◌, ◌<◌, ◌≡◌, ◌≢◌, refl, ap, ◌∙◌, subst, Bool, true, false, List, [], ◌∷◌, ◌++◌, arith,
}
use borsh_rs.Io.{M, ok, pure, ◌>>=◌, custom, invalid_data, fmt, throw}
use borsh_rs.Io.Slice.{slice_reader}
use borsh_rs.Num.{
  ℤ, pos, negsuc, to_le_bytes, from_le_bytes, to_pattern, of_pattern, InRange, to_le_bytes-byte,
  length-to_le_bytes, from_le_bytes-to_le_bytes, of_pattern-to_pattern, to_pattern-lt,
}
use borsh_rs.Ser.SeqLaws.{encode_each-byte}
use borsh_rs.De.{
  deserialize_usize, deserialize_int, deserialize_isize, deserialize_nonzero, deserialize_float,
  deserialize_bool,
}
use borsh_rs.De.Seq.{deserialize_string, u8_deserialize}
use borsh_rs.De.Laws.{
  Reads, Reads-map, Reads-read_bytes, Reads-deserialize_u8, Reads-deserialize_uint, IsDecoder,
  at_once, Reads-deserialize_vec, Reads-u8_vec_from_reader, Reads-u8_array_from_reader,
}
use borsh_rs.Types.{
  unsigned_size, signed_size, Unsigned, u8, u16, u32, u64, u128, usize, Signed, i8, i16, i32, i64,
  i128, isize, bool, string,
}
use borsh_rs.Types.Spec.{Valid, encode}
use borsh_rs.Types.Dispatch.{deserialize_unsigned, deserialize_signed, is_zero_ℕ, is_zero_ℤ}

abbrev rd : borsh_rs.Io.Read (List ℕ)
rd = slice_reader

pub Reads-unsigned :
    (u : Unsigned) (v : ℕ)
    → v < 256 ^ unsigned_size u
    → Reads (deserialize_unsigned rd u) (to_le_bytes (unsigned_size u) v) v
unfolding deserialize_unsigned deserialize_usize
Reads-unsigned u8 v h = rw (to_le_bytes-byte v h) (Reads-deserialize_u8 v)
Reads-unsigned u16 v h = Reads-deserialize_uint 2 v h
Reads-unsigned u32 v h = Reads-deserialize_uint 4 v h
Reads-unsigned u64 v h = Reads-deserialize_uint 8 v h
Reads-unsigned u128 v h = Reads-deserialize_uint 16 v h
Reads-unsigned usize v h = Reads-deserialize_uint 8 v h

pub Reads-int :
    (size : ℕ) (v : ℤ)
    → 0 < size
    → InRange size v
    → Reads (deserialize_int rd size) (to_le_bytes size (to_pattern size v)) v
unfolding deserialize_int
Reads-int size v z h =
    let bits = from_le_bytes-to_le_bytes size (to_pattern size v) (to_pattern-lt size v z h) in
    subst (λ (x : ℤ). Reads (deserialize_int rd size) (to_le_bytes size (to_pattern size v)) x)
      (ap (of_pattern size) bits ∙ of_pattern-to_pattern size v z h)
      (Reads-map (λ l. of_pattern size (from_le_bytes l))
        (Reads-read_bytes size _ (length-to_le_bytes size _)))

pub Reads-signed :
    (i : Signed) (v : ℤ)
    → InRange (signed_size i) v
    → Reads (deserialize_signed rd i) (to_le_bytes (signed_size i) (to_pattern (signed_size i) v)) v
unfolding deserialize_signed deserialize_isize
Reads-signed i8 v h = Reads-int 1 v (omega arith) h
Reads-signed i16 v h = Reads-int 2 v (omega arith) h
Reads-signed i32 v h = Reads-int 4 v (omega arith) h
Reads-signed i64 v h = Reads-int 8 v (omega arith) h
Reads-signed i128 v h = Reads-int 16 v (omega arith) h
Reads-signed isize v h = Reads-int 8 v (omega arith) h

pub Reads-nonzero :
    {A : Type 0} (is_zero : A → Bool) {d : M (List ℕ) A} {xs : List ℕ} {a : A}
    → is_zero a ≡ false
    → Reads d xs a
    → Reads (deserialize_nonzero rd is_zero d) xs a
unfolding deserialize_nonzero
Reads-nonzero is_zero h r = record { from = λ rest. rw (r.from rest, h) }

pub is_zero_ℕ-ne : (v : ℕ) → v ≢ 0 → is_zero_ℕ v ≡ false
is_zero_ℕ-ne v h = ground arith

pub is_zero_ℤ-ne : (v : ℤ) → v ≢ pos 0 → is_zero_ℤ v ≡ false
is_zero_ℤ-ne (pos n) h = is_zero_ℕ-ne n (λ e. h (ap pos e))
is_zero_ℤ-ne (negsuc n) h = refl

pub Reads-float :
    (is_nan : ℕ → Bool) (size bits : ℕ)
    → bits < 256 ^ size
    → is_nan bits ≡ false
    → Reads (deserialize_float rd is_nan size) (to_le_bytes size bits) bits
unfolding deserialize_float
Reads-float is_nan size bits h n = record {
  from = λ rest. rw (
    (Reads-read_bytes size (to_le_bytes size bits) (length-to_le_bytes size bits)).from rest,
    from_le_bytes-to_le_bytes size bits h,
    n,
  );
}

pub Reads-bool : (b : Bool) → Reads (deserialize_bool rd) (encode bool b) b
unfolding deserialize_bool encode
Reads-bool true = record { from = λ rest. rw ((Reads-deserialize_u8 1).from rest) }
Reads-bool false = record { from = λ rest. rw ((Reads-deserialize_u8 0).from rest) }

-- `u8`, with its bulk methods.
pub u8_deserialize-IsDecoder : IsDecoder (λ b. b < 256) (λ b. b ∷ []) (u8_deserialize rd)
u8_deserialize-IsDecoder = record {
  item = λ b h. Reads-deserialize_u8 b;
  vec_bulk =
      λ xs z n h. at_once (rw (encode_each-byte xs) (Reads-u8_vec_from_reader xs z (omega arith)));
  array_bulk = λ xs h. at_once (rw (encode_each-byte xs) (Reads-u8_array_from_reader xs));
}

pub Reads-string : (s : List ℕ) → Valid string s → Reads (deserialize_string rd) (encode string s) s
unfolding deserialize_string encode
Reads-string s h = record { from = go }
  where
    go : (rest : List ℕ) → deserialize_string rd (encode string s ++ rest) ≡ (ok s, rest)
    go rest = rw (
      (rw (encode_each-byte s) at
            (Reads-deserialize_vec u8_deserialize-IsDecoder 1 s (omega arith) h.1 h.0)).from
          rest,
      h.2,
    )
