-- ===== src/Types/Canonical.antt =====
-- The implementation that each type has accepts only the bytes that stand for the value it returns.
mod Scalars
mod Sums
use borsh_rs.Base.{
  ℕ, suc, ◌+◌, ◌^◌, ◌<◌, ◌≡◌, ◌≢◌, refl, sym, ap, ap₂, ◌∙◌, subst, Bool, true, false, none, some,
  List, [], ◌∷◌, ◌++◌, inl, inr, All, arith, length, ◌==◌, if◌then◌else◌, append-nil, Option, ==→eq,
  append_assoc,
}
use mathlib.Core.Option.{some-injective}
use borsh_rs.Io.{M, ok, pure, ◌>>=◌, throw}
use borsh_rs.Io.Slice.{slice_reader}
use borsh_rs.Num.{
  ℤ, pos, negsuc, Bytes, to_le_bytes, from_le_bytes, to_pattern, of_pattern, InRange,
  to_le_bytes-byte, from_le_bytes-lt, to_le_bytes-from_le_bytes, of_pattern-InRange,
  to_pattern-of_pattern,
}
use borsh_rs.Ser.SeqLaws.{encode_each-byte}
use borsh_rs.Ser.Sum.{IpAddr, SocketAddrV4, SocketAddrV6, SocketAddr}
use borsh_rs.Utf8.{is_utf8}
use borsh_rs.De.{
  BorshDeserialize, deserialize_u8, deserialize_uint, deserialize_usize, deserialize_int,
  deserialize_isize, deserialize_nonzero, deserialize_float, deserialize_bool, deserialize_unit,
}
use borsh_rs.De.Seq.{deserialize_string, u8_deserialize}
use borsh_rs.De.Sum.{
  deserialize_option, deserialize_result, deserialize_pair, deserialize_octets, deserialize_ip_addr,
  deserialize_socket_addr_v4, deserialize_socket_addr_v6, deserialize_socket_addr,
}
use borsh_rs.De.Consumes.{
  Consumed, Consumes, Consumes->>=, Consumes-pure, Consumes-throw, Consumes-map, Consumes-if,
  Consumes-read_bytes,
}
use borsh_rs.De.Exact.{
  Exactly, Consumes_mono, Items, BulkItems, IsExact, Exact-deserialize_u8, Exact-deserialize_uint,
  Exact-deserialize_vec, Exact-deserialize_array, Exact-u8_vec_from_reader,
  Exact-u8_array_from_reader,
}
use borsh_rs.Types.{
  Ty, ⟦◌⟧, size_of, unsigned_size, signed_size, Unsigned, u8, u16, u32, u64, u128, usize, Signed,
  i8, i16, i32, i64, i128, isize, unsigned, signed, nonzero_unsigned, nonzero_signed, signed_of,
  f32, f64, bool, string, unit, option, result, vec, linked_list, array, pair, boxed, cell,
  ipv4_addr, ipv6_addr, ip_addr, socket_addr_v4, socket_addr_v6, socket_addr,
}
use borsh_rs.Types.Spec.{
  Valid, encode, encode_each, encode_socket_addr_v4, encode_socket_addr_v6, encode_ip_addr,
  encode_socket_addr, IsIpAddr, IsSocketAddrV4, IsSocketAddrV6, IsSocketAddr, FitsU32,
}
use borsh_rs.Types.Spec.{IsOctets}
use borsh_rs.Types.Encode.{encode_each-to_le_bytes}
use borsh_rs.Types.Dispatch.{
  deserialize_of, deserialize_unsigned, deserialize_signed, plain_reader, is_zero_ℕ, is_zero_ℤ,
}
use Scalars.{
  Exact-unsigned, signed_bytes, buffer_bits, Exact-int, Exact-signed, Exact-nonzero,
  is_zero_ℕ-false, is_zero_ℤ-false, Exact-float, Exact-tag, Exact-bool,
}
use Sums.{
  Exact-option, Exact-result, Exact-pair, Exact-IsOctets, Exact-IsIpAddr, Exact-IsSocketAddrV4,
  Exact-IsSocketAddrV6, Exact-IsSocketAddr,
}

abbrev rd : borsh_rs.Io.Read (List ℕ)
rd = slice_reader

-- Bytes read at once are items, where an item's encoding is its byte.
bulk-Bytes :
    (n : ℕ) (o : Option (List ℕ)) (used : List ℕ)
    → Bytes used
    → (xs : List ℕ) × (o ≡ some xs) × (used ≡ xs) × (length xs ≡ n)
    → BulkItems (λ v. v < 256) (to_le_bytes 1) n used o
bulk-Bytes n none used h (xs, o, u, l) = cc
bulk-Bytes n (some ys) used h (xs, o, u, l) =
    let same : ys ≡ used = some-injective ys xs o ∙ sym u in
    (
      ap length (same ∙ u) ∙ l,
      subst Bytes (sym same) h,
      sym (encode_each-to_le_bytes ys (subst Bytes (sym same) h) ∙ same),
    )

-- A type without bulk methods.
plain-IsExact :
    {A : Type 0} {P : A → Type 0} {enc : A → List ℕ} {d : M (List ℕ) A}
    → Consumes d (Exactly P enc)
    → IsExact P enc (plain_reader rd d)
plain-IsExact c = record {
  item = c;
  vec_bulk = λ n z h. Consumes-pure _ none refl;
  array_bulk = λ n. Consumes-pure _ none refl;
}

Exact-string : Consumes (deserialize_string rd) (Exactly (Valid string) (encode string))
unfolding deserialize_string encode
Exact-string =
    Consumes->>= _ _
      (Exact-deserialize_vec (λ v. v < 256) (λ b. b ∷ []) (u8_deserialize rd) u8_bytes 1)
      λ s used h q.
        Consumes-if (is_utf8 s)
          (λ e. Consumes-pure _ s (
            (q.0.2, q.0.1, e),
            append-nil used
                ∙ q.1
                ∙ ap (λ (l : List ℕ). to_le_bytes 4 (length s) ++ l) (encode_each-byte s),
          ))
          (λ e. Consumes-throw _ _)
  where
    as_bytes :
        (n : ℕ) (o : Option (List ℕ)) (used : List ℕ)
        → BulkItems (λ v. v < 256) (to_le_bytes 1) n used o
        → BulkItems (λ v. v < 256) (λ b. b ∷ []) n used o
    as_bytes n none used q = q
    as_bytes n (some xs) used q =
        (q.0, q.1, q.2 ∙ encode_each-to_le_bytes xs q.1 ∙ sym (encode_each-byte xs))

    u8_bytes : IsExact (λ v. v < 256) (λ b. b ∷ []) (u8_deserialize rd)
    u8_bytes = record {
      item = Exact-deserialize_u8;
      vec_bulk = λ n z h.
          Consumes_mono (Exact-u8_vec_from_reader n z h)
            λ o used hu q. as_bytes n o used (bulk-Bytes n o used hu q);
      array_bulk = λ n.
          Consumes_mono (Exact-u8_array_from_reader n)
            λ o used hu q. as_bytes n o used (bulk-Bytes n o used hu q);
    }

-- Every implementation accepts exactly the encodings of valid values, in bulk too.
pub deserialize_of-IsExact : (t : Ty) → IsExact (Valid t) (encode t) (deserialize_of rd t)
unfolding deserialize_of encode
deserialize_of-IsExact (unsigned u8) = record {
  item = unfold deserialize_unsigned in Exact-unsigned u8;
  vec_bulk = λ n z h.
      Consumes_mono (Exact-u8_vec_from_reader n z h) λ o used hu q. bulk-Bytes n o used hu q;
  array_bulk =
      λ n. Consumes_mono (Exact-u8_array_from_reader n) λ o used hu q. bulk-Bytes n o used hu q;
}
deserialize_of-IsExact (unsigned u) = plain-IsExact (Exact-unsigned _)
deserialize_of-IsExact (signed i) = plain-IsExact (Exact-signed i)
deserialize_of-IsExact (nonzero_unsigned u) =
    plain-IsExact (Exact-nonzero is_zero_ℕ 0 is_zero_ℕ-false (Exact-unsigned u))
deserialize_of-IsExact (nonzero_signed i) =
    plain-IsExact (Exact-nonzero is_zero_ℤ (pos 0) is_zero_ℤ-false (Exact-signed (signed_of i)))
deserialize_of-IsExact f32 = plain-IsExact (Exact-float _ 4)
deserialize_of-IsExact f64 = plain-IsExact (Exact-float _ 8)
deserialize_of-IsExact bool = plain-IsExact Exact-bool
deserialize_of-IsExact string = plain-IsExact Exact-string
deserialize_of-IsExact unit =
    plain-IsExact (unfold deserialize_unit in Consumes-pure _ tt (tt, refl))
deserialize_of-IsExact (option t) = plain-IsExact (Exact-option t (deserialize_of-IsExact t).item)
deserialize_of-IsExact (result t e) =
    plain-IsExact (Exact-result t (deserialize_of-IsExact t).item e (deserialize_of-IsExact e).item)
deserialize_of-IsExact (vec t) = plain-IsExact (
    Exact-deserialize_vec (Valid t) (encode t) (deserialize_of rd t) (deserialize_of-IsExact t)
      (size_of t))
deserialize_of-IsExact (linked_list t) = plain-IsExact (
    Exact-deserialize_vec (Valid t) (encode t) (deserialize_of rd t) (deserialize_of-IsExact t)
      (size_of t))
deserialize_of-IsExact (array t n) = plain-IsExact (
    Exact-deserialize_array (Valid t) (encode t) (deserialize_of rd t) (deserialize_of-IsExact t) n)
deserialize_of-IsExact (pair t u) =
    plain-IsExact (Exact-pair t (deserialize_of-IsExact t).item u (deserialize_of-IsExact u).item)
deserialize_of-IsExact (boxed t) = plain-IsExact (deserialize_of-IsExact t).item
deserialize_of-IsExact (cell t) = plain-IsExact (deserialize_of-IsExact t).item
deserialize_of-IsExact ipv4_addr = plain-IsExact (Exact-IsOctets 4)
deserialize_of-IsExact ipv6_addr = plain-IsExact (Exact-IsOctets 16)
deserialize_of-IsExact ip_addr = plain-IsExact Exact-IsIpAddr
deserialize_of-IsExact socket_addr_v4 = plain-IsExact Exact-IsSocketAddrV4
deserialize_of-IsExact socket_addr_v6 = plain-IsExact Exact-IsSocketAddrV6
deserialize_of-IsExact socket_addr = plain-IsExact Exact-IsSocketAddr
