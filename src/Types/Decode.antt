-- ===== src/Types/Decode.antt =====
-- The implementation that each type has, reading a value back from the bytes that stand for it.
mod Scalars
mod Sums
use borsh_rs.Base.{
  ℕ, ◌^◌, ◌<◌, ◌≡◌, ◌≢◌, refl, sym, ap, ◌∙◌, subst, Bool, true, false, none, some, List, [], ◌∷◌,
  ◌++◌, inl, inr, arith, length,
}
use borsh_rs.Io.{M, ok, pure, ◌>>=◌, custom, invalid_data, fmt, throw}
use borsh_rs.Io.Slice.{slice_reader}
use borsh_rs.Num.{
  ℤ, pos, negsuc, to_le_bytes, from_le_bytes, to_pattern, of_pattern, InRange, to_le_bytes-byte,
  length-to_le_bytes, from_le_bytes-to_le_bytes, of_pattern-to_pattern, to_pattern-lt,
}
use borsh_rs.Ser.SeqLaws.{encode_each-byte}
use borsh_rs.Ser.Sum.{IpAddr, SocketAddrV4, SocketAddrV6, SocketAddr}
use borsh_rs.De.{
  deserialize_u8, deserialize_usize, deserialize_int, deserialize_isize, deserialize_nonzero,
  deserialize_float, deserialize_bool, deserialize_unit,
}
use borsh_rs.De.Seq.{deserialize_string, u8_deserialize}
use borsh_rs.De.Sum.{
  deserialize_option, deserialize_result, deserialize_pair, deserialize_octets, deserialize_ip_addr,
  deserialize_socket_addr_v4, deserialize_socket_addr_v6, deserialize_socket_addr,
}
use borsh_rs.De.Laws.{
  Reads, Reads-pure, Reads->>=, Reads-map, Reads-read_bytes, Reads-deserialize_u8,
  Reads-deserialize_uint, IsDecoder, at_once, one_by_one, Reads-deserialize_vec,
  Reads-deserialize_array, Reads-u8_vec_from_reader, Reads-u8_array_from_reader,
}
use borsh_rs.Types.{
  Ty, ⟦◌⟧, size_of, unsigned_size, signed_size, Unsigned, u8, u16, u32, u64, u128, usize, Signed,
  i8, i16, i32, i64, i128, isize, unsigned, signed, nonzero_unsigned, nonzero_signed, signed_of,
  f32, f64, bool, string, unit, option, result, vec, linked_list, array, pair, boxed, cell,
  ipv4_addr, ipv6_addr, ip_addr, socket_addr_v4, socket_addr_v6, socket_addr,
}
use borsh_rs.Types.Spec.{
  Valid, encode, encode_socket_addr_v4, encode_socket_addr_v6, encode_ip_addr, encode_socket_addr,
  IsIpAddr, IsSocketAddrV4, IsSocketAddrV6, IsSocketAddr,
}
use borsh_rs.Types.Encode.{encode_each-to_le_bytes}
use borsh_rs.Types.Dispatch.{
  deserialize_of, deserialize_unsigned, deserialize_signed, plain_reader, is_zero_ℕ, is_zero_ℤ,
}
use Scalars.{
  is_zero_ℕ-ne, is_zero_ℤ-ne, u8_deserialize-IsDecoder, Reads-unsigned, Reads-int, Reads-signed,
  Reads-nonzero, Reads-float, Reads-bool, Reads-string,
}
use Sums.{
  Reads-tag, Reads-option, Reads-result, Reads-pair, Reads-octets, Reads-ip_addr,
  Reads-socket_addr_v4, Reads-socket_addr_v6, Reads-socket_addr,
}

abbrev rd : borsh_rs.Io.Read (List ℕ)
rd = slice_reader

-- A type without bulk methods.
plain-IsDecoder :
    {A : Type 0} {P : A → Type 0} {enc : A → List ℕ} {d : M (List ℕ) A}
    → ((a : A) → P a → Reads d (enc a) a)
    → IsDecoder P enc (plain_reader rd d)
plain-IsDecoder item = record {
  item = item;
  vec_bulk = λ xs z n h. one_by_one (record { from = λ rest. refl });
  array_bulk = λ xs h. one_by_one (record { from = λ rest. refl });
}

-- Every implementation reads back what the encoding of a value says, in bulk too.
pub deserialize_of-IsDecoder : (t : Ty) → IsDecoder (Valid t) (encode t) (deserialize_of rd t)
unfolding deserialize_of encode
deserialize_of-IsDecoder (unsigned u8) = record {
  item = λ v h. unfold deserialize_unsigned in Reads-unsigned u8 v h;
  vec_bulk = λ xs z n h.
      at_once (rw (encode_each-to_le_bytes xs h) (Reads-u8_vec_from_reader xs z (omega arith)));
  array_bulk = λ xs h. at_once (rw (encode_each-to_le_bytes xs h) (Reads-u8_array_from_reader xs));
}
deserialize_of-IsDecoder (unsigned u) = plain-IsDecoder (λ v h. Reads-unsigned _ v h)
deserialize_of-IsDecoder (signed i) = plain-IsDecoder (Reads-signed i)
deserialize_of-IsDecoder (nonzero_unsigned u) =
    plain-IsDecoder (λ v h. Reads-nonzero is_zero_ℕ (is_zero_ℕ-ne v h.1) (Reads-unsigned u v h.0))
deserialize_of-IsDecoder (nonzero_signed i) =
    plain-IsDecoder
      (λ v h. Reads-nonzero is_zero_ℤ (is_zero_ℤ-ne v h.1) (Reads-signed (signed_of i) v h.0))
deserialize_of-IsDecoder f32 = plain-IsDecoder (λ v h. Reads-float _ 4 v h.0 h.1)
deserialize_of-IsDecoder f64 = plain-IsDecoder (λ v h. Reads-float _ 8 v h.0 h.1)
deserialize_of-IsDecoder bool = plain-IsDecoder (λ v h. Reads-bool v)
deserialize_of-IsDecoder string = plain-IsDecoder Reads-string
deserialize_of-IsDecoder unit = plain-IsDecoder (λ v h. unfold deserialize_unit in Reads-pure tt)
deserialize_of-IsDecoder (option t) =
    plain-IsDecoder (Reads-option t (deserialize_of-IsDecoder t).item)
deserialize_of-IsDecoder (result t e) =
    plain-IsDecoder
      (Reads-result t (deserialize_of-IsDecoder t).item e (deserialize_of-IsDecoder e).item)
deserialize_of-IsDecoder (vec t) =
    plain-IsDecoder
      (λ v h. Reads-deserialize_vec (deserialize_of-IsDecoder t) (size_of t) v h.0 h.1 h.2)
deserialize_of-IsDecoder (linked_list t) =
    plain-IsDecoder
      (λ v h. Reads-deserialize_vec (deserialize_of-IsDecoder t) (size_of t) v h.0 h.1 h.2)
deserialize_of-IsDecoder (array t n) =
    plain-IsDecoder (λ v h. Reads-deserialize_array (deserialize_of-IsDecoder t) n v h.0 h.1)
deserialize_of-IsDecoder (pair t u) =
    plain-IsDecoder
      (Reads-pair t (deserialize_of-IsDecoder t).item u (deserialize_of-IsDecoder u).item)
deserialize_of-IsDecoder (boxed t) = plain-IsDecoder (deserialize_of-IsDecoder t).item
deserialize_of-IsDecoder (cell t) = plain-IsDecoder (deserialize_of-IsDecoder t).item
deserialize_of-IsDecoder ipv4_addr = plain-IsDecoder (λ v h. Reads-octets 4 v h.1)
deserialize_of-IsDecoder ipv6_addr = plain-IsDecoder (λ v h. Reads-octets 16 v h.1)
deserialize_of-IsDecoder ip_addr = plain-IsDecoder Reads-ip_addr
deserialize_of-IsDecoder socket_addr_v4 = plain-IsDecoder Reads-socket_addr_v4
deserialize_of-IsDecoder socket_addr_v6 = plain-IsDecoder Reads-socket_addr_v6
deserialize_of-IsDecoder socket_addr = plain-IsDecoder Reads-socket_addr
