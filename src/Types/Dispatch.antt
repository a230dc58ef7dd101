-- ===== src/Types/Dispatch.antt =====
-- Which implementation each type has, as rustc resolves the traits. Only `u8` has bulk methods.
use borsh_rs.Base.{ℕ, Bool, false, ◌==◌}
use borsh_rs.Io.{M, Write, Read}
use borsh_rs.Num.{ℤ, pos, negsuc}
use borsh_rs.Ser.{
  BorshSerialize, no_u8_slice, serialize_u8, serialize_uint, serialize_usize, serialize_int,
  serialize_isize, serialize_nonzero, serialize_float, serialize_bool, serialize_unit, is_nan_f32,
  is_nan_f64,
}
use borsh_rs.Ser.Seq.{
  serialize_string, serialize_vec, serialize_counted, serialize_array, u8_serialize,
}
use borsh_rs.Ser.Sum.{
  serialize_option, serialize_result, serialize_pair, serialize_octets, serialize_ip_addr,
  serialize_socket_addr_v4, serialize_socket_addr_v6, serialize_socket_addr,
}
use borsh_rs.De.{
  BorshDeserialize, default_from_reader, deserialize_u8, deserialize_uint, deserialize_usize,
  deserialize_int, deserialize_isize, deserialize_nonzero, deserialize_float, deserialize_bool,
  deserialize_unit,
}
use borsh_rs.De.Seq.{deserialize_string, deserialize_vec, deserialize_array, u8_deserialize}
use borsh_rs.De.Sum.{
  deserialize_option, deserialize_result, deserialize_pair, deserialize_octets, deserialize_ip_addr,
  deserialize_socket_addr_v4, deserialize_socket_addr_v6, deserialize_socket_addr,
}
use borsh_rs.Types.{
  Ty, ⟦◌⟧, size_of, Unsigned, u8, u16, u32, u64, u128, usize, Signed, i8, i16, i32, i64, i128,
  isize, unsigned, signed, nonzero_unsigned, nonzero_signed, signed_of, f32, f64, bool, string,
  unit, option, result, vec, linked_list, array, pair, boxed, cell, ipv4_addr, ipv6_addr, ip_addr,
  socket_addr_v4, socket_addr_v6, socket_addr,
}

module _ {W : Type 0} (w : Write W) where
  unfoldable pub serialize_unsigned : Unsigned → ℕ → M W (Unit {0})
  serialize_unsigned u8 = serialize_u8 w
  serialize_unsigned u16 = serialize_uint w 2
  serialize_unsigned u32 = serialize_uint w 4
  serialize_unsigned u64 = serialize_uint w 8
  serialize_unsigned u128 = serialize_uint w 16
  serialize_unsigned usize = serialize_usize w

  unfoldable pub serialize_signed : Signed → ℤ → M W (Unit {0})
  serialize_signed i8 = serialize_int w 1
  serialize_signed i16 = serialize_int w 2
  serialize_signed i32 = serialize_int w 4
  serialize_signed i64 = serialize_int w 8
  serialize_signed i128 = serialize_int w 16
  serialize_signed isize = serialize_isize w

  abbrev pub plain : {A : Type 0} → (A → M W (Unit {0})) → BorshSerialize W A
  plain s = record { serialize = s; u8_slice = no_u8_slice }

  unfoldable pub unsigned_serialize : Unsigned → BorshSerialize W ℕ
  unsigned_serialize u8 = u8_serialize w
  unsigned_serialize k = plain (serialize_unsigned k)

  unfoldable pub serialize_of : (t : Ty) → BorshSerialize W ⟦ t ⟧
  unfolding unsigned_serialize
  serialize_of (unsigned k) = unsigned_serialize k
  serialize_of (signed k) = plain (serialize_signed k)
  serialize_of (nonzero_unsigned k) = plain (serialize_nonzero w (serialize_unsigned k))
  serialize_of (nonzero_signed k) = plain (serialize_nonzero w (serialize_signed (signed_of k)))
  serialize_of f32 = plain (serialize_float w is_nan_f32 4)
  serialize_of f64 = plain (serialize_float w is_nan_f64 8)
  serialize_of bool = plain (serialize_bool w)
  serialize_of string = plain (serialize_string w)
  serialize_of unit = plain (λ v. serialize_unit w)
  serialize_of (option t) = plain (serialize_option w (serialize_of t).serialize)
  serialize_of (result t e) =
      plain (serialize_result w (serialize_of t).serialize (serialize_of e).serialize)
  serialize_of (vec t) = plain (serialize_vec w (size_of t) (serialize_of t))
  serialize_of (linked_list t) = plain (serialize_counted w (size_of t) (serialize_of t).serialize)
  serialize_of (array t n) = plain (serialize_array w n (serialize_of t))
  serialize_of (pair t u) =
      plain (serialize_pair w (serialize_of t).serialize (serialize_of u).serialize)
  serialize_of (boxed t) = plain (serialize_of t).serialize
  serialize_of (cell t) = plain (serialize_of t).serialize
  serialize_of ipv4_addr = plain (serialize_octets w)
  serialize_of ipv6_addr = plain (serialize_octets w)
  serialize_of ip_addr = plain (serialize_ip_addr w)
  serialize_of socket_addr_v4 = plain (serialize_socket_addr_v4 w)
  serialize_of socket_addr_v6 = plain (serialize_socket_addr_v6 w)
  serialize_of socket_addr = plain (serialize_socket_addr w)

abbrev pub is_zero_ℕ : ℕ → Bool
is_zero_ℕ v = v == 0

abbrev pub is_zero_ℤ : ℤ → Bool
is_zero_ℤ (pos n) = n == 0
is_zero_ℤ (negsuc n) = false

module _ {R : Type 0} (rd : Read R) where
  unfoldable pub deserialize_unsigned : Unsigned → M R ℕ
  deserialize_unsigned u8 = deserialize_u8 rd
  deserialize_unsigned u16 = deserialize_uint rd 2
  deserialize_unsigned u32 = deserialize_uint rd 4
  deserialize_unsigned u64 = deserialize_uint rd 8
  deserialize_unsigned u128 = deserialize_uint rd 16
  deserialize_unsigned usize = deserialize_usize rd

  unfoldable pub deserialize_signed : Signed → M R ℤ
  deserialize_signed i8 = deserialize_int rd 1
  deserialize_signed i16 = deserialize_int rd 2
  deserialize_signed i32 = deserialize_int rd 4
  deserialize_signed i64 = deserialize_int rd 8
  deserialize_signed i128 = deserialize_int rd 16
  deserialize_signed isize = deserialize_isize rd

  abbrev pub plain_reader : {A : Type 0} → M R A → BorshDeserialize R A
  plain_reader d = record {
    deserialize_reader = d;
    vec_from_reader = default_from_reader;
    array_from_reader = default_from_reader;
  }

  unfoldable pub unsigned_deserialize : Unsigned → BorshDeserialize R ℕ
  unsigned_deserialize u8 = u8_deserialize rd
  unsigned_deserialize k = plain_reader (deserialize_unsigned k)

  unfoldable pub deserialize_of : (t : Ty) → BorshDeserialize R ⟦ t ⟧
  unfolding unsigned_deserialize
  deserialize_of (unsigned k) = unsigned_deserialize k
  deserialize_of (signed k) = plain_reader (deserialize_signed k)
  deserialize_of (nonzero_unsigned k) =
      plain_reader (deserialize_nonzero rd is_zero_ℕ (deserialize_unsigned k))
  deserialize_of (nonzero_signed k) =
      plain_reader (deserialize_nonzero rd is_zero_ℤ (deserialize_signed (signed_of k)))
  deserialize_of f32 = plain_reader (deserialize_float rd is_nan_f32 4)
  deserialize_of f64 = plain_reader (deserialize_float rd is_nan_f64 8)
  deserialize_of bool = plain_reader (deserialize_bool rd)
  deserialize_of string = plain_reader (deserialize_string rd)
  deserialize_of unit = plain_reader (deserialize_unit rd)
  deserialize_of (option t) =
      plain_reader (deserialize_option rd (deserialize_of t).deserialize_reader)
  deserialize_of (result t e) = plain_reader (
      deserialize_result rd (deserialize_of t).deserialize_reader
        (deserialize_of e).deserialize_reader)
  deserialize_of (vec t) = plain_reader (deserialize_vec rd (size_of t) (deserialize_of t))
  deserialize_of (linked_list t) = plain_reader (deserialize_vec rd (size_of t) (deserialize_of t))
  deserialize_of (array t n) = plain_reader (deserialize_array rd n (deserialize_of t))
  deserialize_of (pair t u) = plain_reader (
      deserialize_pair rd (deserialize_of t).deserialize_reader
        (deserialize_of u).deserialize_reader)
  deserialize_of (boxed t) = plain_reader (deserialize_of t).deserialize_reader
  deserialize_of (cell t) = plain_reader (deserialize_of t).deserialize_reader
  deserialize_of ipv4_addr = plain_reader (deserialize_octets rd 4)
  deserialize_of ipv6_addr = plain_reader (deserialize_octets rd 16)
  deserialize_of ip_addr = plain_reader (deserialize_ip_addr rd)
  deserialize_of socket_addr_v4 = plain_reader (deserialize_socket_addr_v4 rd)
  deserialize_of socket_addr_v6 = plain_reader (deserialize_socket_addr_v6 rd)
  deserialize_of socket_addr = plain_reader (deserialize_socket_addr rd)
