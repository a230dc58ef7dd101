-- ===== src/Types/Encode.antt =====
-- The implementation that each type has writes the bytes that the format says.
use borsh_rs.Base.{
  ℕ, ◌^◌, ◌<◌, ◌≡◌, refl, sym, ap₂, Bool, true, false, none, some, List, [], ◌∷◌, ◌++◌, inl, inr,
  All,
}
use borsh_rs.Io.{M, Write}
use borsh_rs.Io.Sink.{IsSink}
use borsh_rs.Num.{ℤ, to_le_bytes, to_pattern, to_le_bytes-byte}
use borsh_rs.Ser.{
  serialize_uint, serialize_usize, serialize_int, serialize_isize, serialize_nonzero,
  serialize_float, serialize_bool, serialize_unit,
}
use borsh_rs.Ser.Sum.{IpAddr, SocketAddrV4, SocketAddrV6, SocketAddr}
use borsh_rs.Ser.Sum.{
  serialize_option, serialize_result, serialize_pair, serialize_octets, serialize_ip_addr,
  serialize_socket_addr_v4, serialize_socket_addr_v6, serialize_socket_addr,
}
use borsh_rs.Ser.Laws.{Writes, Writes-write_all, Writes-pure, Writes->>, Writes-serialize_u8}
use borsh_rs.Ser.SeqLaws.{
  IsEncoder, Writes-serialize_vec, Writes-serialize_array, Writes-serialize_counted,
  Writes-serialize_string,
}
use borsh_rs.Types.{
  Ty, ⟦◌⟧, size_of, unsigned_size, signed_size, Unsigned, u8, u16, u32, u64, u128, usize, Signed,
  i8, i16, i32, i64, i128, isize, unsigned, signed, nonzero_unsigned, nonzero_signed, signed_of,
  f32, f64, bool, string, unit, option, result, vec, linked_list, array, pair, boxed, cell,
  ipv4_addr, ipv6_addr, ip_addr, socket_addr_v4, socket_addr_v6, socket_addr,
}
use borsh_rs.Types.Spec.{Valid, encode, encode_each, encode_socket_addr_v4, encode_socket_addr_v6}
use borsh_rs.Types.Spec.{encode_ip_addr, encode_socket_addr}
use borsh_rs.Types.Dispatch.{serialize_of, serialize_unsigned, serialize_signed, plain}

pub encode_each-to_le_bytes :
    (xs : List ℕ) → All (λ v. v < 256) xs → encode_each (to_le_bytes 1) xs ≡ xs
encode_each-to_le_bytes [] h = refl
encode_each-to_le_bytes (x ∷ xs) h =
    ap₂ (λ (a : List ℕ) (b : List ℕ). a ++ b) (to_le_bytes-byte x h.0)
      (encode_each-to_le_bytes xs h.1)

module _ {W : Type 0} (w : Write W) {state : List ℕ → W} {Fits : List ℕ → Type 0}
    (k : IsSink w state Fits) where
  abbrev Does : M W (Unit {0}) → List ℕ → Type 0
  Does = Writes state Fits

  Writes-unsigned :
      (u : Unsigned) (v : ℕ)
      → v < 256 ^ unsigned_size u
      → Does (serialize_unsigned w u v) (to_le_bytes (unsigned_size u) v)
  unfolding serialize_unsigned serialize_uint serialize_usize
  Writes-unsigned u8 v h = rw (to_le_bytes-byte v h) (Writes-serialize_u8 w k v)
  Writes-unsigned u16 v h = Writes-write_all w k _
  Writes-unsigned u32 v h = Writes-write_all w k _
  Writes-unsigned u64 v h = Writes-write_all w k _
  Writes-unsigned u128 v h = Writes-write_all w k _
  Writes-unsigned usize v h = Writes-write_all w k _

  Writes-signed :
      (i : Signed) (v : ℤ)
      → Does (serialize_signed w i v) (to_le_bytes (signed_size i) (to_pattern (signed_size i) v))
  unfolding serialize_signed serialize_int serialize_isize
  Writes-signed i8 v = Writes-write_all w k _
  Writes-signed i16 v = Writes-write_all w k _
  Writes-signed i32 v = Writes-write_all w k _
  Writes-signed i64 v = Writes-write_all w k _
  Writes-signed i128 v = Writes-write_all w k _
  Writes-signed isize v = Writes-write_all w k _

  Writes-float :
      (is_nan : ℕ → Bool) (size bits : ℕ)
      → is_nan bits ≡ false
      → Does (serialize_float w is_nan size bits) (to_le_bytes size bits)
  unfolding serialize_float
  Writes-float is_nan size bits h = rw h (Writes-write_all w k _)

  Writes-bool : (b : Bool) → Does (serialize_bool w b) (encode bool b)
  unfolding serialize_bool encode
  Writes-bool true = Writes-write_all w k _
  Writes-bool false = Writes-write_all w k _

  Writes-ip_addr : (a : IpAddr) → Does (serialize_ip_addr w a) (encode_ip_addr a)
  unfolding serialize_ip_addr
  Writes-ip_addr (IpAddr.v4 ip) = Writes->> w k (Writes-write_all w k _) (Writes-write_all w k ip)
  Writes-ip_addr (IpAddr.v6 ip) = Writes->> w k (Writes-write_all w k _) (Writes-write_all w k ip)

  Writes-socket_addr_v4 :
      (a : SocketAddrV4) → Does (serialize_socket_addr_v4 w a) (encode_socket_addr_v4 a)
  unfolding serialize_socket_addr_v4
  Writes-socket_addr_v4 a = Writes->> w k (Writes-write_all w k a.ip) (Writes-write_all w k _)

  Writes-socket_addr_v6 :
      (a : SocketAddrV6) → Does (serialize_socket_addr_v6 w a) (encode_socket_addr_v6 a)
  unfolding serialize_socket_addr_v6
  Writes-socket_addr_v6 a = Writes->> w k (Writes-write_all w k a.ip) (Writes-write_all w k _)

  Writes-socket_addr : (a : SocketAddr) → Does (serialize_socket_addr w a) (encode_socket_addr a)
  unfolding serialize_socket_addr
  Writes-socket_addr (SocketAddr.v4 a) =
      Writes->> w k (Writes-serialize_u8 w k 0) (Writes-socket_addr_v4 a)
  Writes-socket_addr (SocketAddr.v6 a) =
      Writes->> w k (Writes-serialize_u8 w k 1) (Writes-socket_addr_v6 a)

  -- A type without bulk bytes.
  plain-IsEncoder :
      {A : Type 0} {P : A → Type 0} {enc : A → List ℕ} {serialize : A → M W (Unit {0})}
      → ((a : A) → P a → Does (serialize a) (enc a))
      → IsEncoder state Fits P enc (plain w serialize)
  plain-IsEncoder item = record { item = item; bulk = λ xs h. tt }

  module _ (t : Ty)
      (item : (v : ⟦ t ⟧) → Valid t v → Does ((serialize_of w t).serialize v) (encode t v)) where
    Writes-option :
        (v : ⟦ option t ⟧)
        → Valid (option t) v
        → Does (serialize_option w (serialize_of w t).serialize v) (encode (option t) v)
    unfolding serialize_option encode
    Writes-option none h = Writes-serialize_u8 w k 0
    Writes-option (some v) h = Writes->> w k (Writes-serialize_u8 w k 1) (item v h)

    module _ (u : Ty)
        (item' : (v : ⟦ u ⟧) → Valid u v → Does ((serialize_of w u).serialize v) (encode u v)) where
      Writes-result :
          (v : ⟦ result t u ⟧)
          → Valid (result t u) v
          → Does
              (serialize_result w (serialize_of w t).serialize (serialize_of w u).serialize v)
              (encode (result t u) v)
      unfolding serialize_result encode
      Writes-result (inl v) h = Writes->> w k (Writes-serialize_u8 w k 1) (item v h)
      Writes-result (inr v) h = Writes->> w k (Writes-serialize_u8 w k 0) (item' v h)

      Writes-pair :
          (v : ⟦ pair t u ⟧)
          → Valid (pair t u) v
          → Does
              (serialize_pair w (serialize_of w t).serialize (serialize_of w u).serialize v)
              (encode (pair t u) v)
      unfolding serialize_pair encode
      Writes-pair v h = Writes->> w k (item v.0 h.0) (item' v.1 h.1)

  -- Every implementation writes the encoding, and its bulk bytes are those of its items.
  pub serialize_of-IsEncoder :
      (t : Ty) → IsEncoder state Fits (Valid t) (encode t) (serialize_of w t)
  unfolding serialize_of encode
  serialize_of-IsEncoder (unsigned u8) = record {
    item = λ v h. unfold serialize_unsigned in Writes-unsigned u8 v h;
    bulk = λ xs h. sym (encode_each-to_le_bytes xs h);
  }
  serialize_of-IsEncoder (unsigned u) = plain-IsEncoder (λ v h. Writes-unsigned _ v h)
  serialize_of-IsEncoder (signed i) = plain-IsEncoder (λ v h. Writes-signed i v)
  serialize_of-IsEncoder (nonzero_unsigned u) =
      plain-IsEncoder (λ v h. unfold serialize_nonzero in Writes-unsigned u v h.0)
  serialize_of-IsEncoder (nonzero_signed i) =
      plain-IsEncoder (λ v h. unfold serialize_nonzero in Writes-signed (signed_of i) v)
  serialize_of-IsEncoder f32 = plain-IsEncoder (λ v h. Writes-float _ 4 v h.1)
  serialize_of-IsEncoder f64 = plain-IsEncoder (λ v h. Writes-float _ 8 v h.1)
  serialize_of-IsEncoder bool = plain-IsEncoder (λ v h. Writes-bool v)
  serialize_of-IsEncoder string = plain-IsEncoder (λ v h. Writes-serialize_string w k v h.0 h.1)
  serialize_of-IsEncoder unit = plain-IsEncoder (λ v h. unfold serialize_unit in Writes-pure w k)
  serialize_of-IsEncoder (option t) =
      plain-IsEncoder (Writes-option t (serialize_of-IsEncoder t).item)
  serialize_of-IsEncoder (result t e) =
      plain-IsEncoder
        (Writes-result t (serialize_of-IsEncoder t).item e (serialize_of-IsEncoder e).item)
  serialize_of-IsEncoder (vec t) =
      plain-IsEncoder
        (λ v h. Writes-serialize_vec w k (serialize_of-IsEncoder t) (size_of t) v h.0 h.1 h.2)
  serialize_of-IsEncoder (linked_list t) = plain-IsEncoder (λ v h.
      Writes-serialize_counted w k (serialize_of-IsEncoder t).item (size_of t) v h.0 h.1 h.2)
  serialize_of-IsEncoder (array t n) =
      plain-IsEncoder (λ v h. Writes-serialize_array w k (serialize_of-IsEncoder t) n v h.0 h.1)
  serialize_of-IsEncoder (pair t u) =
      plain-IsEncoder
        (Writes-pair t (serialize_of-IsEncoder t).item u (serialize_of-IsEncoder u).item)
  serialize_of-IsEncoder (boxed t) = plain-IsEncoder (serialize_of-IsEncoder t).item
  serialize_of-IsEncoder (cell t) = plain-IsEncoder (serialize_of-IsEncoder t).item
  serialize_of-IsEncoder ipv4_addr =
      plain-IsEncoder (λ v h. unfold serialize_octets in Writes-write_all w k v)
  serialize_of-IsEncoder ipv6_addr =
      plain-IsEncoder (λ v h. unfold serialize_octets in Writes-write_all w k v)
  serialize_of-IsEncoder ip_addr = plain-IsEncoder (λ v h. Writes-ip_addr v)
  serialize_of-IsEncoder socket_addr_v4 = plain-IsEncoder (λ v h. Writes-socket_addr_v4 v)
  serialize_of-IsEncoder socket_addr_v6 = plain-IsEncoder (λ v h. Writes-socket_addr_v6 v)
  serialize_of-IsEncoder socket_addr = plain-IsEncoder (λ v h. Writes-socket_addr v)
