-- ===== src/Types/Streams.antt =====
-- The modelled types on any reader that hands out its bytes in pieces, and on a slice.
use borsh_rs.Base.{ℕ, ◌≡◌, refl, arith, Bool, true, false, ◌==◌, List, [], ◌∷◌, if◌then◌else◌, none}
use borsh_rs.Io.{M, Result, Error, Read, ok, err, out_of_fuel, pure, throw, ◌>>=◌, and_then, kind}
use borsh_rs.Io.Slice.{slice_reader}
use borsh_rs.Io.Stream.{IsStream}
use borsh_rs.Num.{Bytes}
use borsh_rs.De.{
  deserialize_uint, deserialize_usize, deserialize_int, deserialize_isize, deserialize_nonzero,
  deserialize_float, deserialize_bool, deserialize_unit,
}
use borsh_rs.De.Seq.{deserialize_string, u8_deserialize}
use borsh_rs.De.Sum.{
  deserialize_option, deserialize_result, deserialize_pair, deserialize_octets, deserialize_ip_addr,
  deserialize_socket_addr_v4, deserialize_socket_addr_v6, deserialize_socket_addr,
}
use borsh_rs.De.Entry.{from_slice, from_reader, finish_slice, finish_reader}
use borsh_rs.De.Simulate.{
  Agrees, Simulates, Simulates->>=, Simulates-forget, Simulates-pure, Simulates-throw, Simulates-if,
  Simulates-read_bytes, Simulates-deserialize_u8, Simulates-deserialize_uint,
  Simulates-u8_vec_from_reader, Simulates-u8_array_from_reader, SimulatesType,
  Simulates-deserialize_vec, Simulates-deserialize_array,
}
use borsh_rs.Types.{
  Ty, size_of, Unsigned, u8, u16, u32, u64, u128, usize, Signed, i8, i16, i32, i64, i128, isize,
  unsigned, signed, nonzero_unsigned, nonzero_signed, signed_of, f32, f64, bool, string, unit,
  option, result, vec, linked_list, array, pair, boxed, cell, ipv4_addr, ipv6_addr, ip_addr,
  socket_addr_v4, socket_addr_v6, socket_addr,
}
use borsh_rs.Types.Dispatch.{deserialize_of, deserialize_unsigned, deserialize_signed, plain_reader}
use borsh_rs.Types.Results.{deserialize}

module _ {R : Type 0} (rd : Read R) {rem : R → List ℕ} (k : IsStream rd rem) where
  abbrev Same : {A : Type 0} → M R A → M (List ℕ) A → Type 0
  Same d d' = Simulates rem d d' (λ _. Unit {0})

  Same->>= :
      {A B : Type 0} {Q : A → Type 0} {d : M R A} {d' : M (List ℕ) A} (f : A → M R B)
      (f' : A → M (List ℕ) B)
      → Simulates rem d d' Q
      → ((a : A) → Same (f a) (f' a))
      → Same (d >>= f) (d' >>= f')
  Same->>= f f' c next = Simulates->>= rem f f' c λ a _. next a

  Same-pure : {A : Type 0} (a : A) → Same (pure a) (pure a)
  Same-pure a = Simulates-pure rem _ a tt

  Same-throw : {A : Type 0} (e : Error) → Same (throw {A = A} e) (throw e)
  Same-throw e = Simulates-throw rem _ e

  -- The last step writes down the value.
  Same-map :
      {A B : Type 0} {Q : A → Type 0} {d : M R A} {d' : M (List ℕ) A} (f : A → B)
      → Simulates rem d d' Q
      → Same (d >>= λ a. pure (f a)) (d' >>= λ a. pure (f a))
  Same-map f c = Same->>= _ _ c λ a. Same-pure (f a)

  -- One of two continuations by a tag of 0 or 1, or an error.
  Same-tag :
      {A : Type 0} (tag : ℕ) (e : Error) {d0 d1 : M R A} {e0 e1 : M (List ℕ) A}
      → Same d0 e0
      → Same d1 e1
      → Same
          (if tag == 0 then d0 else if tag == 1 then d1 else throw e)
          (if tag == 0 then e0 else if tag == 1 then e1 else throw e)
  Same-tag tag e p q = Simulates-if rem (tag == 0) p (Simulates-if rem (tag == 1) q (Same-throw e))

  Same-uint : (size : ℕ) → Same (deserialize_uint rd size) (deserialize_uint slice_reader size)
  Same-uint size = Simulates-forget rem (Simulates-deserialize_uint rd k size)

  Same-unsigned :
      (u : Unsigned) → Same (deserialize_unsigned rd u) (deserialize_unsigned slice_reader u)
  unfolding deserialize_unsigned deserialize_usize
  Same-unsigned u8 = Simulates-deserialize_u8 rd k
  Same-unsigned u16 = Same-uint 2
  Same-unsigned u32 = Same-uint 4
  Same-unsigned u64 = Same-uint 8
  Same-unsigned u128 = Same-uint 16
  Same-unsigned usize = Same-uint 8

  Same-int : (size : ℕ) → Same (deserialize_int rd size) (deserialize_int slice_reader size)
  unfolding deserialize_int
  Same-int size = Same-map _ (Simulates-read_bytes rd k size)

  Same-signed : (i : Signed) → Same (deserialize_signed rd i) (deserialize_signed slice_reader i)
  unfolding deserialize_signed deserialize_isize
  Same-signed i8 = Same-int 1
  Same-signed i16 = Same-int 2
  Same-signed i32 = Same-int 4
  Same-signed i64 = Same-int 8
  Same-signed i128 = Same-int 16
  Same-signed isize = Same-int 8

  Same-nonzero :
      {A : Type 0} (is_zero : A → Bool) {d : M R A} {d' : M (List ℕ) A}
      → Same d d'
      → Same (deserialize_nonzero rd is_zero d) (deserialize_nonzero slice_reader is_zero d')
  unfolding deserialize_nonzero
  Same-nonzero is_zero c =
      Same->>= _ _ c λ v. Simulates-if rem (is_zero v) (Same-throw _) (Same-pure v)

  Same-float :
      (is_nan : ℕ → Bool) (size : ℕ)
      → Same (deserialize_float rd is_nan size) (deserialize_float slice_reader is_nan size)
  unfolding deserialize_float
  Same-float is_nan size =
      Same->>= _ _ (Simulates-read_bytes rd k size)
        λ buf. Simulates-if rem _ (Same-throw _) (Same-pure _)

  Same-bool : Same (deserialize_bool rd) (deserialize_bool slice_reader)
  unfolding deserialize_bool
  Same-bool =
      Same->>= _ _ (Simulates-deserialize_u8 rd k)
        λ b. Same-tag b _ (Same-pure false) (Same-pure true)

  u8_same : SimulatesType rd k (u8_deserialize rd) (u8_deserialize slice_reader)
  u8_same = record {
    item = Simulates-deserialize_u8 rd k;
    vec_bulk = λ n z h. Simulates-u8_vec_from_reader rd k n z (omega arith);
    array_bulk = Simulates-u8_array_from_reader rd k;
  }

  Same-string : Same (deserialize_string rd) (deserialize_string slice_reader)
  unfolding deserialize_string
  Same-string =
      Same->>= _ _
        (Simulates-deserialize_vec rd k (u8_deserialize rd) (u8_deserialize slice_reader) u8_same 1)
        λ s. Simulates-if rem _ (Same-pure s) (Same-throw _)

  Same-octets : (n : ℕ) → Same (deserialize_octets rd n) (deserialize_octets slice_reader n)
  unfolding deserialize_octets
  Same-octets n = Simulates-forget rem (Simulates-read_bytes rd k n)

  module _ {A B : Type 0} {d : M R A} {d' : M (List ℕ) A} {e : M R B} {e' : M (List ℕ) B}
      (c : Same d d') (c' : Same e e') where
    Same-result : Same (deserialize_result rd d e) (deserialize_result slice_reader d' e')
    unfolding deserialize_result
    Same-result =
        Same->>= _ _ (Simulates-deserialize_u8 rd k)
          λ tag. Same-tag tag _ (Same-map _ c') (Same-map _ c)

    Same-pair : Same (deserialize_pair rd d e) (deserialize_pair slice_reader d' e')
    unfolding deserialize_pair
    Same-pair = Same->>= _ _ c λ a. Same-map _ c'

  Same-option :
      {A : Type 0} {d : M R A} {d' : M (List ℕ) A}
      → Same d d'
      → Same (deserialize_option rd d) (deserialize_option slice_reader d')
  unfolding deserialize_option
  Same-option c =
      Same->>= _ _ (Simulates-deserialize_u8 rd k)
        λ tag. Same-tag tag _ (Same-pure none) (Same-map _ c)

  Same-ip_addr : Same (deserialize_ip_addr rd) (deserialize_ip_addr slice_reader)
  unfolding deserialize_ip_addr
  Same-ip_addr =
      Same->>= _ _ (Simulates-deserialize_u8 rd k)
        λ tag. Same-tag tag _ (Same-map _ (Same-octets 4)) (Same-map _ (Same-octets 16))

  Same-socket_addr_v4 :
      Same (deserialize_socket_addr_v4 rd) (deserialize_socket_addr_v4 slice_reader)
  unfolding deserialize_socket_addr_v4
  Same-socket_addr_v4 = Same->>= _ _ (Same-octets 4) λ ip. Same-map _ (Same-uint 2)

  Same-socket_addr_v6 :
      Same (deserialize_socket_addr_v6 rd) (deserialize_socket_addr_v6 slice_reader)
  unfolding deserialize_socket_addr_v6
  Same-socket_addr_v6 = Same->>= _ _ (Same-octets 16) λ ip. Same-map _ (Same-uint 2)

  Same-socket_addr : Same (deserialize_socket_addr rd) (deserialize_socket_addr slice_reader)
  unfolding deserialize_socket_addr
  Same-socket_addr =
      Same->>= _ _ (Simulates-deserialize_u8 rd k)
        λ tag. Same-tag tag _ (Same-map _ Same-socket_addr_v4) (Same-map _ Same-socket_addr_v6)

  -- A type without bulk methods.
  plain-SimulatesType :
      {A : Type 0} {d : M R A} {d' : M (List ℕ) A}
      → Same d d'
      → SimulatesType rd k (plain_reader rd d) (plain_reader slice_reader d')
  plain-SimulatesType c = record {
    item = c;
    vec_bulk = λ n z h. Same-pure none;
    array_bulk = λ n. Same-pure none;
  }

  deserialize_of-SimulatesType :
      (t : Ty) → SimulatesType rd k (deserialize_of rd t) (deserialize_of slice_reader t)
  unfolding deserialize_of
  deserialize_of-SimulatesType (unsigned u8) = u8_same
  deserialize_of-SimulatesType (unsigned u) = plain-SimulatesType (Same-unsigned _)
  deserialize_of-SimulatesType (signed i) = plain-SimulatesType (Same-signed i)
  deserialize_of-SimulatesType (nonzero_unsigned u) =
      plain-SimulatesType (Same-nonzero _ (Same-unsigned u))
  deserialize_of-SimulatesType (nonzero_signed i) =
      plain-SimulatesType (Same-nonzero _ (Same-signed (signed_of i)))
  deserialize_of-SimulatesType f32 = plain-SimulatesType (Same-float _ 4)
  deserialize_of-SimulatesType f64 = plain-SimulatesType (Same-float _ 8)
  deserialize_of-SimulatesType bool = plain-SimulatesType Same-bool
  deserialize_of-SimulatesType string = plain-SimulatesType Same-string
  deserialize_of-SimulatesType unit = plain-SimulatesType (unfold deserialize_unit in Same-pure tt)
  deserialize_of-SimulatesType (option t) =
      plain-SimulatesType (Same-option (deserialize_of-SimulatesType t).item)
  deserialize_of-SimulatesType (result t e) =
      plain-SimulatesType
        (Same-result (deserialize_of-SimulatesType t).item (deserialize_of-SimulatesType e).item)
  deserialize_of-SimulatesType (vec t) =
      plain-SimulatesType
        (Simulates-deserialize_vec rd k _ _ (deserialize_of-SimulatesType t) (size_of t))
  deserialize_of-SimulatesType (linked_list t) =
      plain-SimulatesType
        (Simulates-deserialize_vec rd k _ _ (deserialize_of-SimulatesType t) (size_of t))
  deserialize_of-SimulatesType (array t n) =
      plain-SimulatesType (Simulates-deserialize_array rd k _ _ (deserialize_of-SimulatesType t) n)
  deserialize_of-SimulatesType (pair t u) =
      plain-SimulatesType
        (Same-pair (deserialize_of-SimulatesType t).item (deserialize_of-SimulatesType u).item)
  deserialize_of-SimulatesType (boxed t) = plain-SimulatesType (deserialize_of-SimulatesType t).item
  deserialize_of-SimulatesType (cell t) = plain-SimulatesType (deserialize_of-SimulatesType t).item
  deserialize_of-SimulatesType ipv4_addr = plain-SimulatesType (Same-octets 4)
  deserialize_of-SimulatesType ipv6_addr = plain-SimulatesType (Same-octets 16)
  deserialize_of-SimulatesType ip_addr = plain-SimulatesType Same-ip_addr
  deserialize_of-SimulatesType socket_addr_v4 = plain-SimulatesType Same-socket_addr_v4
  deserialize_of-SimulatesType socket_addr_v6 = plain-SimulatesType Same-socket_addr_v6
  deserialize_of-SimulatesType socket_addr = plain-SimulatesType Same-socket_addr

  -- On a reader that gives its bytes in portions of any size, deserializing a modelled type has the
  -- result that it has on the slice of these bytes, and leaves the same bytes after a value.
  pub deserialize-Agrees :
      (t : Ty) (r : R)
      → Bytes (rem r)
      → Agrees rem (λ v. Unit {0}) (deserialize rd t r) (deserialize slice_reader t (rem r))
  unfolding deserialize
  deserialize-Agrees t r h = (deserialize_of-SimulatesType t).item.on r h

  -- The look for one more byte.
  finish_reader-finish_slice :
      {A : Type 0} (x : Result A × R) (y : Result A × List ℕ)
      → Agrees rem (λ v. Unit {0}) x y
      → (and_then x (λ a r. finish_reader a (rd.read_exact 1 r))).0 ≡ finish_slice y
  unfolding kind
  finish_reader-finish_slice (ok a, r) y (e, h, q) = rw e (go (rem r) refl)
    where
      go :
          (l : List ℕ)
          → rem r ≡ l
          → (finish_reader a (rd.read_exact 1 r)).0 ≡ finish_slice (ok a, l)
      go [] none_left =
          let (e', r', run, eof) = k.read_short 1 r (rw none_left (omega arith)) in
          rw (run, eof) refl
      go (b ∷ l) one_left =
          let (r', run, left) = k.read_all 1 r (rw one_left (omega arith)) in rw run refl
  finish_reader-finish_slice (err e, r) (ok b, l) h = cc
  finish_reader-finish_slice (err e, r) (err e', l) h = cc
  finish_reader-finish_slice (err e, r) (out_of_fuel, l) h = cc
  finish_reader-finish_slice (out_of_fuel, r) (ok b, l) h = cc
  finish_reader-finish_slice (out_of_fuel, r) (err e', l) h = cc
  finish_reader-finish_slice (out_of_fuel, r) (out_of_fuel, l) h = refl

  -- On a reader that gives its bytes in portions of any size, `from_reader` of a modelled type has the
  -- result that `from_slice` has on these bytes.
  pub from_reader-from_slice :
      (t : Ty) (r : R)
      → Bytes (rem r)
      → (from_reader rd (deserialize rd t) r).0 ≡ from_slice (deserialize slice_reader t) (rem r)
  unfolding from_reader from_slice
  from_reader-from_slice t r h =
      finish_reader-finish_slice (deserialize rd t r) (deserialize slice_reader t (rem r))
        (deserialize-Agrees t r h)
