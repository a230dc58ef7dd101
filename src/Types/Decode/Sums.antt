-- ===== src/Types/Decode/Sums.antt =====
-- `Option`, `Result`, pairs and addresses, of borsh/src/de/mod.rs, read back.
use borsh_rs.Base.{ℕ, ◌≡◌, sym, subst, none, some, List, ◌∷◌, inl, inr, length}
use borsh_rs.Io.{M, ok, pure, ◌>>=◌, custom, invalid_data, fmt, throw}
use borsh_rs.Io.Slice.{slice_reader}
use borsh_rs.Ser.Sum.{IpAddr, SocketAddrV4, SocketAddrV6, SocketAddr}
use borsh_rs.De.{deserialize_u8}
use borsh_rs.De.Sum.{
  deserialize_option, deserialize_result, deserialize_pair, deserialize_octets, deserialize_ip_addr,
  deserialize_socket_addr_v4, deserialize_socket_addr_v6, deserialize_socket_addr,
}
use borsh_rs.De.Laws.{
  Reads, Reads-pure, Reads->>=, Reads-map, Reads-read_bytes, Reads-deserialize_u8,
  Reads-deserialize_uint,
}
use borsh_rs.Types.{Ty, ⟦◌⟧, option, result, pair}
use borsh_rs.Types.Spec.{
  Valid, encode, encode_socket_addr_v4, encode_socket_addr_v6, encode_ip_addr, encode_socket_addr,
  IsIpAddr, IsSocketAddrV4, IsSocketAddrV6, IsSocketAddr,
}
use borsh_rs.Types.Dispatch.{deserialize_of}

abbrev rd : borsh_rs.Io.Read (List ℕ)
rd = slice_reader

-- The tag byte of a sum.
pub Reads-tag :
    {A : Type 0} (f : ℕ → M (List ℕ) A) (b : ℕ) {xs : List ℕ} {a : A}
    → Reads (f b) xs a
    → Reads (deserialize_u8 rd >>= f) (b ∷ xs) a
Reads-tag f b r = Reads->>= f (Reads-deserialize_u8 b) r

module _ (t : Ty)
    (item : (v : ⟦ t ⟧)
      → Valid t v
      → Reads (deserialize_of rd t).deserialize_reader (encode t v) v) where
  pub Reads-option :
      (v : ⟦ option t ⟧)
      → Valid (option t) v
      → Reads
          (deserialize_option rd (deserialize_of rd t).deserialize_reader)
          (encode (option t) v)
          v
  unfolding deserialize_option encode
  Reads-option none h = Reads-tag _ 0 (Reads-pure none)
  Reads-option (some v) h = Reads-tag _ 1 (Reads-map (λ x. some x) (item v h))

  module _ (u : Ty)
      (item' : (v : ⟦ u ⟧)
        → Valid u v
        → Reads (deserialize_of rd u).deserialize_reader (encode u v) v) where
    pub Reads-result :
        (v : ⟦ result t u ⟧)
        → Valid (result t u) v
        → Reads
            (deserialize_result rd
              (deserialize_of rd t).deserialize_reader
              (deserialize_of rd u).deserialize_reader)
            (encode (result t u) v)
            v
    unfolding deserialize_result encode
    Reads-result (inl v) h = Reads-tag _ 1 (Reads-map (λ x. inl x) (item v h))
    Reads-result (inr v) h = Reads-tag _ 0 (Reads-map (λ x. inr x) (item' v h))

    pub Reads-pair :
        (v : ⟦ pair t u ⟧)
        → Valid (pair t u) v
        → Reads
            (deserialize_pair rd
              (deserialize_of rd t).deserialize_reader
              (deserialize_of rd u).deserialize_reader)
            (encode (pair t u) v)
            v
    unfolding deserialize_pair encode
    Reads-pair v h = Reads->>= _ (item v.0 h.0) (Reads-map (λ x. (v.0, x)) (item' v.1 h.1))

pub Reads-octets : (n : ℕ) (xs : List ℕ) → length xs ≡ n → Reads (deserialize_octets rd n) xs xs
unfolding deserialize_octets
Reads-octets n xs h = Reads-read_bytes n xs h

pub Reads-ip_addr : (a : IpAddr) → IsIpAddr a → Reads (deserialize_ip_addr rd) (encode_ip_addr a) a
unfolding deserialize_ip_addr
Reads-ip_addr (IpAddr.v4 ip) h =
    Reads-tag _ 0 (Reads-map (λ x. IpAddr.v4 x) (Reads-octets 4 ip h.1))
Reads-ip_addr (IpAddr.v6 ip) h =
    Reads-tag _ 1 (Reads-map (λ x. IpAddr.v6 x) (Reads-octets 16 ip h.1))

pub Reads-socket_addr_v4 :
    (a : SocketAddrV4)
    → IsSocketAddrV4 a
    → Reads (deserialize_socket_addr_v4 rd) (encode_socket_addr_v4 a) a
unfolding deserialize_socket_addr_v4
Reads-socket_addr_v4 a h =
    Reads->>= _ (Reads-octets 4 a.ip h.0.1)
      (Reads-map (λ p. record { ip = a.ip; port = p }) (Reads-deserialize_uint 2 a.port h.1))

pub Reads-socket_addr_v6 :
    (a : SocketAddrV6)
    → IsSocketAddrV6 a
    → Reads (deserialize_socket_addr_v6 rd) (encode_socket_addr_v6 a) a
unfolding deserialize_socket_addr_v6
Reads-socket_addr_v6 a h =
    subst (λ (b : SocketAddrV6). Reads (deserialize_socket_addr_v6 rd) (encode_socket_addr_v6 a) b)
      (λ i. record { ip = a.ip; port = a.port; flowinfo = sym h.2 i; scope_id = sym h.3 i })
      (Reads->>= _ (Reads-octets 16 a.ip h.0.1) (
        Reads-map (λ p. record { ip = a.ip; port = p; flowinfo = 0; scope_id = 0 })
          (Reads-deserialize_uint 2 a.port h.1)))

pub Reads-socket_addr :
    (a : SocketAddr) → IsSocketAddr a → Reads (deserialize_socket_addr rd) (encode_socket_addr a) a
unfolding deserialize_socket_addr
Reads-socket_addr (SocketAddr.v4 a) h =
    Reads-tag _ 0 (Reads-map (λ x. SocketAddr.v4 x) (Reads-socket_addr_v4 a h))
Reads-socket_addr (SocketAddr.v6 a) h =
    Reads-tag _ 1 (Reads-map (λ x. SocketAddr.v6 x) (Reads-socket_addr_v6 a h))
