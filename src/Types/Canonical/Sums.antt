-- ===== src/Types/Canonical/Sums.antt =====
-- `Option`, `Result`, pairs and addresses are accepted only in the one form that is written.
use borsh_rs.Base.{ℕ, refl, ap, ap₂, subst, none, some, List, [], ◌∷◌, ◌++◌, inl, inr, ◌==◌, ==→eq}
use borsh_rs.Io.{M, ok, pure, ◌>>=◌, throw}
use borsh_rs.Io.Slice.{slice_reader}
use borsh_rs.Num.{Bytes}
use borsh_rs.Ser.Sum.{IpAddr, SocketAddr}
use borsh_rs.De.Sum.{
  deserialize_option, deserialize_result, deserialize_pair, deserialize_octets, deserialize_ip_addr,
  deserialize_socket_addr_v4, deserialize_socket_addr_v6, deserialize_socket_addr,
}
use borsh_rs.De.Consumes.{
  Consumes, Consumes->>=, Consumes-pure, Consumes-throw, Consumes-map, Consumes-if,
  Consumes-read_bytes,
}
use borsh_rs.De.Exact.{Exactly, Consumes_mono, Exact-deserialize_uint}
use borsh_rs.Types.{Ty, option, result, pair}
use borsh_rs.Types.Spec.{
  Valid, encode, encode_socket_addr_v4, encode_socket_addr_v6, encode_ip_addr, encode_socket_addr,
  IsIpAddr, IsSocketAddrV4, IsSocketAddrV6, IsSocketAddr,
}
use borsh_rs.Types.Spec.{IsOctets}
use borsh_rs.Types.Dispatch.{deserialize_of}
use borsh_rs.Types.Canonical.Scalars.{Exact-tag}

abbrev rd : borsh_rs.Io.Read (List ℕ)
rd = slice_reader

module _ (t : Ty)
    (item : Consumes (deserialize_of rd t).deserialize_reader (Exactly (Valid t) (encode t))) where
  pub Exact-option :
      Consumes
        (deserialize_option rd (deserialize_of rd t).deserialize_reader)
        (Exactly (Valid (option t)) (encode (option t)))
  unfolding deserialize_option encode
  Exact-option = Exact-tag _ λ b.
      Consumes-if (b == 0) (λ e. Consumes-pure _ none (tt, ap (λ (n : ℕ). n ∷ []) (==→eq b 0 e)))
        (λ _.
          Consumes-if (b == 1)
            (λ e.
              Consumes-map _ (λ x. some x) item
                λ v used h q. (q.0, ap₂ (λ (n : ℕ) (l : List ℕ). n ∷ l) (==→eq b 1 e) q.1))
            (λ e. Consumes-throw _ _))

  module _ (u : Ty)
      (item' : Consumes
        (deserialize_of rd u).deserialize_reader
        (Exactly (Valid u) (encode u))) where
    pub Exact-result :
        Consumes
          (deserialize_result rd
            (deserialize_of rd t).deserialize_reader
            (deserialize_of rd u).deserialize_reader)
          (Exactly (Valid (result t u)) (encode (result t u)))
    unfolding deserialize_result encode
    Exact-result = Exact-tag _ λ b.
        Consumes-if (b == 0)
          (λ e.
            Consumes-map _ (λ x. inr x) item'
              λ v used h q. (q.0, ap₂ (λ (n : ℕ) (l : List ℕ). n ∷ l) (==→eq b 0 e) q.1))
          (λ _.
            Consumes-if (b == 1)
              (λ e.
                Consumes-map _ (λ x. inl x) item
                  λ v used h q. (q.0, ap₂ (λ (n : ℕ) (l : List ℕ). n ∷ l) (==→eq b 1 e) q.1))
              (λ e. Consumes-throw _ _))

    pub Exact-pair :
        Consumes
          (deserialize_pair rd
            (deserialize_of rd t).deserialize_reader
            (deserialize_of rd u).deserialize_reader)
          (Exactly (Valid (pair t u)) (encode (pair t u)))
    unfolding deserialize_pair encode
    Exact-pair = Consumes->>= _ _ item λ a used h q.
        Consumes-map _ (λ b. (a, b)) item'
          λ b more k r. ((q.0, r.0), ap₂ (λ (l : List ℕ) (m : List ℕ). l ++ m) q.1 r.1)

pub Exact-IsOctets : (n : ℕ) → Consumes (deserialize_octets rd n) (Exactly (IsOctets n) (λ l. l))
unfolding deserialize_octets
Exact-IsOctets n =
    Consumes_mono (Consumes-read_bytes n) λ l used h q. ((subst Bytes q.0 h, q.1), q.0)

pub Exact-IsIpAddr : Consumes (deserialize_ip_addr rd) (Exactly IsIpAddr encode_ip_addr)
unfolding deserialize_ip_addr
Exact-IsIpAddr = Exact-tag _ λ b.
    Consumes-if (b == 0)
      (λ e.
        Consumes-map _ (λ x. IpAddr.v4 x) (Exact-IsOctets 4)
          λ v used h q. (q.0, ap₂ (λ (n : ℕ) (l : List ℕ). n ∷ l) (==→eq b 0 e) q.1))
      (λ _.
        Consumes-if (b == 1)
          (λ e.
            Consumes-map _ (λ x. IpAddr.v6 x) (Exact-IsOctets 16)
              λ v used h q. (q.0, ap₂ (λ (n : ℕ) (l : List ℕ). n ∷ l) (==→eq b 1 e) q.1))
          (λ e. Consumes-throw _ _))

pub Exact-IsSocketAddrV4 :
    Consumes (deserialize_socket_addr_v4 rd) (Exactly IsSocketAddrV4 encode_socket_addr_v4)
unfolding deserialize_socket_addr_v4
Exact-IsSocketAddrV4 = Consumes->>= _ _ (Exact-IsOctets 4) λ ip used h q.
    Consumes-map _ (λ port. record { ip = ip; port = port }) (Exact-deserialize_uint 2)
      λ port more k r. ((q.0, r.0), ap₂ (λ (l : List ℕ) (m : List ℕ). l ++ m) q.1 r.1)

pub Exact-IsSocketAddrV6 :
    Consumes (deserialize_socket_addr_v6 rd) (Exactly IsSocketAddrV6 encode_socket_addr_v6)
unfolding deserialize_socket_addr_v6
Exact-IsSocketAddrV6 = Consumes->>= _ _ (Exact-IsOctets 16) λ ip used h q.
    Consumes-map _ (λ port. record { ip = ip; port = port; flowinfo = 0; scope_id = 0 })
      (Exact-deserialize_uint 2)
      λ port more k r. ((q.0, r.0, refl, refl), ap₂ (λ (l : List ℕ) (m : List ℕ). l ++ m) q.1 r.1)

pub Exact-IsSocketAddr :
    Consumes (deserialize_socket_addr rd) (Exactly IsSocketAddr encode_socket_addr)
unfolding deserialize_socket_addr
Exact-IsSocketAddr = Exact-tag _ λ b.
    Consumes-if (b == 0)
      (λ e.
        Consumes-map _ (λ x. SocketAddr.v4 x) Exact-IsSocketAddrV4
          λ v used h q. (q.0, ap₂ (λ (n : ℕ) (l : List ℕ). n ∷ l) (==→eq b 0 e) q.1))
      (λ _.
        Consumes-if (b == 1)
          (λ e.
            Consumes-map _ (λ x. SocketAddr.v6 x) Exact-IsSocketAddrV6
              λ v used h q. (q.0, ap₂ (λ (n : ℕ) (l : List ℕ). n ∷ l) (==→eq b 1 e) q.1))
          (λ e. Consumes-throw _ _))
