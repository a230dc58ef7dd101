-- ===== src/De/Sum.antt =====
-- borsh/src/de/mod.rs: `Option`, `Result`, tuples, ranges and the addresses of `std::net`.
use borsh_rs.Base.{ℕ, ◌==◌, if◌then◌else◌, Option, none, some, List, ◌⊎◌, inl, inr}
use borsh_rs.Io.{M, Read, custom, invalid_data, fmt, ◌>>=◌, pure, throw}
use borsh_rs.Ser.Sum.{IpAddr, SocketAddrV4, SocketAddrV6, SocketAddr}
use borsh_rs.De.{read_bytes, deserialize_u8, deserialize_uint}

module _ {R : Type 0} (rd : Read R) where
  unfoldable pub deserialize_option : {A : Type 0} → M R A → M R (Option A)
  unfolding deserialize_u8
  deserialize_option deserialize = do
    flag ← deserialize_u8 rd
    if flag == 0
        then pure none
        else if flag == 1
        then (do v ← deserialize; pure (some v))
        else throw (
            custom invalid_data
              (fmt "Invalid Option representation: " flag ". The first byte must be 0 or 1"))

  unfoldable pub deserialize_result : {A B : Type 0} → M R A → M R B → M R (A ⊎ B)
  unfolding deserialize_u8
  deserialize_result deserialize_ok deserialize_err = do
    flag ← deserialize_u8 rd
    if flag == 0
        then (do e ← deserialize_err; pure (inr e))
        else if flag == 1
        then (do v ← deserialize_ok; pure (inl v))
        else throw (
            custom invalid_data
              (fmt "Invalid Result representation: " flag ". The first byte must be 0 or 1"))

  unfoldable pub deserialize_pair : {A B : Type 0} → M R A → M R B → M R (A × B)
  deserialize_pair deserialize_fst deserialize_snd = do
    a ← deserialize_fst
    b ← deserialize_snd
    pure (a, b)

  unfoldable pub deserialize_octets : ℕ → M R (List ℕ)
  unfolding read_bytes
  deserialize_octets n = read_bytes rd n

  unfoldable pub deserialize_ip_addr : M R IpAddr
  unfolding deserialize_u8 deserialize_octets
  deserialize_ip_addr = do
    kind ← deserialize_u8 rd
    if kind == 0
        then (do ip ← deserialize_octets 4; pure (IpAddr.v4 ip))
        else if kind == 1
        then (do ip ← deserialize_octets 16; pure (IpAddr.v6 ip))
        else throw (custom invalid_data (fmt "Invalid IpAddr variant: " kind ""))

  unfoldable pub deserialize_socket_addr_v4 : M R SocketAddrV4
  unfolding deserialize_octets deserialize_uint
  deserialize_socket_addr_v4 = do
    ip ← deserialize_octets 4
    port ← deserialize_uint rd 2
    pure (record { ip = ip; port = port })

  unfoldable pub deserialize_socket_addr_v6 : M R SocketAddrV6
  unfolding deserialize_octets deserialize_uint
  deserialize_socket_addr_v6 = do
    ip ← deserialize_octets 16
    port ← deserialize_uint rd 2
    pure (record { ip = ip; port = port; flowinfo = 0; scope_id = 0 })

  unfoldable pub deserialize_socket_addr : M R SocketAddr
  unfolding deserialize_u8 deserialize_socket_addr_v4 deserialize_socket_addr_v6
  deserialize_socket_addr = do
    kind ← deserialize_u8 rd
    if kind == 0
        then (do a ← deserialize_socket_addr_v4; pure (SocketAddr.v4 a))
        else if kind == 1
        then (do a ← deserialize_socket_addr_v6; pure (SocketAddr.v6 a))
        else throw (custom invalid_data (fmt "Invalid SocketAddr variant: " kind ""))
