-- ===== src/Ser/Sum.antt =====
-- borsh/src/ser/mod.rs: `Option`, `Result`, tuples, ranges and the addresses of `std::net`.
use borsh_rs.Base.{ℕ, Option, none, some, List, [], ◌∷◌, ◌⊎◌, inl, inr}
use borsh_rs.Io.{M, Write, ◌>>◌}
use borsh_rs.Ser.{serialize_u8, serialize_uint}
use borsh_rs.Ser.{serialize_u8, serialize_uint}

-- The addresses by their octets; a V6 socket address has two more numbers.
pub data IpAddr : Type 0 where
  v4 : List ℕ → IpAddr
  v6 : List ℕ → IpAddr

pub record SocketAddrV4 : Type 0 where
  pub ip : List ℕ
  pub port : ℕ

pub record SocketAddrV6 : Type 0 where
  pub ip : List ℕ
  pub port : ℕ
  pub flowinfo : ℕ
  pub scope_id : ℕ

pub data SocketAddr : Type 0 where
  v4 : SocketAddrV4 → SocketAddr
  v6 : SocketAddrV6 → SocketAddr

module _ {W : Type 0} (w : Write W) where
  unfoldable pub serialize_option : {A : Type 0} → (A → M W (Unit {0})) → Option A → M W (Unit {0})
  unfolding serialize_u8
  serialize_option serialize none = serialize_u8 w 0
  serialize_option serialize (some v) = do serialize_u8 w 1; serialize v

  -- `Result<T, E>`: `inl v` is `Ok(v)` and `inr e` is `Err(e)`.
  unfoldable pub serialize_result :
      {A B : Type 0} → (A → M W (Unit {0})) → (B → M W (Unit {0})) → A ⊎ B → M W (Unit {0})
  unfolding serialize_u8
  serialize_result serialize_ok serialize_err (inr e) = do serialize_u8 w 0; serialize_err e
  serialize_result serialize_ok serialize_err (inl v) = do serialize_u8 w 1; serialize_ok v

  -- One more field of a tuple, of a struct or of a range.
  unfoldable pub serialize_pair :
      {A B : Type 0} → (A → M W (Unit {0})) → (B → M W (Unit {0})) → A × B → M W (Unit {0})
  serialize_pair serialize_fst serialize_snd (a, b) = do serialize_fst a; serialize_snd b

  unfoldable pub serialize_octets : List ℕ → M W (Unit {0})
  serialize_octets octets = w.write_all octets

  unfoldable pub serialize_ip_addr : IpAddr → M W (Unit {0})
  unfolding serialize_octets
  serialize_ip_addr (v4 ip) = do w.write_all (0 ∷ []); serialize_octets ip
  serialize_ip_addr (v6 ip) = do w.write_all (1 ∷ []); serialize_octets ip

  unfoldable pub serialize_socket_addr_v4 : SocketAddrV4 → M W (Unit {0})
  unfolding serialize_octets serialize_uint
  serialize_socket_addr_v4 a = do serialize_octets a.ip; serialize_uint w 2 a.port

  unfoldable pub serialize_socket_addr_v6 : SocketAddrV6 → M W (Unit {0})
  unfolding serialize_octets serialize_uint
  serialize_socket_addr_v6 a = do serialize_octets a.ip; serialize_uint w 2 a.port

  unfoldable pub serialize_socket_addr : SocketAddr → M W (Unit {0})
  unfolding serialize_u8 serialize_socket_addr_v4 serialize_socket_addr_v6
  serialize_socket_addr (v4 a) = do serialize_u8 w 0; serialize_socket_addr_v4 a
  serialize_socket_addr (v6 a) = do serialize_u8 w 1; serialize_socket_addr_v6 a
