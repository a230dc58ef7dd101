-- ===== src/Types/Spec.antt =====
-- Which values can be written, and the bytes that stand for each: the Borsh format, told apart
-- from the code. Numbers are little-endian; a sequence is its length in four bytes and its items;
-- an array, a tuple and a string's text are their parts; a sum is a tag byte and its payload.
use borsh_rs.Base.{
  ℕ, ◌^◌, ◌<◌, ◌≡◌, ◌≢◌, true, false, none, some, List, [], ◌∷◌, ◌++◌, inl, inr, length, All,
  if◌then◌else◌,
}
use borsh_rs.Num.{pos, Bytes, InRange, to_le_bytes, to_pattern}
use borsh_rs.Utf8.{is_utf8}
use borsh_rs.Ser.{is_nan_f32, is_nan_f64}
use borsh_rs.Ser.Sum.{IpAddr, SocketAddrV4, SocketAddrV6, SocketAddr}
use borsh_rs.Types.{
  Ty, ⟦◌⟧, size_of, unsigned_size, signed_of, signed_size, signed_of, unsigned, signed,
  nonzero_unsigned, nonzero_signed, f32, f64, bool, string, unit, option, result, vec, linked_list,
  array, pair, boxed, cell, ipv4_addr, ipv6_addr, ip_addr, socket_addr_v4, socket_addr_v6,
  socket_addr,
}

abbrev pub IsOctets : ℕ → List ℕ → Type 0
IsOctets n octets = Bytes octets × (length octets ≡ n)

abbrev pub IsIpAddr : IpAddr → Type 0
IsIpAddr (IpAddr.v4 ip) = IsOctets 4 ip
IsIpAddr (IpAddr.v6 ip) = IsOctets 16 ip

abbrev pub IsSocketAddrV4 : SocketAddrV4 → Type 0
IsSocketAddrV4 a = IsOctets 4 a.ip × (a.port < 2 ^ 16)

-- The two numbers that the format leaves out are 0.
abbrev pub IsSocketAddrV6 : SocketAddrV6 → Type 0
IsSocketAddrV6 a = IsOctets 16 a.ip × (a.port < 2 ^ 16) × (a.flowinfo ≡ 0) × (a.scope_id ≡ 0)

abbrev pub IsSocketAddr : SocketAddr → Type 0
IsSocketAddr (SocketAddr.v4 a) = IsSocketAddrV4 a
IsSocketAddr (SocketAddr.v6 a) = IsSocketAddrV6 a

-- The length of a `Vec<u8>` counts in a `u32`.
abbrev pub FitsU32 {ℓ} : {A : Type ℓ} → List A → Type 0
FitsU32 xs = length xs < 2 ^ 32

abbrev pub Valid : (t : Ty) → ⟦ t ⟧ → Type 0
Valid (unsigned k) v = v < 256 ^ unsigned_size k
Valid (signed k) v = InRange (signed_size k) v
Valid (nonzero_unsigned k) v = (v < 256 ^ unsigned_size k) × (v ≢ 0)
Valid (nonzero_signed k) v = InRange (signed_size (signed_of k)) v × (v ≢ pos 0)
Valid f32 v = (v < 2 ^ 32) × (is_nan_f32 v ≡ false)
Valid f64 v = (v < 2 ^ 64) × (is_nan_f64 v ≡ false)
Valid bool v = Unit
Valid string v = Bytes v × FitsU32 v × (is_utf8 v ≡ true)
Valid unit v = Unit
Valid (option t) none = Unit
Valid (option t) (some v) = Valid t v
Valid (result t e) (inl v) = Valid t v
Valid (result t e) (inr v) = Valid e v
Valid (vec t) v = (0 < size_of t) × FitsU32 v × All (Valid t) v
Valid (linked_list t) v = (0 < size_of t) × FitsU32 v × All (Valid t) v
Valid (array t n) v = (length v ≡ n) × All (Valid t) v
Valid (pair t u) v = Valid t v.0 × Valid u v.1
Valid (boxed t) v = Valid t v
Valid (cell t) v = Valid t v
Valid ipv4_addr v = IsOctets 4 v
Valid ipv6_addr v = IsOctets 16 v
Valid ip_addr v = IsIpAddr v
Valid socket_addr_v4 v = IsSocketAddrV4 v
Valid socket_addr_v6 v = IsSocketAddrV6 v
Valid socket_addr v = IsSocketAddr v

abbrev pub encode_each : {A : Type 0} → (A → List ℕ) → List A → List ℕ
encode_each enc [] = []
encode_each enc (x ∷ xs) = enc x ++ encode_each enc xs

abbrev pub encode_seq : {A : Type 0} → (A → List ℕ) → List A → List ℕ
encode_seq enc xs = to_le_bytes 4 (length xs) ++ encode_each enc xs

abbrev pub encode_ip_addr : IpAddr → List ℕ
encode_ip_addr (IpAddr.v4 ip) = 0 ∷ ip
encode_ip_addr (IpAddr.v6 ip) = 1 ∷ ip

abbrev pub encode_socket_addr_v4 : SocketAddrV4 → List ℕ
encode_socket_addr_v4 a = a.ip ++ to_le_bytes 2 a.port

abbrev pub encode_socket_addr_v6 : SocketAddrV6 → List ℕ
encode_socket_addr_v6 a = a.ip ++ to_le_bytes 2 a.port

abbrev pub encode_socket_addr : SocketAddr → List ℕ
encode_socket_addr (SocketAddr.v4 a) = 0 ∷ encode_socket_addr_v4 a
encode_socket_addr (SocketAddr.v6 a) = 1 ∷ encode_socket_addr_v6 a

unfoldable pub encode : (t : Ty) → ⟦ t ⟧ → List ℕ
encode (unsigned k) v = to_le_bytes (unsigned_size k) v
encode (signed k) v = to_le_bytes (signed_size k) (to_pattern (signed_size k) v)
encode (nonzero_unsigned k) v = to_le_bytes (unsigned_size k) v
encode (nonzero_signed k) v =
    to_le_bytes (signed_size (signed_of k)) (to_pattern (signed_size (signed_of k)) v)
encode f32 v = to_le_bytes 4 v
encode f64 v = to_le_bytes 8 v
encode bool v = (if v then 1 else 0) ∷ []
encode string v = to_le_bytes 4 (length v) ++ v
encode unit v = []
encode (option t) none = 0 ∷ []
encode (option t) (some v) = 1 ∷ encode t v
encode (result t e) (inl v) = 1 ∷ encode t v
encode (result t e) (inr v) = 0 ∷ encode e v
encode (vec t) v = encode_seq (encode t) v
encode (linked_list t) v = encode_seq (encode t) v
encode (array t n) v = encode_each (encode t) v
encode (pair t u) v = encode t v.0 ++ encode u v.1
encode (boxed t) v = encode t v
encode (cell t) v = encode t v
encode ipv4_addr v = v
encode ipv6_addr v = v
encode ip_addr v = encode_ip_addr v
encode socket_addr_v4 v = encode_socket_addr_v4 v
encode socket_addr_v6 v = encode_socket_addr_v6 v
encode socket_addr v = encode_socket_addr v
