-- ===== src/Types.antt =====
-- The types that implement both traits, as data, and the values of each. borsh/src/ser/mod.rs and
-- borsh/src/de/mod.rs have one implementation, or a macro's use, for each.
pub mod Dispatch
pub mod Spec
pub mod Encode
pub mod Decode
pub mod Canonical
pub mod Maps
pub mod Results
pub mod Streams
use borsh_rs.Base.{ℕ, ◌+◌, ◌*◌, Bool, Option, List, ◌⊎◌, max}
use borsh_rs.Num.{ℤ}
use borsh_rs.Ser.Sum.{IpAddr, SocketAddrV4, SocketAddrV6, SocketAddr}

pub data Unsigned : Type 0 where
  u8 u16 u32 u64 u128 usize : Unsigned

pub data Signed : Type 0 where
  i8 i16 i32 i64 i128 isize : Signed

abbrev pub unsigned_size : Unsigned → ℕ
unsigned_size u8 = 1
unsigned_size u16 = 2
unsigned_size u32 = 4
unsigned_size u64 = 8
unsigned_size u128 = 16
unsigned_size usize = 8

abbrev pub signed_size : Signed → ℕ
signed_size i8 = 1
signed_size i16 = 2
signed_size i32 = 4
signed_size i64 = 8
signed_size i128 = 16
signed_size isize = 8

-- `NonZeroIsize` implements neither trait.
pub data NonZeroSigned : Type 0 where
  nonzero_i8 nonzero_i16 nonzero_i32 nonzero_i64 nonzero_i128 : NonZeroSigned

abbrev pub signed_of : NonZeroSigned → Signed
signed_of nonzero_i8 = i8
signed_of nonzero_i16 = i16
signed_of nonzero_i32 = i32
signed_of nonzero_i64 = i64
signed_of nonzero_i128 = i128

-- A tuple is nested pairs; so are a range and the fields of a struct. `boxed` is `Box`, `Rc`,
-- `Arc`, `Cow` and `&T`, and `cell` is `Cell`, which are written and read as what they hold.
pub data Ty : Type 0 where
  unsigned : Unsigned → Ty
  signed : Signed → Ty
  nonzero_unsigned : Unsigned → Ty
  nonzero_signed : NonZeroSigned → Ty
  f32 f64 bool string unit : Ty
  option : Ty → Ty
  result : Ty → Ty → Ty
  vec : Ty → Ty
  linked_list : Ty → Ty
  array : Ty → ℕ → Ty
  pair : Ty → Ty → Ty
  boxed : Ty → Ty
  cell : Ty → Ty
  ipv4_addr ipv6_addr ip_addr socket_addr_v4 socket_addr_v6 socket_addr : Ty

abbrev pub ⟦◌⟧ : Ty → Type 0
⟦ unsigned k ⟧ = ℕ
⟦ signed k ⟧ = ℤ
⟦ nonzero_unsigned k ⟧ = ℕ
⟦ nonzero_signed k ⟧ = ℤ
⟦ f32 ⟧ = ℕ
⟦ f64 ⟧ = ℕ
⟦ bool ⟧ = Bool
⟦ string ⟧ = List ℕ
⟦ unit ⟧ = Unit {0}
⟦ option t ⟧ = Option ⟦ t ⟧
⟦ result t e ⟧ = ⟦ t ⟧ ⊎ ⟦ e ⟧
⟦ vec t ⟧ = List ⟦ t ⟧
⟦ linked_list t ⟧ = List ⟦ t ⟧
⟦ array t n ⟧ = List ⟦ t ⟧
⟦ pair t u ⟧ = ⟦ t ⟧ × ⟦ u ⟧
⟦ boxed t ⟧ = ⟦ t ⟧
⟦ cell t ⟧ = ⟦ t ⟧
⟦ ipv4_addr ⟧ = List ℕ
⟦ ipv6_addr ⟧ = List ℕ
⟦ ip_addr ⟧ = IpAddr
⟦ socket_addr_v4 ⟧ = SocketAddrV4
⟦ socket_addr_v6 ⟧ = SocketAddrV6
⟦ socket_addr ⟧ = SocketAddr

-- `size_of`, without the padding that rustc may add: only whether it is 0 is looked at, and a
-- type is a zero-sized one exactly if no part of it takes room.
unfoldable pub size_of : Ty → ℕ
size_of (unsigned k) = unsigned_size k
size_of (signed k) = signed_size k
size_of (nonzero_unsigned k) = unsigned_size k
size_of (nonzero_signed k) = signed_size (signed_of k)
size_of f32 = 4
size_of f64 = 8
size_of bool = 1
size_of string = 24
size_of unit = 0
size_of (option t) = size_of t + 1
size_of (result t e) = max (size_of t) (size_of e) + 1
size_of (vec t) = 24
size_of (linked_list t) = 24
size_of (array t n) = n * size_of t
size_of (pair t u) = size_of t + size_of u
size_of (boxed t) = 8
size_of (cell t) = size_of t
size_of ipv4_addr = 4
size_of ipv6_addr = 16
size_of ip_addr = 17
size_of socket_addr_v4 = 6
size_of socket_addr_v6 = 28
size_of socket_addr = 32
