-- ===== src/Schema/Types.antt =====
-- borsh/src/schema.rs: the types that implement `BorshSchema`, and the declaration of each.
use borsh_rs.Base.{ℕ, zero, suc, ◌/◌, ◌%◌, ◌==◌, if◌then◌else◌, List, [], ◌∷◌}
use borsh_rs.Schema.{Declaration}
use borsh_rs.Types.{
  Unsigned, u8, u16, u32, u64, u128, usize, Signed, i8, i16, i32, i64, i128, isize,
}
use Prim.Native.String.{String, ◌++◌ as cat}

-- `NonZeroIsize` has no schema.
pub data Primitive : Type 0 where
  bool f32 f64 unit : Primitive
  unsigned : Unsigned → Primitive
  signed : Signed → Primitive
  nonzero_unsigned : Unsigned → Primitive
  nonzero_i8 nonzero_i16 nonzero_i32 nonzero_i64 nonzero_i128 : Primitive

pub data RangeKind : Type 0 where
  range range_inclusive range_from range_to range_to_inclusive : RangeKind

pub data SeqKind : Type 0 where
  vec vec_deque linked_list slice hash_set btree_set : SeqKind

pub data MapKind : Type 0 where
  hash_map btree_map : MapKind

mutual
  -- `boxed` is `Box`, `Cell`, `RefCell`, `Rc`, `Arc` and `Cow`.
  pub data SchemaTy : Type 0 where
    scalar : Primitive → SchemaTy
    string range_full phantom_data : SchemaTy
    range_of : RangeKind → SchemaTy → SchemaTy
    array : SchemaTy → ℕ → SchemaTy
    option : SchemaTy → SchemaTy
    result : SchemaTy → SchemaTy → SchemaTy
    seq : SeqKind → SchemaTy → SchemaTy
    map_of : MapKind → SchemaTy → SchemaTy → SchemaTy
    tuple_of : SchemaTys → SchemaTy
    boxed : SchemaTy → SchemaTy

  pub data SchemaTys : Type 0 where
    nil : SchemaTys
    cons : SchemaTy → SchemaTys → SchemaTys

abbrev pub unsigned_name : Unsigned → String
unsigned_name u8 = "u8"
unsigned_name u16 = "u16"
unsigned_name u32 = "u32"
unsigned_name u64 = "u64"
unsigned_name u128 = "u128"
unsigned_name usize = "u64"

abbrev pub signed_name : Signed → String
signed_name i8 = "i8"
signed_name i16 = "i16"
signed_name i32 = "i32"
signed_name i64 = "i64"
signed_name i128 = "i128"
signed_name isize = "i64"

abbrev pub nonzero_name : Unsigned → String
nonzero_name u8 = "NonZeroU8"
nonzero_name u16 = "NonZeroU16"
nonzero_name u32 = "NonZeroU32"
nonzero_name u64 = "NonZeroU64"
nonzero_name u128 = "NonZeroU128"
nonzero_name usize = "NonZeroUsize"

abbrev pub primitive_name : Primitive → String
primitive_name Primitive.bool = "bool"
primitive_name Primitive.f32 = "f32"
primitive_name Primitive.f64 = "f64"
primitive_name Primitive.unit = "()"
primitive_name (Primitive.unsigned k) = unsigned_name k
primitive_name (Primitive.signed k) = signed_name k
primitive_name (Primitive.nonzero_unsigned k) = nonzero_name k
primitive_name nonzero_i8 = "NonZeroI8"
primitive_name nonzero_i16 = "NonZeroI16"
primitive_name nonzero_i32 = "NonZeroI32"
primitive_name nonzero_i64 = "NonZeroI64"
primitive_name nonzero_i128 = "NonZeroI128"

abbrev pub unsigned_width : Unsigned → ℕ
unsigned_width u8 = 1
unsigned_width u16 = 2
unsigned_width u32 = 4
unsigned_width u64 = 8
unsigned_width u128 = 16
unsigned_width usize = 8

abbrev pub signed_width : Signed → ℕ
signed_width i8 = 1
signed_width i16 = 2
signed_width i32 = 4
signed_width i64 = 8
signed_width i128 = 16
signed_width isize = 8

-- The sizes that the macros are called with.
abbrev pub primitive_size : Primitive → ℕ
primitive_size Primitive.bool = 1
primitive_size Primitive.f32 = 4
primitive_size Primitive.f64 = 8
primitive_size Primitive.unit = 0
primitive_size (Primitive.unsigned k) = unsigned_width k
primitive_size (Primitive.signed k) = signed_width k
primitive_size (Primitive.nonzero_unsigned k) = unsigned_width k
primitive_size nonzero_i8 = 1
primitive_size nonzero_i16 = 2
primitive_size nonzero_i32 = 4
primitive_size nonzero_i64 = 8
primitive_size nonzero_i128 = 16

abbrev pub range_name : RangeKind → String
range_name range = "Range"
range_name range_inclusive = "RangeInclusive"
range_name range_from = "RangeFrom"
range_name range_to = "RangeTo"
range_name range_to_inclusive = "RangeToInclusive"

abbrev pub seq_name : SeqKind → String
seq_name vec = "Vec"
seq_name vec_deque = "VecDeque"
seq_name linked_list = "LinkedList"
seq_name slice = "Vec"
seq_name hash_set = "HashSet"
seq_name btree_set = "BTreeSet"

abbrev pub map_name : MapKind → String
map_name hash_map = "HashMap"
map_name btree_map = "BTreeMap"

abbrev digit : ℕ → String
digit n =
    if n == 0
    then "0"
    else if n == 1
    then "1"
    else if n == 2
    then "2"
    else if n == 3
    then "3"
    else if n == 4
    then "4"
    else if n == 5
    then "5"
    else if n == 6
    then "6"
    else if n == 7
    then "7"
    else if n == 8
    then "8"
    else "9"

-- `{}` of a number. A number has no more digits than itself, plus one.
unfoldable decimal_of : ℕ → ℕ → String
decimal_of zero n = ""
decimal_of (suc fuel) n = elim (n / 10) [
  | zero ↦ digit (n % 10)
  | suc q ↦ cat (decimal_of fuel (suc q)) (digit (n % 10))
]

unfoldable pub decimal : ℕ → String
unfolding decimal_of
decimal n = decimal_of (suc n) n

-- `params.join(", ")`
unfoldable pub join : List String → String
join [] = ""
join (x ∷ []) = x
join (x ∷ y ∷ rest) = cat x (cat ", " (join (y ∷ rest)))

-- `format!("{}<{}>", name, params)`
abbrev pub applied : String → String → String
applied name params = cat name (cat "<" (cat params ">"))

unfoldable pub tuple_name : List String → String
unfolding join
tuple_name (x ∷ []) = cat "(" (cat x ",)")
tuple_name xs = cat "(" (cat (join xs) ")")

unfoldable mutual
  unfolding decimal tuple_name

  pub declaration_of : SchemaTy → Declaration
  declaration_of (scalar p) = primitive_name p
  declaration_of SchemaTy.string = "String"
  declaration_of range_full = "RangeFull"
  declaration_of phantom_data = "()"
  declaration_of (range_of k t) = applied (range_name k) (declaration_of t)
  declaration_of (array t n) = cat "[" (cat (declaration_of t) (cat "; " (cat (decimal n) "]")))
  declaration_of (option t) = applied "Option" (declaration_of t)
  declaration_of (result t e) =
      applied "Result" (cat (declaration_of t) (cat ", " (declaration_of e)))
  declaration_of (seq k t) = applied (seq_name k) (declaration_of t)
  declaration_of (map_of m k v) =
      applied (map_name m) (cat (declaration_of k) (cat ", " (declaration_of v)))
  declaration_of (tuple_of ts) = tuple_name (declarations_of ts)
  declaration_of (boxed t) = declaration_of t

  pub declarations_of : SchemaTys → List Declaration
  declarations_of nil = []
  declarations_of (cons t ts) = declaration_of t ∷ declarations_of ts
