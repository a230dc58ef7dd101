-- ===== src/Schema/Conforms.antt =====
-- Which bytes a schema allows: the meaning of `Definition` of borsh/src/schema.rs, after its doc.
use borsh_rs.Base.{ℕ, ◌≤◌, ◌≡◌, List, [], ◌∷◌, ◌++◌, length, replicate, ◌⊎◌}
use borsh_rs.Num.{ℤ, to_le_bytes, to_pattern}
use borsh_rs.Base.{some}
use borsh_rs.Schema.{
  Declaration, Fields, primitive, sequence, tuple, enum, struct, field_types, get,
}
use borsh_rs.Schema.Standard.{Definitions}
use borsh_rs.Schema.Types.{
  SchemaTy, SchemaTys, scalar, string, range_full, phantom_data, range_of, array, option, result,
  seq, map_of, tuple_of, boxed, nil, cons, Primitive, nonzero_i8, nonzero_i16, nonzero_i32,
  nonzero_i64, nonzero_i128, RangeKind, range, range_inclusive, range_from, range_to,
  range_to_inclusive,
}
use borsh_rs.Types.{Ty, NonZeroSigned}
use Prim.Native.String.{String}

abbrev pub Variant : Type 0
Variant = ℤ × String × Declaration

abbrev pub IsVariant : Variant → List Variant → Type 0
IsVariant v [] = ⊥
IsVariant v (x ∷ xs) = (v ≡ x) ⊎ IsVariant v xs

-- The bytes are values of these declarations, one after the other.
pub data Conforms (defs : Definitions) : List Declaration → List ℕ → Type 0 where
  done : Conforms defs [] []
  bytes_of :
      {d : Declaration} {ds : List Declaration} {bs : List ℕ} (n : ℕ) (used rest : List ℕ)
      → get d defs ≡ some (primitive n)
      → length used ≡ n
      → bs ≡ used ++ rest
      → Conforms defs ds rest
      → Conforms defs (d ∷ ds) bs
  items_of :
      {d : Declaration} {ds : List Declaration} {bs : List ℕ} (width start end : ℕ)
      (elements : Declaration) (n : ℕ) (rest : List ℕ)
      → get d defs ≡ some (sequence width start end elements)
      → start ≤ n
      → n ≤ end
      → bs ≡ to_le_bytes width n ++ rest
      → Conforms defs (replicate n elements ++ ds) rest
      → Conforms defs (d ∷ ds) bs
  members_of :
      {d : Declaration} {ds : List Declaration} {bs : List ℕ} (elements : List Declaration)
      → get d defs ≡ some (tuple elements)
      → Conforms defs (elements ++ ds) bs
      → Conforms defs (d ∷ ds) bs
  variant_of :
      {d : Declaration} {ds : List Declaration} {bs : List ℕ} (width : ℕ) (variants : List Variant)
      (v : Variant) (rest : List ℕ)
      → get d defs ≡ some (enum width variants)
      → IsVariant v variants
      → bs ≡ to_le_bytes width (to_pattern width v.0) ++ rest
      → Conforms defs (v.2 ∷ ds) rest
      → Conforms defs (d ∷ ds) bs
  fields_of :
      {d : Declaration} {ds : List Declaration} {bs : List ℕ} (fields : Fields)
      → get d defs ≡ some (struct fields)
      → Conforms defs (field_types fields ++ ds) bs
      → Conforms defs (d ∷ ds) bs

abbrev pub primitive_ty : Primitive → Ty
primitive_ty Primitive.bool = Ty.bool
primitive_ty Primitive.f32 = Ty.f32
primitive_ty Primitive.f64 = Ty.f64
primitive_ty Primitive.unit = Ty.unit
primitive_ty (Primitive.unsigned k) = Ty.unsigned k
primitive_ty (Primitive.signed k) = Ty.signed k
primitive_ty (Primitive.nonzero_unsigned k) = Ty.nonzero_unsigned k
primitive_ty nonzero_i8 = Ty.nonzero_signed NonZeroSigned.nonzero_i8
primitive_ty nonzero_i16 = Ty.nonzero_signed NonZeroSigned.nonzero_i16
primitive_ty nonzero_i32 = Ty.nonzero_signed NonZeroSigned.nonzero_i32
primitive_ty nonzero_i64 = Ty.nonzero_signed NonZeroSigned.nonzero_i64
primitive_ty nonzero_i128 = Ty.nonzero_signed NonZeroSigned.nonzero_i128

abbrev pub range_ty : RangeKind → Ty → Ty
range_ty range t = Ty.pair t t
range_ty range_inclusive t = Ty.pair t t
range_ty range_from t = t
range_ty range_to t = t
range_ty range_to_inclusive t = t

-- The type of the values that are written in the same way: a set is its items and a map its entries,
-- in the order in which they are written.
abbrev mutual
  pub wire : SchemaTy → Ty
  wire (scalar p) = primitive_ty p
  wire string = Ty.string
  wire range_full = Ty.unit
  wire phantom_data = Ty.unit
  wire (range_of k t) = range_ty k (wire t)
  wire (array t n) = Ty.array (wire t) n
  wire (option t) = Ty.option (wire t)
  wire (result t e) = Ty.result (wire t) (wire e)
  wire (seq s t) = Ty.vec (wire t)
  wire (map_of m k v) = Ty.vec (Ty.pair (wire k) (wire v))
  wire (tuple_of ts) = wires ts
  wire (boxed t) = Ty.boxed (wire t)

  pub wires : SchemaTys → Ty
  wires nil = Ty.unit
  wires (cons t ts) = Ty.pair (wire t) (wires ts)
