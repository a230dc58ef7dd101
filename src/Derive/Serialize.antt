-- ===== src/Derive/Serialize.antt =====
-- borsh-derive/src/internals/serialize: the code that the macro `BorshSerialize` makes of a struct or
-- an enum. A `quote!` is a value of the type of what it writes down.
use borsh_rs.Base.{
  ℕ, suc, ◌^◌, String, Bool, true, false, Option, none, some, List, [], ◌∷◌, ◌++◌, if◌then◌else◌,
  not, ◌&&◌, ltb,
}
use borsh_rs.Types.{Ty}
use borsh_rs.Derive.{
  ExprPath, WherePredicate, SynResult, accepted, rejected, ◌>>=◌, Field, ItemFields, named, unnamed,
}
use borsh_rs.Derive.Attributes.{Attributes, BoundType, parse, needs_bounds_derive, collect_bounds}
use borsh_rs.Derive.Item.{
  Tokens, Variant, ItemEnum, ItemStruct, Discriminants, new, get, contains_use_discriminant,
}

-- A variable of a pattern: a field's name, `id{index}` or `_id{index}`.
pub data Ident : Type 0 where
  name : String → Ident
  id : ℕ → Ident
  skipped_id : ℕ → Ident

-- `&self.name`, `&self.0`, and a variable.
pub data Expr : Type 0 where
  self_name : String → Expr
  self_index : ℕ → Expr
  variable : Ident → Expr

-- `func(arg, writer)?;`, with the default of `BorshSerialize::serialize`.
pub record Statement : Type 0 where
  pub func : Option ExprPath
  pub arg : Expr

-- What a field adds to the code: to the pattern of its variant, to the body, to the overrides of
-- the bounds, and the types that the visitor of type parameters is given.
pub record Output : Type 0 where
  pub header : List Ident
  pub body : List Statement
  pub overrides : List WherePredicate
  pub visited : List Ty

abbrev pub no_output : Output
no_output = record { header = []; body = []; overrides = []; visited = [] }

abbrev pub extend : Output → Output → Output
extend o p = record {
  header = o.header ++ p.header;
  body = o.body ++ p.body;
  overrides = o.overrides ++ p.overrides;
  visited = o.visited ++ p.visited;
}

pub data FieldId : Type 0 where
  struct : String → FieldId
  struct_unnamed : ℕ → FieldId
  enum : String → FieldId
  enum_unnamed : ℕ → FieldId

abbrev pub index : ℕ → SynResult ℕ
index field_idx =
    if ltb field_idx (2 ^ 32)
    then accepted field_idx
    else rejected "up to 2^32 fields are supported"

abbrev pub new_struct_unnamed : ℕ → SynResult FieldId
new_struct_unnamed field_idx = index field_idx >>= λ i. accepted (struct_unnamed i)

abbrev pub new_enum_unnamed : ℕ → SynResult FieldId
new_enum_unnamed field_idx = index field_idx >>= λ i. accepted (enum_unnamed i)

abbrev pub serialize_arg : FieldId → Expr
serialize_arg (struct n) = self_name n
serialize_arg (struct_unnamed i) = self_index i
serialize_arg (enum n) = variable (name n)
serialize_arg (enum_unnamed i) = variable (id i)

abbrev pub serialize_output : FieldId → Option ExprPath → Statement
serialize_output field_id serialize_with = record {
  func = serialize_with;
  arg = serialize_arg field_id;
}

-- The fields of a struct have no variant header; the code does not ask for one.
abbrev pub enum_variant_header : FieldId → Bool → List Ident
enum_variant_header (struct n) skipped = []
enum_variant_header (struct_unnamed i) skipped = []
enum_variant_header (enum n) skipped = if skipped then [] else name n ∷ []
enum_variant_header (enum_unnamed i) skipped = if skipped then skipped_id i ∷ [] else id i ∷ []

abbrev pub field_output : FieldId → Ty → Attributes → List Ident → Output
field_output field_id ty parsed header = record {
  header = header;
  body = if parsed.skip then [] else serialize_output field_id parsed.serialize_with ∷ [];
  overrides = collect_bounds parsed BoundType.serialize;
  visited =
      if not parsed.skip && needs_bounds_derive parsed BoundType.serialize then ty ∷ [] else [];
}

-- `structs::process_field`
unfoldable pub process_field : Field → FieldId → SynResult Output
unfolding parse
process_field field field_id =
    parse field.attrs >>= λ parsed. accepted (field_output field_id field.ty parsed [])

-- `enums::process_field`
unfoldable pub process_variant_field : Field → FieldId → SynResult Output
unfolding parse
process_variant_field field field_id = parse field.attrs >>= λ parsed.
    accepted (field_output field_id field.ty parsed (enum_variant_header field_id parsed.skip))

-- `field.ident.clone().unwrap()`
abbrev pub ident_of : Field → SynResult String
ident_of field = elim field.ident [
  | none ↦ rejected "called `Option::unwrap()` on a `None` value"
  | some n ↦ accepted n
]

-- The loop over the fields, the first of which has the index `i`.
unfoldable pub each_field :
    (ℕ → Field → SynResult FieldId)
    → (Field → FieldId → SynResult Output)
    → ℕ
    → List Field
    → SynResult Output
each_field id_of process i [] = accepted no_output
each_field id_of process i (f ∷ fs) = id_of i f >>= λ field_id.
    process f field_id >>= λ o. each_field id_of process (suc i) fs >>= λ p. accepted (extend o p)

abbrev pub struct_name_id : ℕ → Field → SynResult FieldId
struct_name_id i field = ident_of field >>= λ n. accepted (struct n)

abbrev pub struct_index_id : ℕ → Field → SynResult FieldId
struct_index_id i field = new_struct_unnamed i

abbrev pub enum_name_id : ℕ → Field → SynResult FieldId
enum_name_id i field = ident_of field >>= λ n. accepted (enum n)

abbrev pub enum_index_id : ℕ → Field → SynResult FieldId
enum_index_id i field = new_enum_unnamed i

abbrev pub process_struct_fields : ItemFields → SynResult Output
process_struct_fields (named fields) = each_field struct_name_id process_field 0 fields
process_struct_fields (unnamed fields) = each_field struct_index_id process_field 0 fields
process_struct_fields ItemFields.unit = accepted no_output

-- `structs::process`
unfoldable pub process_struct : ItemStruct → SynResult Output
unfolding each_field process_field
process_struct input = process_struct_fields input.fields

-- The pattern of a variant: `{ a, b, .. }` or `(id0, _id1)`.
pub data Header : Type 0 where
  named_header : List Ident → Header
  unnamed_header : List Ident → Header

-- `VariantBody`
pub data VariantBody : Type 0 where
  unit : VariantBody
  fields : Header → List Statement → VariantBody

-- The match of `enums::process_variant`: the body, and what is added to the bounds. The arm of the
-- variant's tag has a pattern for its shape, and `discriminant_value`.
abbrev pub process_variant_fields : ItemFields → SynResult (VariantBody × Output)
process_variant_fields (named fs) = each_field enum_name_id process_variant_field 0 fs >>= λ o.
    accepted (VariantBody.fields (named_header o.header) o.body, o)
process_variant_fields (unnamed fs) = each_field enum_index_id process_variant_field 0 fs >>= λ o.
    accepted (VariantBody.fields (unnamed_header o.header) o.body, o)
process_variant_fields ItemFields.unit = accepted (VariantBody.unit, no_output)

abbrev pub process_variant : Variant → SynResult (VariantBody × Output)
process_variant v = process_variant_fields v.fields

pub record Arm : Type 0 where
  pub variant : String
  pub header : Header
  pub body : List Statement

-- The `impl`: the arms for the tag, and the match on the fields, which ends in a catch-all when there
-- is a unit variant.
pub record SerializeImpl : Type 0 where
  pub tags : List (String × Tokens)
  pub arms : List Arm
  pub has_unit_variant : Bool
  pub overrides : List WherePredicate
  pub visited : List Ty

abbrev pub add_variant : String → Tokens → VariantBody × Output → SerializeImpl → SerializeImpl
add_variant ident tag (VariantBody.unit, o) rest = record {
  tags = (ident, tag) ∷ rest.tags;
  arms = rest.arms;
  has_unit_variant = true;
  overrides = o.overrides ++ rest.overrides;
  visited = o.visited ++ rest.visited;
}
add_variant ident tag (VariantBody.fields h b, o) rest = record {
  tags = (ident, tag) ∷ rest.tags;
  arms = (record { variant = ident; header = h; body = b }) ∷ rest.arms;
  has_unit_variant = rest.has_unit_variant;
  overrides = o.overrides ++ rest.overrides;
  visited = o.visited ++ rest.visited;
}

abbrev pub no_impl : SerializeImpl
no_impl = record { tags = []; arms = []; has_unit_variant = false; overrides = []; visited = [] }

-- The loop over the variants, the first of which has the index `i`.
unfoldable pub each_variant : Discriminants → Bool → ℕ → List Variant → SynResult SerializeImpl
unfolding get each_field process_variant_field
each_variant discriminants by_discriminant i [] = accepted no_impl
each_variant discriminants by_discriminant i (v ∷ vs) =
    get discriminants v.ident by_discriminant i >>= λ tag. process_variant v >>= λ out.
    each_variant discriminants by_discriminant (suc i) vs >>= λ rest.
    accepted (add_variant v.ident tag out rest)

-- `enums::process`
unfoldable pub process_enum : ItemEnum → SynResult SerializeImpl
unfolding each_variant contains_use_discriminant new
process_enum input = contains_use_discriminant input >>= λ by_discriminant.
    each_variant (new input.variants) by_discriminant 0 input.variants
