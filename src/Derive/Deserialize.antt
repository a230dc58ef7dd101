-- ===== src/Derive/Deserialize.antt =====
-- borsh-derive/src/internals/deserialize: the code that the macro `BorshDeserialize` makes of a
-- struct or an enum.
use borsh_rs.Base.{ℕ, suc, String, Bool, Option, List, [], ◌∷◌, ◌++◌, if◌then◌else◌, not, ◌&&◌}
use borsh_rs.Types.{Ty}
use borsh_rs.Derive.{
  ExprPath, WherePredicate, SynResult, accepted, ◌>>=◌, Field, ItemFields, named, unnamed, unit,
}
use borsh_rs.Derive.Attributes.{Attributes, BoundType, parse, needs_bounds_derive, collect_bounds}
use borsh_rs.Derive.Item.{
  Tokens, Variant, ItemEnum, ItemStruct, Discriminants, new, get, contains_use_discriminant,
  contains_initialize_with,
}

-- What stands for a field: `path(reader)?`, with the default of
-- `BorshDeserialize::deserialize_reader`, or `Default::default()`; before it the field's name, if it
-- has one.
pub data FieldInit : Type 0 where
  read : Option String → Option ExprPath → FieldInit
  default : Option String → FieldInit

-- The code of one field or more, the overrides of the bounds, and the types that the visitors for
-- `BorshDeserialize` and for `Default` are given.
pub record Output : Type 0 where
  pub body : List FieldInit
  pub overrides : List WherePredicate
  pub deserialize_visited : List Ty
  pub default_visited : List Ty

abbrev pub no_output : Output
no_output = record { body = []; overrides = []; deserialize_visited = []; default_visited = [] }

abbrev pub extend : Output → Output → Output
extend o p = record {
  body = o.body ++ p.body;
  overrides = o.overrides ++ p.overrides;
  deserialize_visited = o.deserialize_visited ++ p.deserialize_visited;
  default_visited = o.default_visited ++ p.default_visited;
}

-- `field_output`, `field_default_output`
abbrev pub field_init : Option String → Attributes → FieldInit
field_init field_name parsed =
    if parsed.skip then default field_name else read field_name parsed.deserialize_with

abbrev pub field_output : Option String → Ty → Attributes → Output
field_output field_name ty parsed = record {
  body = field_init field_name parsed ∷ [];
  overrides = collect_bounds parsed BoundType.deserialize;
  deserialize_visited =
      if not parsed.skip && needs_bounds_derive parsed BoundType.deserialize then ty ∷ [] else [];
  default_visited =
      if parsed.skip && needs_bounds_derive parsed BoundType.deserialize then ty ∷ [] else [];
}

unfoldable pub process_field : Field → SynResult Output
unfolding parse
process_field field =
    parse field.attrs >>= λ parsed. accepted (field_output field.ident field.ty parsed)

-- The loop over the fields.
unfoldable pub each_field : List Field → SynResult Output
unfolding process_field
each_field [] = accepted no_output
each_field (f ∷ fs) = process_field f >>= λ o. each_field fs >>= λ p. accepted (extend o p)

-- `Self { a: .., b: .. }`, `Self( .., .. )` or the bare name.
pub data Construct : Type 0 where
  braces : List FieldInit → Construct
  parentheses : List FieldInit → Construct
  bare : Construct

abbrev pub process_fields : ItemFields → SynResult (Construct × Output)
process_fields (named fields) = each_field fields >>= λ o. accepted (braces o.body, o)
process_fields (unnamed fields) = each_field fields >>= λ o. accepted (parentheses o.body, o)
process_fields unit = accepted (bare, no_output)

pub record StructImpl : Type 0 where
  pub return_value : Construct
  pub init : Option ExprPath
  pub output : Output

-- `structs::process`
unfoldable pub process_struct : ItemStruct → SynResult StructImpl
unfolding each_field contains_initialize_with
process_struct input = process_fields input.fields >>= λ made.
    accepted (record {
      return_value = made.0;
      init = contains_initialize_with input.attrs;
      output = made.1;
    })

-- `if variant_tag == tag { Name::variant construct } else`
pub record Arm : Type 0 where
  pub tag : Tokens
  pub variant : String
  pub construct : Construct

pub record EnumImpl : Type 0 where
  pub arms : List Arm
  pub init : Option ExprPath
  pub output : Output

-- The loop over the variants, the first of which has the index `i`.
unfoldable pub each_variant :
    Discriminants → Bool → ℕ → List Variant → SynResult (List Arm × Output)
unfolding each_field get
each_variant discriminants by_discriminant i [] = accepted ([], no_output)
each_variant discriminants by_discriminant i (v ∷ vs) = process_fields v.fields >>= λ made.
    get discriminants v.ident by_discriminant i >>= λ tag.
    each_variant discriminants by_discriminant (suc i) vs >>= λ rest.
    accepted
      ((record { tag = tag; variant = v.ident; construct = made.0 }) ∷ rest.0, extend made.1 rest.1)

-- `enums::process`
unfoldable pub process_enum : ItemEnum → SynResult EnumImpl
unfolding each_variant contains_use_discriminant new contains_initialize_with
process_enum input = contains_use_discriminant input >>= λ by_discriminant.
    each_variant (new input.variants) by_discriminant 0 input.variants >>= λ made.
    accepted
      (record { arms = made.0; init = contains_initialize_with input.attrs; output = made.1 })
