-- ===== src/Derive.antt =====
-- borsh-derive/src: the derive macros. The items that they are given, as `syn` parses them, and the
-- outcome of a macro.
pub mod Attributes
pub mod Consistent
pub mod Item
pub mod Assigned
pub mod Serialize
pub mod Deserialize
pub mod Run
pub mod Spec
pub mod Fields
pub mod Inits
pub mod Structs
pub mod RunEnum
pub mod Patterns
pub mod Hidden
pub mod Variants
pub mod Arms
pub mod Chosen
pub mod Enums
pub mod Indices
pub mod Entry
pub mod Accepts
use borsh_rs.Base.{ℕ, String, Option, List}
use borsh_rs.Types.{Ty, ⟦◌⟧}

-- A path and a where predicate are kept as their text.
abbrev pub ExprPath : Type 0
ExprPath = String

abbrev pub WherePredicate : Type 0
WherePredicate = String

-- `syn::Result`: `rejected` is an error that becomes `compile_error!`.
pub data SynResult {ℓ} (A : Type ℓ) : Type ℓ where
  accepted : A → SynResult A
  rejected : String → SynResult A

infixl 5 ◌>>=◌
abbrev pub ◌>>=◌ : {A B : Type 0} → SynResult A → (A → SynResult B) → SynResult B
accepted a >>= f = f a
rejected text >>= f = rejected text

-- An entry of `bound(...)`, of `with_funcs(...)`, of `schema(...)` and of `borsh(...)` on a field,
-- with its value; `other` is an entry under any other key.
pub data BoundMeta : Type 0 where
  serialize : List WherePredicate → BoundMeta
  deserialize : List WherePredicate → BoundMeta
  other : String → BoundMeta

pub data WithFuncsMeta : Type 0 where
  declaration : ExprPath → WithFuncsMeta
  definitions : ExprPath → WithFuncsMeta
  other : String → WithFuncsMeta

-- `order_param => override_type`
pub record ParameterOverride : Type 0 where
  pub order_param : String
  pub override_type : String

pub data SchemaMeta : Type 0 where
  params : List ParameterOverride → SchemaMeta
  with_funcs : List WithFuncsMeta → SchemaMeta
  other : String → SchemaMeta

pub data FieldMeta : Type 0 where
  bound : List BoundMeta → FieldMeta
  serialize_with : ExprPath → FieldMeta
  deserialize_with : ExprPath → FieldMeta
  skip : FieldMeta
  schema : List SchemaMeta → FieldMeta
  other : String → FieldMeta

-- An attribute: its path, and what stands in its brackets.
pub record Attribute : Type 0 where
  pub path : String
  pub metas : List FieldMeta

-- `ident` is there in a struct or a variant with names. The type of a field is one whose traits the
-- library implements.
pub record Field : Type 0 where
  pub ident : Option String
  pub ty : Ty
  pub attrs : List Attribute

pub data ItemFields : Type 0 where
  named : List Field → ItemFields
  unnamed : List Field → ItemFields
  unit : ItemFields
