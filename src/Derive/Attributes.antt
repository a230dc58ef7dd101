-- ===== src/Derive/Attributes.antt =====
-- borsh-derive/src/internals/attributes: the attributes of a field. The map from keys to values that
-- the parsers fill is a record, with a field for each key; a later value replaces an earlier one.
use borsh_rs.Base.{
  String, Bool, true, false, Option, none, some, List, [], ◌∷◌, ◌&&◌, ◌||◌, if◌then◌else◌,
}
use borsh_rs.Derive.{
  ExprPath, WherePredicate, SynResult, accepted, rejected, ◌>>=◌, BoundMeta, WithFuncsMeta,
  SchemaMeta, FieldMeta, Attribute, ParameterOverride, declaration, definitions, params, with_funcs,
  bound, serialize_with, deserialize_with, skip, schema,
}
use text.Mathlib.Text.{◌==◌ as str_eq}
use Prim.Native.String.{◌++◌ as cat}

abbrev pub is_some : {A : Type 0} → Option A → Bool
is_some none = false
is_some (some a) = true

abbrev pub is_none : {A : Type 0} → Option A → Bool
is_none none = true
is_none (some a) = false

pub record Bounds : Type 0 where
  pub serialize : Option (List WherePredicate)
  pub deserialize : Option (List WherePredicate)

pub record WithFuncs : Type 0 where
  pub declaration : Option ExprPath
  pub definitions : Option ExprPath

pub record SchemaAttributes : Type 0 where
  pub params : Option (List ParameterOverride)
  pub with_funcs : Option WithFuncs

pub record Attributes : Type 0 where
  pub bounds : Option Bounds
  pub serialize_with : Option ExprPath
  pub deserialize_with : Option ExprPath
  pub skip : Bool
  pub schema : Option SchemaAttributes

-- `get_nested_meta_logic`, at an entry with no function for its key.
-- The keys are in the order of the map.
abbrev malformed : {A : Type 0} → String → String → SynResult A
malformed attr_name keys_strs = rejected (
    cat "malformed "
      (cat attr_name (cat " attribute, expected `" (cat attr_name (cat "(" (cat keys_strs ")`"))))))

abbrev pub bounds_meta : BoundMeta → Bounds → SynResult Bounds
bounds_meta (BoundMeta.serialize ps) b = accepted (record b { serialize = some ps })
bounds_meta (BoundMeta.deserialize ps) b = accepted (record b { deserialize = some ps })
bounds_meta (BoundMeta.other key) b = malformed "bound" "deserialize = ..., serialize = ..."

abbrev pub with_funcs_meta : WithFuncsMeta → WithFuncs → SynResult WithFuncs
with_funcs_meta (declaration p) f = accepted (record f { declaration = some p })
with_funcs_meta (definitions p) f = accepted (record f { definitions = some p })
with_funcs_meta (WithFuncsMeta.other key) f =
    malformed "with_funcs" "declaration = ..., definitions = ..."

-- `parse_nested_meta`: the entries in order, up to the first error.
abbrev pub each_meta : {T A : Type 0} → (T → A → SynResult A) → List T → A → SynResult A
each_meta logic [] a = accepted a
each_meta logic (m ∷ ms) a = logic m a >>= each_meta logic ms

abbrev pub bounds_of : List BoundMeta → SynResult Bounds
bounds_of ms = each_meta bounds_meta ms (record { serialize = none; deserialize = none })

abbrev pub both_or_neither : WithFuncs → Bool
both_or_neither f =
    if (is_some f.declaration && is_none f.definitions)
      || (is_none f.declaration && is_some f.definitions)
    then false
    else true

-- `f_with_funcs`
abbrev pub with_funcs_of : List WithFuncsMeta → SynResult WithFuncs
with_funcs_of ms =
    each_meta with_funcs_meta ms (record { declaration = none; definitions = none }) >>= λ f.
    if both_or_neither f
    then accepted f
    else rejected
        "both `declaration = ...` and `definitions = ...` have to be specified at the same time"

abbrev pub schema_meta : SchemaMeta → SchemaAttributes → SynResult SchemaAttributes
schema_meta (params ps) s = accepted (record s { params = some ps })
schema_meta (with_funcs ms) s =
    with_funcs_of ms >>= λ f. accepted (record s { with_funcs = some f })
schema_meta (SchemaMeta.other key) s = malformed "schema" "params = ..., with_funcs(...)"

abbrev pub schema_of : List SchemaMeta → SynResult SchemaAttributes
schema_of ms = each_meta schema_meta ms (record { params = none; with_funcs = none })

-- `BORSH_FIELD_PARSE_MAP`
abbrev pub field_meta : FieldMeta → Attributes → SynResult Attributes
field_meta (bound ms) a = bounds_of ms >>= λ b. accepted (record a { bounds = some b })
field_meta (serialize_with p) a = accepted (record a { serialize_with = some p })
field_meta (deserialize_with p) a = accepted (record a { deserialize_with = some p })
field_meta skip a = accepted (record a { skip = true })
field_meta (schema ms) a = schema_of ms >>= λ s. accepted (record a { schema = some s })
field_meta (FieldMeta.other key) a =
    malformed "borsh" "bound(...), deserialize_with = ..., schema(...), serialize_with = ..., skip"

abbrev pub no_attributes : Attributes
no_attributes = record {
  bounds = none;
  serialize_with = none;
  deserialize_with = none;
  skip = false;
  schema = none;
}

abbrev pub params_given : Option SchemaAttributes → Bool
params_given none = false
params_given (some s) = is_some s.params

abbrev pub with_funcs_given : Option SchemaAttributes → Bool
with_funcs_given none = false
with_funcs_given (some s) = is_some s.with_funcs

-- `check_schema`
unfoldable pub check_schema : Attributes → SynResult Attributes
check_schema a =
    if a.skip && params_given a.schema
    then rejected "`skip` cannot be used at the same time as `schema(params = ...)`"
    else if a.skip && with_funcs_given a.schema
    then rejected "`skip` cannot be used at the same time as `schema(with_funcs(...))`"
    else accepted a

unfoldable pub check : Attributes → SynResult Attributes
unfolding check_schema
check a =
    if a.skip && (is_some a.serialize_with || is_some a.deserialize_with)
    then rejected "`skip` cannot be used at the same time as `serialize_with` or `deserialize_with`"
    else check_schema a

abbrev is_borsh : Attribute → Bool
is_borsh attr = str_eq attr.path "borsh"

-- The attributes of the macro, in order.
unfoldable pub borsh_attributes : List Attribute → List Attribute
borsh_attributes [] = []
borsh_attributes (x ∷ xs) = if is_borsh x then x ∷ borsh_attributes xs else borsh_attributes xs

abbrev pub find_one : List Attribute → SynResult (Option Attribute)
find_one [] = accepted none
find_one (x ∷ []) = accepted (some x)
find_one (x ∷ y ∷ more) = rejected "multiple `borsh` attributes not allowed"

unfoldable pub get_one_attribute : List Attribute → SynResult (Option Attribute)
unfolding borsh_attributes
get_one_attribute attrs = find_one (borsh_attributes attrs)

abbrev pub attributes_of : Option Attribute → SynResult Attributes
attributes_of none = accepted no_attributes
attributes_of (some attr) = each_meta field_meta attr.metas no_attributes >>= check

-- `field::Attributes::parse`
unfoldable pub parse : List Attribute → SynResult Attributes
unfolding get_one_attribute check
parse attrs = get_one_attribute attrs >>= attributes_of

pub data BoundType : Type 0 where
  serialize deserialize : BoundType

abbrev chosen : BoundType → Bounds → Option (List WherePredicate)
chosen BoundType.serialize b = b.serialize
chosen BoundType.deserialize b = b.deserialize

abbrev bounds_for : BoundType → Option Bounds → Option (List WherePredicate)
bounds_for ty none = none
bounds_for ty (some b) = chosen ty b

abbrev pub get_bounds : Attributes → BoundType → Option (List WherePredicate)
get_bounds a ty = bounds_for ty a.bounds

abbrev pub needs_bounds_derive : Attributes → BoundType → Bool
needs_bounds_derive a ty = is_none (get_bounds a ty)

abbrev unwrap_or_default : Option (List WherePredicate) → List WherePredicate
unwrap_or_default none = []
unwrap_or_default (some ps) = ps

abbrev pub collect_bounds : Attributes → BoundType → List WherePredicate
collect_bounds a ty = unwrap_or_default (get_bounds a ty)
