-- ===== src/Derive/Consistent.antt =====
-- borsh-derive/src/internals/attributes/field: the attributes that the parser accepts.
use borsh_rs.Base.{
  String, ◌≡◌, refl, Bool, true, false, Option, none, some, List, [], ◌∷◌, ◌&&◌, ◌||◌,
  if◌then◌else◌, length, ◌<◌, arith, ap, subst, Bool-cases, inl, inr,
}
use borsh_rs.Derive.{
  SynResult, accepted, rejected, ◌>>=◌, Attribute, WithFuncsMeta, SchemaMeta, FieldMeta, params,
  with_funcs, bound, serialize_with, deserialize_with, skip, schema,
}
use borsh_rs.Derive.Attributes.{
  Attributes, SchemaAttributes, WithFuncs, is_some, params_given, with_funcs_given, check,
  check_schema, parse, get_one_attribute, borsh_attributes, find_one, attributes_of, each_meta,
  field_meta, schema_meta, with_funcs_of, schema_of, bounds_of, no_attributes, both_or_neither,
  with_funcs_meta,
}

-- A skipped field has no functions of its own, for its bytes or its schema.
pub record IsConsistent (a : Attributes) : Type 0 where
  pub no_serialize_with : a.skip ≡ true → a.serialize_with ≡ none
  pub no_deserialize_with : a.skip ≡ true → a.deserialize_with ≡ none
  pub no_params : a.skip ≡ true → params_given a.schema ≡ false
  pub no_with_funcs : a.skip ≡ true → with_funcs_given a.schema ≡ false

pub bind-accepted :
    {A B : Type 0} (x : SynResult A) (f : A → SynResult B) (b : B)
    → (x >>= f) ≡ accepted b
    → (a : A) × (x ≡ accepted a) × (f a ≡ accepted b)
bind-accepted (accepted a) f b h = (a, refl, h)
bind-accepted (rejected text) f b h = cc

and_false : (x y : Bool) → (x && y) ≡ false → x ≡ true → y ≡ false
and_false true y h e = h
and_false false y h e = cc

or_false : (x y : Bool) → (x || y) ≡ false → (x ≡ false) × (y ≡ false)
or_false true y h = cc
or_false false y h = (refl, h)

is_some-false : {A : Type 0} (x : Option A) → is_some x ≡ false → x ≡ none
is_some-false none h = refl
is_some-false (some a) h = cc

-- A test that did not reject.
passed :
    {A : Type 0} (test : Bool) (text : String) (next : SynResult A) (a : A)
    → (if test then rejected text else next) ≡ accepted a
    → (test ≡ false) × (next ≡ accepted a)
passed true text next a h = cc
passed false text next a h = (refl, h)

pub accepted-injective : {A : Type 0} (a b : A) → accepted a ≡ accepted b → a ≡ b
accepted-injective a b h = ap (value_or a) h
  where
    value_or : {A : Type 0} → A → SynResult A → A
    value_or d (accepted x) = x
    value_or d (rejected text) = d

check-IsConsistent : (a b : Attributes) → check a ≡ accepted b → (a ≡ b) × IsConsistent a
unfolding check check_schema
check-IsConsistent a b h =
    let (one, h1) = passed _ _ _ b h in
    let (two, h2) = passed _ _ _ b h1 in
    let (three, h3) = passed _ _ _ b h2 in
    let none_with : (s : a.skip ≡ true)
        → (is_some a.serialize_with ≡ false) × (is_some a.deserialize_with ≡ false) =
      λ s. or_false _ _ (and_false _ _ one s) in
    (
      accepted-injective a b h3,
      record {
        no_serialize_with = λ s. is_some-false a.serialize_with (none_with s).0;
        no_deserialize_with = λ s. is_some-false a.deserialize_with (none_with s).1;
        no_params = λ s. and_false _ _ two s;
        no_with_funcs = λ s. and_false _ _ three s;
      },
    )

-- What every entry keeps, all the entries keep.
each_meta-keeps :
    {T A : Type 0} (P : A → Type 0) (logic : T → A → SynResult A)
    → ((m : T) (a b : A) → P a → logic m a ≡ accepted b → P b)
    → (ms : List T) (a b : A) → P a
    → each_meta logic ms a ≡ accepted b
    → P b
each_meta-keeps P logic one [] a b p h = subst P (accepted-injective a b h) p
each_meta-keeps P logic one (m ∷ ms) a b p h =
    let (c, first, rest) = bind-accepted (logic m a) (each_meta logic ms) b h in
    each_meta-keeps P logic one ms c b (one m a c p first) rest

abbrev pub Complete : Option WithFuncs → Type 0
Complete none = Unit {0}
Complete (some f) = both_or_neither f ≡ true

-- Functions for the schema of a field come in twos.
abbrev pub IsComplete : Option SchemaAttributes → Type 0
IsComplete none = Unit {0}
IsComplete (some s) = Complete s.with_funcs

with_funcs_of-Complete :
    (ms : List WithFuncsMeta) (f : WithFuncs)
    → with_funcs_of ms ≡ accepted f
    → both_or_neither f ≡ true
with_funcs_of-Complete ms f h =
    let (g, first, rest) =
      bind-accepted
        (each_meta with_funcs_meta ms (record { declaration = none; definitions = none })) _ f h in
    last g rest
  where
    last :
        (g : WithFuncs)
        → (if both_or_neither g
            then accepted g
            else rejected
                "both `declaration = ...` and `definitions = ...` have to be specified at the same time")
          ≡ accepted f
        → both_or_neither f ≡ true
    last g e = elim (Bool-cases (both_or_neither g)) [
      | inl yes_both ↦
          let same : accepted g ≡ accepted f = rw yes_both at e in
          subst (λ x. both_or_neither x ≡ true) (accepted-injective g f same) yes_both
      | inr not_both ↦
          let bad : (◌≡◌ {A = SynResult WithFuncs}
              (rejected
                "both `declaration = ...` and `definitions = ...` have to be specified at the same time")
              (accepted f)) =
            rw not_both at e in
          cc
    ]

schema_meta-keeps :
    (m : SchemaMeta) (s t : SchemaAttributes)
    → Complete s.with_funcs
    → schema_meta m s ≡ accepted t
    → Complete t.with_funcs
schema_meta-keeps (params ps) s t p h =
    subst (λ (x : SchemaAttributes). Complete x.with_funcs) (accepted-injective _ t h) p
schema_meta-keeps (with_funcs ms) s t p h =
    let (f, first, rest) = bind-accepted (with_funcs_of ms) _ t h in
    subst (λ (x : SchemaAttributes). Complete x.with_funcs) (accepted-injective _ t rest)
      (with_funcs_of-Complete ms f first)
schema_meta-keeps (SchemaMeta.other key) s t p h = cc

field_meta-keeps :
    (m : FieldMeta) (a b : Attributes)
    → IsComplete a.schema
    → field_meta m a ≡ accepted b
    → IsComplete b.schema
field_meta-keeps (bound ms) a b p h =
    let (x, first, rest) = bind-accepted (bounds_of ms) _ b h in
    subst (λ (y : Attributes). IsComplete y.schema) (accepted-injective _ b rest) p
field_meta-keeps (serialize_with f) a b p h =
    subst (λ (y : Attributes). IsComplete y.schema) (accepted-injective _ b h) p
field_meta-keeps (deserialize_with f) a b p h =
    subst (λ (y : Attributes). IsComplete y.schema) (accepted-injective _ b h) p
field_meta-keeps skip a b p h =
    subst (λ (y : Attributes). IsComplete y.schema) (accepted-injective _ b h) p
field_meta-keeps (schema ms) a b p h =
    let (s, first, rest) = bind-accepted (schema_of ms) _ b h in
    subst (λ (y : Attributes). IsComplete y.schema) (accepted-injective _ b rest)
      (each_meta-keeps (λ (x : SchemaAttributes). Complete x.with_funcs) schema_meta
        schema_meta-keeps ms _ s tt first)
field_meta-keeps (FieldMeta.other key) a b p h = cc

attributes_of-IsConsistent :
    (attr : Option Attribute) (a : Attributes)
    → attributes_of attr ≡ accepted a
    → IsConsistent a × IsComplete a.schema
attributes_of-IsConsistent none a h =
    subst (λ (x : Attributes). IsConsistent x × IsComplete x.schema)
      (accepted-injective no_attributes a h)
      (
        record {
          no_serialize_with = λ s. refl;
          no_deserialize_with = λ s. refl;
          no_params = λ s. refl;
          no_with_funcs = λ s. refl;
        },
        tt,
      )
attributes_of-IsConsistent (some attr) a h =
    let (b, first, rest) =
      bind-accepted (each_meta field_meta attr.metas no_attributes) check a h in
    let (same, consistent) = check-IsConsistent b a rest in
    subst (λ (x : Attributes). IsConsistent x × IsComplete x.schema) same
      (
        consistent,
        each_meta-keeps (λ (x : Attributes). IsComplete x.schema) field_meta field_meta-keeps
            attr.metas no_attributes b tt first,
      )

find_one-many :
    (attrs : List Attribute)
    → 1 < length attrs
    → find_one attrs ≡ rejected "multiple `borsh` attributes not allowed"
find_one-many [] h = absurd (omega (arith, h))
find_one-many (x ∷ []) h = absurd (omega (arith, h))
find_one-many (x ∷ y ∷ more) h = refl

-- Attributes of a field that the parser accepts fit together: a skipped field has no function for
-- its bytes and no override for its schema, and functions for a schema come in twos. More than one
-- `borsh` attribute is rejected.
pub parse-IsConsistent :
    (attrs : List Attribute)
    → ((a : Attributes) → parse attrs ≡ accepted a → IsConsistent a × IsComplete a.schema)
      × (1 < length (borsh_attributes attrs)
          → parse attrs ≡ rejected "multiple `borsh` attributes not allowed")
unfolding parse get_one_attribute
parse-IsConsistent attrs = (
  (λ a h.
      let (attr, first, rest) = bind-accepted (get_one_attribute attrs) attributes_of a h in
      attributes_of-IsConsistent attr a rest),
  λ many. rw (find_one-many (borsh_attributes attrs) many, get_one_attribute),
)
