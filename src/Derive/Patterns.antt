-- ===== src/Derive/Patterns.antt =====
-- borsh-derive/src/internals/serialize/enums/mod.rs: the variables of the pattern of a variant.
use borsh_rs.Base.{
  ℕ, suc, ◌≤◌, String, ◌≡◌, refl, sym, ap, ◌∙◌, subst, arith, Bool, true, false, Option, some, List,
  [], ◌∷◌, ◌++◌, ◌==◌, Bool-cases, inl, inr,
}
use borsh_rs.Derive.{SynResult, accepted, Field}
use borsh_rs.Derive.Attributes.{Attributes, parse}
use borsh_rs.Derive.Consistent.{bind-accepted, accepted-injective}
use borsh_rs.Derive.Serialize.{
  Ident, name, id, Expr, variable, Output, FieldId, enum, enum_unnamed, serialize_arg,
  enum_variant_header, enum_name_id, enum_index_id, ident_of, index, process_variant_field,
  each_field,
}
use borsh_rs.Derive.Run.{Dyn, Values, by_name}
use borsh_rs.Derive.RunEnum.{same_ident, contains, by_position}
use borsh_rs.Derive.Fields.{Resolves}
use borsh_rs.Derive.Structs.{
  Occurs, AreDistinct, by_name-head, by_name-tail, ident_of-accepted, index-accepted,
}
use text.Mathlib.TextEquality.{eq_iff}

contains-append_right :
    (x : Ident) (xs ys : List Ident) → contains x ys ≡ true → contains x (xs ++ ys) ≡ true
contains-append_right x [] ys h = h
contains-append_right x (y ∷ xs) ys h = elim (Bool-cases (same_ident y x)) [
  | inl e ↦ rw e refl
  | inr e ↦ rw e (contains-append_right x xs ys h)
]

contains-head : (n : String) (ys : List Ident) → contains (name n) (name n ∷ ys) ≡ true
contains-head n ys = rw ((eq_iff n n).1 refl) refl

-- The pattern that goes with a field.
pub field-header :
    (f : Field) (field_id : FieldId) (o : Output) (a : Attributes)
    → process_variant_field f field_id ≡ accepted o
    → parse f.attrs ≡ accepted a
    → o.header ≡ enum_variant_header field_id a.skip
unfolding process_variant_field
field-header f field_id o a h parsed =
    let (b, first, rest) = bind-accepted (parse f.attrs) _ o h in
    sym (ap (λ (x : Output). x.header) (accepted-injective _ o rest))
    ∙ ap (λ (x : Attributes). enum_variant_header field_id x.skip)
        (accepted-injective b a (sym first ∙ parsed))

pub parsed_attributes :
    (f : Field) (field_id : FieldId) (q : Output)
    → process_variant_field f field_id ≡ accepted q
    → (a : Attributes) × (parse f.attrs ≡ accepted a)
unfolding process_variant_field
parsed_attributes f field_id q h =
    let (b, first, rest) = bind-accepted (parse f.attrs) _ q h in (b, first)

-- The parts of the code for the fields.
pub each_field-cons :
    (id_of : ℕ → Field → SynResult FieldId) (i : ℕ) (f : Field) (fs : List Field) (o : Output)
    → each_field id_of process_variant_field i (f ∷ fs) ≡ accepted o
    → (field_id : FieldId) × (q : Output) × (p : Output) × (id_of i f ≡ accepted field_id)
      × (process_variant_field f field_id ≡ accepted q)
      × (each_field id_of process_variant_field (suc i) fs ≡ accepted p)
      × (o.header ≡ q.header ++ p.header)
unfolding each_field
each_field-cons id_of i f fs o h =
    let (field_id, e1, h1) = bind-accepted (id_of i f) _ o h in
    let (q, e2, h2) = bind-accepted (process_variant_field f field_id) _ o h1 in
    let (p, e3, h3) = bind-accepted (each_field id_of process_variant_field (suc i) fs) _ o h2 in
    (field_id, q, p, e1, e2, e3, sym (ap (λ (x : Output). x.header) (accepted-injective _ o h3)))

pub name-id :
    (i : ℕ) (f : Field) (field_id : FieldId)
    → enum_name_id i f ≡ accepted field_id
    → (n : String) × (f.ident ≡ some n) × (field_id ≡ enum n)
name-id i f field_id e =
    let (n, named_so, made) = bind-accepted (ident_of f) _ field_id e in
    (n, ident_of-accepted f n named_so, sym (accepted-injective (enum n) field_id made))

index-id :
    (i : ℕ) (f : Field) (field_id : FieldId)
    → enum_index_id i f ≡ accepted field_id
    → field_id ≡ enum_unnamed i
index-id i f field_id e =
    let (j, found, made) = bind-accepted (index i) _ field_id e in
    sym (accepted-injective (enum_unnamed j) field_id made)
    ∙ ap (λ (x : ℕ). enum_unnamed x) (sym (index-accepted i j found))

pub Resolves-names :
    (env : Expr → Option Dyn) (i : ℕ) (fs : List Field) (vs : Values fs) (o : Output)
    → each_field enum_name_id process_variant_field i fs ≡ accepted o
    → AreDistinct fs
    → ((n : String)
        → Occurs n fs
        → contains (name n) o.header ≡ true
        → env (variable (name n)) ≡ by_name fs vs n)
    → Resolves env enum_name_id i fs vs
Resolves-names env i [] vs o e d h = tt
Resolves-names env i (f ∷ fs) vs o e d h =
    let (field_id, q, p, e1, e2, e3, header) = each_field-cons enum_name_id i f fs o e in
    (
      (λ field_id' a e' parsed kept.
          let (n, own, made) = name-id i f field_id' e' in
          let (n', own', made') = name-id i f field_id e1 in
          let same_id : field_id ≡ field_id' =
            accepted-injective field_id field_id' (sym e1 ∙ e') in
          let here : q.header ≡ name n ∷ [] =
            field-header f field_id q a e2 parsed
            ∙ ap (λ x. enum_variant_header x a.skip) (same_id ∙ made)
            ∙ rw kept refl in
          let there : contains (name n) o.header ≡ true =
            ap (λ x. contains (name n) x) (header ∙ ap (λ x. x ++ p.header) here)
            ∙ contains-head n p.header in
          subst (λ (x : FieldId). env (serialize_arg x) ≡ some (f.ty, vs.0)) (sym made)
            (h n (inl own) there ∙ by_name-head f fs vs n own)),
      Resolves-names env (suc i) fs vs.1 p e3 d.1 λ n occurs inside.
          h n (inr occurs) (
            ap (λ x. contains (name n) x) header
            ∙ contains-append_right (name n) q.header p.header inside)
          ∙ by_name-tail f fs vs n (d.0 n occurs),
    )

-- A variable for an earlier field is another one.
earlier :
    (i m : ℕ) (skipped : Bool) (f : Field) (fs : List Field) (vs : Values (f ∷ fs))
    (more : List Ident)
    → suc i ≤ m
    → by_position (enum_variant_header (enum_unnamed i) skipped ++ more) (f ∷ fs) vs (id m)
      ≡ by_position more fs vs.1 (id m)
earlier i m true f fs vs more h = refl
earlier i m false f fs vs more h = let other : (i == m) ≡ false = ground (arith, h) in rw other refl

pub Resolves-positions :
    (env : Expr → Option Dyn) (i : ℕ) (fs : List Field) (vs : Values fs) (o : Output)
    → each_field enum_index_id process_variant_field i fs ≡ accepted o
    → ((m : ℕ) → i ≤ m → env (variable (id m)) ≡ by_position o.header fs vs (id m))
    → Resolves env enum_index_id i fs vs
Resolves-positions env i [] vs o e h = tt
Resolves-positions env i (f ∷ fs) vs o e h =
    let (field_id, q, p, e1, e2, e3, header) = each_field-cons enum_index_id i f fs o e in
    let made = index-id i f field_id e1 in
    let (a, parsed) = parsed_attributes f field_id q e2 in
    let here : q.header ≡ enum_variant_header (enum_unnamed i) a.skip =
      field-header f field_id q a e2 parsed ∙ ap (λ x. enum_variant_header x a.skip) made in
    let whole : o.header ≡ enum_variant_header (enum_unnamed i) a.skip ++ p.header =
      header ∙ ap (λ x. x ++ p.header) here in
    (
      (λ field_id' b e' parsed' kept.
          let kept_too : a.skip ≡ false =
            ap (λ (x : Attributes). x.skip) (accepted-injective a b (sym parsed ∙ parsed'))
            ∙ kept in
          let own : (i == i) ≡ true = ground arith in
          subst (λ (x : FieldId). env (serialize_arg x) ≡ some (f.ty, vs.0))
            (sym (index-id i f field_id' e'))
            (h i (omega arith)
              ∙ ap (λ x. by_position x (f ∷ fs) vs (id i)) whole
              ∙ rw (kept_too, own) refl)),
      Resolves-positions env (suc i) fs vs.1 p e3 λ m later.
          h m (omega (arith, later))
          ∙ ap (λ x. by_position x (f ∷ fs) vs (id m)) whole
          ∙ earlier i m a.skip f fs vs p.header later,
    )
