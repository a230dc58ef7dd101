-- ===== src/Derive/Hidden.antt =====
-- borsh-derive/src/internals/serialize/enums/mod.rs: what the variables of a pattern hide.
use borsh_rs.Base.{
  ℕ, suc, String, ◌≡◌, refl, sym, ap, ◌∙◌, subst, true, false, Option, none, some, List, [], ◌∷◌,
  ◌++◌, Bool-cases, inl, inr,
}
use borsh_rs.Derive.{ExprPath, accepted, Field, ItemFields, named, unnamed, unit}
use borsh_rs.Derive.Attributes.{Attributes, parse}
use borsh_rs.Derive.Consistent.{accepted-injective}
use borsh_rs.Derive.Serialize.{
  name, named_header, Output, enum, enum_variant_header, enum_name_id, process_variant_field,
  each_field, no_output,
}
use borsh_rs.Derive.Run.{is_local, is_hidden, writing_locals}
use borsh_rs.Derive.RunEnum.{contains, variant_hides}
use borsh_rs.Derive.Fields.{AreFree}
use borsh_rs.Derive.Structs.{Occurs}
use text.Mathlib.Text.{◌==◌ as str_eq}
use text.Mathlib.TextEquality.{eq_iff}
use borsh_rs.Derive.Patterns.{each_field-cons, name-id, field-header, parsed_attributes}

-- No function that a field names in `serialize_with` has the name of a field of the variant.
abbrev pub PathsAreFree : List Field → List Field → Type 0
PathsAreFree all [] = Unit {0}
PathsAreFree all (f ∷ fs) =
    ((a : Attributes) (p : ExprPath)
      → parse f.attrs ≡ accepted a
      → a.skip ≡ false
      → a.serialize_with ≡ some p
      → ¬ (Occurs p all))
    × PathsAreFree all fs

-- No variable of the pattern of a variant hides the parameter `writer` or a function.
abbrev pub HidesNothing : ItemFields → Type 0
HidesNothing (named fs) = ¬ (Occurs "writer" fs) × PathsAreFree fs fs
HidesNothing (unnamed fs) = Unit {0}
HidesNothing unit = Unit {0}

-- The variables of a pattern are names of fields.
header-Occurs :
    (m : String) (i : ℕ) (fs : List Field) (o : Output)
    → each_field enum_name_id process_variant_field i fs ≡ accepted o
    → contains (name m) o.header ≡ true
    → Occurs m fs
unfolding each_field
header-Occurs m i [] o e inside =
    let bad : false ≡ true =
      subst (λ (x : Output). contains (name m) x.header ≡ true)
        (sym (accepted-injective no_output o e)) inside in
    cc
header-Occurs m i (f ∷ fs) o e inside =
    let (field_id, q, p, e1, e2, e3, header) = each_field-cons enum_name_id i f fs o e in
    let (a, parsed) = parsed_attributes f field_id q e2 in
    let (n, own, made) = name-id i f field_id e1 in
    let whole : o.header ≡ enum_variant_header (enum n) a.skip ++ p.header =
      header
      ∙ ap (λ x. x ++ p.header)
          (field-header f field_id q a e2 parsed ∙ ap (λ x. enum_variant_header x a.skip) made) in
    elim (Bool-cases a.skip) [
      | inl skipped ↦ inr (
          header-Occurs m (suc i) fs p e3 (
            subst (λ x. contains (name m) x ≡ true)
              (whole ∙ ap (λ b. enum_variant_header (enum n) b ++ p.header) skipped) inside))
      | inr kept ↦
          let listed : contains (name m) (name n ∷ p.header) ≡ true =
            subst (λ x. contains (name m) x ≡ true)
              (whole ∙ ap (λ b. enum_variant_header (enum n) b ++ p.header) kept) inside in
          elim (Bool-cases (str_eq n m)) [
            | inl same ↦ inl (own ∙ ap (λ (x : String). some x) ((eq_iff n m).0 same))
            | inr differs ↦ inr (header-Occurs m (suc i) fs p e3 (rw differs at listed))
          ]
    ]

-- A name that no field has is not in the pattern.
pub header-absent :
    (m : String) (fs : List Field) (o : Output)
    → each_field enum_name_id process_variant_field 0 fs ≡ accepted o
    → ¬ (Occurs m fs)
    → contains (name m) o.header ≡ false
header-absent m fs o e clear = elim (Bool-cases (contains (name m) o.header)) [
  | inl there ↦ absurd (clear (header-Occurs m 0 fs o e there))
  | inr absent ↦ absent
]

path-absent :
    (all : List Field) (o : Output) (path : Option ExprPath)
    → each_field enum_name_id process_variant_field 0 all ≡ accepted o
    → is_hidden (is_local writing_locals) path ≡ false
    → ((p : ExprPath) → path ≡ some p → ¬ (Occurs p all))
    → is_hidden (variant_hides (named_header o.header)) path ≡ false
path-absent all o none e h clear = refl
path-absent all o (some p) e h clear = rw h (header-absent p all o e (clear p refl))

pub AreFree-variant :
    (all fs : List Field) (o : Output)
    → each_field enum_name_id process_variant_field 0 all ≡ accepted o
    → AreFree (is_local writing_locals) fs
    → PathsAreFree all fs
    → AreFree (variant_hides (named_header o.header)) fs
AreFree-variant all [] o e free clear = tt
AreFree-variant all (f ∷ fs) o e free clear = (
  (λ a parsed kept.
      path-absent all o a.serialize_with e (free.0 a parsed kept)
        λ p there. clear.0 a p parsed kept there),
  AreFree-variant all fs o e free.1 clear.1,
)
