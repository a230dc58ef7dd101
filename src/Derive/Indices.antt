-- ===== src/Derive/Indices.antt =====
-- borsh-derive/src/internals/{serialize,deserialize}/enums/mod.rs: the tags of an enum without
-- `use_discriminant`, which are the indices of its variants.
use borsh_rs.Base.{
  ℕ, suc, ◌+◌, ◌≤◌, ◌<◌, String, ◌≡◌, refl, sym, ap, ◌∙◌, subst, arith, true, false, Option, none,
  some, List, [], ◌∷◌, inl, inr, Bool-cases, ltb, length, lt→ltb,
}
use borsh_rs.Io.{M, Read, err}
use borsh_rs.Types.{Ty, ⟦◌⟧}
use borsh_rs.Derive.{ExprPath, SynResult, accepted, rejected}
use borsh_rs.Derive.Consistent.{bind-accepted, accepted-injective}
use borsh_rs.Derive.Item.{
  Tokens, number, ItemEnum, Variant, Discriminants, new, get, value, value_from,
  contains_use_discriminant,
}
use borsh_rs.Derive.Serialize.{SerializeImpl, no_impl}
use borsh_rs.Derive.Deserialize.{EnumImpl}
use borsh_rs.Derive.Serialize as S
use borsh_rs.Derive.Deserialize as D
use borsh_rs.Derive.RunEnum.{
  Choice, find_tag, tag_of, select, deserialize_variant, unexpected_tag, build,
}
use borsh_rs.Derive.Run.{then_call_init}
use borsh_rs.Derive.Chosen.{TagsDiffer, serialize-cons, deserialize-cons}
use borsh_rs.Derive.Arms.{add_variant-tags, select-other}
use text.Mathlib.Text.{◌==◌ as str_eq}
use mathlib.Core.Option.{some-injective}

get-index :
    (discriminants : Discriminants) (n : String) (i : ℕ) (e : Tokens)
    → get discriminants n false i ≡ accepted e
    → (e ≡ number i ∷ []) × (i < 256)
unfolding get
get-index discriminants n i e h = elim (Bool-cases (ltb 255 i)) [
  | inl big ↦
      let bad : (◌≡◌ {A = SynResult Tokens} (rejected "up to 256 enum variants are supported")
          (accepted e)) =
        rw big at h in
      cc
  | inr small ↦
      let same : accepted (number i ∷ []) ≡ accepted e = rw small at h in
      (sym (accepted-injective (number i ∷ []) e same), ground (arith, small))
]

value-index : (i : ℕ) → i < 256 → value 8 (number i ∷ []) ≡ some i
unfolding value value_from
value-index i h = let fits : ltb i 256 ≡ true = lt→ltb i 256 h in rw (fits, value_from) refl

-- The index of each variant, as the token of a number.
abbrev pub index_tags : ℕ → List Variant → List (String × Tokens)
index_tags i [] = []
index_tags i (v ∷ vs) = (v.ident, number i ∷ []) ∷ index_tags (suc i) vs

-- Every tag is an index from `i` on.
abbrev From : ℕ → List (String × Tokens) → Type 0
From i tags = (n : String) (tag : ℕ) → tag_of (find_tag n tags) ≡ some tag → i ≤ tag

From-cons :
    (i : ℕ) (k : String) (tags : List (String × Tokens))
    → i < 256
    → From (suc i) tags
    → From i ((k, number i ∷ []) ∷ tags)
From-cons i k tags small h n tag e = elim (Bool-cases (str_eq k n)) [
  | inl own ↦
      let found : tag_of (some (number i ∷ [])) ≡ some tag = rw own at e in
      let same : some i ≡ some tag = sym (value-index i small) ∙ found in
      omega (arith, some-injective i tag same)
  | inr other ↦ omega (arith, h n tag (rw other at e))
]

index-tags :
    (discriminants : Discriminants) (i : ℕ) (xs : List Variant) (s : SerializeImpl)
    → S.each_variant discriminants false i xs ≡ accepted s
    → TagsDiffer s.tags × From i s.tags × (s.tags ≡ index_tags i xs)
unfolding S.each_variant
index-tags discriminants i [] s h =
    subst (λ (y : SerializeImpl). TagsDiffer y.tags × From i y.tags × (y.tags ≡ index_tags i []))
      (accepted-injective no_impl s h) (tt, (λ n tag e. cc), refl)
index-tags discriminants i (x ∷ xs) s h =
    let (e, o, s', e1, e2, e3, same) = serialize-cons discriminants false i x xs s h in
    let (number_i, small) = get-index discriminants x.ident i e e1 in
    let (differ, from, listed) = index-tags discriminants (suc i) xs s' e3 in
    let whole : s.tags ≡ (x.ident, number i ∷ []) ∷ s'.tags =
      sym (ap (λ (y : SerializeImpl). y.tags) same)
      ∙ add_variant-tags x.ident e o s'
      ∙ ap (λ (y : Tokens). (x.ident, y) ∷ s'.tags) number_i in
    subst (λ (y : List (String × Tokens)). TagsDiffer y × From i y × (y ≡ index_tags i (x ∷ xs)))
      (sym whole)
      (
        (i, value-index i small, (λ n again. absurd (omega (arith, from n i again))), differ),
        From-cons i x.ident s'.tags small from,
        ap (λ y. (x.ident, number i ∷ []) ∷ y) listed,
      )

-- Without `use_discriminant`, the tags of an enum are those of its variants, in order, each with the
-- index of its variant; every one fits into a byte, and no two have the same value.
pub process_enum-TagsDiffer :
    (input : ItemEnum) (s : SerializeImpl)
    → contains_use_discriminant input ≡ accepted false
    → S.process_enum input ≡ accepted s
    → (s.tags ≡ index_tags 0 input.variants) × TagsDiffer s.tags
unfolding S.process_enum
process_enum-TagsDiffer input s off h =
    let (b, e, e1) = bind-accepted (contains_use_discriminant input) _ s h in
    let by_index : b ≡ false = accepted-injective b false (sym e ∙ off) in
    let (differ, from, listed) = index-tags (new input.variants) 0 input.variants s (
      subst (λ y. S.each_variant (new input.variants) y 0 input.variants ≡ accepted s) by_index
        e1) in
    (listed, differ)

select-none :
    (discriminants : Discriminants) (i : ℕ) (xs : List Variant) (d : List D.Arm × D.Output)
    (tag : ℕ)
    → D.each_variant discriminants false i xs ≡ accepted d
    → i + length xs ≤ tag
    → select d.0 tag ≡ some none
unfolding D.each_variant
select-none discriminants i [] d tag h le =
    ap (λ (y : List D.Arm × D.Output). select y.0 tag)
      (sym (accepted-injective ([], D.no_output) d h))
select-none discriminants i (x ∷ xs) d tag h le =
    let (e, made, d', e1, e2, e3, same) = deserialize-cons discriminants false i x xs d h in
    let (number_i, small) = get-index discriminants x.ident i e e1 in
    ap (λ y. select y tag) (sym same)
    ∙ select-other (record { tag = e; variant = x.ident; construct = made.0 }) d'.0 i tag
        (ap (value 8) number_i ∙ value-index i small) (λ same_tag. omega (arith, same_tag, le))
    ∙ select-none discriminants (suc i) xs d' tag e3 (omega (arith, le))

-- Without `use_discriminant`, a tag that is not the index of a variant is refused, on any reader: with
-- the error on an unexpected tag, and without a read.
pub process_enum-unexpected_tag :
    {R : Type 0} (rd : Read R) (deserialize_with : ExprPath → (t : Ty) → M R ⟦ t ⟧)
    (default_of : (t : Ty) → Option ⟦ t ⟧) (input : ItemEnum) (d : EnumImpl)
    (init_with : ExprPath → Choice → Choice) (tag : ℕ)
    → contains_use_discriminant input ≡ accepted false
    → D.process_enum input ≡ accepted d
    → length input.variants ≤ tag
    → (m : M R Choice) × (deserialize_variant rd deserialize_with default_of input.variants
          init_with d tag
        ≡ some m)
      × ((r : R) → m r ≡ (err (unexpected_tag tag), r))
unfolding D.process_enum
process_enum-unexpected_tag rd deserialize_with default_of input d init_with tag off h big =
    let (b, e, e1) = bind-accepted (contains_use_discriminant input) _ d h in
    let by_index : b ≡ false = accepted-injective b false (sym e ∙ off) in
    let (made, e2, e3) =
      bind-accepted (D.each_variant (new input.variants) b 0 input.variants) _ d e1 in
    let last_else =
      select-none (new input.variants) 0 input.variants made tag
        (subst (λ y. D.each_variant (new input.variants) y 0 input.variants ≡ accepted made)
          by_index e2)
        (omega (arith, big)) in
    let arms : made.0 ≡ d.arms = ap (λ (y : EnumImpl). y.arms) (accepted-injective _ d e3) in
    (
      _,
      ap
            (λ y.
              then_call_init init_with d.init
                (build rd deserialize_with default_of input.variants tag (select y tag)))
            (sym arms)
          ∙ ap
              (λ o.
                then_call_init init_with d.init
                  (build rd deserialize_with default_of input.variants tag o))
              last_else,
      λ r. refl,
    )
