-- ===== src/Derive/Chosen.antt =====
-- borsh-derive/src/internals/{serialize,deserialize}/enums/mod.rs: the arms that a variant takes.
use borsh_rs.Base.{
  ℕ, suc, String, ◌≡◌, ◌≢◌, refl, sym, ap, ◌∙◌, subst, Bool, true, false, none, some, List, [], ◌∷◌,
  ◌⊎◌, inl, inr, Bool-cases,
}
use borsh_rs.Derive.{accepted}
use borsh_rs.Derive.Consistent.{bind-accepted, accepted-injective}
use borsh_rs.Derive.Item.{Tokens, Variant, Discriminants, value, get}
use borsh_rs.Derive.Serialize.{
  VariantBody, fields, Output, SerializeImpl, process_variant_fields, add_variant, Arm, no_impl,
}
use borsh_rs.Derive.Deserialize.{Construct, process_fields}
use borsh_rs.Derive.Serialize as S
use borsh_rs.Derive.Deserialize as D
use borsh_rs.Derive.RunEnum.{find_tag, tag_of, find_arm, select, variant_named}
use borsh_rs.Derive.Variants.{IsArm}
use text.Mathlib.Text.{◌==◌ as str_eq}
use text.Mathlib.TextEquality.{eq_iff}
use borsh_rs.Derive.Arms.{
  add_variant-tags, add_variant-other, IsArm-other, IsArm-own, find_tag-own, find_tag-other,
  select-own, select-other,
}

abbrev pub IsIn : Variant → List Variant → Type 0
IsIn v [] = ⊥
IsIn v (x ∷ xs) = (x ≡ v) ⊎ IsIn v xs

-- No two variants have the same name.
abbrev pub VariantsDiffer : List Variant → Type 0
VariantsDiffer [] = Unit {0}
VariantsDiffer (x ∷ xs) =
    ((v : Variant) → IsIn v xs → str_eq x.ident v.ident ≡ false) × VariantsDiffer xs

-- Every tag fits into a byte, and no two are equal.
abbrev pub TagsDiffer : List (String × Tokens) → Type 0
TagsDiffer [] = Unit {0}
TagsDiffer ((k, e) ∷ more) =
    (tag : ℕ) × (value 8 e ≡ some tag)
    × ((n : String) → tag_of (find_tag n more) ≢ some tag)
    × TagsDiffer more

pub variant_named-own :
    (v : Variant) (variants : List Variant)
    → IsIn v variants
    → VariantsDiffer variants
    → variant_named variants v.ident ≡ some v
variant_named-own v [] h d = absurd h
variant_named-own v (x ∷ xs) (inl e) d =
    subst (λ (y : Variant). variant_named (y ∷ xs) v.ident ≡ some v) (sym e)
      (rw ((eq_iff v.ident v.ident).1 refl) refl)
variant_named-own v (x ∷ xs) (inr e) d = rw (d.0 v e) (variant_named-own v xs e d.1)

-- What becomes of a variant.
pub record Found (v : Variant) (s : SerializeImpl) (arms : List D.Arm) : Type 0 where
  pub tag : ℕ
  pub out : VariantBody × Output
  pub made : Construct × D.Output
  pub arm : D.Arm
  pub tagged : tag_of (find_tag v.ident s.tags) ≡ some tag
  pub processed : process_variant_fields v.fields ≡ accepted out
  pub placed : IsArm v.ident out.0 s
  pub constructed : process_fields v.fields ≡ accepted made
  pub selected : select arms tag ≡ some (some arm)
  pub same_variant : arm.variant ≡ v.ident
  pub same_construct : arm.construct ≡ made.0

module _ (discriminants : Discriminants) (by_discriminant : Bool) where
  -- One variant and the others, in the code that is made.
  pub serialize-cons :
      (i : ℕ) (x : Variant) (xs : List Variant) (s : SerializeImpl)
      → S.each_variant discriminants by_discriminant i (x ∷ xs) ≡ accepted s
      → (e : Tokens) × (o : VariantBody × Output) × (s' : SerializeImpl) × (get discriminants
            x.ident by_discriminant i
          ≡ accepted e)
        × (process_variant_fields x.fields ≡ accepted o)
        × (S.each_variant discriminants by_discriminant (suc i) xs ≡ accepted s')
        × (add_variant x.ident e o s' ≡ s)
  unfolding S.each_variant
  serialize-cons i x xs s h =
      let (e, e1, h1) = bind-accepted (get discriminants x.ident by_discriminant i) _ s h in
      let (o, e2, h2) = bind-accepted (process_variant_fields x.fields) _ s h1 in
      let (s', e3, h3) =
        bind-accepted (S.each_variant discriminants by_discriminant (suc i) xs) _ s h2 in
      (e, o, s', e1, e2, e3, accepted-injective _ s h3)

  pub deserialize-cons :
      (i : ℕ) (x : Variant) (xs : List Variant) (d : List D.Arm × D.Output)
      → D.each_variant discriminants by_discriminant i (x ∷ xs) ≡ accepted d
      → (e : Tokens) × (made : Construct × D.Output) × (d' : List D.Arm × D.Output) × (get
            discriminants x.ident by_discriminant i
          ≡ accepted e)
        × (process_fields x.fields ≡ accepted made)
        × (D.each_variant discriminants by_discriminant (suc i) xs ≡ accepted d')
        × (◌≡◌ {A = List D.Arm}
            ((record { tag = e; variant = x.ident; construct = made.0 }) ∷ d'.0)
            d.0)
  unfolding D.each_variant
  deserialize-cons i x xs d h =
      let (made, e1, h1) = bind-accepted (process_fields x.fields) _ d h in
      let (e, e2, h2) = bind-accepted (get discriminants x.ident by_discriminant i) _ d h1 in
      let (d', e3, h3) =
        bind-accepted (D.each_variant discriminants by_discriminant (suc i) xs) _ d h2 in
      (e, made, d', e2, e1, e3, ap (λ (y : List D.Arm × D.Output). y.0) (accepted-injective _ d h3))

  no_arm :
      (i : ℕ) (xs : List Variant) (n : String) (s : SerializeImpl)
      → S.each_variant discriminants by_discriminant i xs ≡ accepted s
      → ((v : Variant) → IsIn v xs → str_eq v.ident n ≡ false)
      → find_arm n s.arms ≡ none
  unfolding S.each_variant
  no_arm i [] n s h differ =
      sym (ap (λ (y : SerializeImpl). find_arm n y.arms) (accepted-injective no_impl s h))
  no_arm i (x ∷ xs) n s h differ =
      let (e, o, s', e1, e2, e3, same) = serialize-cons i x xs s h in
      sym (ap (λ (y : SerializeImpl). find_arm n y.arms) same)
      ∙ add_variant-other x.ident n e o s' (differ x (inl refl))
      ∙ no_arm (suc i) xs n s' e3 (λ v there. differ v (inr there))

  different_too : (a b : String) → str_eq a b ≡ false → str_eq b a ≡ false
  different_too a b h = elim (Bool-cases (str_eq b a)) [
    | inl e ↦
        let bad : str_eq a b ≡ true = (eq_iff a b).1 (sym ((eq_iff b a).0 e)) in
        absurd (contradict bad)
    | inr e ↦ e
  ]
    where
      contradict : str_eq a b ≡ true → ⊥
      contradict bad = let both : true ≡ false = sym bad ∙ h in cc

  pub each_variant-Found :
      (i : ℕ) (xs : List Variant) (s : SerializeImpl) (d : List D.Arm × D.Output)
      → S.each_variant discriminants by_discriminant i xs ≡ accepted s
      → D.each_variant discriminants by_discriminant i xs ≡ accepted d
      → VariantsDiffer xs
      → TagsDiffer s.tags
      → (v : Variant) → IsIn v xs
      → Found v s d.0
  each_variant-Found i [] s d h h' differ tags v there = absurd there
  each_variant-Found i (x ∷ xs) s d h h' differ tags v there =
      let (e, o, s', e1, e2, e3, same) = serialize-cons i x xs s h in
      let (e', made, d', e1', e2', e3', same') = deserialize-cons i x xs d h' in
      let one_tag : e' ≡ e = accepted-injective e' e (sym e1' ∙ e1) in
      let tags' : TagsDiffer ((x.ident, e) ∷ s'.tags) =
        subst TagsDiffer (add_variant-tags x.ident e o s')
          (subst (λ (y : SerializeImpl). TagsDiffer y.tags) (sym same) tags) in
      subst (λ (y : SerializeImpl). Found v y d.0) same
        (subst (Found v (add_variant x.ident e o s')) same' (
          subst
            (λ y.
              Found v (add_variant x.ident e o s')
                ((record { tag = y; variant = x.ident; construct = made.0 }) ∷ d'.0))
            (sym one_tag)
            (elim there [
              | inl here ↦
                  subst
                    (λ (y : Variant).
                      Found y (add_variant x.ident e o s')
                        ((record { tag = e; variant = x.ident; construct = made.0 }) ∷ d'.0))
                    here
                    (record {
                      tag = tags'.0;
                      out = o;
                      made = made;
                      arm = record { tag = e; variant = x.ident; construct = made.0 };
                      tagged =
                          ap (λ l. tag_of (find_tag x.ident l)) (add_variant-tags x.ident e o s')
                          ∙ ap tag_of (find_tag-own x.ident e s'.tags)
                          ∙ tags'.1;
                      processed = e2;
                      placed = IsArm-own x.ident e o s' (
                          no_arm (suc i) xs x.ident s' e3
                            (λ u inside. different_too x.ident u.ident (differ.0 u inside)));
                      constructed = e2';
                      selected =
                          select-own (record { tag = e; variant = x.ident; construct = made.0 })
                            d'.0 tags'.0 tags'.1;
                      same_variant = refl;
                      same_construct = refl;
                    })
              | inr later ↦
                  let f = each_variant-Found (suc i) xs s' d' e3 e3' differ.1 tags'.3 v later in
                  let apart = differ.0 v later in
                  record {
                    tag = f.tag;
                    out = f.out;
                    made = f.made;
                    arm = f.arm;
                    tagged =
                        ap (λ l. tag_of (find_tag v.ident l)) (add_variant-tags x.ident e o s')
                        ∙ ap tag_of (find_tag-other x.ident v.ident e s'.tags apart)
                        ∙ f.tagged;
                    processed = f.processed;
                    placed = IsArm-other x.ident v.ident e o s' f.out.0 apart f.placed;
                    constructed = f.constructed;
                    selected =
                        select-other (record { tag = e; variant = x.ident; construct = made.0 })
                          d'.0 tags'.0 f.tag tags'.1
                          (λ same_tag. tags'.2 v.ident (f.tagged ∙ ap (λ (t : ℕ). some t) same_tag))
                        ∙ f.selected;
                    same_variant = f.same_variant;
                    same_construct = f.same_construct;
                  }
            ])))
