-- ===== src/Derive/Arms.antt =====
-- borsh-derive/src/internals/{serialize,deserialize}/enums/mod.rs: one arm more.
use borsh_rs.Base.{ℕ, String, ◌≡◌, ◌≢◌, refl, ◌∙◌, arith, true, false, none, some, List, ◌∷◌, ◌==◌}
use borsh_rs.Derive.Item.{Tokens, value}
use borsh_rs.Derive.Serialize.{VariantBody, fields, Output, SerializeImpl, add_variant}
use borsh_rs.Derive.Deserialize.{Construct, process_fields}
use borsh_rs.Derive.Deserialize as D
use borsh_rs.Derive.RunEnum.{find_tag, find_arm, select}
use borsh_rs.Derive.Variants.{IsArm}
use text.Mathlib.Text.{◌==◌ as str_eq}
use text.Mathlib.TextEquality.{eq_iff}

-- The names of the arms are among those of the variants.
pub add_variant-tags :
    (n : String) (e : Tokens) (o : VariantBody × Output) (s : SerializeImpl)
    → (add_variant n e o s).tags ≡ (n, e) ∷ s.tags
add_variant-tags n e (VariantBody.unit, o) s = refl
add_variant-tags n e (fields h b, o) s = refl

pub add_variant-other :
    (n m : String) (e : Tokens) (o : VariantBody × Output) (s : SerializeImpl)
    → str_eq n m ≡ false
    → find_arm m (add_variant n e o s).arms ≡ find_arm m s.arms
add_variant-other n m e (VariantBody.unit, o) s h = refl
add_variant-other n m e (fields hd b, o) s h = rw h refl

pub add_variant-unit :
    (n : String) (e : Tokens) (o : VariantBody × Output) (s : SerializeImpl)
    → s.has_unit_variant ≡ true
    → (add_variant n e o s).has_unit_variant ≡ true
add_variant-unit n e (VariantBody.unit, o) s h = refl
add_variant-unit n e (fields hd b, o) s h = h

pub IsArm-other :
    (n m : String) (e : Tokens) (o : VariantBody × Output) (s : SerializeImpl) (body : VariantBody)
    → str_eq n m ≡ false
    → IsArm m body s
    → IsArm m body (add_variant n e o s)
IsArm-other n m e o s VariantBody.unit h (a, u) =
    (add_variant-other n m e o s h ∙ a, add_variant-unit n e o s u)
IsArm-other n m e o s (fields hd b) h a = add_variant-other n m e o s h ∙ a

pub IsArm-own :
    (n : String) (e : Tokens) (o : VariantBody × Output) (s : SerializeImpl)
    → find_arm n s.arms ≡ none
    → IsArm n o.0 (add_variant n e o s)
IsArm-own n e (VariantBody.unit, o) s h = (h, refl)
IsArm-own n e (fields hd b, o) s h = rw ((eq_iff n n).1 refl) refl

pub find_tag-own :
    (n : String) (e : Tokens) (more : List (String × Tokens)) → find_tag n ((n, e) ∷ more) ≡ some e
find_tag-own n e more = rw ((eq_iff n n).1 refl) refl

pub find_tag-other :
    (n m : String) (e : Tokens) (more : List (String × Tokens))
    → str_eq n m ≡ false
    → find_tag m ((n, e) ∷ more) ≡ find_tag m more
find_tag-other n m e more h = rw h refl

pub select-own :
    (arm : D.Arm) (arms : List D.Arm) (tag : ℕ)
    → value 8 arm.tag ≡ some tag
    → select (arm ∷ arms) tag ≡ some (some arm)
select-own arm arms tag h = let own : (tag == tag) ≡ true = ground arith in rw (h, own, select) refl

pub select-other :
    (arm : D.Arm) (arms : List D.Arm) (k tag : ℕ)
    → value 8 arm.tag ≡ some k
    → tag ≢ k
    → select (arm ∷ arms) tag ≡ select arms tag
select-other arm arms k tag h differ =
    let other : (tag == k) ≡ false = ground (arith, differ) in rw (h, other, select) refl
