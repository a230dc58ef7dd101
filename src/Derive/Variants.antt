-- ===== src/Derive/Variants.antt =====
-- borsh-derive/src/internals/{serialize,deserialize}/enums/mod.rs: the code of one variant.
use borsh_rs.Base.{
  ℕ, String, ◌≡◌, refl, sym, ap, ◌∙◌, subst, true, Option, none, some, List, [], ◌∷◌,
}
use borsh_rs.Io.{M, Write, pure}
use borsh_rs.Io.Sink.{IsSink}
use borsh_rs.Ser.Laws.{Writes, Writes-pure}
use borsh_rs.Derive.{accepted, ItemFields, named, unnamed}
use borsh_rs.Derive.Consistent.{bind-accepted, accepted-injective}
use borsh_rs.Derive.Serialize.{
  named_header, unnamed_header, VariantBody, fields, process_variant_fields, process_variant_field,
  Output, enum_name_id, enum_index_id, each_field, SerializeImpl, Arm, no_output,
}
use borsh_rs.Derive.Run.{Values, fields_of}
use borsh_rs.Derive.RunEnum.{Choice, variant_env, variant_hides, run_arm, find_arm}
use borsh_rs.Derive.Spec.{Custom, fields_bytes, AreCoded}
use borsh_rs.Derive.Fields.{
  Runs, AreCoded-AreFree, each_field-Runs, process_variant_field-IsFieldProcess,
}
use borsh_rs.Derive.Structs.{NamesDiffer}
use borsh_rs.Derive.Hidden.{HidesNothing, header-absent, AreFree-variant}
use borsh_rs.Derive.Patterns.{Resolves-names, Resolves-positions}

-- The arm of a variant, or the catch-all of the unit variants.
abbrev pub IsArm : String → VariantBody → SerializeImpl → Type 0
IsArm n VariantBody.unit s = (find_arm n s.arms ≡ none) × (s.has_unit_variant ≡ true)
IsArm n (fields h b) s = find_arm n s.arms ≡ some (record { variant = n; header = h; body = b })

module _ {W : Type 0} (w : Write W) {state : List ℕ → W} {Fits : List ℕ → Type 0}
    (k : IsSink w state Fits) (c : Custom W) where
  abbrev BodyRuns : VariantBody → (fs : ItemFields) → Values (fields_of fs) → Type 0
  BodyRuns VariantBody.unit fs vs = fields_bytes c (fields_of fs) vs ≡ []
  BodyRuns (fields h b) fs vs =
      Runs w k c (variant_hides h) (variant_env h fs vs) b (fields_bytes c (fields_of fs) vs)

  body-BodyRuns :
      (fs : ItemFields) (vs : Values (fields_of fs)) (out : VariantBody × Output)
      → process_variant_fields fs ≡ accepted out
      → NamesDiffer fs
      → HidesNothing fs
      → AreCoded c state Fits (fields_of fs) vs
      → BodyRuns out.0 fs vs
  body-BodyRuns (named fs) vs out h d clear coded =
      let (o, e, same) =
        bind-accepted (each_field enum_name_id process_variant_field 0 fs) _ out h in
      subst (λ (x : VariantBody × Output). BodyRuns x.0 (named fs) vs)
        (accepted-injective (VariantBody.fields (named_header o.header) o.body, o) out same)
        (each_field-Runs w k c (variant_hides (named_header o.header))
          (variant_env (named_header o.header) (named fs) vs) enum_name_id process_variant_field
          process_variant_field-IsFieldProcess 0 fs vs o e
          (Resolves-names (variant_env (named_header o.header) (named fs) vs) 0 fs vs o e d
            (λ n occurs inside. rw (inside, header-absent "writer" fs o e clear.0) refl))
          coded (AreFree-variant fs fs o e (AreCoded-AreFree c state Fits fs vs coded) clear.1))
  body-BodyRuns (unnamed fs) vs out h d clear coded =
      let (o, e, same) =
        bind-accepted (each_field enum_index_id process_variant_field 0 fs) _ out h in
      subst (λ (x : VariantBody × Output). BodyRuns x.0 (unnamed fs) vs)
        (accepted-injective (VariantBody.fields (unnamed_header o.header) o.body, o) out same)
        (each_field-Runs w k c (variant_hides (unnamed_header o.header))
          (variant_env (unnamed_header o.header) (unnamed fs) vs) enum_index_id
          process_variant_field process_variant_field-IsFieldProcess 0 fs vs o e
          (Resolves-positions (variant_env (unnamed_header o.header) (unnamed fs) vs) 0 fs vs o e
            (λ m later. refl))
          coded (AreCoded-AreFree c state Fits fs vs coded))
  body-BodyRuns ItemFields.unit vs out h d clear coded =
      unfold fields_bytes in
      subst (λ (x : VariantBody × Output). BodyRuns x.0 ItemFields.unit vs)
        (accepted-injective (VariantBody.unit, no_output) out h) refl

  -- Every name in the match on the fields is bound, and the match writes their bytes.
  abbrev pub ArmRuns : SerializeImpl → Choice → List ℕ → Type 0
  ArmRuns s x bytes =
      (m : M W (Unit {0})) × (run_arm w c.serialize_with (find_arm x.0.ident s.arms) s.arms
          s.has_unit_variant x
        ≡ some m)
      × Writes state Fits m bytes

  -- A unit variant has no arm.
  unit-runs :
      (s : SerializeImpl) (x : Choice)
      → (found : Option Arm) → found ≡ none
      → s.has_unit_variant ≡ true
      → run_arm w c.serialize_with found s.arms s.has_unit_variant x ≡ some (pure tt)
  unit-runs s x none e u = go s.arms
    where
      go :
          (arms : List Arm)
          → run_arm w c.serialize_with none arms s.has_unit_variant x ≡ some (pure tt)
      go [] = refl
      go (arm ∷ arms) = rw u refl
  unit-runs s x (some arm) e u = cc

  arm-runs :
      (s : SerializeImpl) (x : Choice) (body : VariantBody)
      → BodyRuns body x.0.fields x.1
      → IsArm x.0.ident body s
      → ArmRuns s x (fields_bytes c (fields_of x.0.fields) x.1)
  arm-runs s x VariantBody.unit r (no_arm, u) = (
    pure tt,
    unit-runs s x _ no_arm u,
    subst (λ (l : List ℕ). Writes state Fits (pure tt) l) (sym r) (Writes-pure w k),
  )
  arm-runs s x (fields h b) (m, run, wr) e =
      (m, ap (λ a. run_arm w c.serialize_with a s.arms s.has_unit_variant x) e ∙ run, wr)

  pub variant-ArmRuns :
      (s : SerializeImpl) (x : Choice) (out : VariantBody × Output)
      → process_variant_fields x.0.fields ≡ accepted out
      → NamesDiffer x.0.fields
      → HidesNothing x.0.fields
      → AreCoded c state Fits (fields_of x.0.fields) x.1
      → IsArm x.0.ident out.0 s
      → ArmRuns s x (fields_bytes c (fields_of x.0.fields) x.1)
  variant-ArmRuns s x out h d clear coded arm =
      arm-runs s x out.0 (body-BodyRuns x.0.fields x.1 out h d clear coded) arm
