-- ===== src/Derive/Enums.antt =====
-- borsh-derive/src/internals/{serialize,deserialize}/enums/mod.rs: what the implementations of an enum
-- do.
use borsh_rs.Base.{ℕ, String, ◌≡◌, sym, ap, ap₂, ◌∙◌, subst, Bool, Option, some, List, [], ◌∷◌}
use borsh_rs.Io.{M, Write, pure, ◌>>=◌, ◌>>◌}
use borsh_rs.Io.Slice.{slice_reader}
use borsh_rs.Io.Sink.{IsSink}
use borsh_rs.Ser.Laws.{Writes, Writes->>, Writes-write_all}
use borsh_rs.De.Laws.{Reads, Reads->>=, Reads-map, Reads-deserialize_u8}
use borsh_rs.Derive.{ExprPath, accepted}
use borsh_rs.Derive.Consistent.{bind-accepted, accepted-injective}
use borsh_rs.Derive.Item.{
  ItemEnum, Variant, new, contains_use_discriminant, contains_initialize_with,
}
use borsh_rs.Derive.Serialize.{SerializeImpl}
use borsh_rs.Derive.Deserialize.{EnumImpl}
use borsh_rs.Derive.Serialize as S
use borsh_rs.Derive.Deserialize as D
use borsh_rs.Derive.Run.{fields_of, call_init, then_call_init}
use borsh_rs.Derive.RunEnum.{
  Choice, run_enum, after_tag, find_tag, tag_of, run_enum_back, or_nothing, deserialize_variant,
  build, construct_variant, with_variant, select, variant_named,
}
use borsh_rs.Derive.Spec.{Custom, fields_bytes, restored_fields, AreCoded}
use borsh_rs.Derive.Structs.{NamesDiffer, construct-Rebuilds}
use borsh_rs.Derive.Hidden.{HidesNothing}
use borsh_rs.Derive.Variants.{variant-ArmRuns}
use borsh_rs.Derive.Chosen.{
  IsIn, VariantsDiffer, TagsDiffer, Found, each_variant-Found, variant_named-own,
}

module _ {W : Type 0} (w : Write W) {state : List ℕ → W} {Fits : List ℕ → Type 0}
    (k : IsSink w state Fits) (c : Custom W) where
  -- The tag, and then the fields.
  abbrev pub EnumRuns : SerializeImpl → Choice → List ℕ → Type 0
  EnumRuns s x bytes =
      (m : M W (Unit {0})) × (run_enum w c.serialize_with s x ≡ some m) × Writes state Fits m bytes

  Found-EnumRuns :
      (s : SerializeImpl) (arms : List D.Arm) (x : Choice) (f : Found x.0 s arms)
      → NamesDiffer x.0.fields
      → HidesNothing x.0.fields
      → AreCoded c state Fits (fields_of x.0.fields) x.1
      → EnumRuns s x (f.tag ∷ fields_bytes c (fields_of x.0.fields) x.1)
  Found-EnumRuns s arms x f d clear coded =
      let (m, run, wr) = variant-ArmRuns w k c s x f.out f.processed d clear coded f.placed in
      (
        w.write_all (f.tag ∷ []) >> m,
        ap₂ (λ (t : Option ℕ) (r : Option (M W (Unit {0}))). after_tag w c.serialize_with t r)
            f.tagged run,
        Writes->> w k (Writes-write_all w k (f.tag ∷ [])) wr,
      )

  -- The chain of tests takes the arm of the variant, and its code reads the fields back.
  Found-builds :
      (variants : List Variant) (s : SerializeImpl) (arms : List D.Arm) (x : Choice)
      (f : Found x.0 s arms)
      → variant_named variants x.0.ident ≡ some x.0
      → AreCoded c state Fits (fields_of x.0.fields) x.1
      → (m : M (List ℕ) Choice) × (build slice_reader c.deserialize_with c.default_of variants f.tag
            (select arms f.tag)
          ≡ some m)
        × Reads m
            (fields_bytes c (fields_of x.0.fields) x.1)
            (x.0, restored_fields c (fields_of x.0.fields) x.1)
  Found-builds variants s arms x f named coded =
      let (m, run, reads) = construct-Rebuilds w k c x.0.fields x.1 f.made f.constructed coded in
      (
        m >>= (λ vs. pure (x.0, vs)),
        ap (λ o. build slice_reader c.deserialize_with c.default_of variants f.tag o) f.selected
            ∙ ap₂
                (λ (n : Option Variant) y.
                  construct_variant slice_reader c.deserialize_with c.default_of n y)
                (ap (λ (n : String). variant_named variants n) f.same_variant ∙ named)
                f.same_construct
            ∙ ap (λ r. with_variant slice_reader c.deserialize_with c.default_of x.0 r) run,
        Reads-map (λ vs. (x.0, vs)) reads,
      )

  enum-code :
      (input : ItemEnum) (s : SerializeImpl) (d : EnumImpl)
      → S.process_enum input ≡ accepted s
      → D.process_enum input ≡ accepted d
      → (b : Bool) × (made : List D.Arm × D.Output) × (S.each_variant
            (new input.variants)
            b
            0
            input.variants
          ≡ accepted s)
        × (D.each_variant (new input.variants) b 0 input.variants ≡ accepted made)
        × (made.0 ≡ d.arms)
        × (contains_initialize_with input.attrs ≡ d.init)
  unfolding S.process_enum D.process_enum
  enum-code input s d h h' =
      let (b, e, e1) = bind-accepted (contains_use_discriminant input) _ s h in
      let (b', e', e1') = bind-accepted (contains_use_discriminant input) _ d h' in
      let same : b' ≡ b = accepted-injective b' b (sym e' ∙ e) in
      let (made, e2, e3) =
        bind-accepted (D.each_variant (new input.variants) b' 0 input.variants) _ d e1' in
      (
        b,
        made,
        e1,
        subst (λ y. D.each_variant (new input.variants) y 0 input.variants ≡ accepted made) same e2,
        ap (λ (y : EnumImpl). y.arms) (accepted-injective _ d e3),
        ap (λ (y : EnumImpl). y.init) (accepted-injective _ d e3),
      )

  -- For an enum whose variants have different names and different tags, and a value of a variant of it
  -- whose fields have different names, none of which is `writer` or that of a function for its fields,
  -- whose skipped fields have types with a `Default` and whose other fields have values that can be
  -- coded, by functions that are not called like a variable of the methods: in the code that the macros
  -- make for the variant, every name is bound and every field is given once. The one `impl` writes the tag
  -- of the variant and the bytes of the fields that are not skipped, and nothing else; the other reads
  -- them, whatever follows, and returns the variant with each skipped field as its default, after a
  -- call of the method that `init` names.
  pub process_enum-round_trip :
      (input : ItemEnum) (s : SerializeImpl) (d : EnumImpl) (init_with : ExprPath → Choice → Choice)
      (x : Choice)
      → S.process_enum input ≡ accepted s
      → D.process_enum input ≡ accepted d
      → VariantsDiffer input.variants
      → TagsDiffer s.tags
      → IsIn x.0 input.variants
      → NamesDiffer x.0.fields
      → HidesNothing x.0.fields
      → AreCoded c state Fits (fields_of x.0.fields) x.1
      → (tag : ℕ) × (tag_of (find_tag x.0.ident s.tags) ≡ some tag)
        × EnumRuns s x (tag ∷ fields_bytes c (fields_of x.0.fields) x.1)
        × Reads
            (run_enum_back slice_reader c.deserialize_with c.default_of input.variants init_with d)
            (tag ∷ fields_bytes c (fields_of x.0.fields) x.1)
            (call_init init_with
              (contains_initialize_with input.attrs)
              (x.0, restored_fields c (fields_of x.0.fields) x.1))
  process_enum-round_trip input s d init_with x h h' differ tags there names clear coded =
      let (b, made, e, e', arms, init) = enum-code input s d h h' in
      let f =
        each_variant-Found (new input.variants) b 0 input.variants s made e e' differ tags x.0
          there in
      let (m, run, reads) =
        Found-builds input.variants s made.0 x f (variant_named-own x.0 input.variants there differ)
          coded in
      let whole : deserialize_variant slice_reader c.deserialize_with c.default_of input.variants
            init_with d f.tag
          ≡ some (m >>= λ v. pure (call_init init_with (contains_initialize_with input.attrs) v)) =
        ap₂
          (λ (a : List D.Arm) i. then_call_init init_with i (
            build slice_reader c.deserialize_with c.default_of input.variants f.tag
              (select a f.tag)))
          (sym arms) (sym init)
        ∙ ap (λ o. then_call_init init_with (contains_initialize_with input.attrs) o) run in
      (
        f.tag,
        f.tagged,
        Found-EnumRuns s made.0 x f names clear coded,
        Reads->>=
            (λ t. or_nothing slice_reader c.deserialize_with c.default_of (
              deserialize_variant slice_reader c.deserialize_with c.default_of input.variants
                init_with d t))
            (Reads-deserialize_u8 f.tag)
            (subst
              (λ o.
                Reads (or_nothing slice_reader c.deserialize_with c.default_of o)
                  (fields_bytes c (fields_of x.0.fields) x.1)
                  (call_init init_with (contains_initialize_with input.attrs)
                    (x.0, restored_fields c (fields_of x.0.fields) x.1)))
              (sym whole)
              (Reads-map (λ v. call_init init_with (contains_initialize_with input.attrs) v)
                reads)),
      )
