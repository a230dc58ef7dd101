-- ===== src/Derive/Inits.antt =====
-- borsh-derive/src/internals/deserialize/mod.rs: the code that reads the fields, one after the other.
use borsh_rs.Base.{
  ℕ, String, ◌≡◌, refl, sym, ap, ap₂, subst, true, false, Option, none, some, List, [], ◌∷◌, ◌++◌,
  if◌then◌else◌, Bool-cases, inl, inr, append-nil,
}
use borsh_rs.Io.{M, pure, ◌>>=◌}
use borsh_rs.Io.Slice.{slice_reader}
use borsh_rs.De.Laws.{Reads, Reads-pure, Reads->>=}
use borsh_rs.Types.{⟦◌⟧}
use borsh_rs.Types.Results.{deserialize}
use borsh_rs.Types.Decode.{deserialize_of-IsDecoder}
use borsh_rs.Derive.{ExprPath, accepted, Field}
use borsh_rs.Derive.Attributes.{Attributes, parse}
use borsh_rs.Derive.Consistent.{bind-accepted, accepted-injective}
use borsh_rs.Derive.Deserialize.{
  FieldInit, Output, field_init, process_field, each_field, no_output,
}
use borsh_rs.Derive.Run.{
  Dyn, Values, read_call, named_as, give_default, is_hidden, is_local, writing_locals,
  reading_locals, run_init, then_init, run_inits,
}
use borsh_rs.Derive.Spec.{
  Custom, bytes_with, attributes_bytes, fields_bytes, restored, restored_fields, CanWrite, CanRead,
  IsCoded, AreCoded, value_or,
}
use text.Mathlib.TextEquality.{eq_iff}

module _ {W : Type 0} (c : Custom W) (state : List ℕ → W) (Fits : List ℕ → Type 0) where
  read_call-Reads :
      (p q : Option ExprPath) (d : Dyn)
      → CanWrite c state Fits p d
      → CanRead c state Fits p q d
      → Reads (read_call slice_reader c.deserialize_with c.default_of q d.0) (bytes_with c p d) d.1
  read_call-Reads none none d h r = unfold deserialize in (deserialize_of-IsDecoder d.0).item d.1 h
  read_call-Reads (some p) none d h r = r
  read_call-Reads none (some q) d h r = r
  read_call-Reads (some p) (some q) d h r = r

  -- Every field of the code is given its value, and the code reads the values back from their bytes.
  abbrev pub RunsBack : (fs : List Field) → List FieldInit → List ℕ → Values fs → Type 0
  RunsBack fs body bytes vs =
      (m : M (List ℕ) (Values fs)) × (run_inits slice_reader c.deserialize_with c.default_of fs body
        ≡ some m)
      × Reads m bytes vs

  named_as-same :
      (n : Option String) → named_as slice_reader c.deserialize_with c.default_of n n ≡ true
  named_as-same none = refl
  named_as-same (some n) = (eq_iff n n).1 refl

  -- One field.
  abbrev RunsFieldBack : (f : Field) → FieldInit → List ℕ → ⟦ f.ty ⟧ → Type 0
  RunsFieldBack f i bytes v =
      (m : M (List ℕ) ⟦ f.ty ⟧) × (run_init slice_reader c.deserialize_with c.default_of f i
        ≡ some m)
      × Reads m bytes v

  run_init-field :
      (f : Field) (a : Attributes) (v : ⟦ f.ty ⟧)
      → (a.skip ≡ false
          → CanWrite c state Fits a.serialize_with (f.ty, v)
            × CanRead c state Fits a.serialize_with a.deserialize_with (f.ty, v)
            × (is_hidden (is_local writing_locals) a.serialize_with ≡ false)
            × (is_hidden (is_local reading_locals) a.deserialize_with ≡ false))
      → (a.skip ≡ true → (d : ⟦ f.ty ⟧) × (c.default_of f.ty ≡ some d))
      → RunsFieldBack f
          (field_init f.ident a)
          (if a.skip then [] else bytes_with c a.serialize_with (f.ty, v))
          (if a.skip then value_or v (c.default_of f.ty) else v)
  run_init-field f a v can known = elim (Bool-cases a.skip) [
    | inl skipped ↦
        let (d, same) = known skipped in
        rw skipped (
          pure d,
          rw (named_as-same f.ident) (ap (λ x. give_default x) same),
          subst (λ x. Reads (pure d) [] (value_or v x)) (sym same) (Reads-pure d),
        )
    | inr kept ↦ rw kept (
      read_call slice_reader c.deserialize_with c.default_of a.deserialize_with f.ty,
      rw (named_as-same f.ident, (can kept).3) refl,
      read_call-Reads a.serialize_with a.deserialize_with (f.ty, v) (can kept).0 (can kept).1,
    )
  ]

  run_inits-cons :
      (f : Field) (fs : List Field) (i : FieldInit) (body : List FieldInit) (xs ys : List ℕ)
      (v : ⟦ f.ty ⟧) (vs : Values fs)
      → RunsFieldBack f i xs v
      → RunsBack fs body ys vs
      → RunsBack (f ∷ fs) (i ∷ body) (xs ++ ys) (v, vs)
  run_inits-cons f fs i body xs ys v vs (m, run, reads) (n, run', reads') = (
    (m >>= λ v'. n >>= λ vs'. pure (v', vs')),
    ap₂ (λ x y. then_init slice_reader c.deserialize_with c.default_of x y) run run',
    Reads->>= _ reads (
        subst (λ (l : List ℕ). Reads {A = Values (f ∷ fs)} (n >>= λ vs'. pure (v, vs')) l (v, vs))
          (append-nil ys) (Reads->>= (λ vs'. pure (v, vs')) reads' (Reads-pure (v, vs)))),
  )

  pub each_field-RunsBack :
      (fs : List Field) (vs : Values fs) (o : Output)
      → each_field fs ≡ accepted o
      → AreCoded c state Fits fs vs
      → RunsBack fs o.body (fields_bytes c fs vs) (restored_fields c fs vs)
  unfolding each_field process_field fields_bytes restored_fields AreCoded
  each_field-RunsBack [] vs o h coded =
      subst (λ (x : Output). RunsBack [] x.body [] tt) (accepted-injective no_output o h)
        (pure tt, refl, Reads-pure tt)
  each_field-RunsBack (f ∷ fs) vs o h coded =
      let (q, e1, h1) = bind-accepted (process_field f) _ o h in
      let (a, parsed, made) = bind-accepted (parse f.attrs) _ q e1 in
      let (more, e2, h2) = bind-accepted (each_field fs) _ o h1 in
      let coded_here : IsCoded c state Fits (accepted a) (f.ty, vs.0) =
        subst (λ x. IsCoded c state Fits x (f.ty, vs.0)) parsed coded.0 in
      let whole =
        run_inits-cons f fs (field_init f.ident a) more.body _ (fields_bytes c fs vs.1) _
          (restored_fields c fs vs.1) (run_init-field f a vs.0 coded_here.0 coded_here.1)
          (each_field-RunsBack fs vs.1 more e2 coded.1) in
      subst
        (λ (x : Output).
          RunsBack (f ∷ fs) x.body (fields_bytes c (f ∷ fs) vs) (restored_fields c (f ∷ fs) vs))
        (accepted-injective _ o h2)
        (subst
          (λ (b : Output).
            RunsBack (f ∷ fs) (b.body ++ more.body) (fields_bytes c (f ∷ fs) vs)
              (restored_fields c (f ∷ fs) vs))
          (accepted-injective _ q made)
          (subst
            (λ x.
              RunsBack (f ∷ fs) (field_init f.ident a ∷ more.body)
                (attributes_bytes c x (f.ty, vs.0) ++ fields_bytes c fs vs.1)
                (restored c x f.ty vs.0, restored_fields c fs vs.1))
            (sym parsed) whole))
