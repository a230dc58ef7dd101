-- ===== src/Derive/Fields.antt =====
-- borsh-derive/src/internals/{serialize,deserialize}: the code of the fields, one after the other.
use borsh_rs.Base.{
  ℕ, suc, ◌≡◌, refl, sym, ap, ap₂, ◌∙◌, Bool, subst, false, Option, none, some, List, [], ◌∷◌, ◌++◌,
  if◌then◌else◌, Bool-cases, inl, inr,
}
use borsh_rs.Io.{M, Write, pure, ◌>>◌}
use borsh_rs.Io.Sink.{IsSink}
use borsh_rs.Ser.Laws.{Writes, Writes-pure, Writes->>}
use borsh_rs.Types.Results.{serialize}
use borsh_rs.Types.Encode.{serialize_of-IsEncoder}
use borsh_rs.Derive.{ExprPath, SynResult, accepted, Field}
use borsh_rs.Derive.Attributes.{Attributes, parse}
use borsh_rs.Derive.Consistent.{bind-accepted, accepted-injective}
use borsh_rs.Derive.Serialize.{
  Expr, Statement, Output, FieldId, serialize_arg, serialize_output, each_field, process_field,
  process_variant_field, no_output,
}
use borsh_rs.Derive.Run.{
  Dyn, Values, call, then_run, run_body, is_hidden, is_local, writing_locals, unless,
}
use borsh_rs.Derive.Spec.{
  Custom, bytes_with, attributes_bytes, fields_bytes, CanWrite, IsCoded, AreCoded,
}

-- What the code for a field is, whether or not a pattern goes with it.
abbrev pub IsFieldProcess : (Field → FieldId → SynResult Output) → Type 0
IsFieldProcess process =
    (f : Field) (field_id : FieldId) (o : Output)
    → process f field_id ≡ accepted o
    → (a : Attributes) × (parse f.attrs ≡ accepted a)
      × (o.body ≡ (if a.skip then [] else serialize_output field_id a.serialize_with ∷ []))

pub process_field-IsFieldProcess : IsFieldProcess process_field
unfolding process_field
process_field-IsFieldProcess f field_id o h =
    let (a, first, rest) = bind-accepted (parse f.attrs) _ o h in
    (a, first, sym (ap (λ (x : Output). x.body) (accepted-injective _ o rest)))

pub process_variant_field-IsFieldProcess : IsFieldProcess process_variant_field
unfolding process_variant_field
process_variant_field-IsFieldProcess f field_id o h =
    let (a, first, rest) = bind-accepted (parse f.attrs) _ o h in
    (a, first, sym (ap (λ (x : Output). x.body) (accepted-injective _ o rest)))

-- The expression of each field that is not skipped is bound to the field's value.
abbrev pub Resolves :
    (Expr → Option Dyn)
    → (ℕ → Field → SynResult FieldId)
    → ℕ
    → (fs : List Field) → Values fs
    → Type 0
Resolves env id_of i [] vs = Unit {0}
Resolves env id_of i (f ∷ fs) vs =
    ((field_id : FieldId) (a : Attributes)
      → id_of i f ≡ accepted field_id
      → parse f.attrs ≡ accepted a
      → a.skip ≡ false
      → env (serialize_arg field_id) ≡ some (f.ty, vs.0))
    × Resolves env id_of (suc i) fs vs.1

-- No path of a field that is not skipped is a variable.
abbrev pub AreFree : (ExprPath → Bool) → List Field → Type 0
AreFree hides [] = Unit {0}
AreFree hides (f ∷ fs) =
    ((a : Attributes)
      → parse f.attrs ≡ accepted a
      → a.skip ≡ false
      → is_hidden hides a.serialize_with ≡ false)
    × AreFree hides fs

module _ {W : Type 0} (w : Write W) {state : List ℕ → W} {Fits : List ℕ → Type 0}
    (k : IsSink w state Fits) (c : Custom W) where
  call-Writes :
      (p : Option ExprPath) (d : Dyn)
      → CanWrite c state Fits p d
      → Writes state Fits (call w c.serialize_with p d) (bytes_with c p d)
  call-Writes none d h = unfold serialize in (serialize_of-IsEncoder w k d.0).item d.1 h
  call-Writes (some p) d h = h

  -- Every name in the code of the fields is bound, and the code writes their bytes.
  abbrev pub Runs : (ExprPath → Bool) → (Expr → Option Dyn) → List Statement → List ℕ → Type 0
  Runs hides env body bytes =
      (m : M W (Unit {0})) × (run_body w c.serialize_with hides env body ≡ some m)
      × Writes state Fits m bytes

  Runs-field :
      (hides : ExprPath → Bool) (env : Expr → Option Dyn) (field_id : FieldId) (a : Attributes)
      (d : Dyn) (body : List Statement) (rest : List ℕ)
      → (a.skip ≡ false → env (serialize_arg field_id) ≡ some d)
      → (a.skip ≡ false → CanWrite c state Fits a.serialize_with d)
      → (a.skip ≡ false → is_hidden hides a.serialize_with ≡ false)
      → Runs hides env body rest
      → Runs hides env
          ((if a.skip then [] else serialize_output field_id a.serialize_with ∷ []) ++ body)
          ((if a.skip then [] else bytes_with c a.serialize_with d) ++ rest)
  Runs-field hides env field_id a d body rest found can free (m, run, wr) =
      elim (Bool-cases a.skip) [
        | inl skipped ↦ rw skipped (m, run, wr)
        | inr kept ↦ rw kept (
          call w c.serialize_with a.serialize_with d >> m,
          ap₂
              (λ (x : Option Dyn) (y : Option (M W (Unit {0}))).
                then_run w c.serialize_with x a.serialize_with y)
              (ap (λ b. unless b (env (serialize_arg field_id))) (free kept) ∙ found kept) run,
          Writes->> w k (call-Writes a.serialize_with d (can kept)) wr,
        )
      ]

  pub each_field-Runs :
      (hides : ExprPath → Bool) (env : Expr → Option Dyn) (id_of : ℕ → Field → SynResult FieldId)
      (process : Field → FieldId → SynResult Output)
      → IsFieldProcess process
      → (i : ℕ) (fs : List Field) (vs : Values fs) (o : Output)
      → each_field id_of process i fs ≡ accepted o
      → Resolves env id_of i fs vs
      → AreCoded c state Fits fs vs
      → AreFree hides fs
      → Runs hides env o.body (fields_bytes c fs vs)
  unfolding each_field fields_bytes AreCoded
  each_field-Runs hides env id_of process p i [] vs o h r coded free =
      subst (λ (x : Output). Runs hides env x.body []) (accepted-injective no_output o h)
        (pure tt, refl, Writes-pure w k)
  each_field-Runs hides env id_of process p i (f ∷ fs) vs o h r coded free =
      let (field_id, e1, h1) = bind-accepted (id_of i f) _ o h in
      let (q, e2, h2) = bind-accepted (process f field_id) _ o h1 in
      let (more, e3, h3) = bind-accepted (each_field id_of process (suc i) fs) _ o h2 in
      let (a, parsed, body) = p f field_id q e2 in
      let coded_here : IsCoded c state Fits (accepted a) (f.ty, vs.0) =
        subst (λ x. IsCoded c state Fits x (f.ty, vs.0)) parsed coded.0 in
      let below =
        each_field-Runs hides env id_of process p (suc i) fs vs.1 more e3 r.1 coded.1 free.1 in
      let here =
        Runs-field hides env field_id a (f.ty, vs.0) more.body (fields_bytes c fs vs.1)
          (r.0 field_id a e1 parsed) (λ kept. (coded_here.0 kept).0) (free.0 a parsed) below in
      let whole : Runs hides env (q.body ++ more.body) (
          (if a.skip then [] else bytes_with c a.serialize_with (f.ty, vs.0))
          ++ fields_bytes c fs vs.1) =
        subst
          (λ (b : List Statement). Runs hides env (b ++ more.body) (
            (if a.skip then [] else bytes_with c a.serialize_with (f.ty, vs.0))
            ++ fields_bytes c fs vs.1))
          (sym body) here in
      subst (λ (x : Output). Runs hides env x.body (fields_bytes c (f ∷ fs) vs))
        (accepted-injective _ o h3)
        (subst
          (λ x.
            Runs hides env (q.body ++ more.body)
              (attributes_bytes c x (f.ty, vs.0) ++ fields_bytes c fs vs.1))
          (sym parsed) whole)

-- The paths of fields that are coded are no parameters.
pub AreCoded-AreFree :
    {W : Type 0} (c : Custom W) (state : List ℕ → W) (Fits : List ℕ → Type 0) (fs : List Field)
    (vs : Values fs)
    → AreCoded c state Fits fs vs
    → AreFree (is_local writing_locals) fs
unfolding AreCoded
AreCoded-AreFree c state Fits [] vs coded = tt
AreCoded-AreFree c state Fits (f ∷ fs) vs coded = (
  (λ a parsed kept.
      let here : IsCoded c state Fits (accepted a) (f.ty, vs.0) =
        subst (λ x. IsCoded c state Fits x (f.ty, vs.0)) parsed coded.0 in
      (here.0 kept).2),
  AreCoded-AreFree c state Fits fs vs.1 coded.1,
)
