-- ===== src/Derive/Structs.antt =====
-- borsh-derive/src/internals/{serialize,deserialize}/structs/mod.rs: what the two implementations of a
-- struct do.
use borsh_rs.Base.{
  ℕ, suc, ◌+◌, ◌^◌, String, ◌≡◌, refl, sym, ap, ◌∙◌, subst, arith, true, false, Option, none, some,
  List, [], ◌∷◌, ◌⊎◌, inl, inr, Bool-cases, ltb,
}
use borsh_rs.Io.{M, Write, pure}
use borsh_rs.Io.Slice.{slice_reader}
use borsh_rs.Io.Sink.{IsSink}
use borsh_rs.Ser.Laws.{Writes-pure}
use borsh_rs.De.Laws.{Reads, Reads-pure, Reads-map}
use borsh_rs.Derive.{
  ExprPath, SynResult, accepted, rejected, Field, ItemFields, named, unnamed, unit,
}
use borsh_rs.Derive.Consistent.{bind-accepted, accepted-injective}
use borsh_rs.Derive.Item.{ItemStruct, contains_initialize_with}
use borsh_rs.Derive.Serialize.{
  Expr, self_name, self_index, FieldId, struct, struct_unnamed, serialize_arg, struct_name_id,
  struct_index_id, ident_of, index, process_struct_fields, no_output, Output, process_field,
}
use borsh_rs.Derive.Deserialize.{StructImpl, Construct, process_fields, bare, braces, parentheses}
use borsh_rs.Derive.Run.{
  Dyn, Values, fields_of, same_name, by_name, by_index, is_local, writing_locals, struct_env,
  run_construct, call_init, then_call_init,
}
use borsh_rs.Derive.Spec.{Custom, fields_bytes, restored_fields, AreCoded}
use borsh_rs.Derive.Fields.{
  Resolves, Runs, AreCoded-AreFree, each_field-Runs, process_field-IsFieldProcess,
}
use borsh_rs.Derive.Inits.{each_field-RunsBack}
use text.Mathlib.TextEquality.{eq_iff}

abbrev pub Occurs : String → List Field → Type 0
Occurs n [] = ⊥
Occurs n (f ∷ fs) = (f.ident ≡ some n) ⊎ Occurs n fs

-- No two fields have the same name.
abbrev pub AreDistinct : List Field → Type 0
AreDistinct [] = Unit {0}
AreDistinct (f ∷ fs) = ((n : String) → Occurs n fs → same_name f.ident n ≡ false) × AreDistinct fs

abbrev pub NamesDiffer : ItemFields → Type 0
NamesDiffer (named fs) = AreDistinct fs
NamesDiffer (unnamed fs) = Unit {0}
NamesDiffer unit = Unit {0}

same_name-own : (o : Option String) (n : String) → o ≡ some n → same_name o n ≡ true
same_name-own o n h = subst (λ x. same_name x n ≡ true) (sym h) ((eq_iff n n).1 refl)

pub by_name-head :
    (f : Field) (fs : List Field) (vs : Values (f ∷ fs)) (n : String)
    → f.ident ≡ some n
    → by_name (f ∷ fs) vs n ≡ some (f.ty, vs.0)
by_name-head f fs vs n h = rw (same_name-own f.ident n h) refl

pub by_name-tail :
    (f : Field) (fs : List Field) (vs : Values (f ∷ fs)) (n : String)
    → same_name f.ident n ≡ false
    → by_name (f ∷ fs) vs n ≡ by_name fs vs.1 n
by_name-tail f fs vs n h = rw h refl

pub ident_of-accepted : (f : Field) (n : String) → ident_of f ≡ accepted n → f.ident ≡ some n
ident_of-accepted f n h = go f.ident h
  where
    go :
        (o : Option String)
        → elim o [
          | none ↦ rejected "called `Option::unwrap()` on a `None` value"
          | some m ↦ accepted m
        ]
          ≡ accepted n
        → o ≡ some n
    go none e = cc
    go (some m) e = ap (λ (x : String). some x) (accepted-injective m n e)

pub index-accepted : (i j : ℕ) → index i ≡ accepted j → i ≡ j
index-accepted i j h = elim (Bool-cases (ltb i (2 ^ 32))) [
  | inl fits ↦ let same : accepted i ≡ accepted j = rw fits at h in accepted-injective i j same
  | inr big ↦
      let bad : (◌≡◌ {A = SynResult ℕ} (rejected "up to 2^32 fields are supported") (accepted j)) =
        rw big at h in
      cc
]

-- Names find their fields.
pub Resolves-named :
    (env : Expr → Option Dyn) (i : ℕ) (fs : List Field) (vs : Values fs)
    → AreDistinct fs
    → ((n : String) → Occurs n fs → env (self_name n) ≡ by_name fs vs n)
    → Resolves env struct_name_id i fs vs
Resolves-named env i [] vs d h = tt
Resolves-named env i (f ∷ fs) vs d h = (
  (λ field_id a e parsed kept.
      let (n, named_so, made) = bind-accepted (ident_of f) _ field_id e in
      let own = ident_of-accepted f n named_so in
      subst (λ (x : FieldId). env (serialize_arg x) ≡ some (f.ty, vs.0))
        (accepted-injective (struct n) field_id made) (h n (inl own) ∙ by_name-head f fs vs n own)),
  Resolves-named env (suc i) fs vs.1 d.1
      λ n there. h n (inr there) ∙ by_name-tail f fs vs n (d.0 n there),
)

-- Indices find their fields.
pub Resolves-unnamed :
    (env : Expr → Option Dyn) (i : ℕ) (fs : List Field) (vs : Values fs)
    → ((j : ℕ) → env (self_index (i + j)) ≡ by_index fs vs j)
    → Resolves env struct_index_id i fs vs
Resolves-unnamed env i [] vs h = tt
Resolves-unnamed env i (f ∷ fs) vs h = (
  (λ field_id a e parsed kept.
      let (j, found, made) = bind-accepted (index i) _ field_id e in
      subst (λ (x : FieldId). env (serialize_arg x) ≡ some (f.ty, vs.0))
        (accepted-injective (struct_unnamed j) field_id made)
        (subst (λ (x : ℕ). env (self_index x) ≡ some (f.ty, vs.0)) (index-accepted i j found)
          (subst (λ (x : ℕ). env (self_index x) ≡ some (f.ty, vs.0)) (omega arith) (h 0)))),
  Resolves-unnamed env (suc i) fs vs.1
      λ j. subst (λ (x : ℕ). env (self_index x) ≡ by_index fs vs.1 j) (omega arith) (h (suc j)),
)

module _ {W : Type 0} (w : Write W) {state : List ℕ → W} {Fits : List ℕ → Type 0}
    (k : IsSink w state Fits) (c : Custom W) where
  struct-Runs :
      (fs : ItemFields) (vs : Values (fields_of fs)) (o : Output)
      → process_struct_fields fs ≡ accepted o
      → NamesDiffer fs
      → AreCoded c state Fits (fields_of fs) vs
      → Runs w k c
          (is_local writing_locals)
          (struct_env fs vs)
          o.body
          (fields_bytes c (fields_of fs) vs)
  struct-Runs (named fs) vs o h d coded =
      each_field-Runs w k c (is_local writing_locals) _ struct_name_id process_field
        process_field-IsFieldProcess 0 fs vs o h
        (Resolves-named (struct_env (named fs) vs) 0 fs vs d (λ n there. refl)) coded
        (AreCoded-AreFree c state Fits fs vs coded)
  struct-Runs (unnamed fs) vs o h d coded =
      each_field-Runs w k c (is_local writing_locals) _ struct_index_id process_field
        process_field-IsFieldProcess 0 fs vs o h
        (Resolves-unnamed (struct_env (unnamed fs) vs) 0 fs vs
          (λ j. ap (λ (x : ℕ). by_index fs vs x) (omega arith)))
        coded (AreCoded-AreFree c state Fits fs vs coded)
  struct-Runs unit vs o h d coded =
      unfold fields_bytes in
      subst (λ (x : Output). Runs w k c (is_local writing_locals) (struct_env unit vs) x.body [])
        (accepted-injective no_output o h) (pure tt, refl, Writes-pure w k)

  -- What is read back, as the code of a constructor.
  abbrev pub Rebuilds : (fs : ItemFields) → Construct → List ℕ → Values (fields_of fs) → Type 0
  Rebuilds fs construct bytes vs =
      (m : M (List ℕ) (Values (fields_of fs))) × (run_construct slice_reader c.deserialize_with
          c.default_of fs construct
        ≡ some m)
      × Reads m bytes vs

  pub construct-Rebuilds :
      (fs : ItemFields) (vs : Values (fields_of fs))
      (made : Construct × borsh_rs.Derive.Deserialize.Output)
      → process_fields fs ≡ accepted made
      → AreCoded c state Fits (fields_of fs) vs
      → Rebuilds fs made.0 (fields_bytes c (fields_of fs) vs) (restored_fields c (fields_of fs) vs)
  construct-Rebuilds (named fs) vs made h coded =
      let (o, e, same) = bind-accepted (borsh_rs.Derive.Deserialize.each_field fs) _ made h in
      subst
        (λ (x : Construct × borsh_rs.Derive.Deserialize.Output).
          Rebuilds (named fs) x.0 (fields_bytes c fs vs) (restored_fields c fs vs))
        (accepted-injective (braces o.body, o) made same)
        (each_field-RunsBack c state Fits fs vs o e coded)
  construct-Rebuilds (unnamed fs) vs made h coded =
      let (o, e, same) = bind-accepted (borsh_rs.Derive.Deserialize.each_field fs) _ made h in
      subst
        (λ (x : Construct × borsh_rs.Derive.Deserialize.Output).
          Rebuilds (unnamed fs) x.0 (fields_bytes c fs vs) (restored_fields c fs vs))
        (accepted-injective (parentheses o.body, o) made same)
        (each_field-RunsBack c state Fits fs vs o e coded)
  construct-Rebuilds unit vs made h coded =
      unfold fields_bytes restored_fields in
      subst (λ (x : Construct × borsh_rs.Derive.Deserialize.Output). Rebuilds unit x.0 [] tt)
        (accepted-injective (bare, borsh_rs.Derive.Deserialize.no_output) made h)
        (pure tt, refl, Reads-pure tt)

  -- For a struct whose fields have different names, whose skipped fields have types with a `Default`
  -- and whose other fields have values that can be coded, by functions that are not called like a
  -- variable of the methods: in the code that the macros make, every name is bound and every field is
  -- given once. The one `impl` writes the bytes of the fields that are not
  -- skipped, in order, and nothing else; the other reads these bytes, whatever follows them, and
  -- returns the fields with each skipped one as its default, after a call of the method that `init`
  -- names.
  pub process_struct-round_trip :
      (input : ItemStruct) (vs : Values (fields_of input.fields)) (o : Output) (s : StructImpl)
      (init_with : ExprPath → Values (fields_of input.fields) → Values (fields_of input.fields))
      → borsh_rs.Derive.Serialize.process_struct input ≡ accepted o
      → borsh_rs.Derive.Deserialize.process_struct input ≡ accepted s
      → NamesDiffer input.fields
      → AreCoded c state Fits (fields_of input.fields) vs
      → Runs w k c
          (is_local writing_locals)
          (struct_env input.fields vs)
          o.body
          (fields_bytes c (fields_of input.fields) vs)
        × ((m : M (List ℕ) (Values (fields_of input.fields))) × (then_call_init init_with s.init (
                run_construct slice_reader c.deserialize_with c.default_of input.fields
                  s.return_value)
              ≡ some m)
            × Reads m (fields_bytes c (fields_of input.fields) vs) (
                call_init init_with
                  (contains_initialize_with input.attrs)
                  (restored_fields c (fields_of input.fields) vs)))
  unfolding borsh_rs.Derive.Serialize.process_struct borsh_rs.Derive.Deserialize.process_struct
  process_struct-round_trip input vs o s init_with h h' d coded =
      let (made, e, same) = bind-accepted (process_fields input.fields) _ s h' in
      let (m, run, reads) = construct-Rebuilds input.fields vs made e coded in
      (
        struct-Runs input.fields vs o h d coded,
        subst
            (λ (x : StructImpl).
              (n : M (List ℕ) (Values (fields_of input.fields))) × (then_call_init init_with x.init
                  (run_construct slice_reader c.deserialize_with c.default_of input.fields
                    x.return_value)
                ≡ some n)
              × Reads n (fields_bytes c (fields_of input.fields) vs) (
                  call_init init_with (contains_initialize_with input.attrs)
                    (restored_fields c (fields_of input.fields) vs)))
            (accepted-injective _ s same)
            (
              _,
              ap (λ x. then_call_init init_with (contains_initialize_with input.attrs) x) run,
              Reads-map (λ v. call_init init_with (contains_initialize_with input.attrs) v) reads,
            ),
      )
