-- ===== src/Schema/Declares.antt =====
-- The definitions that `add_definitions_recursively` of borsh/src/schema.rs leaves.
use borsh_rs.Base.{
  ◌≡◌, refl, sym, ap, ◌∙◌, subst, Option, none, some, List, [], ◌∷◌, All, arith, inl, inr, ◌⊎◌,
  Bool-cases, if◌then◌else◌,
}
use borsh_rs.Num.{pos}
use borsh_rs.Schema.{
  Declaration, Definition, primitive, sequence, tuple, enum, struct, named_fields, empty,
  field_types, get, insert,
}
use borsh_rs.Schema.ZeroSize.{variant_types}
use borsh_rs.Schema.Equal.{eq_definition, eq_definition_sound}
use borsh_rs.Schema.Container.{get-insert}
use borsh_rs.Schema.Types.{
  SchemaTy, SchemaTys, scalar, string, range_full, phantom_data, range_of, array, option, result,
  seq, map_of, tuple_of, boxed, nil, cons, primitive_name, primitive_size, declaration_of,
  declarations_of, tuple_name,
}
use borsh_rs.Schema.Standard.{Definitions, add_definition, then_add, default_sequence, range_fields}
use borsh_rs.Schema.Fuel.{Option-cases}
use text.Mathlib.Text.{◌==◌ as str_eq}
use text.Mathlib.TextEquality.{eq_iff}

-- The declarations that a definition refers to.
abbrev pub references : Definition → List Declaration
references (primitive n) = []
references (sequence w lo hi e) = e ∷ []
references (tuple ds) = ds
references (enum w vs) = variant_types vs
references (struct fs) = field_types fs

abbrev pub IsDefined : Definitions → Declaration → Type 0
IsDefined defs d = (def : Definition) × (get d defs ≡ some def)

-- Nothing is lost or changed from `a` to `b`, and what the new definitions refer to is defined.
pub record Added (a b : Definitions) : Type 0 where
  pub kept : (d : Declaration) (def : Definition) → get d a ≡ some def → get d b ≡ some def
  pub closed :
      (d : Declaration) (def : Definition)
      → get d b ≡ some def
      → (get d a ≡ some def) ⊎ All (IsDefined b) (references def)

IsDefined-kept :
    (a b : Definitions)
    → Added a b
    → (ds : List Declaration) → All (IsDefined a) ds
    → All (IsDefined b) ds
IsDefined-kept a b k [] h = tt
IsDefined-kept a b k (d ∷ ds) h = ((h.0.0, k.kept d h.0.0 h.0.1), IsDefined-kept a b k ds h.1)

pub Added-refl : (a : Definitions) → Added a a
Added-refl a = record { kept = λ d def h. h; closed = λ d def h. inl h }

pub Added-trans : {a b c : Definitions} → Added a b → Added b c → Added a c
Added-trans {a} {b} {c} p q = record {
  kept = λ d def h. q.kept d def (p.kept d def h);
  closed = go;
}
  where
    earlier :
        (d : Declaration) (def : Definition)
        → (get d a ≡ some def) ⊎ All (IsDefined b) (references def)
        → (get d a ≡ some def) ⊎ All (IsDefined c) (references def)
    earlier d def (inl h) = inl h
    earlier d def (inr h) = inr (IsDefined-kept b c q (references def) h)

    go :
        (d : Declaration) (def : Definition)
        → get d c ≡ some def
        → (get d a ≡ some def) ⊎ All (IsDefined c) (references def)
    go d def h = elim (q.closed d def h) [
      | inl old ↦ earlier d def (p.closed d def old)
      | inr new ↦ inr new
    ]

-- `b` is `a` with `d` defined, and nothing else new.
pub record Holds (d : Declaration) (def : Definition) (a b : Definitions) : Type 0 where
  pub found : get d b ≡ some def
  pub others : (e : Declaration) (x : Definition) → get e a ≡ some x → get e b ≡ some x
  pub new : (e : Declaration) (x : Definition) → get e b ≡ some x → (get e a ≡ some x) ⊎ (x ≡ def)

insert-Holds :
    (d : Declaration) (def : Definition) (a : Definitions)
    → get d a ≡ none
    → Holds d def a (insert d def a)
insert-Holds d def a free = record {
  found = get-insert d d def a ∙ ground (arith, eq_iff d d);
  others = λ e x h. get-insert d e def a ∙ kept e x h;
  new = λ e x h. fresh_or_old e x (sym (get-insert d e def a) ∙ h);
}
  where
    kept :
        (e : Declaration) (x : Definition)
        → get e a ≡ some x
        → (if str_eq d e then some def else get e a) ≡ some x
    kept e x h = elim (Bool-cases (str_eq d e)) [
      | inl same ↦
          let same_name : d ≡ e = (eq_iff d e).0 same in
          let old : get d a ≡ some x = rw same_name h in absurd cc
      | inr differs ↦ rw differs h
    ]

    fresh_or_old :
        (e : Declaration) (x : Definition)
        → (if str_eq d e then some def else get e a) ≡ some x
        → (get e a ≡ some x) ⊎ (x ≡ def)
    fresh_or_old e x h = elim (Bool-cases (str_eq d e)) [
      | inl same ↦ let def_x : some def ≡ some x = rw same at h in inr cc
      | inr differs ↦ inl (rw differs at h)
    ]

pub add_definition-Holds :
    (d : Declaration) (def : Definition) (a b : Definitions)
    → add_definition d def a ≡ some b
    → Holds d def a b
unfolding add_definition
add_definition-Holds d def a b h = elim (Option-cases (get d a)) [
  | inl free ↦
      let same : some (insert d def a) ≡ some b = rw (free, add_definition) at h in
      let b_is : insert d def a ≡ b = cc in subst (Holds d def a) b_is (insert-Holds d def a free)
  | inr (x, there) ↦ elim (Bool-cases (eq_definition x def)) [
    | inl eq ↦
        let same : some a ≡ some b = rw (there, eq, add_definition) at h in
        let b_is : a ≡ b = cc in
        let x_is : x ≡ def = eq_definition_sound x def eq in
        subst (Holds d def a) b_is (record {
          found = there ∙ ap (λ (y : Definition). some y) x_is;
          others = λ e y k. k;
          new = λ e y k. inl k;
        })
    | inr ne ↦ let bad : none ≡ some b = rw (there, ne, add_definition) at h in cc
  ]
]

-- A definition is added, and then what it refers to.
pub Added-node :
    {d : Declaration} {def : Definition} {a b c : Definitions}
    → Holds d def a b
    → Added b c
    → All (IsDefined c) (references def)
    → Added a c
Added-node {d} {def} {a} {b} {c} n q refs = record {
  kept = λ e x h. q.kept e x (n.others e x h);
  closed = go;
}
  where
    here :
        (e : Declaration) (x : Definition)
        → (get e a ≡ some x) ⊎ (x ≡ def)
        → (get e a ≡ some x) ⊎ All (IsDefined c) (references x)
    here e x (inl old) = inl old
    here e x (inr same) =
        inr (subst (λ (y : Definition). All (IsDefined c) (references y)) (sym same) refs)

    go :
        (e : Declaration) (x : Definition)
        → get e c ≡ some x
        → (get e a ≡ some x) ⊎ All (IsDefined c) (references x)
    go e x h = elim (q.closed e x h) [ inl old ↦ here e x (n.new e x old) | inr new ↦ inr new ]

pub then_add-some :
    (m : Option Definitions) (f : Definitions → Option Definitions) (c : Definitions)
    → then_add m f ≡ some c
    → (b : Definitions) × (m ≡ some b) × (f b ≡ some c)
then_add-some none f c h = cc
then_add-some (some b) f c h = (b, refl, h)

-- The definitions of a type and of its parts are there.
abbrev mutual
  pub Declares : Definitions → SchemaTy → Type 0
  Declares defs (scalar p) = get (primitive_name p) defs ≡ some (primitive (primitive_size p))
  Declares defs string =
      (get "String" defs ≡ some (default_sequence "u8")) × (get "u8" defs ≡ some (primitive 1))
  Declares defs range_full = get "RangeFull" defs ≡ some (struct empty)
  Declares defs phantom_data = get "()" defs ≡ some (primitive 0)
  Declares defs (range_of k t) =
      (get (declaration_of (range_of k t)) defs
        ≡ some (struct (named_fields (range_fields k (declaration_of t)))))
      × Declares defs t
  Declares defs (array t n) =
      (get (declaration_of (array t n)) defs ≡ some (sequence 0 n n (declaration_of t)))
      × Declares defs t
  Declares defs (option t) =
      (get (declaration_of (option t)) defs
        ≡ some (enum 1 ((pos 0, "None", "()") ∷ (pos 1, "Some", declaration_of t) ∷ [])))
      × (Declares defs t × (get "()" defs ≡ some (primitive 0)))
  Declares defs (result t e) =
      (get (declaration_of (result t e)) defs
        ≡ some (enum 1 ((pos 1, "Ok", declaration_of t) ∷ (pos 0, "Err", declaration_of e) ∷ [])))
      × (Declares defs t × Declares defs e)
  Declares defs (seq k t) =
      (get (declaration_of (seq k t)) defs ≡ some (default_sequence (declaration_of t)))
      × Declares defs t
  Declares defs (map_of m k v) =
      (get (declaration_of (map_of m k v)) defs
        ≡ some (default_sequence (tuple_name (declaration_of k ∷ declaration_of v ∷ []))))
      × ((get (tuple_name (declaration_of k ∷ declaration_of v ∷ [])) defs
            ≡ some (tuple (declaration_of k ∷ declaration_of v ∷ [])))
          × (Declares defs k × Declares defs v))
  Declares defs (tuple_of ts) =
      (get (tuple_name (declarations_of ts)) defs ≡ some (tuple (declarations_of ts)))
      × DeclaresAll defs ts
  Declares defs (boxed t) = Declares defs t

  pub DeclaresAll : Definitions → SchemaTys → Type 0
  DeclaresAll defs nil = Unit {0}
  DeclaresAll defs (cons t ts) = Declares defs t × DeclaresAll defs ts
