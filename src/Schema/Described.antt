-- ===== src/Schema/Described.antt =====
-- The schema of each type of borsh/src/schema.rs against the encoding of its values.
use borsh_rs.Base.{
  ℕ, ◌≡◌, refl, sym, subst, arith, none, some, List, [], ◌∷◌, ◌++◌, replicate, All, inl, inr,
  append-nil,
}
use borsh_rs.Num.{pos, to_le_bytes, to_pattern}
use borsh_rs.Schema.{Declaration, primitive, enum, struct, get, named_fields, BorshSchemaContainer}
use borsh_rs.Schema.Standard.{Definitions, default_sequence, range_fields, for_type}
use borsh_rs.Schema.Declares.{Declares, DeclaresAll}
use borsh_rs.Schema.Closed.{for_type-Declares, for_type-some}
use borsh_rs.Schema.Conforms.{Conforms, done, variant_of, wire, wires, range_ty}
use borsh_rs.Schema.Types.{
  SchemaTy, SchemaTys, scalar, string, range_full, phantom_data, range_of, array, option, result,
  seq, map_of, tuple_of, boxed, nil, cons, RangeKind, range, range_inclusive, range_from, range_to,
  range_to_inclusive, declaration_of, declarations_of,
}
use borsh_rs.Types.{Ty, ⟦◌⟧}
use borsh_rs.Types.Spec.{Valid, encode, encode_each}
use borsh_rs.Ser.SeqLaws.{encode_each-byte}
use borsh_rs.Schema.Describes.{
  Describes, Describes-append, Describes-none, Describes-primitive, Describes-each, Describes-items,
  Describes-seq, Describes-members, Describes-fields, length-encode_primitive,
}

module _ (defs : Definitions) where
  -- What is to be shown of a type.
  abbrev Says : Declaration → Ty → Type 0
  Says d t = (v : ⟦ t ⟧) → Valid t v → Describes defs (d ∷ []) (encode t v)

  Says-range :
      (d e : Declaration) (k : RangeKind) (t : Ty)
      → get d defs ≡ some (struct (named_fields (range_fields k e)))
      → Says e t
      → Says d (range_ty k t)
  unfolding encode
  Says-range d e range t h s v q =
      Describes-fields defs d _ _ h
        (Describes-append defs (e ∷ []) (e ∷ []) _ _ (s v.0 q.0) (s v.1 q.1))
  Says-range d e range_inclusive t h s v q =
      Describes-fields defs d _ _ h
        (Describes-append defs (e ∷ []) (e ∷ []) _ _ (s v.0 q.0) (s v.1 q.1))
  Says-range d e range_from t h s v q = Describes-fields defs d _ _ h (s v q)
  Says-range d e range_to t h s v q = Describes-fields defs d _ _ h (s v q)
  Says-range d e range_to_inclusive t h s v q = Describes-fields defs d _ _ h (s v q)

  Says-option :
      (d e : Declaration) (t : Ty)
      → get d defs ≡ some (enum 1 ((pos 0, "None", "()") ∷ (pos 1, "Some", e) ∷ []))
      → get "()" defs ≡ some (primitive 0)
      → Says e t
      → Says d (Ty.option t)
  unfolding encode to_le_bytes to_pattern
  Says-option d e t h u s none q more rest c =
      variant_of 1 _ (pos 0, "None", "()") rest h (inl refl) refl
        (Describes-primitive defs "()" 0 [] u refl more rest c)
  Says-option d e t h u s (some v) q more rest c =
      variant_of 1 _ (pos 1, "Some", e) (encode t v ++ rest) h (inr (inl refl)) refl
        (s v q more rest c)

  Says-result :
      (d a b : Declaration) (t e : Ty)
      → get d defs ≡ some (enum 1 ((pos 1, "Ok", a) ∷ (pos 0, "Err", b) ∷ []))
      → Says a t
      → Says b e
      → Says d (Ty.result t e)
  unfolding encode to_le_bytes to_pattern
  Says-result d a b t e h s s' (inl v) q more rest c =
      variant_of 1 _ (pos 1, "Ok", a) (encode t v ++ rest) h (inl refl) refl (s v q more rest c)
  Says-result d a b t e h s s' (inr v) q more rest c =
      variant_of 1 _ (pos 0, "Err", b) (encode e v ++ rest) h (inr (inl refl)) refl
        (s' v q more rest c)

  Says-string :
      get "String" defs ≡ some (default_sequence "u8")
      → get "u8" defs ≡ some (primitive 1)
      → Says "String" Ty.string
  unfolding encode
  Says-string h u v q = rw (encode_each-byte v) at (
      Describes-seq defs (λ b. Unit {0}) (λ b. b ∷ []) "String" "u8" v h
        (λ b _. Describes-primitive defs "u8" 1 (b ∷ []) u refl) q.1 (all_units v))
    where
      all_units : (xs : List ℕ) → All (λ b. Unit {0}) xs
      all_units [] = tt
      all_units (x ∷ xs) = (tt, all_units xs)

  mutual
    unfolding encode declaration_of to_le_bytes

    Says-type : (t : SchemaTy) → Declares defs t → Says (declaration_of t) (wire t)
    Says-type (scalar p) h v q = Describes-primitive defs _ _ _ h (length-encode_primitive p v)
    Says-type string h v q = Says-string h.0 h.1 v q
    Says-type range_full h v q = Describes-fields defs _ _ [] h (Describes-none defs)
    Says-type phantom_data h v q = Describes-primitive defs _ 0 [] h refl
    Says-type (range_of k t) h v q = Says-range _ _ k (wire t) h.0 (Says-type t h.1) v q
    Says-type (array t n) h v q =
        Describes-items defs _ _ 0 n n n _ h.0 (omega arith) (omega arith) (
          subst
            (λ (j : ℕ).
              Describes defs (replicate j (declaration_of t)) (encode_each (encode (wire t)) v))
            q.0
            (Describes-each defs (Valid (wire t)) (encode (wire t)) (declaration_of t) v
              (Says-type t h.1) q.1))
    Says-type (option t) h v q = Says-option _ _ (wire t) h.0 h.1.1 (Says-type t h.1.0) v q
    Says-type (result t e) h v q =
        Says-result _ _ _ (wire t) (wire e) h.0 (Says-type t h.1.0) (Says-type e h.1.1) v q
    Says-type (seq k t) h v q =
        Describes-seq defs (Valid (wire t)) (encode (wire t)) _ _ v h.0 (Says-type t h.1) q.1 q.2
    Says-type (map_of m k u) h v q =
        Describes-seq defs (Valid (Ty.pair (wire k) (wire u))) (encode (Ty.pair (wire k) (wire u)))
          _ _ v h.0
          (λ a p. Describes-members defs _ _ _ h.1.0 (
            Describes-append defs (declaration_of k ∷ []) (declaration_of u ∷ []) _ _
              (Says-type k h.1.1.0 a.0 p.0) (Says-type u h.1.1.1 a.1 p.1)))
          q.1 q.2
    Says-type (tuple_of ts) h v q = Describes-members defs _ _ _ h.0 (Says-each ts h.1 v q)
    Says-type (boxed t) h v q = Says-type t h v q

    Says-each :
        (ts : SchemaTys)
        → DeclaresAll defs ts
        → (v : ⟦ wires ts ⟧) → Valid (wires ts) v
        → Describes defs (declarations_of ts) (encode (wires ts) v)
    Says-each nil h v q = Describes-none defs
    Says-each (cons t ts) h v q =
        Describes-append defs (declaration_of t ∷ []) (declarations_of ts) _ _
          (Says-type t h.0 v.0 q.0) (Says-each ts h.1 v.1 q.1)

-- The schema that `for_type` makes of a type describes the encoding of each of its valid values.
pub for_type-Conforms :
    (t : SchemaTy) (schema : BorshSchemaContainer) (v : ⟦ wire t ⟧)
    → for_type t ≡ some schema
    → Valid (wire t) v
    → Conforms schema.definitions (schema.declaration ∷ []) (encode (wire t) v)
for_type-Conforms t schema v h q =
    subst (λ (d : Declaration). Conforms schema.definitions (d ∷ []) (encode (wire t) v))
      (sym (for_type-some t schema h).0)
      (rw (append-nil (encode (wire t) v)) at
        (Says-type schema.definitions t (for_type-Declares t schema h) v q [] [] done))
