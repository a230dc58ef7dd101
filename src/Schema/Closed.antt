-- ===== src/Schema/Closed.antt =====
-- `add_definitions_recursively` and `for_type` of borsh/src/schema.rs: what is defined afterwards.
use borsh_rs.Base.{◌≡◌, refl, sym, ap, ◌∙◌, subst, Option, none, some, [], All, inl, inr}
use borsh_rs.Schema.{
  Declaration, Definition, primitive, struct, named_fields, empty, get, BorshSchemaContainer,
}
use borsh_rs.Schema.Types.{
  SchemaTy, SchemaTys, scalar, string, range_full, phantom_data, range_of, array, option, result,
  seq, map_of, tuple_of, boxed, nil, cons, RangeKind, range, range_inclusive, range_from, range_to,
  range_to_inclusive, primitive_size, declaration_of, declarations_of,
}
use borsh_rs.Schema.Standard.{
  Definitions, add_definition, then_add, default_sequence, range_fields,
  add_definitions_recursively, add_each, for_type,
}
use borsh_rs.Schema.Declares.{
  references, IsDefined, Added, Added-refl, Added-trans, add_definition-Holds, Added-node,
  then_add-some, Declares, DeclaresAll,
}
use mathlib.Core.Option.{some-injective}
use borsh_rs.Schema.Fuel.{Option-cases}

mutual
  unfolding declaration_of

  Declares-IsDefined :
      (c : Definitions) (t : SchemaTy) → Declares c t → IsDefined c (declaration_of t)
  Declares-IsDefined c (scalar p) h = (primitive (primitive_size p), h)
  Declares-IsDefined c string h = (default_sequence "u8", h.0)
  Declares-IsDefined c range_full h = (struct empty, h)
  Declares-IsDefined c phantom_data h = (primitive 0, h)
  Declares-IsDefined c (range_of k t) h = (_, h.0)
  Declares-IsDefined c (array t n) h = (_, h.0)
  Declares-IsDefined c (option t) h = (_, h.0)
  Declares-IsDefined c (result t e) h = (_, h.0)
  Declares-IsDefined c (seq k t) h = (_, h.0)
  Declares-IsDefined c (map_of m k v) h = (_, h.0)
  Declares-IsDefined c (tuple_of ts) h = (_, h.0)
  Declares-IsDefined c (boxed t) h = Declares-IsDefined c t h

  DeclaresAll-IsDefined :
      (c : Definitions) (ts : SchemaTys) → DeclaresAll c ts → All (IsDefined c) (declarations_of ts)
  DeclaresAll-IsDefined c nil h = tt
  DeclaresAll-IsDefined c (cons t ts) h =
      (Declares-IsDefined c t h.0, DeclaresAll-IsDefined c ts h.1)

mutual
  Declares-Added : (b c : Definitions) → Added b c → (t : SchemaTy) → Declares b t → Declares c t
  Declares-Added b c k (scalar p) h = k.kept _ _ h
  Declares-Added b c k string h = (k.kept _ _ h.0, k.kept _ _ h.1)
  Declares-Added b c k range_full h = k.kept _ _ h
  Declares-Added b c k phantom_data h = k.kept _ _ h
  Declares-Added b c k (range_of r t) h = (k.kept _ _ h.0, Declares-Added b c k t h.1)
  Declares-Added b c k (array t n) h = (k.kept _ _ h.0, Declares-Added b c k t h.1)
  Declares-Added b c k (option t) h =
      (k.kept _ _ h.0, (Declares-Added b c k t h.1.0, k.kept _ _ h.1.1))
  Declares-Added b c k (result t e) h =
      (k.kept _ _ h.0, (Declares-Added b c k t h.1.0, Declares-Added b c k e h.1.1))
  Declares-Added b c k (seq s t) h = (k.kept _ _ h.0, Declares-Added b c k t h.1)
  Declares-Added b c k (map_of m t u) h = (
    k.kept _ _ h.0,
    (k.kept _ _ h.1.0, (Declares-Added b c k t h.1.1.0, Declares-Added b c k u h.1.1.1)),
  )
  Declares-Added b c k (tuple_of ts) h = (k.kept _ _ h.0, DeclaresAll-Added b c k ts h.1)
  Declares-Added b c k (boxed t) h = Declares-Added b c k t h

  DeclaresAll-Added :
      (b c : Definitions) → Added b c → (ts : SchemaTys) → DeclaresAll b ts → DeclaresAll c ts
  DeclaresAll-Added b c k nil h = tt
  DeclaresAll-Added b c k (cons t ts) h =
      (Declares-Added b c k t h.0, DeclaresAll-Added b c k ts h.1)

-- A definition that refers to nothing.
leaf-Added :
    (d : Declaration) (def : Definition) {a c : Definitions}
    → add_definition d def a ≡ some c
    → references def ≡ []
    → Added a c × (get d c ≡ some def)
leaf-Added d def {a} {c} e none_in =
    let n = add_definition-Holds d def a c e in
    (Added-node n (Added-refl c) (subst (All (IsDefined c)) (sym none_in) tt), n.found)

then_add_assoc :
    (m : Option Definitions) (f g : Definitions → Option Definitions)
    → then_add (then_add m f) g ≡ then_add m (λ b. then_add (f b) g)
then_add_assoc none f g = refl
then_add_assoc (some b) f g = refl

-- What an addition gives of a type.
abbrev Gives : (Definitions → Option Definitions) → (Definitions → Type 0) → Type 0
Gives add P = (a c : Definitions) → add a ≡ some c → Added a c × P c

-- One addition after the other.
Gives-then :
    {add more : Definitions → Option Definitions} {P Q : Definitions → Type 0}
    → ((b c : Definitions) → Added b c → P b → P c)
    → Gives add P
    → Gives more Q
    → Gives (λ a. then_add (add a) more) (λ c. P c × Q c)
Gives-then {add} {more} keep p q a c e =
    let (b, first, second) = then_add-some (add a) more c e in
    let (a_b, at_b) = p a b first in
    let (b_c, at_c) = q b c second in (Added-trans a_b b_c, (keep b c b_c at_b, at_c))

-- A definition, and then what it refers to.
Gives-node :
    (d : Declaration) (def : Definition) {more : Definitions → Option Definitions}
    {Q : Definitions → Type 0}
    → Gives more Q
    → ((c : Definitions) → Q c → All (IsDefined c) (references def))
    → Gives (λ a. then_add (add_definition d def a) more) (λ c. (get d c ≡ some def) × Q c)
Gives-node d def {more} q refs a c e =
    let (b, first, second) = then_add-some (add_definition d def a) more c e in
    let n = add_definition-Holds d def a b first in
    let (b_c, at_c) = q b c second in
    (Added-node n b_c (refs c at_c), (b_c.kept d def n.found, at_c))

range_fields-IsDefined :
    (c : Definitions) (k : RangeKind) (d : Declaration)
    → IsDefined c d
    → All (IsDefined c) (references (struct (named_fields (range_fields k d))))
range_fields-IsDefined c range d h = (h, (h, tt))
range_fields-IsDefined c range_inclusive d h = (h, (h, tt))
range_fields-IsDefined c range_from d h = (h, tt)
range_fields-IsDefined c range_to d h = (h, tt)
range_fields-IsDefined c range_to_inclusive d h = (h, tt)

mutual
  unfolding add_definitions_recursively declaration_of

  Gives-type : (t : SchemaTy) → Gives (add_definitions_recursively t) (λ c. Declares c t)
  Gives-type (scalar p) a c e = leaf-Added _ _ e refl
  Gives-type string a c e =
      Gives-node _ _ (λ b c' e'. leaf-Added _ _ e' refl) (λ c' q. ((primitive 1, q), tt)) a c e
  Gives-type range_full a c e = leaf-Added _ _ e refl
  Gives-type phantom_data a c e = leaf-Added _ _ e refl
  Gives-type (range_of k t) a c e =
      Gives-node _ _ (Gives-type t)
        (λ c' q. range_fields-IsDefined c' k (declaration_of t) (Declares-IsDefined c' t q)) a c e
  Gives-type (array t n) a c e =
      Gives-node _ _ (Gives-type t) (λ c' q. (Declares-IsDefined c' t q, tt)) a c e
  Gives-type (option t) a c e =
      Gives-node _ _
        (Gives-then (λ b c' k h. Declares-Added b c' k t h) (Gives-type t)
          (λ b c' e'. leaf-Added "()" (primitive 0) e' refl))
        (λ c' q. ((primitive 0, q.1), (Declares-IsDefined c' t q.0, tt))) a c
        (sym (then_add_assoc _ (add_definitions_recursively t) (add_definition "()" (primitive 0)))
          ∙ e)
  Gives-type (result t u) a c e =
      Gives-node _ _
        (Gives-then (λ b c' k h. Declares-Added b c' k t h) (Gives-type t) (Gives-type u))
        (λ c' q. (Declares-IsDefined c' t q.0, (Declares-IsDefined c' u q.1, tt))) a c
        (sym (then_add_assoc _ (add_definitions_recursively t) (add_definitions_recursively u)) ∙ e)
  Gives-type (seq s t) a c e =
      Gives-node _ _ (Gives-type t) (λ c' q. (Declares-IsDefined c' t q, tt)) a c e
  Gives-type (map_of m k v) a c e =
      Gives-node _ _
        (λ b c' e'.
          Gives-node _ _
            (Gives-then (λ b' c'' j h. Declares-Added b' c'' j k h) (Gives-type k) (Gives-type v))
            (λ c'' q. (Declares-IsDefined c'' k q.0, (Declares-IsDefined c'' v q.1, tt))) b c'
            (sym (then_add_assoc _ (add_definitions_recursively k) (add_definitions_recursively v))
              ∙ e'))
        (λ c' q. ((_, q.0), tt)) a c e
  Gives-type (tuple_of ts) a c e =
      Gives-node _ _ (Gives-each ts) (λ c' q. DeclaresAll-IsDefined c' ts q) a c e
  Gives-type (boxed t) a c e = Gives-type t a c e

  Gives-each : (ts : SchemaTys) → Gives (add_each ts) (λ c. DeclaresAll c ts)
  Gives-each nil a c e = (let same : a ≡ c = cc in subst (Added a) same (Added-refl a), tt)
  Gives-each (cons t ts) a c e =
      Gives-then (λ b c' k h. Declares-Added b c' k t h) (Gives-type t) (Gives-each ts) a c e

-- Every definition of a container refers to what the container defines.
abbrev pub IsClosed : BorshSchemaContainer → Type 0
IsClosed schema =
    (d : Declaration) (def : Definition)
    → get d schema.definitions ≡ some def
    → All (IsDefined schema.definitions) (references def)

pub for_type-some :
    (t : SchemaTy) (schema : BorshSchemaContainer)
    → for_type t ≡ some schema
    → (schema.declaration ≡ declaration_of t)
      × (add_definitions_recursively t [] ≡ some schema.definitions)
unfolding for_type
for_type-some t schema h = elim (Option-cases (add_definitions_recursively t [])) [
  | inl e ↦ let bad : none ≡ some schema = rw (e, for_type) at h in cc
  | inr (defs, e) ↦
      let same : some (record { declaration = declaration_of t; definitions = defs })
          ≡ some schema =
        rw (e, for_type) at h in
      let eq : (record { declaration = declaration_of t; definitions = defs }) ≡ schema =
        some-injective _ _ same in
      (
        sym (ap (λ (x : BorshSchemaContainer). x.declaration) eq),
        e ∙ ap (λ (x : BorshSchemaContainer). some x.definitions) eq,
      )
]

pub for_type-Declares :
    (t : SchemaTy) (schema : BorshSchemaContainer)
    → for_type t ≡ some schema
    → Declares schema.definitions t
for_type-Declares t schema h = (Gives-type t [] schema.definitions (for_type-some t schema h).1).1

-- The container that `for_type` makes of a type defines the type, and every definition in it refers
-- only to declarations that it defines.
pub for_type-IsClosed :
    (t : SchemaTy) (schema : BorshSchemaContainer)
    → for_type t ≡ some schema
    → IsDefined schema.definitions schema.declaration × IsClosed schema
unfolding get
for_type-IsClosed t schema h =
    let (name, run) = for_type-some t schema h in
    let (added, declares) = Gives-type t [] schema.definitions run in
    (
      subst (IsDefined schema.definitions) (sym name)
          (Declares-IsDefined schema.definitions t declares),
      λ d def there. elim (added.closed d def there) [ inl old ↦ cc | inr new ↦ new ],
    )
