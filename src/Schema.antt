-- ===== src/Schema.antt =====
-- borsh/src/schema.rs: declarations, definitions and the container that maps one to the other.
pub mod ZeroSize
pub mod MaxSize
pub mod Validate
pub mod Defects
pub mod Fuel
pub mod Width
pub mod Container
pub mod Equal
pub mod Types
pub mod Standard
pub mod Declares
pub mod Closed
pub mod Conforms
pub mod Describes
pub mod Described
pub mod Bound
pub mod SizeBound
pub mod MaxBound
use borsh_rs.Base.{
  ℕ, ◌≡◌, String, Bool, true, false, Option, none, some, List, [], ◌∷◌, if◌then◌else◌, ◌||◌,
}
use borsh_rs.Num.{ℤ}
use text.Mathlib.Text.{◌==◌ as str_eq}

abbrev pub Declaration : Type 0
Declaration = String

pub data Fields : Type 0 where
  named_fields : List (String × Declaration) → Fields
  unnamed_fields : List Declaration → Fields
  empty : Fields

-- `sequence length_width start end elements` has the range `start..=end` of lengths; a variant of
-- `enum` is its discriminant, its name and its declaration.
pub data Definition : Type 0 where
  primitive : ℕ → Definition
  sequence : ℕ → ℕ → ℕ → Declaration → Definition
  tuple : List Declaration → Definition
  enum : ℕ → List (ℤ × String × Declaration) → Definition
  struct : Fields → Definition

-- `definitions` is the `BTreeMap`; only the first entry of a key counts.
pub record BorshSchemaContainer : Type 0 where
  pub declaration : Declaration
  pub definitions : List (Declaration × Definition)

unfoldable pub get : Declaration → List (Declaration × Definition) → Option Definition
get d [] = none
get d ((k, def) ∷ more) = if str_eq k d then some def else get d more

unfoldable pub get_definition : BorshSchemaContainer → Declaration → Option Definition
unfolding get
get_definition schema d = get d schema.definitions

unfoldable pub insert :
    Declaration → Definition → List (Declaration × Definition) → List (Declaration × Definition)
insert d def [] = (d, def) ∷ []
insert d def ((k, old) ∷ more) =
    if str_eq k d then (k, def) ∷ more else (k, old) ∷ insert d def more

unfoldable pub remove :
    Declaration → List (Declaration × Definition) → List (Declaration × Definition)
remove d [] = []
remove d ((k, old) ∷ more) = if str_eq k d then remove d more else (k, old) ∷ remove d more

unfoldable pub insert_definition :
    BorshSchemaContainer → Declaration → Definition → BorshSchemaContainer × Option Definition
unfolding get_definition insert
insert_definition schema d def =
    (record schema { definitions = insert d def schema.definitions }, get_definition schema d)

unfoldable pub remove_definition :
    BorshSchemaContainer → Declaration → BorshSchemaContainer × Option Definition
unfolding get_definition remove
remove_definition schema d =
    (record schema { definitions = remove d schema.definitions }, get_definition schema d)

-- The declarations of the fields, in order; the names are not part of the encoding.
abbrev pub field_types : Fields → List Declaration
field_types (named_fields fs) = snds fs
  where
    snds : List (String × Declaration) → List Declaration
    snds [] = []
    snds ((n, d) ∷ more) = d ∷ snds more
field_types (unnamed_fields ds) = ds
field_types empty = []

-- `stack.iter().any(|dec| *dec == declaration)`
unfoldable pub on_stack : Declaration → List Declaration → Bool
on_stack d [] = false
on_stack d (top ∷ rest) = str_eq top d || on_stack d rest

-- An outcome of the recursive walks; `panicked` is a panic, and `out_of_fuel` no result of the program.
pub data Outcome (E A : Type 0) : Type 0 where
  ok : A → Outcome E A
  err : E → Outcome E A
  panicked : Outcome E A
  out_of_fuel : Outcome E A

-- A walk takes the stack of the declarations that are being looked at, and leaves it changed.
abbrev pub Walk : Type 0 → Type 0 → Type 0
Walk E A = List Declaration → Outcome E A × List Declaration

abbrev pub and_then :
    {E A B : Type 0}
    → Outcome E A × List Declaration
    → (A → Walk E B)
    → Outcome E B × List Declaration
and_then (ok a, s) f = f a s
and_then (err e, s) f = (err e, s)
and_then (panicked, s) f = (panicked, s)
and_then (out_of_fuel, s) f = (out_of_fuel, s)

infixl 5 ◌>>=◌ ◌>>◌
abbrev pub ◌>>=◌ : {E A B : Type 0} → Walk E A → (A → Walk E B) → Walk E B
◌>>=◌ m f s = and_then (m s) f

abbrev pub ◌>>◌ : {E B : Type 0} → Walk E (Unit {0}) → Walk E B → Walk E B
m >> k = m >>= λ _. k

abbrev pub pure : {E A : Type 0} → A → Walk E A
pure a s = (ok a, s)

abbrev pub throw : {E A : Type 0} → E → Walk E A
throw e s = (err e, s)

abbrev pub push : {E : Type 0} → Declaration → Walk E (Unit {0})
push d s = (ok tt, d ∷ s)

abbrev pub pop : {E : Type 0} → Walk E (Unit {0})
pop [] = (ok tt, [])
pop (d ∷ s) = (ok tt, s)

abbrev pub map_err : {E F A : Type 0} → (E → F) → Walk E A → Walk F A
map_err {E} {F} {A} f m s = go (m s)
  where
    go : Outcome E A × List Declaration → Outcome F A × List Declaration
    go (ok a, s') = (ok a, s')
    go (err e, s') = (err (f e), s')
    go (panicked, s') = (panicked, s')
    go (out_of_fuel, s') = (out_of_fuel, s')

abbrev pub result_of : {E A : Type 0} → Outcome E A × List Declaration → Outcome E A
result_of (r, s) = r
