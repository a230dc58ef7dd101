-- ===== src/Schema/Standard.antt =====
-- borsh/src/schema.rs: `add_definition`, `add_definitions_recursively` of each type, and `for_type`.
use borsh_rs.Base.{◌^◌, ◌-◌, Option, none, some, List, [], ◌∷◌, if◌then◌else◌}
use borsh_rs.Num.{pos}
use borsh_rs.Schema.{
  Declaration, Definition, primitive, sequence, tuple, enum, struct, named_fields, empty,
  BorshSchemaContainer, get, insert,
}
use borsh_rs.Schema.Equal.{eq_definition}
use borsh_rs.Schema.Types.{
  SchemaTy, SchemaTys, scalar, string, range_full, phantom_data, range_of, array, option, result,
  seq, map_of, tuple_of, boxed, nil, cons, RangeKind, range, range_inclusive, range_from, range_to,
  range_to_inclusive, primitive_name, primitive_size, declaration_of, declarations_of, tuple_name,
}
use Prim.Native.String.{String}

abbrev pub Definitions : Type 0
Definitions = List (Declaration × Definition)

-- `none` is the panic of the assertion that a type is not defined in two ways.
unfoldable pub add_definition : Declaration → Definition → Definitions → Option Definitions
add_definition d def defs = elim (get d defs) [
  | none ↦ some (insert d def defs)
  | some existing ↦ if eq_definition existing def then some defs else none
]

-- What comes next, unless there was a panic.
abbrev pub then_add : Option Definitions → (Definitions → Option Definitions) → Option Definitions
then_add none add = none
then_add (some defs) add = add defs

-- `DEFAULT_LENGTH_WIDTH`, `DEFAULT_LENGTH_RANGE`
abbrev pub default_sequence : Declaration → Definition
default_sequence elements = sequence 4 0 (2 ^ 32 - 1) elements

abbrev pub range_fields : RangeKind → Declaration → List (String × Declaration)
range_fields range d = ("start", d) ∷ ("end", d) ∷ []
range_fields range_inclusive d = ("start", d) ∷ ("end", d) ∷ []
range_fields range_from d = ("start", d) ∷ []
range_fields range_to d = ("end", d) ∷ []
range_fields range_to_inclusive d = ("end", d) ∷ []

unfoldable mutual
  unfolding add_definition declaration_of

  pub add_definitions_recursively : SchemaTy → Definitions → Option Definitions
  add_definitions_recursively (scalar p) defs =
      add_definition (primitive_name p) (primitive (primitive_size p)) defs
  add_definitions_recursively string defs =
      then_add (add_definition "String" (default_sequence "u8") defs)
        (add_definition "u8" (primitive 1))
  add_definitions_recursively range_full defs = add_definition "RangeFull" (struct empty) defs
  add_definitions_recursively phantom_data defs = add_definition "()" (primitive 0) defs
  add_definitions_recursively (range_of k t) defs =
      then_add
        (add_definition (declaration_of (range_of k t))
          (struct (named_fields (range_fields k (declaration_of t)))) defs)
        (add_definitions_recursively t)
  add_definitions_recursively (array t n) defs =
      then_add
        (add_definition (declaration_of (array t n)) (sequence 0 n n (declaration_of t)) defs)
        (add_definitions_recursively t)
  add_definitions_recursively (option t) defs =
      then_add
        (then_add
          (add_definition (declaration_of (option t))
            (enum 1 ((pos 0, "None", "()") ∷ (pos 1, "Some", declaration_of t) ∷ [])) defs)
          (add_definitions_recursively t))
        (add_definition "()" (primitive 0))
  add_definitions_recursively (result t e) defs =
      then_add
        (then_add
          (add_definition (declaration_of (result t e))
            (enum 1 ((pos 1, "Ok", declaration_of t) ∷ (pos 0, "Err", declaration_of e) ∷ [])) defs)
          (add_definitions_recursively t))
        (add_definitions_recursively e)
  add_definitions_recursively (seq k t) defs =
      then_add
        (add_definition (declaration_of (seq k t)) (default_sequence (declaration_of t)) defs)
        (add_definitions_recursively t)
  add_definitions_recursively (map_of m k v) defs =
      then_add
        (add_definition (declaration_of (map_of m k v))
          (default_sequence (tuple_name (declaration_of k ∷ declaration_of v ∷ []))) defs)
        λ defs'.
          then_add
            (then_add
              (add_definition (tuple_name (declaration_of k ∷ declaration_of v ∷ []))
                (tuple (declaration_of k ∷ declaration_of v ∷ [])) defs')
              (add_definitions_recursively k))
            (add_definitions_recursively v)
  add_definitions_recursively (tuple_of ts) defs =
      then_add (add_definition (tuple_name (declarations_of ts)) (tuple (declarations_of ts)) defs)
        (add_each ts)
  add_definitions_recursively (boxed t) defs = add_definitions_recursively t defs

  -- The members of a tuple, in order.
  pub add_each : SchemaTys → Definitions → Option Definitions
  add_each nil defs = some defs
  add_each (cons t ts) defs = then_add (add_definitions_recursively t defs) (add_each ts)

-- `BorshSchemaContainer::for_type`
unfoldable pub for_type : SchemaTy → Option BorshSchemaContainer
unfolding add_definitions_recursively
for_type t = elim (add_definitions_recursively t []) [
  | none ↦ none
  | some defs ↦ some (record { declaration = declaration_of t; definitions = defs })
]
