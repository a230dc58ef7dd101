-- ===== src/Tests/SchemaTypes.antt =====
-- Schemas of types: runs and theorems at concrete inputs.
use borsh_rs.Base.{ℕ, ◌≡◌, ◌≤◌, refl, arith, [], ◌∷◌, some, List, length, subst}
use borsh_rs.Num.{to_le_bytes}
use borsh_rs.Schema.{
  primitive, sequence, BorshSchemaContainer, ok, get, insert, get_definition, on_stack,
}
use borsh_rs.Schema.Types.{
  SchemaTy, scalar, array, Primitive, declaration_of, hash_map, map_of, string, option,
}
use borsh_rs.Schema.Standard.{for_type}
use borsh_rs.Schema.Declares.{IsDefined}
use borsh_rs.Schema.Closed.{for_type-IsClosed, IsClosed}
use borsh_rs.Schema.Conforms.{Conforms, wire}
use borsh_rs.Schema.Described.{for_type-Conforms}
use borsh_rs.Schema.MaxSize.{max_serialized_size}
use borsh_rs.Schema.MaxBound.{max_serialized_size-Conforms, IsPlainSchema}
use borsh_rs.Types.{u8, u16}
use borsh_rs.Types.Spec.{encode}

-- `[u16; 2]`
abbrev two_numbers : SchemaTy
two_numbers = array (scalar (Primitive.unsigned u16)) 2

abbrev two_numbers_schema : BorshSchemaContainer
two_numbers_schema = record {
  declaration = "[u16; 2]";
  definitions = ("[u16; 2]", sequence 0 2 2 "u16") ∷ ("u16", primitive 2) ∷ [];
}

map_name_example :
    declaration_of (map_of hash_map string (option (scalar (Primitive.unsigned u8))))
    ≡ "HashMap<String, Option<u8>>"
unfolding declaration_of
map_name_example = refl

for_type-two_numbers : for_type two_numbers ≡ some two_numbers_schema
unfolding for_type get insert
for_type-two_numbers = refl

for_type-IsClosed_example :
    IsDefined two_numbers_schema.definitions "[u16; 2]" × IsClosed two_numbers_schema
for_type-IsClosed_example = for_type-IsClosed two_numbers two_numbers_schema for_type-two_numbers

for_type-Conforms_example :
    Conforms two_numbers_schema.definitions
      ("[u16; 2]" ∷ [])
      (encode (wire two_numbers) (1 ∷ 2 ∷ []))
for_type-Conforms_example =
    for_type-Conforms two_numbers two_numbers_schema (1 ∷ 2 ∷ []) for_type-two_numbers
      (refl, (omega arith, (omega arith, tt)))

size_example : max_serialized_size 1000 two_numbers_schema ≡ ok 4
unfolding max_serialized_size on_stack get_definition
size_example = refl

plain : IsPlainSchema 1000 two_numbers_schema
plain = (omega arith, (tt, tt))

numbers_encoded : encode (wire two_numbers) (1 ∷ 2 ∷ []) ≡ 1 ∷ 0 ∷ 2 ∷ 0 ∷ []
unfolding encode to_le_bytes
numbers_encoded = refl

abbrev four_bytes : List ℕ
four_bytes = 1 ∷ 0 ∷ 2 ∷ 0 ∷ []

max_serialized_size-Conforms_example : length four_bytes ≤ 4
max_serialized_size-Conforms_example =
    max_serialized_size-Conforms 1000 two_numbers_schema plain 4 size_example four_bytes (
      subst (λ (bs : List ℕ). Conforms two_numbers_schema.definitions ("[u16; 2]" ∷ []) bs)
        numbers_encoded for_type-Conforms_example)
