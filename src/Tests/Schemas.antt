-- ===== src/Tests/Schemas.antt =====
-- Schemas: runs and theorems at concrete inputs.
use borsh_rs.Base.{◌≡◌, ◌≢◌, ◌↔◌, ◌⊎◌, refl, arith, [], ◌∷◌, some}
use borsh_rs.Num.{pos}
use borsh_rs.Schema.{
  Declaration, primitive, sequence, tuple, enum, BorshSchemaContainer, get_definition, ok, err,
  out_of_fuel, panicked, on_stack,
}
use borsh_rs.Schema.ZeroSize.{ZeroSizeError, is_zero_size, count_is_one}
use borsh_rs.Schema.MaxSize.{max_serialized_size, max_serialized_size_impl}
use borsh_rs.Schema.Validate.{validate, check_length_width}
use borsh_rs.Schema.Width.{WidthFits, check_length_width-eq-ok_iff}
use borsh_rs.Schema.Defects.{is_zero_size-two_empty_arrays, max_serialized_size_impl-enum}
use borsh_rs.Schema.Fuel.{HasLong}
use borsh_rs.Schema.Fuel.ZeroSize.{is_zero_size-ends}
use borsh_rs.Schema.Fuel.MaxSize.{max_serialized_size-ends}
use borsh_rs.Schema.Fuel.Validate.{validate-ends}

-- `([u8; 0], [u8; 0])`
abbrev empty_arrays : BorshSchemaContainer
empty_arrays = record {
  declaration = "([u8; 0], [u8; 0])";
  definitions =
      ("([u8; 0], [u8; 0])", tuple ("[u8; 0]" ∷ "[u8; 0]" ∷ []))
      ∷ ("[u8; 0]", sequence 0 0 0 "u8")
      ∷ ("u8", primitive 1)
      ∷ [];
}

-- `[Option<u8>; 3]`
abbrev three_options : BorshSchemaContainer
three_options = record {
  declaration = "[Option<u8>; 3]";
  definitions =
      ("[Option<u8>; 3]", sequence 0 3 3 "Option<u8>")
      ∷ ("Option<u8>", enum 1 ((pos 0, "None", "()") ∷ (pos 1, "Some", "u8") ∷ []))
      ∷ ("()", primitive 0)
      ∷ ("u8", primitive 1)
      ∷ [];
}

abbrev pair_name : Declaration
pair_name = "([u8; 0], [u8; 0])"

abbrev array_name : Declaration
array_name = "[u8; 0]"

names_differ : pair_name ≢ array_name
names_differ e = cc

array_defined : get_definition empty_arrays "[u8; 0]" ≡ some (sequence 0 0 0 "u8")
unfolding get_definition
array_defined = refl

pair_defined :
    get_definition empty_arrays "([u8; 0], [u8; 0])" ≡ some (tuple ("[u8; 0]" ∷ "[u8; 0]" ∷ []))
unfolding get_definition
pair_defined = refl

is_zero_size-two_empty_arrays_example :
    is_zero_size 255 empty_arrays "([u8; 0], [u8; 0])" ≡ err ZeroSizeError.recursive
is_zero_size-two_empty_arrays_example =
    is_zero_size-two_empty_arrays 255 empty_arrays "[u8; 0]" "([u8; 0], [u8; 0])" "u8" (omega arith)
      (omega arith) names_differ array_defined pair_defined

option_defined :
    get_definition three_options "Option<u8>"
    ≡ some (enum 1 ((pos 0, "None", "()") ∷ (pos 1, "Some", "u8") ∷ []))
unfolding get_definition
option_defined = refl

max_serialized_size_impl-enum_example :
    max_serialized_size_impl 255 three_options 4 3 "Option<u8>" []
    ≡ max_serialized_size_impl 255 three_options 4 1 "Option<u8>" []
max_serialized_size_impl-enum_example =
    max_serialized_size_impl-enum 255 three_options 4 3 "Option<u8>" 1
      ((pos 0, "None", "()") ∷ (pos 1, "Some", "u8") ∷ []) [] option_defined

-- The value `[Some(1), Some(2), Some(3)]` takes 6 bytes.
max_serialized_size-three_options : max_serialized_size 255 three_options ≡ ok 2
unfolding max_serialized_size on_stack get_definition
max_serialized_size-three_options = refl

check_length_width-eq-ok_iff_example :
    (check_length_width "[u8]" 2 65535 ≡ ok tt) ↔ WidthFits 2 65535
check_length_width-eq-ok_iff_example = check_length_width-eq-ok_iff "[u8]" 2 65535

is_zero_size-ends_example :
    (is_zero_size 255 empty_arrays "[u8; 0]" ≢ out_of_fuel)
    × ((is_zero_size 255 empty_arrays "[u8; 0]" ≢ panicked) ⊎ HasLong 255 empty_arrays.definitions)
is_zero_size-ends_example = is_zero_size-ends 255 empty_arrays "[u8; 0]"

max_serialized_size-ends_example :
    (max_serialized_size 255 three_options ≢ out_of_fuel)
    × ((max_serialized_size 255 three_options ≢ panicked) ⊎ HasLong 255 three_options.definitions)
max_serialized_size-ends_example = max_serialized_size-ends 255 three_options

validate-ends_example :
    (validate 255 three_options ≢ out_of_fuel)
    × ((validate 255 three_options ≢ panicked) ⊎ HasLong 255 three_options.definitions)
validate-ends_example = validate-ends 255 three_options

validate-three_options : validate 255 three_options ≡ ok tt
unfolding validate get_definition on_stack count_is_one
validate-three_options = refl

-- A sequence without a length, of any number of items.
abbrev any_length : BorshSchemaContainer
any_length = record {
  declaration = "[u8]";
  definitions = ("[u8]", sequence 0 0 18446744073709551615 "u8") ∷ ("u8", primitive 1) ∷ [];
}

-- `count` has no `usize` for 2^64 items.
validate-any_length : validate 18446744073709551615 any_length ≡ panicked
unfolding validate get_definition on_stack count_is_one
validate-any_length = refl
