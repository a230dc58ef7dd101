-- ===== src/Tests/Derive.antt =====
-- Derive macros: runs and theorems at concrete inputs.
use borsh_rs.Base.{
  zero, suc, Option, if◌then◌else◌, ltb, ℕ, ◌≡◌, ◌≢◌, ◌<◌, refl, sym, subst, arith, [], ◌∷◌, some,
  none, List, String, false, inl, inr, length, ◌^◌, ◌*◌, ◌+◌,
}
use borsh_rs.Io.{M, pure}
use borsh_rs.Io.Slice.{slice_reader}
use borsh_rs.Io.Sink.{vec_writer, vec_writer-IsSink}
use borsh_rs.De.Laws.{Reads}
use borsh_rs.Num.{pos, to_le_bytes}
use borsh_rs.Types.{Ty, ⟦◌⟧, u8, u16}
use borsh_rs.Types.Spec.{encode}
use borsh_rs.Types.Results.{deserialize}
use borsh_rs.Derive.{accepted, rejected, Field, named, Attribute, skip, unit}
use borsh_rs.Derive.Attributes.{Attributes, parse, borsh_attributes}
use borsh_rs.Derive.Consistent.{parse-IsConsistent, IsConsistent, IsComplete}
use borsh_rs.Derive.Item.{
  ItemStruct, Variant, number, plus, new, contains_initialize_with, discriminants_from, value,
  value_from,
}
use borsh_rs.Derive.Assigned.{new-assigned, new-after_shift, values, assigned, shifted_then_next}
use borsh_rs.Derive.Run.{
  Values, fields_of, same_name, struct_env, is_local, writing_locals, run_construct, then_call_init,
  call_init,
}
use borsh_rs.Derive.Spec.{Custom, fields_bytes, restored_fields, AreCoded}
use borsh_rs.Derive.Fields.{Runs}
use borsh_rs.Derive.Structs.{process_struct-round_trip, Occurs}
use mathlib.Core.Option.{some-injective}
use borsh_rs.Derive.Serialize as S
use borsh_rs.Derive.Deserialize as D

abbrev both_defaults : {A B : Type 0} → Option A → Option B → Option (A × B)
both_defaults none o = none
both_defaults (some a) none = none
both_defaults (some a) (some b) = some (a, b)

abbrev prepend_default : {A : Type 0} → A → Option (List A) → Option (List A)
prepend_default a none = none
prepend_default a (some l) = some (a ∷ l)

abbrev repeat_default : {A : Type 0} → ℕ → Option A → Option (List A)
repeat_default zero o = some []
repeat_default (suc n) none = none
repeat_default (suc n) (some a) = prepend_default a (repeat_default n (some a))

-- `Default` of the standard library.
abbrev pub default_value : (t : Ty) → Option ⟦ t ⟧
default_value (Ty.unsigned k) = some 0
default_value (Ty.signed k) = some (pos 0)
default_value Ty.f32 = some 0
default_value Ty.f64 = some 0
default_value Ty.bool = some false
default_value Ty.string = some []
default_value Ty.unit = some tt
default_value (Ty.option t) = some none
default_value (Ty.vec t) = some []
default_value (Ty.linked_list t) = some []
default_value (Ty.array t n) = if ltb 32 n then none else repeat_default n (default_value t)
default_value (Ty.pair t u) = both_defaults (default_value t) (default_value u)
default_value (Ty.boxed t) = default_value t
default_value (Ty.cell t) = default_value t
default_value (Ty.nonzero_unsigned k) = none
default_value (Ty.nonzero_signed k) = none
default_value (Ty.result t e) = none
default_value Ty.ipv4_addr = none
default_value Ty.ipv6_addr = none
default_value Ty.ip_addr = none
default_value Ty.socket_addr_v4 = none
default_value Ty.socket_addr_v6 = none
default_value Ty.socket_addr = none

abbrev pub functions : Custom (List ℕ)
functions = record {
  serialize_with = λ p d. pure tt;
  deserialize_with = λ p t. deserialize slice_reader t;
  default_of = default_value;
  encode_with = λ p d. [];
}

-- `struct { a: u16, #[borsh(skip)] b: u8 }`
abbrev pub skip_attribute : Attribute
skip_attribute = record { path = "borsh"; metas = skip ∷ [] }

abbrev field_a : Field
field_a = record { ident = some "a"; ty = Ty.unsigned u16; attrs = [] }

abbrev field_b : Field
field_b = record { ident = some "b"; ty = Ty.unsigned u8; attrs = skip_attribute ∷ [] }

abbrev item : ItemStruct
item = record { attrs = []; fields = named (field_a ∷ field_b ∷ []) }

abbrev serialize_code : S.Output
serialize_code = record {
  header = [];
  body = (record { func = none; arg = S.self_name "a" }) ∷ [];
  overrides = [];
  visited = Ty.unsigned u16 ∷ [];
}

serialize_code-item : S.process_struct item ≡ accepted serialize_code
unfolding S.process_struct borsh_attributes
serialize_code-item = refl

abbrev deserialize_code : D.StructImpl
deserialize_code = record {
  return_value = D.braces (D.read (some "a") none ∷ D.default (some "b") ∷ []);
  init = none;
  output = record {
    body = D.read (some "a") none ∷ D.default (some "b") ∷ [];
    overrides = [];
    deserialize_visited = Ty.unsigned u16 ∷ [];
    default_visited = Ty.unsigned u8 ∷ [];
  };
}

deserialize_code-item : D.process_struct item ≡ accepted deserialize_code
unfolding D.process_struct borsh_attributes
deserialize_code-item = refl

coded :
    AreCoded functions
      (λ (out : List ℕ). out)
      (λ _. Unit {0})
      (fields_of item.fields)
      (258, (7, tt))
unfolding AreCoded borsh_attributes
coded = (
  ((λ kept. (omega arith, tt, refl, refl)), λ skipped. cc),
  (((λ kept. cc), λ skipped. (0, refl)), tt),
)

bytes_example : fields_bytes functions (fields_of item.fields) (258, (7, tt)) ≡ 2 ∷ 1 ∷ []
unfolding fields_bytes encode to_le_bytes borsh_attributes
bytes_example = refl

restored_example : restored_fields functions (fields_of item.fields) (258, (7, tt)) ≡ (258, (0, tt))
unfolding restored_fields borsh_attributes
restored_example = refl

names_differ : (n : String) → Occurs n (field_b ∷ []) → same_name field_a.ident n ≡ false
names_differ n (inl h) =
    subst (λ (m : String). same_name field_a.ident m ≡ false) (some-injective "b" n h) refl
names_differ n (inr h) = absurd h

process_struct-round_trip_example :
    Runs vec_writer
      (vec_writer-IsSink [])
      functions
      (is_local writing_locals)
      (struct_env item.fields (258, (7, tt)))
      serialize_code.body
      (fields_bytes functions (fields_of item.fields) (258, (7, tt)))
    × ((m : M (List ℕ) (Values (fields_of item.fields))) × (then_call_init
            (λ p v. v)
            deserialize_code.init
            (run_construct slice_reader functions.deserialize_with functions.default_of item.fields
              deserialize_code.return_value)
          ≡ some m)
        × Reads m (fields_bytes functions (fields_of item.fields) (258, (7, tt))) (
            call_init
              (λ p v. v)
              (contains_initialize_with item.attrs)
              (restored_fields functions (fields_of item.fields) (258, (7, tt)))))
process_struct-round_trip_example =
    process_struct-round_trip vec_writer (vec_writer-IsSink []) functions item (258, (7, tt))
      serialize_code deserialize_code (λ p v. v) serialize_code-item deserialize_code-item
      (names_differ, ((λ n there. absurd there), tt)) coded

parse-IsConsistent_example :
    ((a : Attributes)
      → parse (skip_attribute ∷ skip_attribute ∷ []) ≡ accepted a
      → IsConsistent a × IsComplete a.schema)
    × (1 < length (borsh_attributes (skip_attribute ∷ skip_attribute ∷ []))
        → parse (skip_attribute ∷ skip_attribute ∷ [])
          ≡ rejected "multiple `borsh` attributes not allowed")
parse-IsConsistent_example = parse-IsConsistent (skip_attribute ∷ skip_attribute ∷ [])

-- `enum { first = 3 + 4, second }`
abbrev variants : List Variant
variants =
    (record {
      ident = "first";
      fields = unit;
      discriminant = some (number 3 ∷ plus ∷ number 4 ∷ []);
    })
    ∷ (record { ident = "second"; fields = unit; discriminant = none })
    ∷ []

values_example : values 8 (new variants) ≡ ("first", some 7) ∷ ("second", some 8) ∷ []
unfolding new value value_from discriminants_from
values_example = refl

new-assigned_example : values 8 (new variants) ≡ assigned 8 variants
new-assigned_example =
    new-assigned 8 variants ((λ e h. (3, 4 ∷ [], sym (some-injective _ _ h))), ((λ e h. cc), tt))

new-after_shift_example :
    (values 8 (new (shifted_then_next "first" "second" 1 3))
      ≡ ("first", some (1 * 2 ^ 3)) ∷ ("second", some (2 * (1 * 2 ^ 3))) ∷ [])
    × (assigned 8 (shifted_then_next "first" "second" 1 3)
        ≡ ("first", some (1 * 2 ^ 3)) ∷ ("second", some (1 * 2 ^ 3 + 1)) ∷ [])
    × (values 8 (new (shifted_then_next "first" "second" 1 3))
        ≢ assigned 8 (shifted_then_next "first" "second" 1 3))
new-after_shift_example =
    new-after_shift "first" "second" 1 3 (omega arith) (omega arith) (omega arith) (omega arith)
