-- ===== src/Tests/DeriveEnums.antt =====
-- Derived enums: runs and theorems at concrete inputs.
use borsh_rs.Base.{ℕ, ◌≡◌, refl, subst, arith, [], ◌∷◌, some, none, List, true, false, inl, inr}
use borsh_rs.Io.{M, err}
use borsh_rs.Io.Slice.{slice_reader}
use borsh_rs.Io.Sink.{vec_writer, vec_writer-IsSink}
use borsh_rs.De.Laws.{Reads}
use borsh_rs.Types.{Ty, u8, u16}
use borsh_rs.Derive.{accepted, Field, unnamed, unit}
use borsh_rs.Derive.Attributes.{borsh_attributes}
use borsh_rs.Derive.Item.{
  ItemEnum, Variant, number, contains_use_discriminant, contains_initialize_with, find,
}
use borsh_rs.Derive.Run.{call_init}
use borsh_rs.Derive.RunEnum.{
  Choice, find_tag, tag_of, run_enum_back, deserialize_variant, unexpected_tag,
}
use borsh_rs.Derive.Spec.{fields_bytes, restored_fields, AreCoded}
use borsh_rs.Derive.Chosen.{IsIn, VariantsDiffer, TagsDiffer}
use borsh_rs.Derive.Enums.{EnumRuns, process_enum-round_trip}
use borsh_rs.Derive.Indices.{index_tags, process_enum-TagsDiffer, process_enum-unexpected_tag}
use text.Mathlib.Text.{◌==◌ as str_eq}
use borsh_rs.Derive.Serialize as S
use borsh_rs.Derive.Deserialize as D
use borsh_rs.Derive.{ExprPath}
use borsh_rs.Derive.Entry.{DeriveInput, borsh_serialize, borsh_deserialize}
use borsh_rs.Derive.Accepts.{IsChecked, borsh_serialize-IsChecked}
use borsh_rs.Base.{◌⊎◌}
use borsh_rs.Derive.Item.{use_discriminant}
use borsh_rs.Derive.Entry as E
use borsh_rs.Tests.Derive.{functions, skip_attribute}

-- `#[borsh(use_discriminant = false)] enum { Empty, Full(#[borsh(skip)] u8, u16) }`
abbrev empty_variant : Variant
empty_variant = record { ident = "Empty"; fields = unit; discriminant = none }

abbrev full_fields : List Field
full_fields =
    (record { ident = none; ty = Ty.unsigned u8; attrs = skip_attribute ∷ [] })
    ∷ (record { ident = none; ty = Ty.unsigned u16; attrs = [] })
    ∷ []

abbrev full_variant : Variant
full_variant = record { ident = "Full"; fields = unnamed full_fields; discriminant = none }

abbrev item : ItemEnum
item = record {
  attrs = (record { path = "borsh"; metas = use_discriminant "false" ∷ [] }) ∷ [];
  variants = empty_variant ∷ full_variant ∷ [];
}

abbrev serialize_code : S.SerializeImpl
serialize_code = record {
  tags = ("Empty", number 0 ∷ []) ∷ ("Full", number 1 ∷ []) ∷ [];
  arms =
      (record {
        variant = "Full";
        header = S.unnamed_header (S.skipped_id 0 ∷ S.id 1 ∷ []);
        body = (record { func = none; arg = S.variable (S.id 1) }) ∷ [];
      })
      ∷ [];
  has_unit_variant = true;
  overrides = [];
  visited = Ty.unsigned u16 ∷ [];
}

serialize_code-item : S.process_enum item ≡ accepted serialize_code
unfolding S.process_enum borsh_attributes find
serialize_code-item = refl

abbrev deserialize_code : D.EnumImpl
deserialize_code = record {
  arms =
      (record { tag = number 0 ∷ []; variant = "Empty"; construct = D.bare })
      ∷ (record {
        tag = number 1 ∷ [];
        variant = "Full";
        construct = D.parentheses (D.default none ∷ D.read none none ∷ []);
      })
      ∷ [];
  init = none;
  output = record {
    body = D.default none ∷ D.read none none ∷ [];
    overrides = [];
    deserialize_visited = Ty.unsigned u16 ∷ [];
    default_visited = Ty.unsigned u8 ∷ [];
  };
}

deserialize_code-item : D.process_enum item ≡ accepted deserialize_code
unfolding D.process_enum borsh_attributes find
deserialize_code-item = refl

abbrev choice : Choice
choice = (full_variant, (7, (258, tt)))

coded : AreCoded functions (λ (out : List ℕ). out) (λ _. Unit {0}) full_fields (7, (258, tt))
unfolding AreCoded borsh_attributes
coded = (
  ((λ kept. cc), λ skipped. (0, refl)),
  (((λ kept. (omega arith, tt, refl, refl)), λ skipped. cc), tt),
)

by_index : contains_use_discriminant item ≡ accepted false
unfolding contains_use_discriminant
by_index = refl

process_enum-TagsDiffer_example :
    (serialize_code.tags ≡ index_tags 0 item.variants) × TagsDiffer serialize_code.tags
process_enum-TagsDiffer_example =
    process_enum-TagsDiffer item serialize_code by_index serialize_code-item

tags_differ : TagsDiffer serialize_code.tags
tags_differ = (process_enum-TagsDiffer item serialize_code by_index serialize_code-item).1

names_differ : VariantsDiffer item.variants
names_differ = ((λ v there. differ v there), ((λ v there. absurd there), tt))
  where
    differ : (v : Variant) → IsIn v (full_variant ∷ []) → str_eq "Empty" v.ident ≡ false
    differ v (inl h) = subst (λ (x : Variant). str_eq "Empty" x.ident ≡ false) h refl
    differ v (inr h) = absurd h

process_enum-round_trip_example :
    (tag : ℕ) × (tag_of (find_tag "Full" serialize_code.tags) ≡ some tag)
    × EnumRuns vec_writer
        (vec_writer-IsSink [])
        functions
        serialize_code
        choice
        (tag ∷ fields_bytes functions full_fields (7, (258, tt)))
    × Reads
        (run_enum_back slice_reader functions.deserialize_with functions.default_of item.variants
          (λ p v. v)
          deserialize_code)
        (tag ∷ fields_bytes functions full_fields (7, (258, tt)))
        (call_init
          (λ p v. v)
          (contains_initialize_with item.attrs)
          (full_variant, restored_fields functions full_fields (7, (258, tt))))
process_enum-round_trip_example =
    process_enum-round_trip vec_writer (vec_writer-IsSink []) functions item serialize_code
      deserialize_code (λ p v. v) choice serialize_code-item deserialize_code-item names_differ
      tags_differ (inr (inl refl)) tt tt coded

process_enum-unexpected_tag_example :
    (m : M (List ℕ) Choice) × (deserialize_variant slice_reader functions.deserialize_with
        functions.default_of item.variants
        (λ p v. v)
        deserialize_code
        2
      ≡ some m)
    × ((r : List ℕ) → m r ≡ (err (unexpected_tag 2), r))
process_enum-unexpected_tag_example =
    process_enum-unexpected_tag slice_reader functions.deserialize_with functions.default_of item
      deserialize_code (λ p v. v) 2 by_index deserialize_code-item (omega arith)

borsh_serialize-IsChecked_example :
    ((r : ExprPath × (S.Output ⊎ S.SerializeImpl))
      → borsh_serialize "borsh" (DeriveInput.enum item) ≡ accepted r
      → IsChecked (DeriveInput.enum item))
    × ((r : ExprPath × (D.StructImpl ⊎ D.EnumImpl))
        → borsh_deserialize "borsh" (DeriveInput.enum item) ≡ accepted r
        → IsChecked (DeriveInput.enum item))
borsh_serialize-IsChecked_example = borsh_serialize-IsChecked "borsh" (DeriveInput.enum item)

borsh_serialize-item :
    borsh_serialize "borsh" (DeriveInput.enum item) ≡ accepted ("borsh", inr serialize_code)
unfolding borsh_serialize S.process_enum borsh_attributes E.borsh_attributes find
borsh_serialize-item = refl
