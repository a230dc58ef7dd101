-- ===== src/Tests.antt =====
-- Runs of the model on concrete inputs, and the theorems at concrete inputs.
mod Maps
mod Schemas
mod Streams
mod SchemaTypes
mod Derive
mod DeriveEnums
use borsh_rs.Base.{
  ℕ, ◌+◌, ◌≡◌, ◌↔◌, ◌≤◌, refl, sym, replicate, arith, none, some, List, [], ◌∷◌, ◌++◌, length, take,
  drop, true, inl, inr,
}
use borsh_rs.Io.{ok, err, Write}
use borsh_rs.Io.Slice.{slice_reader}
use borsh_rs.Io.Sink.{vec_writer, vec_writer-IsSink, length_writer, mut_slice_writer, usize_max}
use borsh_rs.Num.{pos, negsuc, Bytes}
use borsh_rs.Utf8.{is_utf8}
use borsh_rs.Ser.Helpers.{to_vec, object_length, to_writer}
use borsh_rs.De.Consumes.{Consumed}
use borsh_rs.De.Entry.{from_slice, not_all_bytes_read}
use borsh_rs.Types.{
  Ty, ⟦◌⟧, u8, u32, i16, unsigned, signed, bool, string, option, vec, array, pair, result,
}
use borsh_rs.Types.{size_of}
use borsh_rs.Types.Dispatch.{serialize_of, serialize_signed}
use borsh_rs.Num.{to_le_bytes, to_pattern}
use borsh_rs.Io.Sink.{vec_write_all}
use borsh_rs.Ser.{serialize_int}
use borsh_rs.Ser.Sum.{serialize_pair, serialize_option}
use borsh_rs.Ser.Seq.{serialize_vec, serialize_string}
use borsh_rs.Types.Spec.{Valid, encode}
use borsh_rs.Types.Results.{
  serialize, deserialize, serialize-encode, to_vec-encode, object_length-to_vec,
  serialize-mut_slice, deserialize-encode, from_slice-to_vec, from_slice-trailing,
  deserialize_sound, from_slice-eq-ok_iff, to_vec-from_slice,
}

-- `(Vec<u8>, (Option<i16>, String))` at `([7, 255], (Some(-2), "hé"))`.
abbrev sample_ty : Ty
sample_ty = pair (vec (unsigned u8)) (pair (option (signed i16)) string)

abbrev sample : ⟦ sample_ty ⟧
sample = (7 ∷ 255 ∷ [], (some (negsuc 1), 0x68 ∷ 0xc3 ∷ 0xa9 ∷ []))

abbrev sample_bytes : List ℕ
sample_bytes = 2 ∷ 0 ∷ 0 ∷ 0 ∷ 7 ∷ 255 ∷ 1 ∷ 254 ∷ 255 ∷ 3 ∷ 0 ∷ 0 ∷ 0 ∷ 0x68 ∷ 0xc3 ∷ 0xa9 ∷ []

is_utf8_sample : is_utf8 (0x68 ∷ 0xc3 ∷ 0xa9 ∷ []) ≡ true
unfolding is_utf8
is_utf8_sample = refl

sample-Valid : Valid sample_ty sample
unfolding size_of
sample-Valid = (
  (omega arith, omega arith, omega arith),
  (omega arith, (omega arith, omega arith, is_utf8_sample)),
)

encode-sample : encode sample_ty sample ≡ sample_bytes
unfolding encode to_le_bytes to_pattern
encode-sample = refl

to_vec-sample : to_vec (serialize vec_writer sample_ty sample) ≡ ok sample_bytes
unfolding to_vec serialize serialize_of size_of to_le_bytes to_pattern vec_write_all serialize_pair
    serialize_vec serialize_option serialize_signed serialize_int serialize_string
to_vec-sample = refl

serialize-encode_example :
    serialize vec_writer sample_ty sample (9 ∷ []) ≡ (ok tt, 9 ∷ encode sample_ty sample)
serialize-encode_example =
    serialize-encode vec_writer (vec_writer-IsSink (9 ∷ [])) sample_ty sample [] sample-Valid tt

to_vec-encode_example :
    to_vec (serialize vec_writer sample_ty sample) ≡ ok (encode sample_ty sample)
to_vec-encode_example = to_vec-encode sample_ty sample sample-Valid

sample_fits : length (encode sample_ty sample) ≤ 20
sample_fits = rw encode-sample (omega arith)

object_length-to_vec_example :
    (bytes : List ℕ) × (to_vec (serialize vec_writer sample_ty sample) ≡ ok bytes)
    × (object_length (serialize length_writer sample_ty sample) ≡ ok (length bytes))
object_length-to_vec_example =
    object_length-to_vec sample_ty sample sample-Valid (omega (arith, sample_fits))

abbrev twenty : List ℕ
twenty = replicate 20 0

serialize-mut_slice_example :
    to_writer (serialize mut_slice_writer sample_ty sample) (record { written = []; free = twenty })
    ≡ (
      ok tt,
      record {
        written = encode sample_ty sample;
        free = drop (length (encode sample_ty sample)) twenty;
      },
    )
serialize-mut_slice_example =
    serialize-mut_slice sample_ty sample twenty sample-Valid (omega (arith, sample_fits))

deserialize-encode_example :
    deserialize slice_reader sample_ty (encode sample_ty sample ++ 1 ∷ 2 ∷ [])
    ≡ (ok sample, 1 ∷ 2 ∷ [])
deserialize-encode_example = deserialize-encode sample_ty sample (1 ∷ 2 ∷ []) sample-Valid

from_slice-to_vec_example :
    (bytes : List ℕ) × (to_vec (serialize vec_writer sample_ty sample) ≡ ok bytes)
    × (from_slice (deserialize slice_reader sample_ty) bytes ≡ ok sample)
from_slice-to_vec_example = from_slice-to_vec sample_ty sample sample-Valid

from_slice-trailing_example :
    from_slice (deserialize slice_reader sample_ty) (encode sample_ty sample ++ 0 ∷ [])
    ≡ err not_all_bytes_read
from_slice-trailing_example = from_slice-trailing sample_ty sample 0 [] sample-Valid

sample_bytes-Bytes : Bytes sample_bytes
sample_bytes-Bytes = omega arith

deserialize_sound_example :
    Consumed
      (λ used v. Valid sample_ty v × (used ≡ encode sample_ty v))
      sample_bytes
      (deserialize slice_reader sample_ty sample_bytes)
deserialize_sound_example = deserialize_sound sample_ty sample_bytes sample_bytes-Bytes

from_slice-eq-ok_iff_example :
    (from_slice (deserialize slice_reader sample_ty) sample_bytes ≡ ok sample)
    ↔ (Valid sample_ty sample × (sample_bytes ≡ encode sample_ty sample))
from_slice-eq-ok_iff_example = from_slice-eq-ok_iff sample_ty sample_bytes sample sample_bytes-Bytes

from_slice-sample : from_slice (deserialize slice_reader sample_ty) sample_bytes ≡ ok sample
from_slice-sample =
    (from_slice-eq-ok_iff sample_ty sample_bytes sample sample_bytes-Bytes).1
      (sample-Valid, sym encode-sample)

to_vec-from_slice_example : to_vec (serialize vec_writer sample_ty sample) ≡ ok sample_bytes
to_vec-from_slice_example =
    to_vec-from_slice sample_ty sample_bytes sample sample_bytes-Bytes from_slice-sample
