-- ===== src/Types/Results.antt =====
-- The public functions on the types that implement both traits: `to_vec`, `object_length`
-- and `from_slice`.
use borsh_rs.Base.{
  ℕ, ◌≤◌, ◌≡◌, ◌↔◌, sym, ap, subst, ◌∙◌, arith, List, [], ◌∷◌, ◌++◌, length, append-nil, drop,
}
use borsh_rs.Io.{M, Write, Read, Result, ok, err, out_of_fuel}
use borsh_rs.Io.Slice.{slice_reader}
use borsh_rs.Io.Sink.{
  IsSink, vec_writer, vec_writer-IsSink, length_writer, length_writer-IsSink, usize_max,
}
use borsh_rs.Io.Sink.{mut_slice_writer, mut_slice_writer-IsSink}
use borsh_rs.Ser.Helpers.{to_vec, object_length, to_writer}
use borsh_rs.De.Entry.{from_slice, finish_slice, not_all_bytes_read}
use borsh_rs.Types.{Ty, ⟦◌⟧}
use borsh_rs.Types.Spec.{Valid, encode}
use borsh_rs.Types.Dispatch.{serialize_of, deserialize_of}
use borsh_rs.Types.Encode.{serialize_of-IsEncoder}
use borsh_rs.Types.Decode.{deserialize_of-IsDecoder}
use borsh_rs.Types.Canonical.{deserialize_of-IsExact}
use borsh_rs.De.Consumes.{Consumed}
use borsh_rs.Num.{Bytes}

-- `value.serialize(writer)` and `T::deserialize_reader(reader)`.
unfoldable pub serialize : {W : Type 0} → Write W → (t : Ty) → ⟦ t ⟧ → M W (Unit {0})
serialize w t v = (serialize_of w t).serialize v

unfoldable pub deserialize : {R : Type 0} → Read R → (t : Ty) → M R ⟦ t ⟧
deserialize rd t = (deserialize_of rd t).deserialize_reader

-- Whatever the writer, as long as it takes what it has room for, serializing a valid value adds
-- the bytes of its encoding to what was written, and nothing else.
pub serialize-encode :
    {W : Type 0} (w : Write W) {state : List ℕ → W} {Fits : List ℕ → Type 0}
    → IsSink w state Fits
    → (t : Ty) (v : ⟦ t ⟧) (out : List ℕ) → Valid t v
    → Fits (out ++ encode t v)
    → serialize w t v (state out) ≡ (ok tt, state (out ++ encode t v))
unfolding serialize
serialize-encode w k t v out h fits = ((serialize_of-IsEncoder w k t).item v h).from out fits

-- `to_vec` of a valid value succeeds, with the encoding of the value.
pub to_vec-encode :
    (t : Ty) (v : ⟦ t ⟧) → Valid t v → to_vec (serialize vec_writer t v) ≡ ok (encode t v)
unfolding to_vec
to_vec-encode t v h = rw (serialize-encode vec_writer (vec_writer-IsSink []) t v [] h tt)

-- `object_length` of a valid value whose encoding is no longer than `usize::MAX` is the length of
-- what `to_vec` returns.
pub object_length-to_vec :
    (t : Ty) (v : ⟦ t ⟧)
    → Valid t v
    → length (encode t v) ≤ usize_max
    → (bytes : List ℕ) × (to_vec (serialize vec_writer t v) ≡ ok bytes)
      × (object_length (serialize length_writer t v) ≡ ok (length bytes))
unfolding object_length
object_length-to_vec t v h fits = (
  encode t v,
  to_vec-encode t v h,
  rw (serialize-encode length_writer (length_writer-IsSink 0) t v [] h (omega arith))
      (ap (λ (n : ℕ). ok n) (omega arith)),
)

-- Serializing a valid value into a `&mut [u8]` with room for it fills the front of the buffer with
-- the encoding and leaves the rest of the buffer free.
pub serialize-mut_slice :
    (t : Ty) (v : ⟦ t ⟧) (free : List ℕ)
    → Valid t v
    → length (encode t v) ≤ length free
    → to_writer (serialize mut_slice_writer t v) (record { written = []; free = free })
      ≡ (ok tt, record { written = encode t v; free = drop (length (encode t v)) free })
unfolding to_writer
serialize-mut_slice t v free h fits =
    serialize-encode mut_slice_writer (mut_slice_writer-IsSink free) t v [] h fits

-- Deserializing a slice that begins with the encoding of a valid value returns the value, and
-- leaves exactly what follows.
pub deserialize-encode :
    (t : Ty) (v : ⟦ t ⟧) (rest : List ℕ)
    → Valid t v
    → deserialize slice_reader t (encode t v ++ rest) ≡ (ok v, rest)
unfolding deserialize
deserialize-encode t v rest h = ((deserialize_of-IsDecoder t).item v h).from rest

-- A valid value survives the round trip: `to_vec` succeeds, and `from_slice` of what it returns
-- is the value.
pub from_slice-to_vec :
    (t : Ty) (v : ⟦ t ⟧)
    → Valid t v
    → (bytes : List ℕ) × (to_vec (serialize vec_writer t v) ≡ ok bytes)
      × (from_slice (deserialize slice_reader t) bytes ≡ ok v)
unfolding from_slice
from_slice-to_vec t v h =
    (encode t v, to_vec-encode t v h, rw (rw append-nil at (deserialize-encode t v [] h)))

-- `from_slice` refuses the encoding of a valid value if even one more byte follows it.
pub from_slice-trailing :
    (t : Ty) (v : ⟦ t ⟧) (b : ℕ) (rest : List ℕ)
    → Valid t v
    → from_slice (deserialize slice_reader t) (encode t v ++ (b ∷ rest)) ≡ err not_all_bytes_read
unfolding from_slice
from_slice-trailing t v b rest h = rw (deserialize-encode t v (b ∷ rest) h)

-- On any bytes the slice deserializer returns a valid value, the bytes used being exactly its
-- encoding and the rest being left; or it returns an error. It never runs out of fuel.
pub deserialize_sound :
    (t : Ty) (bs : List ℕ)
    → Bytes bs
    → Consumed (λ used v. Valid t v × (used ≡ encode t v)) bs (deserialize slice_reader t bs)
unfolding deserialize
deserialize_sound t bs h = (deserialize_of-IsExact t).item.on bs h

finish_slice-ok :
    (t : Ty) (bs : List ℕ) (v : ⟦ t ⟧) (x : Result ⟦ t ⟧ × List ℕ)
    → Consumed (λ used v. Valid t v × (used ≡ encode t v)) bs x
    → finish_slice x ≡ ok v
    → Valid t v × (bs ≡ encode t v)
finish_slice-ok t bs v (ok a, []) (used, p, (q, e)) h =
    let same : a ≡ v = cc in (subst (Valid t) same q, p ∙ append-nil used ∙ e ∙ ap (encode t) same)
finish_slice-ok t bs v (ok a, b ∷ rest) c h = cc
finish_slice-ok t bs v (err e, rest) c h = cc
finish_slice-ok t bs v (out_of_fuel, rest) c h = absurd c

-- `from_slice` returns a value exactly if the value is valid and the slice is its encoding: no
-- value has two encodings, and nothing else is accepted.
pub from_slice-eq-ok_iff :
    (t : Ty) (bs : List ℕ) (v : ⟦ t ⟧)
    → Bytes bs
    → (from_slice (deserialize slice_reader t) bs ≡ ok v) ↔ (Valid t v × (bs ≡ encode t v))
unfolding from_slice
from_slice-eq-ok_iff t bs v h = (
  finish_slice-ok t bs v (deserialize slice_reader t bs) (deserialize_sound t bs h),
  λ q. rw q.1 (rw (rw append-nil at (deserialize-encode t v [] q.0))),
)

-- Whatever `from_slice` accepts, `to_vec` of the value writes the same bytes again.
pub to_vec-from_slice :
    (t : Ty) (bs : List ℕ) (v : ⟦ t ⟧)
    → Bytes bs
    → from_slice (deserialize slice_reader t) bs ≡ ok v
    → to_vec (serialize vec_writer t v) ≡ ok bs
to_vec-from_slice t bs v h e =
    let (valid, same) = (from_slice-eq-ok_iff t bs v h).0 e in
    to_vec-encode t v valid ∙ ap (λ (l : List ℕ). ok l) (sym same)
