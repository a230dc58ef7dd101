-- ===== src/Derive/Spec.antt =====
-- The bytes of a struct or a variant, as the attributes of its fields say, and what is read back:
-- the meaning of the macros of borsh-derive/src/lib.rs, told apart from the code that they make.
use borsh_rs.Base.{ℕ, ◌≡◌, true, false, Option, none, some, List, [], ◌∷◌, ◌++◌, if◌then◌else◌}
use borsh_rs.Io.{M}
use borsh_rs.Io.Slice.{slice_reader}
use borsh_rs.Ser.Laws.{Writes}
use borsh_rs.De.Laws.{Reads}
use borsh_rs.Types.{Ty, ⟦◌⟧}
use borsh_rs.Types.Spec.{Valid, encode}
use borsh_rs.Types.Results.{deserialize}
use borsh_rs.Derive.{ExprPath, SynResult, accepted, rejected, Field}
use borsh_rs.Derive.Attributes.{Attributes, parse}
use borsh_rs.Derive.Run.{Dyn, Values, is_hidden, is_local, writing_locals, reading_locals}

-- The functions that attributes name, and the bytes that stand for a value in such a field.
pub record Custom (W : Type 0) : Type 0 where
  pub serialize_with : ExprPath → Dyn → M W (Unit {0})
  pub deserialize_with : ExprPath → (t : Ty) → M (List ℕ) ⟦ t ⟧
  pub default_of : (t : Ty) → Option ⟦ t ⟧
  pub encode_with : ExprPath → Dyn → List ℕ

abbrev pub value_or : {A : Type 0} → A → Option A → A
value_or v none = v
value_or v (some d) = d

module _ {W : Type 0} (c : Custom W) where
  abbrev pub bytes_with : Option ExprPath → Dyn → List ℕ
  bytes_with none d = encode d.0 d.1
  bytes_with (some p) d = c.encode_with p d

  abbrev pub attributes_bytes : SynResult Attributes → Dyn → List ℕ
  attributes_bytes (accepted a) d = if a.skip then [] else bytes_with a.serialize_with d
  attributes_bytes (rejected text) d = []

  -- The fields that are not skipped, in order.
  unfoldable pub fields_bytes : (fs : List Field) → Values fs → List ℕ
  unfolding parse
  fields_bytes [] vs = []
  fields_bytes (f ∷ fs) vs = attributes_bytes (parse f.attrs) (f.ty, vs.0) ++ fields_bytes fs vs.1

  abbrev pub restored : SynResult Attributes → (t : Ty) → ⟦ t ⟧ → ⟦ t ⟧
  restored (accepted a) t v = if a.skip then value_or v (c.default_of t) else v
  restored (rejected text) t v = v

  -- A skipped field comes back as its default.
  unfoldable pub restored_fields : (fs : List Field) → Values fs → Values fs
  unfolding parse
  restored_fields [] vs = tt
  restored_fields (f ∷ fs) vs = (restored (parse f.attrs) f.ty vs.0, restored_fields fs vs.1)

  module _ (state : List ℕ → W) (Fits : List ℕ → Type 0) where
    -- A field's value can be written: by the library, or by the function that its attribute names.
    abbrev pub CanWrite : Option ExprPath → Dyn → Type 0
    CanWrite none d = Valid d.0 d.1
    CanWrite (some p) d = Writes state Fits (c.serialize_with p d) (c.encode_with p d)

    abbrev pub CanRead : Option ExprPath → Option ExprPath → Dyn → Type 0
    CanRead none none d = Unit {0}
    CanRead (some p) none d = Reads (deserialize slice_reader d.0) (c.encode_with p d) d.1
    CanRead p (some q) d = Reads (c.deserialize_with q d.0) (bytes_with p d) d.1

    abbrev pub IsCoded : SynResult Attributes → Dyn → Type 0
    IsCoded (accepted a) d =
        (a.skip ≡ false
          → CanWrite a.serialize_with d
            × CanRead a.serialize_with a.deserialize_with d
            × (is_hidden (is_local writing_locals) a.serialize_with ≡ false)
            × (is_hidden (is_local reading_locals) a.deserialize_with ≡ false))
        × (a.skip ≡ true → (v : ⟦ d.0 ⟧) × (c.default_of d.0 ≡ some v))
    IsCoded (rejected text) d = Unit {0}

    -- Every field that is not skipped can be written, and read back, and no function that it names
    -- has the name of a variable of the methods; the type of a skipped one has a `Default`.
    unfoldable pub AreCoded : (fs : List Field) → Values fs → Type 0
    unfolding parse
    AreCoded [] vs = Unit {0}
    AreCoded (f ∷ fs) vs = IsCoded (parse f.attrs) (f.ty, vs.0) × AreCoded fs vs.1
