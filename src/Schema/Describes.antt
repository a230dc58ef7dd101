-- ===== src/Schema/Describes.antt =====
-- The schema of a type of borsh/src/schema.rs and the bytes of its values.
use borsh_rs.Base.{
  ℕ, ◌≤◌, ◌≡◌, refl, ◌∙◌, arith, some, List, [], ◌∷◌, ◌++◌, length, replicate, All, append_assoc,
}
use borsh_rs.Num.{to_le_bytes, length-to_le_bytes}
use borsh_rs.Schema.{Declaration, Fields, primitive, sequence, tuple, struct, field_types, get}
use borsh_rs.Schema.Standard.{Definitions, default_sequence}
use borsh_rs.Schema.Conforms.{Conforms, bytes_of, items_of, members_of, fields_of, primitive_ty}
use borsh_rs.Schema.Types.{
  Primitive, nonzero_i8, nonzero_i16, nonzero_i32, nonzero_i64, nonzero_i128, unsigned_width,
  signed_width, primitive_size,
}
use borsh_rs.Types.{
  ⟦◌⟧, Unsigned, u8, u16, u32, u64, u128, usize, Signed, i8, i16, i32, i64, i128, isize,
  unsigned_size, signed_size,
}
use borsh_rs.Types.Spec.{encode, encode_each, encode_seq, FitsU32}

unsigned_width-eq-size : (k : Unsigned) → unsigned_size k ≡ unsigned_width k
unsigned_width-eq-size u8 = refl
unsigned_width-eq-size u16 = refl
unsigned_width-eq-size u32 = refl
unsigned_width-eq-size u64 = refl
unsigned_width-eq-size u128 = refl
unsigned_width-eq-size usize = refl

signed_width-eq-size : (k : Signed) → signed_size k ≡ signed_width k
signed_width-eq-size i8 = refl
signed_width-eq-size i16 = refl
signed_width-eq-size i32 = refl
signed_width-eq-size i64 = refl
signed_width-eq-size i128 = refl
signed_width-eq-size isize = refl

-- A primitive type takes the number of bytes that its schema says.
pub length-encode_primitive :
    (p : Primitive) (v : ⟦ primitive_ty p ⟧) → length (encode (primitive_ty p) v) ≡ primitive_size p
unfolding encode
length-encode_primitive Primitive.bool v = refl
length-encode_primitive Primitive.f32 v = length-to_le_bytes 4 v
length-encode_primitive Primitive.f64 v = length-to_le_bytes 8 v
length-encode_primitive Primitive.unit v = refl
length-encode_primitive (Primitive.unsigned k) v = length-to_le_bytes _ v ∙ unsigned_width-eq-size k
length-encode_primitive (Primitive.signed k) v = length-to_le_bytes _ _ ∙ signed_width-eq-size k
length-encode_primitive (Primitive.nonzero_unsigned k) v =
    length-to_le_bytes _ v ∙ unsigned_width-eq-size k
length-encode_primitive nonzero_i8 v = length-to_le_bytes 1 _
length-encode_primitive nonzero_i16 v = length-to_le_bytes 2 _
length-encode_primitive nonzero_i32 v = length-to_le_bytes 4 _
length-encode_primitive nonzero_i64 v = length-to_le_bytes 8 _
length-encode_primitive nonzero_i128 v = length-to_le_bytes 16 _

module _ (defs : Definitions) where
  -- The bytes can stand in front of any others that conform.
  abbrev pub Describes : List Declaration → List ℕ → Type 0
  Describes ds bytes =
      (more : List Declaration) (rest : List ℕ)
      → Conforms defs more rest
      → Conforms defs (ds ++ more) (bytes ++ rest)

  pub Describes-append :
      (ds es : List Declaration) (xs ys : List ℕ)
      → Describes ds xs
      → Describes es ys
      → Describes (ds ++ es) (xs ++ ys)
  Describes-append ds es xs ys h k more rest c =
      rw (append_assoc ds es more, append_assoc xs ys rest)
        (h (es ++ more) (ys ++ rest) (k more rest c))

  pub Describes-none : Describes [] []
  Describes-none more rest c = c

  pub Describes-primitive :
      (d : Declaration) (n : ℕ) (xs : List ℕ)
      → get d defs ≡ some (primitive n)
      → length xs ≡ n
      → Describes (d ∷ []) xs
  Describes-primitive d n xs h l more rest c = bytes_of n xs rest h l refl c

  pub Describes-each :
      {A : Type 0} (P : A → Type 0) (enc : A → List ℕ) (d : Declaration) (xs : List A)
      → ((a : A) → P a → Describes (d ∷ []) (enc a))
      → All P xs
      → Describes (replicate (length xs) d) (encode_each enc xs)
  Describes-each P enc d [] item h = Describes-none
  Describes-each P enc d (x ∷ xs) item h =
      Describes-append (d ∷ []) (replicate (length xs) d) (enc x) (encode_each enc xs) (item x h.0)
        (Describes-each P enc d xs item h.1)

  -- Items behind their number.
  pub Describes-items :
      (d elements : Declaration) (width start end n : ℕ) (xs : List ℕ)
      → get d defs ≡ some (sequence width start end elements)
      → start ≤ n
      → n ≤ end
      → Describes (replicate n elements) xs
      → Describes (d ∷ []) (to_le_bytes width n ++ xs)
  Describes-items d elements width start end n xs h lo hi k more rest c =
      items_of width start end elements n (xs ++ rest) h lo hi
        (append_assoc (to_le_bytes width n) xs rest) (k more rest c)

  pub Describes-seq :
      {A : Type 0} (P : A → Type 0) (enc : A → List ℕ) (d elements : Declaration) (xs : List A)
      → get d defs ≡ some (default_sequence elements)
      → ((a : A) → P a → Describes (elements ∷ []) (enc a))
      → FitsU32 xs
      → All P xs
      → Describes (d ∷ []) (encode_seq enc xs)
  Describes-seq P enc d elements xs h item fits valid =
      Describes-items d elements 4 0 _ (length xs) _ h (omega arith) (omega arith)
        (Describes-each P enc elements xs item valid)

  pub Describes-members :
      (d : Declaration) (es : List Declaration) (xs : List ℕ)
      → get d defs ≡ some (tuple es)
      → Describes es xs
      → Describes (d ∷ []) xs
  Describes-members d es xs h k more rest c = members_of es h (k more rest c)

  pub Describes-fields :
      (d : Declaration) (fs : Fields) (xs : List ℕ)
      → get d defs ≡ some (struct fs)
      → Describes (field_types fs) xs
      → Describes (d ∷ []) xs
  Describes-fields d fs xs h k more rest c = fields_of fs h (k more rest c)
