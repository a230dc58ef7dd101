-- ===== src/Derive/Item.antt =====
-- borsh-derive/src/internals/attributes/item/mod.rs and enum_discriminant.rs: the attributes of an
-- item, and the discriminants of the variants of an enum.
use borsh_rs.Base.{
  ℕ, ◌+◌, ◌*◌, ◌^◌, ◌%◌, String, Bool, true, false, Option, none, some, List, [], ◌∷◌, ◌++◌, ◌&&◌,
  ◌||◌, if◌then◌else◌, length, ltb,
}
use borsh_rs.Derive.{ExprPath, SynResult, accepted, rejected, ◌>>=◌, ItemFields}
use borsh_rs.Derive.Attributes.{is_some, is_none, each_meta}
use text.Mathlib.Text.{◌==◌ as str_eq}

-- The tokens of an explicit discriminant: numbers, and two operators of different precedence.
pub data Token : Type 0 where
  number : ℕ → Token
  plus shift_left : Token

abbrev pub Tokens : Type 0
Tokens = List Token

-- An entry of `borsh(...)` on an item; the value of `use_discriminant` is its text.
pub data ItemMeta : Type 0 where
  use_discriminant : String → ItemMeta
  init : ExprPath → ItemMeta
  crate : ExprPath → ItemMeta
  other : String → ItemMeta

-- `attr.path()` and its entries.
pub record ItemAttribute : Type 0 where
  pub path : String
  pub metas : List ItemMeta

pub record Variant : Type 0 where
  pub ident : String
  pub fields : ItemFields
  pub discriminant : Option Tokens

pub record ItemEnum : Type 0 where
  pub attrs : List ItemAttribute
  pub variants : List Variant

pub record ItemStruct : Type 0 where
  pub attrs : List ItemAttribute
  pub fields : ItemFields

-- `attrs.iter().find(|attr| attr.path() == BORSH)`, and the entries of what it finds.
unfoldable pub borsh_metas : List ItemAttribute → List ItemMeta
borsh_metas [] = []
borsh_metas (x ∷ xs) = if str_eq x.path "borsh" then x.metas else borsh_metas xs

-- What `contains_use_discriminant` does with an entry.
abbrev use_discriminant_meta : ItemMeta → Option Bool → SynResult (Option Bool)
use_discriminant_meta (use_discriminant value) found =
    if str_eq value "true"
    then accepted (some true)
    else if str_eq value "false"
    then accepted (some false)
    else rejected "`use_discriminant` accepts only `true` or `false`"
use_discriminant_meta (init p) found = accepted found
use_discriminant_meta (crate p) found = accepted found
use_discriminant_meta (other key) found = accepted found

abbrev any_discriminant : List Variant → Bool
any_discriminant [] = false
any_discriminant (v ∷ vs) = is_some v.discriminant || any_discriminant vs

abbrev unwrap_or_false : Option Bool → Bool
unwrap_or_false none = false
unwrap_or_false (some b) = b

unfoldable pub contains_use_discriminant : ItemEnum → SynResult Bool
unfolding borsh_metas
contains_use_discriminant input =
    if ltb 256 (length input.variants)
    then rejected "up to 256 enum variants are supported"
    else (each_meta use_discriminant_meta (borsh_metas input.attrs) none >>= λ found.
        if any_discriminant input.variants && is_none found
        then rejected
            "You have to specify `#[borsh(use_discriminant=true)]` or `#[borsh(use_discriminant=false)]` for all enums with explicit discriminant"
        else accepted (unwrap_or_false found))

abbrev initialize_meta : ItemMeta → Option ExprPath → Option ExprPath
initialize_meta (init p) found = some p
initialize_meta (use_discriminant value) found = found
initialize_meta (crate p) found = found
initialize_meta (other key) found = found

abbrev last_init : List ItemMeta → Option ExprPath → Option ExprPath
last_init [] found = found
last_init (m ∷ ms) found = last_init ms (initialize_meta m found)

unfoldable pub contains_initialize_with : List ItemAttribute → Option ExprPath
unfolding borsh_metas
contains_initialize_with attrs = last_init (borsh_metas attrs) none

-- `HashMap<Ident, TokenStream>`
abbrev pub Discriminants : Type 0
Discriminants = List (String × Tokens)

abbrev pub map_or_else : Option Tokens → Tokens → Tokens
map_or_else none next = next
map_or_else (some e) next = e

-- The loop of `Discriminants::new`; the map keeps the last value of a key.
unfoldable pub discriminants_from : Tokens → List Variant → Discriminants
discriminants_from next [] = []
discriminants_from next (v ∷ vs) =
    (v.ident, map_or_else v.discriminant next)
    ∷ discriminants_from (map_or_else v.discriminant next ++ (plus ∷ number 1 ∷ [])) vs

unfoldable pub new : List Variant → Discriminants
unfolding discriminants_from
new variants = discriminants_from (number 0 ∷ []) variants

-- `self.0.get(variant_ident)`: of two entries of a key the later one was inserted last.
unfoldable pub find : String → Discriminants → Option Tokens
find ident [] = none
find ident ((k, e) ∷ more) =
    let later = find ident more in
    if is_some later then later else if str_eq k ident then some e else none

abbrev unwrap : Option Tokens → SynResult Tokens
unwrap none = rejected "called `Option::unwrap()` on a `None` value"
unwrap (some e) = accepted e

unfoldable pub get : Discriminants → String → Bool → ℕ → SynResult Tokens
unfolding find
get discriminants ident by_discriminant idx =
    if ltb 255 idx
    then rejected "up to 256 enum variants are supported"
    else if by_discriminant
    then unwrap (find ident discriminants)
    else accepted (number idx ∷ [])

-- The meaning of the tokens to rustc, in an unsigned type of `bits` bits: `+` before `<<`, both from
-- the left; `none` is a program that does not compile.
abbrev pub checked : ℕ → ℕ → Option ℕ
checked bits n = if ltb n (2 ^ bits) then some n else none

abbrev pub shifted : ℕ → Option ℕ → ℕ → Option ℕ
shifted bits none s = some s
shifted bits (some a) s = if ltb s bits then some ((a * 2 ^ s) % 2 ^ bits) else none

unfoldable pub value_from : ℕ → Option ℕ → Option ℕ → Tokens → Option ℕ
value_from bits left none ts = none
value_from bits left (some s) [] = shifted bits left s
value_from bits left (some s) (plus ∷ number n ∷ ts) =
    value_from bits left (checked bits (s + n)) ts
value_from bits left (some s) (shift_left ∷ number n ∷ ts) = elim (shifted bits left s) [
  | none ↦ none
  | some a ↦ value_from bits (some a) (checked bits n) ts
]
value_from bits left (some s) ts = none

unfoldable pub value : ℕ → Tokens → Option ℕ
unfolding value_from
value bits (number n ∷ ts) = value_from bits none (checked bits n) ts
value bits ts = none
