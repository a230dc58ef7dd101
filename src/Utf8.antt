-- ===== src/Utf8.antt =====
-- `String::from_utf8`, as borsh/src/de/mod.rs uses it: which bytes are UTF-8 text.
use borsh_rs.Base.{ℕ, zero, suc, Bool, true, false, List, [], ◌∷◌, leb, if◌then◌else◌, ◌&&◌}

in_range : ℕ → ℕ → ℕ → Bool
in_range lo hi b = leb lo b && leb b hi

-- What has to follow: at the start of a character; `more n`, that many continuation bytes; or
-- `next lo hi n`, one byte of a range, and then `n` continuation bytes.
pub data Expect : Type 0 where
  start : Expect
  more : ℕ → Expect
  next : ℕ → ℕ → ℕ → Expect

-- The byte that begins a character, and what must follow it; overlong forms, surrogates and
-- values above 0x10ffff are refused by the range of the second byte.
pub data Lead : Type 0 where
  bad : Lead
  lead : Expect → Lead

lead_of : ℕ → Lead
unfolding in_range
lead_of b =
    if leb b 0x7f
    then lead start
    else if in_range 0xc2 0xdf b
    then lead (more 1)
    else if leb b 0xdf
    then bad
    else if leb b 0xe0
    then lead (next 0xa0 0xbf 1)
    else if leb b 0xec
    then lead (more 2)
    else if leb b 0xed
    then lead (next 0x80 0x9f 1)
    else if leb b 0xef
    then lead (more 2)
    else if leb b 0xf0
    then lead (next 0x90 0xbf 2)
    else if leb b 0xf3
    then lead (more 3)
    else if leb b 0xf4
    then lead (next 0x80 0x8f 2)
    else bad

follows : Expect → ℕ → Lead
unfolding lead_of
follows start b = lead_of b
follows (more zero) b = lead_of b
follows (more (suc zero)) b = if in_range 0x80 0xbf b then lead start else bad
follows (more (suc (suc n))) b = if in_range 0x80 0xbf b then lead (more (suc n)) else bad
follows (next lo hi n) b = if in_range lo hi b then lead (more n) else bad

is_start : Expect → Bool
is_start start = true
is_start _ = false

scan : Lead → List ℕ → Bool
unfolding follows is_start
scan bad bs = false
scan (lead e) [] = is_start e
scan (lead e) (b ∷ bs) = scan (follows e b) bs

unfoldable pub is_utf8 : List ℕ → Bool
unfolding scan
is_utf8 bs = scan (lead start) bs
