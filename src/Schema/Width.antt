-- ===== src/Schema/Width.antt =====
-- `check_length_width` of borsh/src/schema/container_ext/validate.rs.
use borsh_rs.Base.{ℕ, zero, suc, ◌<◌, ◌^◌, ◌≡◌, ◌↔◌, ◌⊎◌, arith}
use borsh_rs.Schema.{Declaration, ok}
use borsh_rs.Schema.Validate.{check_length_width}

-- No length, a length of 1, 2 or 4 bytes that `max` fits into, or one of 8 bytes.
abbrev pub WidthFits : ℕ → ℕ → Type 0
WidthFits width max =
    (width ≡ 0)
    ⊎ ((width ≡ 1) × (max < 2 ^ 8))
    ⊎ ((width ≡ 2) × (max < 2 ^ 16))
    ⊎ ((width ≡ 4) × (max < 2 ^ 32))
    ⊎ (width ≡ 8)

-- A sequence's length width is accepted exactly if it is 0, or 1, 2 or 4 bytes that the greatest
-- length fits into, or 8 bytes.
pub check_length_width-eq-ok_iff :
    (d : Declaration) (width max : ℕ)
    → (check_length_width d width max ≡ ok tt) ↔ WidthFits width max
unfolding check_length_width
check_length_width-eq-ok_iff d zero max = ground arith
check_length_width-eq-ok_iff d (suc zero) max = ground arith
check_length_width-eq-ok_iff d (suc (suc zero)) max = ground arith
check_length_width-eq-ok_iff d (suc (suc (suc zero))) max = ground arith
check_length_width-eq-ok_iff d (suc (suc (suc (suc zero)))) max = ground arith
check_length_width-eq-ok_iff d (suc (suc (suc (suc (suc n))))) max = ground arith
