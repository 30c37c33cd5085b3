-- ===== src/Util/Division.antt =====
-- The inline helpers of include/util/cg_util.h that divide by a constant: a multiplication by a
-- 32-bit reciprocal and a shift. A product is cut to 64 bits and a result to 32, as in C.
use compuguessr.Base.{ℕ, ◌-◌, ◌*◌, ◌/◌, ◌%◌, ◌^◌, ◌<◌, ◌≡◌, ◌≢◌, arith}
use compuguessr.Base.Words.{u32, u64, sub_u32, ◌>>>◌}

unfoldable pub div10_u32 : ℕ → ℕ
div10_u32 x = u32 (u64 (x * 0xCCCCCCCD) >>> 35)

unfoldable pub mod10_u32 : ℕ → ℕ
unfolding div10_u32
mod10_u32 x = sub_u32 x (u32 (div10_u32 x * 10))

unfoldable pub div60_u32 : ℕ → ℕ
div60_u32 x = u32 (u64 (x * 0x88888889) >>> 37)

unfoldable pub div3600_u32 : ℕ → ℕ
div3600_u32 x = u32 (u64 (x * 0x91A2B3C5) >>> 43)

unfoldable pub div24_u32 : ℕ → ℕ
div24_u32 x = u32 (u64 (x * 0xAAAAAAAA) >>> 33)

unfoldable pub div86400_u32 : ℕ → ℕ
unfolding div3600_u32
div86400_u32 x = let h = div3600_u32 x in u32 (u64 (h * 0xAAAAAAAB) >>> 36)

pub div10_u32_lem : (x : ℕ) → x < 2 ^ 32 → div10_u32 x ≡ x / 10
unfolding div10_u32
div10_u32_lem x h = omega arith

pub mod10_u32_lem : (x : ℕ) → x < 2 ^ 32 → mod10_u32 x ≡ x % 10
unfolding mod10_u32
mod10_u32_lem x h = omega arith

pub div60_u32_lem : (x : ℕ) → x < 2 ^ 32 → div60_u32 x ≡ x / 60
unfolding div60_u32
div60_u32_lem x h = omega arith

pub div3600_u32_lem : (x : ℕ) → x < 2 ^ 32 → div3600_u32 x ≡ x / 3600
unfolding div3600_u32
div3600_u32_lem x h = omega arith

pub div86400_u32_lem : (x : ℕ) → x < 2 ^ 32 → div86400_u32 x ≡ x / 86400
unfolding div86400_u32
div86400_u32_lem x h = omega arith

-- The five helpers that the program calls divide exactly, for every `uint32_t`.
pub reciprocals_exact :
    (x : ℕ)
    → x < 2 ^ 32
    → (div10_u32 x ≡ x / 10)
      × (mod10_u32 x ≡ x % 10)
      × (div60_u32 x ≡ x / 60)
      × (div3600_u32 x ≡ x / 3600)
      × (div86400_u32 x ≡ x / 86400)
reciprocals_exact x h = (
  div10_u32_lem x h,
  mod10_u32_lem x h,
  div60_u32_lem x h,
  div3600_u32_lem x h,
  div86400_u32_lem x h,
)

-- `cg_div24_u32` divides the predecessor of a `uint32_t` by 3: from 24 on, that is never the
-- quotient by 24.
pub div24_u32_wrong :
    (x : ℕ) → 23 < x → x < 2 ^ 32 → (div24_u32 x ≡ (x - 1) / 3) × (div24_u32 x ≢ x / 24)
unfolding div24_u32
div24_u32_wrong x big h = (omega arith, omega arith)
