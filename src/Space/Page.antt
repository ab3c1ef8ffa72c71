-- ===== src/Space/Page.antt =====
-- Rounding to pages, as internal/memory/memory.go does it with masks on uint64.
use gonidbg.Base.{ℕ, ◌+◌, ◌-◌, ◌*◌, ◌/◌, ◌%◌, ◌^◌, ◌≤◌, ◌<◌, ◌≡◌, ◌∙◌, arith, bit_and, not64, add64}
use gonidbg.Base.Bits.{bit_and-div, bit_and-mod, bit_and-zero, bit_and_mask}

abbrev pub page_size : ℕ
page_size = 0x1000

-- `x &^ (PageSize - 1)`
unfoldable pub page_down : ℕ → ℕ
page_down x = bit_and x (not64 (page_size - 1))

unfoldable pub page_up : ℕ → ℕ
page_up x = page_down (add64 x (page_size - 1))

-- The mask rounds down to a multiple of the page size.
pub page_down_lem : (x : ℕ) → x < 2 ^ 64 → page_down x ≡ x / 4096 * 4096
unfolding page_down
page_down_lem x h = omega (arith, high, low)
  where
    high : page_down x / 4096 ≡ x / 4096
    high = bit_and-div 12 x (not64 4095) ∙ bit_and_mask 52 (x / 4096) ∙ omega arith

    low : page_down x % 4096 ≡ 0
    low = bit_and-mod 12 x (not64 4095) ∙ bit_and-zero (x % 4096)

-- For a number at most 2^64 - 4096, `pageUp` gives the first multiple of 4096 that is not below
-- it.
pub page_up_lem : (x : ℕ) → x + 4096 ≤ 2 ^ 64 → page_up x ≡ (x + 4095) / 4096 * 4096
unfolding page_up
page_up_lem x h = page_down_lem _ (omega arith) ∙ omega arith
