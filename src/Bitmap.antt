-- ===== src/Bitmap.antt =====
-- Bitmaps: `metal_bitmap_*` of openamp/libmetal/lib/include/metal/utilities.h. A word is the
-- function from the position of a bit to the bit; `METAL_BITS_PER_ULONG` is 64.
pub mod Laws
pub mod Search
use openamp_core.Prelude.{
  ℕ, zero, suc, ◌+◌, ◌-◌, ◌/◌, ◌%◌, Bool, true, false, not, Option, none, some, bit_and, ltb,
  if◌then◌else◌, ◌>>=◌, ◌>>◌, require, update, u32,
}

abbrev pub Bitmap : Type 0
Bitmap = ℕ → ℕ → Bool

-- `metal_bitmap_set_bit`
pub set_bit : Bitmap → ℕ → Bitmap
set_bit bitmap bit =
    update bitmap (bit / 64) (update (bitmap (bit / 64)) (bit_and bit (64 - 1)) true)

-- `metal_bitmap_is_bit_set`
unfoldable pub is_bit_set : Bitmap → ℕ → Bool
is_bit_set bitmap bit = bitmap (bit / 64) (bit_and bit (64 - 1))

-- `metal_bitmap_clear_bit`
pub clear_bit : Bitmap → ℕ → Bitmap
clear_bit bitmap bit =
    update bitmap (bit / 64) (update (bitmap (bit / 64)) (bit_and bit (64 - 1)) false)

-- `metal_bitmap_is_bit_clear`
pub is_bit_clear : Bitmap → ℕ → Bool
unfolding is_bit_set
is_bit_clear bitmap bit = not (is_bit_set bitmap bit)

-- The loop of `metal_bitmap_next_set_bit` at `bit`, with `rounds` bits before `max`.
pub first_set : Bitmap → (rounds bit : ℕ) → ℕ
first_set bitmap zero bit = bit
first_set bitmap (suc rounds) bit =
    let rest = first_set bitmap rounds (bit + 1) in if is_bit_set bitmap bit then bit else rest

-- `metal_bitmap_next_set_bit`
pub next_set_bit : Bitmap → (start max : ℕ) → ℕ
next_set_bit bitmap start max = first_set bitmap (max - start) start

-- The loop of `metal_bitmap_next_clear_bit` at `bit`, with `rounds` bits before its bound.
pub first_clear : Bitmap → (max rounds bit : ℕ) → ℕ
first_clear bitmap max zero bit = bit
first_clear bitmap max (suc rounds) bit =
    let rest = first_clear bitmap max rounds (bit + 1) in
    if is_bit_clear bitmap (bit % max) then bit else rest

-- `metal_bitmap_next_clear_bit`: the bound `max + start` is unsigned, and so may wrap.
pub next_clear_bit : Bitmap → (start max : ℕ) → Option ℕ
next_clear_bit bitmap start max = do
  require (ltb 0 max)
  some (first_clear bitmap max ((max + start) % u32 - start) start % max)
