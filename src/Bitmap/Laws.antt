-- ===== src/Bitmap/Laws.antt =====
-- Reading a bit of a bitmap after writing one.
use openamp_core.Prelude.{
  ℕ, ◌/◌, ◌-◌, ◌≡◌, Bool, true, false, bit_and, bit_and-mask, if◌then◌else◌, ◌==◌, update, arith,
}
use openamp_core.Bitmap.{Bitmap, set_bit, clear_bit, is_bit_set}

read_written :
    (bitmap : Bitmap) (v : Bool) (a b : ℕ)
    → update bitmap
        (a / 64)
        (update (bitmap (a / 64)) (bit_and a (64 - 1)) v)
        (b / 64)
        (bit_and b (64 - 1))
      ≡ (if a == b then v else bitmap (b / 64) (bit_and b (64 - 1)))
read_written bitmap v a b = rw (bit_and-mask 6 a, bit_and-mask 6 b) (ground arith)

pub is_bit_set-set_bit :
    (bitmap : Bitmap) (a b : ℕ)
    → is_bit_set (set_bit bitmap a) b ≡ (if a == b then true else is_bit_set bitmap b)
unfolding set_bit is_bit_set
is_bit_set-set_bit bitmap a b = read_written bitmap true a b

pub is_bit_set-clear_bit :
    (bitmap : Bitmap) (a b : ℕ)
    → is_bit_set (clear_bit bitmap a) b ≡ (if a == b then false else is_bit_set bitmap b)
unfolding clear_bit is_bit_set
is_bit_set-clear_bit bitmap a b = read_written bitmap false a b
