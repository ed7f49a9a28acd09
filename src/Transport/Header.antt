-- ===== src/Transport/Header.antt =====
-- The header of a message (rpmsg/rpmsg_internal.h), and the count of the holders of a buffer and its
-- index that rpmsg_virtio.c keeps in the two halves of the field `reserved`.
pub mod Counter
use openamp_core.Prelude.{ℕ, ◌+◌, ◌-◌, ◌/◌, ◌%◌, Bool, true, false, ◌==◌, if◌then◌else◌, u16, u32}

-- `struct rpmsg_hdr`
pub record Hdr : Type 0 where
  pub src : ℕ
  pub dst : ℕ
  pub reserved : ℕ
  pub len : ℕ
  pub flags : ℕ

-- RPMSG_BUF_HELD_COUNTER: the upper half of the 32-bit field.
pub held_counter : ℕ → ℕ
held_counter reserved = reserved / u16

-- RPMSG_BUF_HELD_INC
pub held_inc : ℕ → ℕ
held_inc reserved = (reserved + u16) % u32

-- RPMSG_BUF_HELD_DEC
pub held_dec : ℕ → ℕ
held_dec reserved = (reserved + u32 - u16) % u32

-- RPMSG_BUF_INDEX: the lower half.
unfoldable pub buf_index : ℕ → ℕ
buf_index reserved = reserved % u16

-- `rpmsg_virtio_buf_held_dec_test`: whether the buffer needs to be released, with the field after it.
pub held_dec_test : ℕ → Bool × ℕ
unfolding held_counter held_dec
held_dec_test reserved =
    if held_counter reserved == 0
    then (false, reserved)
    else (held_counter (held_dec reserved) == 0, held_dec reserved)
