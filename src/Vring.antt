-- ===== src/Vring.antt =====
-- The virtio ring: openamp/open-amp/lib/include/openamp/virtio_ring.h.
pub mod Event
pub mod Layout
mod Tests
use openamp_core.Prelude.{
  ℕ, ◌+◌, ◌-◌, ◌*◌, ◌%◌, ◌^◌, Bool, bit_and, if◌then◌else◌, ltb, u16, update,
}

-- `struct vring_desc`
pub record Desc : Type 0 where
  pub addr : ℕ
  pub len : ℕ
  pub flags : ℕ
  pub next : ℕ

-- `struct vring_used_elem`; the `event` of its union is `Vring.avail_event`.
pub record UsedElem : Type 0 where
  pub id : ℕ
  pub len : ℕ

-- `struct vring` with the three tables that it points to. The tables are arrays of `num` entries;
-- the slot `num` behind each ring, which `vring_used_event` and `vring_avail_event` name, is a field.
pub record Vring : Type 0 where
  pub desc : ℕ → Desc
  pub avail_flags : ℕ
  pub avail_idx : ℕ
  pub avail_ring : ℕ → ℕ
  pub used_event : ℕ
  pub used_flags : ℕ
  pub used_idx : ℕ
  pub used_ring : ℕ → UsedElem
  pub avail_event : ℕ

-- VRING_DESC_F_NEXT, VRING_DESC_F_WRITE, VRING_DESC_F_INDIRECT
abbrev pub desc_f_next : ℕ
desc_f_next = 1

abbrev pub desc_f_write : ℕ
desc_f_write = 2

abbrev pub desc_f_indirect : ℕ
desc_f_indirect = 4

-- VQ_RING_DESC_CHAIN_END
abbrev pub desc_chain_end : ℕ
desc_chain_end = 32768

-- `size & ~(align - 1)`: the bits of `align - 1` are taken away.
abbrev pub align_down : ℕ → ℕ → ℕ
align_down size align = size - bit_and size (align - 1)

-- sizeof(struct vring_desc), of the two ring headers, and of the entries of the rings
abbrev pub sizeof_desc : ℕ
sizeof_desc = 16

abbrev pub sizeof_header : ℕ
sizeof_header = 4

abbrev pub sizeof_u16 : ℕ
sizeof_u16 = 2

abbrev pub sizeof_used_elem : ℕ
sizeof_used_elem = 8

-- An `int` that takes the lower 32 bits of a sum of `unsigned long`, as an `unsigned long` again: it is
-- extended by its sign.
abbrev pub as_int : ℕ → ℕ
as_int n = let bits = n % 2 ^ 32 in if ltb bits (2 ^ 31) then bits else bits + (2 ^ 64 - 2 ^ 32)

-- `vring_size`, as the `size_t` that its `int` becomes. Its sums are those of `unsigned long`, which
-- wraps, and each is kept in an `int`.
unfoldable pub vring_size : (num align : ℕ) → ℕ
vring_size num align =
    let descs = as_int (num * sizeof_desc) in
    let rings = as_int (descs + (sizeof_header + num * sizeof_u16 + sizeof_u16)) in
    let aligned = as_int (align_down ((rings + align - 1) % 2 ^ 64) align) in
    as_int (aligned + (sizeof_header + num * sizeof_used_elem + sizeof_u16))

-- The addresses that `vring_init` computes.
pub record Placed : Type 0 where
  pub desc : ℕ
  pub avail : ℕ
  pub used : ℕ

pub vring_init : (num p align : ℕ) → Placed
vring_init num p align = record {
  desc = p;
  avail = p + num * sizeof_desc;
  used =
      align_down
        ((p + num * sizeof_desc + sizeof_header + num * sizeof_u16 + sizeof_u16 + align - 1)
          % 2 ^ 64)
        align;
}

-- A difference of two `uint16_t`, cast back to `uint16_t`.
abbrev pub sub16 : ℕ → ℕ → ℕ
sub16 a b = (a + u16 - b) % u16

unfoldable pub vring_need_event : (event_idx new_idx old : ℕ) → Bool
vring_need_event event_idx new_idx old = ltb (sub16 (sub16 new_idx event_idx) 1) (sub16 new_idx old)
