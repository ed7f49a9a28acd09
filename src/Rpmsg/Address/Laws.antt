-- ===== src/Rpmsg/Address/Laws.antt =====
-- What the operations on addresses do to the set of addresses in use.
use openamp_core.Prelude.{
  ℕ, ◌+◌, ◌-◌, ◌%◌, ◌<◌, ◌≡◌, ◌∙◌, refl, ap, true, false, some, pos, ==_refl, ◌≢◌, u32, lt→ltb,
  arith,
}
use native.Mathlib.Decide.{dec_lt}
use native.Mathlib.Nat.{mod-eq_of_lt, mod-lt}
use openamp_core.Bitmap.{Bitmap, set_bit, is_bit_set, clear_bit, next_clear_bit}
use openamp_core.Bitmap.Laws.{is_bit_set-set_bit, is_bit_set-clear_bit}
use openamp_core.Bitmap.Search.{next_clear_bit-finds, next_clear_bit-full}
use openamp_core.Rpmsg.Address.{
  rpmsg_success, get_address, bit_of, release_address, is_address_set, set_address,
}

module _ (bitmap : Bitmap) (start size : ℕ) (p : 0 < size) (room : size + start + 1024 < u32) where
  answered :
      (n : ℕ)
      → n < size
      → next_clear_bit bitmap start size ≡ some n
      → get_address bitmap start size ≡ some (1024 + n, set_bit bitmap n)
  unfolding get_address
  answered n low found =
      rw (found, lt→ltb n size low)
        (ap (λ (t : ℕ). some (t, set_bit bitmap n)) (mod-eq_of_lt (omega arith)))

  -- If an address is free, `rpmsg_get_address` answers one that was free, and marks it and nothing
  -- else: the address is not RPMSG_ADDR_ANY.
  pub get_address-fresh :
      (b : ℕ)
      → b < size
      → is_bit_set bitmap b ≡ false
      → (n : ℕ) × (get_address bitmap start size ≡ some (1024 + n, set_bit bitmap n))
        × n < size
        × (is_bit_set bitmap n ≡ false)
  get_address-fresh b h free =
      let (n, found, low, clear) =
        next_clear_bit-finds bitmap start size p (omega arith) b h free in
      (n, answered n low found, low, clear)

  -- If all addresses are in use, `rpmsg_get_address` does not answer RPMSG_ADDR_ANY: it hands out
  -- the address at which its search started, which is in use.
  pub get_address-full :
      ((b : ℕ) → b < size → is_bit_set bitmap b ≡ true)
      → get_address bitmap start size ≡ some (1024 + start % size, set_bit bitmap (start % size))
  get_address-full used =
      answered (start % size) (mod-lt start p)
        (next_clear_bit-full bitmap start size p (omega arith) used)

-- The bit of an address that a bitmap of `size` bits covers.
bit_of-covered :
    (size b : ℕ) → b < size → size + 1024 < 2147483648 → bit_of size (1024 + b) ≡ some (some b)
unfolding bit_of
bit_of-covered size b h room = ground arith

-- An address that the bitmap covers is in use once `rpmsg_set_address` returns and free once
-- `rpmsg_release_address` does; neither changes another bit.
pub set-release :
    (bitmap : Bitmap) (size b : ℕ)
    → b < size
    → size + 1024 < 2147483648
    → (used freed : Bitmap) × (set_address bitmap size (1024 + b) ≡ some (rpmsg_success, used))
      × (is_address_set used size (1024 + b) ≡ some (pos 1))
      × (release_address used size (1024 + b) ≡ some freed)
      × (is_address_set freed size (1024 + b) ≡ some (pos 0))
      × ((c : ℕ) → c ≢ b → is_bit_set used c ≡ is_bit_set bitmap c)
      × ((c : ℕ) → c ≢ b → is_bit_set freed c ≡ is_bit_set bitmap c)
unfolding set_address is_address_set release_address
set-release bitmap size b h room =
    let used = set_bit bitmap b in
    let freed = clear_bit used b in
    (
      used,
      freed,
      rw (bit_of-covered size b h room) refl,
      rw (bit_of-covered size b h room, is_bit_set-set_bit bitmap b b, ==_refl b) refl,
      rw (bit_of-covered size b h room) refl,
      rw (bit_of-covered size b h room, is_bit_set-clear_bit used b b, ==_refl b) refl,
      λ c n. set_other c n,
      λ c n. is_bit_set-clear_bit used b c ∙ ground (arith, set_other c n),
    )
  where
    set_other : (c : ℕ) → c ≢ b → is_bit_set (set_bit bitmap b) c ≡ is_bit_set bitmap c
    set_other c n = is_bit_set-set_bit bitmap b c ∙ ground arith

-- `rpmsg_release_address` for a reserved address or one that a bitmap of 128 bits covers.
pub release_address-frees :
    (bitmap : Bitmap) (addr : ℕ)
    → addr < 1024 + 128
    → (after : Bitmap) × (release_address bitmap 128 addr ≡ some after)
      × ((c : ℕ) → addr ≢ 1024 + c → is_bit_set after c ≡ is_bit_set bitmap c)
      × ((c : ℕ) → addr ≡ 1024 + c → is_bit_set after c ≡ false)
unfolding release_address bit_of
release_address-frees bitmap addr h = elim (dec_lt addr 1024) [
  | yes l ↦ (bitmap, ground arith, λ c n. refl, λ c e. absurd (omega arith))
  | no l ↦ (
    clear_bit bitmap (addr - 1024),
    ground arith,
    λ c n. is_bit_set-clear_bit bitmap (addr - 1024) c ∙ ground arith,
    λ c e. is_bit_set-clear_bit bitmap (addr - 1024) c ∙ ground arith,
  )
]
