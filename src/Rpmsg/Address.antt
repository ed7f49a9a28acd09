-- ===== src/Rpmsg/Address.antt =====
-- The addresses of endpoints: `rpmsg_get_address`, `rpmsg_release_address`, `rpmsg_is_address_set`
-- and `rpmsg_set_address` of rpmsg/rpmsg.c, with the constants of include/openamp/rpmsg.h.
pub mod Laws
use openamp_core.Prelude.{
  ℕ, ◌+◌, ◌-◌, ◌%◌, Bool, true, false, ◌&&◌, Option, none, some, ℤ, pos, negsuc, ltb, leb,
  if◌then◌else◌, ◌>>=◌, ◌>>◌, require, u32,
}
use openamp_core.Bitmap.{Bitmap, set_bit, is_bit_set, clear_bit, next_clear_bit}

abbrev pub rpmsg_success : ℤ
rpmsg_success = pos 0

abbrev pub rpmsg_err_param : ℤ
rpmsg_err_param = negsuc 2002

abbrev pub rpmsg_err_addr : ℤ
rpmsg_err_addr = negsuc 2006

abbrev pub rpmsg_addr_any : ℕ
rpmsg_addr_any = 4294967295

abbrev pub rpmsg_reserved_addresses : ℕ
rpmsg_reserved_addresses = 1024

abbrev pub rpmsg_addr_bmp_size : ℕ
rpmsg_addr_bmp_size = 128

-- `rpmsg_get_address`: the address, with the bitmap after it.
pub get_address : Bitmap → (start size : ℕ) → Option (ℕ × Bitmap)
get_address bitmap start size = do
  nextbit ← next_clear_bit bitmap start size
  some (
      if ltb nextbit size
      then ((rpmsg_reserved_addresses + nextbit) % u32, set_bit bitmap nextbit)
      else (rpmsg_addr_any, bitmap))

-- `addr -= RPMSG_RESERVED_ADDRESSES` and the test that follows it, for an address that is handed
-- over as an `int`: the bit, if there is one. A number of the upper half is negative, and the
-- subtraction overflows next to the least one.
pub bit_of : (size addr : ℕ) → Option (Option ℕ)
bit_of size addr =
    if ltb addr 2147483648
    then some (
        if leb rpmsg_reserved_addresses addr && ltb (addr - rpmsg_reserved_addresses) size
        then some (addr - rpmsg_reserved_addresses)
        else none)
    else require (leb (2147483648 + rpmsg_reserved_addresses) addr) >> some none

-- `rpmsg_release_address`
pub release_address : Bitmap → (size addr : ℕ) → Option Bitmap
unfolding bit_of
release_address bitmap size addr = do
  found ← bit_of size addr
  some (elim found [ none ↦ bitmap | some bit ↦ clear_bit bitmap bit ])

-- `rpmsg_is_address_set`
pub is_address_set : Bitmap → (size addr : ℕ) → Option ℤ
unfolding bit_of
is_address_set bitmap size addr = do
  found ← bit_of size addr
  some (elim found [
    | none ↦ rpmsg_err_param
    | some bit ↦ if is_bit_set bitmap bit then pos 1 else pos 0
  ])

-- `rpmsg_set_address`: the status, with the bitmap after it.
pub set_address : Bitmap → (size addr : ℕ) → Option (ℤ × Bitmap)
unfolding bit_of
set_address bitmap size addr = do
  found ← bit_of size addr
  some (elim found [
    | none ↦ (rpmsg_err_param, bitmap)
    | some bit ↦ (rpmsg_success, set_bit bitmap bit)
  ])
