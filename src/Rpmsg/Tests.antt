-- ===== src/Rpmsg/Tests.antt =====
-- Runs of the model of rpmsg.c, and the theorems at concrete inputs.
use openamp_core.Prelude.{
  ℕ, ◌+◌, ◌<◌, ◌≡◌, ◌⊎◌, refl, true, false, none, some, [], ◌∷◌, ℤ, pos, is_success, count, ◌==◌,
  if◌then◌else◌, arith,
}
use openamp_core.Bitmap.{Bitmap, is_bit_set}
use openamp_core.Utilities.{Chars}
use openamp_core.Rpmsg.Address.{rpmsg_success, rpmsg_err_param, rpmsg_addr_any}
use openamp_core.Rpmsg.Endpoint.{Ptr, Endpoint, Device, create_ept, destroy_ept, get_endpoint}
use openamp_core.Rpmsg.Endpoint.{Data, call_send}
use openamp_core.Rpmsg.Send.{send, trysend, is_ept_ready}
use openamp_core.Rpmsg.Send.Ready.{send-ready}
use openamp_core.Rpmsg.Endpoint.Unregister.{IsValid}
use openamp_core.Rpmsg.Endpoint.Create.{create_ept-IsValid, create_ept-full}
use openamp_core.Rpmsg.Endpoint.Destroy.{destroy_ept-IsValid, get_endpoint_lem}

abbrev no_bits : Bitmap
no_bits word bit = false

abbrev all_bits : Bitmap
all_bits word bit = true

abbrev blank : Endpoint ℕ
blank = record {
  name = λ i. 0;
  rdev = false;
  addr = 0;
  dest_addr = 0;
  refcnt = 0;
  release_cb = none;
  cb = 0;
  ns_unbind_cb = 0;
  priv = 0;
}

-- A device without endpoints, whose transport counts the messages.
abbrev device : Device ℕ
device = record {
  world = 0;
  ept = λ p. blank;
  endpoints = [];
  bitmap = no_bits;
  bitnext = 0;
  locked = false;
  ops = record {
    send_offchannel_raw = some λ w src dst payload len wait. (pos 40, w + 1);
    hold_rx_buffer = none;
    release_rx_buffer = none;
    get_tx_payload_buffer = none;
    send_offchannel_nocopy = some λ w src dst payload len. (pos 40, w + 2);
    release_tx_buffer = none;
    get_rx_buffer_size = none;
    get_tx_buffer_size = none;
  };
  support_ns = true;
  stack = λ i. 255;
}

device-IsValid : IsValid device
device-IsValid = record {
  unlocked = refl;
  table = record {
    once = λ p. omega arith;
    valid = λ p h. absurd (omega arith);
    bound = λ p h. absurd (omega arith);
    low = λ p h. absurd (omega arith);
    taken = λ p b h. absurd (omega arith);
    distinct = λ p q h. absurd (omega arith);
  };
  next_in = omega arith;
}

-- One endpoint, at the pointer 16, and a bitmap that is full.
abbrev pub busy : Device ℕ
busy = record device {
  ept = λ p. record blank { rdev = true; addr = 1030; refcnt = 1 };
  endpoints = 16 ∷ [];
  bitmap = all_bits;
  bitnext = 6;
  support_ns = false;
}

member : (p : Ptr) → 0 < count p (16 ∷ []) → p ≡ 16
member p h = ground arith

pub busy-IsValid : IsValid busy
unfolding is_bit_set
busy-IsValid = record {
  unlocked = refl;
  table = record {
    once = λ p. ground arith;
    valid = λ p h. omega (arith, member p h);
    bound = λ p h. refl;
    low = λ p h. omega arith;
    taken = λ p b h a. refl;
    distinct = λ p q h k l a. omega (arith, member p h, member q k);
  };
  next_in = omega arith;
}

abbrev letter : Chars
letter i = if i == 0 then 65 else 0

create_ept-IsValid_example :
    (status : ℤ) × (d' : Device ℕ) × (n : ℕ) × (create_ept device 16
        (some letter)
        rpmsg_addr_any
        rpmsg_addr_any
        1
        0
      ≡ some (status, d'))
    × IsValid d'
    × n < 128
    × (is_bit_set no_bits n ≡ false)
    × (((is_success status ≡ true)
          × (d'.endpoints ≡ 16 ∷ [])
          × ((d'.ept 16).addr ≡ 1024 + n)
          × ((d'.ept 16).dest_addr ≡ rpmsg_addr_any))
        ⊎ ((is_success status ≡ false) × (d'.endpoints ≡ []) × (is_bit_set d'.bitmap n ≡ false)))
unfolding is_bit_set
create_ept-IsValid_example =
    create_ept-IsValid device 16 (some letter) rpmsg_addr_any 1 0 device-IsValid (omega arith)
      (omega arith) refl 3 (omega arith) refl

create_ept-full_example :
    (d' : Device ℕ) × (create_ept busy 32 none rpmsg_addr_any 7 1 0 ≡ some (rpmsg_success, d'))
    × (d'.endpoints ≡ 16 ∷ 32 ∷ [])
    × ((d'.ept 32).addr ≡ (busy.ept 16).addr)
    × (is_bit_set all_bits 6 ≡ true)
unfolding is_bit_set
create_ept-full_example =
    create_ept-full busy 32 none 7 1 0 busy-IsValid (omega arith) (omega arith) refl refl
      (λ b l. refl)

destroy_ept-IsValid_example :
    (d' : Device ℕ) × (destroy_ept busy 16 ≡ some d')
    × IsValid d'
    × (d'.endpoints ≡ [])
    × ((c : ℕ) → 1030 ≡ 1024 + c → is_bit_set d'.bitmap c ≡ false)
destroy_ept-IsValid_example = destroy_ept-IsValid busy 16 busy-IsValid (omega arith)

get_endpoint_lem_example : get_endpoint (λ a b. true) busy none 1030 rpmsg_addr_any ≡ some 16
get_endpoint_lem_example =
    get_endpoint_lem (λ a b. true) busy 16 busy-IsValid (omega arith) (omega arith)

send-ready_example :
    (send busy 16 (Data.at 4096) (pos 8) ≡ (
      if is_ept_ready busy 16
      then call_send busy busy.ops.send_offchannel_raw 1030 0 (Data.at 4096) (pos 8) true
      else (rpmsg_err_param, busy)))
    × (trysend busy 16 (Data.at 4096) (pos 8) ≡ (
        if is_ept_ready busy 16
        then call_send busy busy.ops.send_offchannel_raw 1030 0 (Data.at 4096) (pos 8) false
        else (rpmsg_err_param, busy)))
send-ready_example = send-ready busy 16 (Data.at 4096) (pos 8) refl refl
