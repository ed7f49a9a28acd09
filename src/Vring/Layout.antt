-- ===== src/Vring/Layout.antt =====
-- Where the parts of a ring lie.
use native.Mathlib.Nat.{add-mul-mod_self_left, div-add-mod, mod-eq_of_lt, mod-lt}
use openamp_core.Prelude.{
  ℕ, ◌+◌, ◌-◌, ◌*◌, ◌/◌, ◌%◌, ◌^◌, ◌<◌, ◌≤◌, ◌≡◌, refl, ◌∙◌, ap, arith, bit_and-mask, pow-pos,
}
use openamp_core.Vring.{
  align_down, as_int, vring_size, vring_init, Placed, sizeof_desc, sizeof_header, sizeof_u16,
  sizeof_used_elem,
}

-- The address behind the last byte of the used ring, its event slot included.
abbrev pub used_end : ℕ → Placed → ℕ
used_end num at = at.used + sizeof_header + num * sizeof_used_elem + sizeof_u16

-- The bytes of the descriptors and of the available ring, its event slot included.
abbrev pub driver_bytes : ℕ → ℕ
driver_bytes num = num * sizeof_desc + sizeof_header + num * sizeof_u16 + sizeof_u16

-- What is aligned down to find the used ring, from the start of the ring.
abbrev reach : ℕ → ℕ → ℕ
reach k num = driver_bytes num + 2 ^ k - 1

as_int_lem : (n : ℕ) → n < 2 ^ 31 → as_int n ≡ n
as_int_lem n small = ground (arith, small)

module _ (k : ℕ) where
  align_down_pow : (s : ℕ) → align_down s (2 ^ k) ≡ s - s % 2 ^ k
  align_down_pow s = ap (λ (t : ℕ). s - t) (bit_and-mask k s)

  mod_shift : (p s : ℕ) → p % 2 ^ k ≡ 0 → (p + s) % 2 ^ k ≡ s % 2 ^ k
  mod_shift p s h = ap (λ (t : ℕ). t % 2 ^ k) regroup ∙ add-mul-mod_self_left s (2 ^ k) (p / 2 ^ k)
    where
      regroup : p + s ≡ s + 2 ^ k * (p / 2 ^ k)
      regroup = omega (arith, div-add-mod p (2 ^ k))

  aligned_mod : (s : ℕ) → (s - s % 2 ^ k) % 2 ^ k ≡ 0
  aligned_mod s =
      ap (λ (t : ℕ). t % 2 ^ k) regroup
      ∙ add-mul-mod_self_left 0 (2 ^ k) (s / 2 ^ k)
      ∙ mod-eq_of_lt (pow-pos k)
    where
      regroup : s - s % 2 ^ k ≡ 0 + 2 ^ k * (s / 2 ^ k)
      regroup = omega (arith, div-add-mod s (2 ^ k))

  module _ (num p : ℕ) (aligned : p % 2 ^ k ≡ 0) (fits : p + num * 26 + 2 ^ k + 16 < 2 ^ 64)
      (small : num * 26 + 2 ^ k + 16 < 2 ^ 31) where
    used_lem : (vring_init num p (2 ^ k)).used ≡ p + ((reach k num) - (reach k num) % 2 ^ k)
    unfolding vring_init
    used_lem =
        ap (λ (t : ℕ). align_down t (2 ^ k)) no_wrap
        ∙ align_down_pow (p + (reach k num))
        ∙ omega
            (arith, mod_shift p (reach k num) aligned, mod-lt (reach k num) (pow-pos k), pow-pos k)
      where
        no_wrap :
            (p + num * sizeof_desc + sizeof_header + num * sizeof_u16 + sizeof_u16 + 2 ^ k - 1)
              % 2 ^ 64
            ≡ p + (reach k num)
        no_wrap = omega (arith, pow-pos k)

    size_lem :
        vring_size num (2 ^ k)
        ≡ (reach k num)
          - (reach k num) % 2 ^ k
          + (sizeof_header + num * sizeof_used_elem + sizeof_u16)
    unfolding vring_size
    size_lem =
        rw
          (
            as_int_lem (num * sizeof_desc) (omega (arith, small)),
            as_int_lem (num * sizeof_desc + (sizeof_header + num * sizeof_u16 + sizeof_u16))
                (omega (arith, small)),
            no_wrap,
            align_down_pow (reach k num),
            as_int_lem (reach k num - reach k num % 2 ^ k) (omega (arith, small, pow-pos k)),
            as_int_lem
                (reach k num
                  - reach k num % 2 ^ k
                  + (sizeof_header + num * sizeof_used_elem + sizeof_u16))
                (omega (arith, small, pow-pos k)),
          )
          refl
      where
        no_wrap :
            (num * sizeof_desc + (sizeof_header + num * sizeof_u16 + sizeof_u16) + 2 ^ k - 1)
              % 2 ^ 64
            ≡ (reach k num)
        no_wrap = omega (arith, pow-pos k, small)

-- For a power of two as the alignment, an aligned address `p`, a ring that ends below 2^64, and a size
-- with an alignment that an `int` holds, as `num * 26 + 2^k + 16 < 2^31` makes sure, the
-- parts that `vring_init` places lie one behind the other without overlap, the used ring is
-- aligned, and the last byte of the ring is the one that `vring_size` counts up to from `p`.
pub vring_init-vring_size :
    (k num p : ℕ)
    → p % 2 ^ k ≡ 0
    → p + num * 26 + 2 ^ k + 16 < 2 ^ 64
    → num * 26 + 2 ^ k + 16 < 2 ^ 31
    → let at = vring_init num p (2 ^ k) in
      (at.desc ≡ p)
      × (at.avail ≡ p + num * sizeof_desc)
      × (p + driver_bytes num ≤ at.used)
      × (at.used % 2 ^ k ≡ 0)
      × (used_end num at ≡ p + vring_size num (2 ^ k))
unfolding vring_init
vring_init-vring_size k num p aligned fits small = (
  refl,
  refl,
  omega (arith, used, mod-lt (reach k num) (pow-pos k), pow-pos k),
  ap (λ (t : ℕ). t % 2 ^ k) used ∙ mod_shift k p _ aligned ∙ aligned_mod k _,
  omega (arith, used, size_lem k num p aligned fits small),
)
  where
    used : (vring_init num p (2 ^ k)).used ≡ p + (reach k num - reach k num % 2 ^ k)
    used = used_lem k num p aligned fits small
