-- ===== src/Prelude/Words.antt =====
-- Machine words: masks by a power of two, and single bits.
use Prim.Native.Nat.{
  ℕ, zero, suc, ◌+◌, ◌-◌, ◌*◌, ◌/◌, ◌%◌, ◌^◌, ◌<◌, ◌≤◌, min, bit_and, digits, bit_and-bitwise,
}
use mathlib.Core.Path.{◌≡◌, ◌∙◌, sym, ap}
use mathlib.Core.Bool.{Bool}
use native.Mathlib.Nat.{
  pow-le-pow_right, pow-suc, add-suc, add-zero, add-mul-mod_self_left, mod-eq_of_lt, mod-lt,
  div-add-mod,
}
use native.Mathlib.Omega.{arith}
use openamp_core.Prelude.Tests.{◌==◌}

abbrev pub u16 : ℕ
u16 = 65536

abbrev pub u32 : ℕ
u32 = 4294967296

-- Whether `word & mask` is not zero, for a mask with one bit set.
abbrev pub has_flag : ℕ → ℕ → Bool
has_flag mask word = (word / mask) % 2 == 1

pub pow-pos : (k : ℕ) → 0 < 2 ^ k
pow-pos zero = omega arith
pow-pos (suc k) = omega (arith, pow-suc 2 k, pow-pos k)

-- `bit_and`, as the library defines it, on a given fuel.
abbrev and_on : ℕ → ℕ → ℕ → ℕ
and_on fuel a b = digits (λ _. zero) min fuel a b

mod-double : (p a : ℕ) → 0 < p → a % (2 * p) ≡ (a / 2) % p * 2 + a % 2
mod-double p a h =
    ap (λ (t : ℕ). t % (2 * p)) split
    ∙ add-mul-mod_self_left (2 * (a / 2 % p) + a % 2) (2 * p) (a / 2 / p)
    ∙ mod-eq_of_lt (omega (arith, mod-lt (a / 2) h))
    ∙ omega arith
  where
    split : a ≡ 2 * (a / 2 % p) + a % 2 + 2 * p * (a / 2 / p)
    split = omega (arith, div-add-mod (a / 2) p)

and_on-mask : (fuel k a : ℕ) → a ≤ fuel → and_on fuel a (2 ^ k - 1) ≡ a % 2 ^ k
and_on-mask zero k zero h = omega (arith, pow-pos k)
and_on-mask zero k (suc a) h = absurd (omega arith)
and_on-mask (suc fuel) k zero h = omega (arith, pow-pos k)
and_on-mask (suc fuel) zero (suc a) h = omega (arith, and_on-mask fuel 0 (suc a / 2) (omega arith))
and_on-mask (suc fuel) (suc k) (suc a) h = omega (
  arith,
  pow-suc 2 k,
  pow-pos k,
  mod-double (2 ^ k) (suc a) (pow-pos k),
  ap (λ (t : ℕ). suc a % t) double,
  ap (λ (t : ℕ). and_on fuel (suc a / 2) t) halved,
  and_on-mask fuel k (suc a / 2) (omega arith),
)
  where
    double : 2 ^ suc k ≡ 2 * 2 ^ k
    double = omega (arith, pow-suc 2 k)

    halved : (2 ^ suc k - 1) / 2 ≡ 2 ^ k - 1
    halved = omega (arith, pow-suc 2 k, pow-pos k)

-- `x & (2^k - 1)` is the remainder by `2^k`.
pub bit_and-mask : (k a : ℕ) → bit_and a (2 ^ k - 1) ≡ a % 2 ^ k
bit_and-mask k a = bit_and-bitwise a (2 ^ k - 1) ∙ and_on-mask a k a (omega arith)

pow-add : (k j : ℕ) → 2 ^ (k + j) ≡ 2 ^ k * 2 ^ j
pow-add k zero = ap (λ (t : ℕ). 2 ^ t) (add-zero k) ∙ omega arith
pow-add k (suc j) =
    ap (λ (t : ℕ). 2 ^ t) (add-suc k j)
    ∙ omega (
      arith,
      pow-suc 2 (k + j),
      ap (λ (t : ℕ). 2 ^ k * t) (pow-suc 2 j),
      ap (λ (t : ℕ). t * 2) (pow-add k j),
    )

mod-mul-mod : (m c x : ℕ) → x % (m * c) % m ≡ x % m
mod-mul-mod m c x =
    sym (add-mul-mod_self_left (x % (m * c)) m (c * (x / (m * c))))
    ∙ ap (λ (t : ℕ). t % m) (omega (arith, div-add-mod x (m * c)))

-- A 16-bit counter wraps without disturbing its remainder by a ring size.
pub u16-mod-pow : (k x : ℕ) → k ≤ 16 → x % u16 % 2 ^ k ≡ x % 2 ^ k
u16-mod-pow k x h = ap (λ (t : ℕ). x % t % 2 ^ k) whole ∙ mod-mul-mod (2 ^ k) (2 ^ (16 - k)) x
  where
    sixteen : 16 ≡ k + (16 - k)
    sixteen = omega arith

    whole : u16 ≡ 2 ^ k * 2 ^ (16 - k)
    whole = ap (λ (t : ℕ). 2 ^ t) sixteen ∙ pow-add k (16 - k)

pub pow-le-u15 : (k : ℕ) → k ≤ 15 → 2 ^ k ≤ 32768
pow-le-u15 k h = pow-le-pow_right (omega arith) h

-- The slot of a ring for a free-running index.
pub slot-lt : (k n a : ℕ) → n ≡ 2 ^ k → (bit_and a (n - 1) ≡ a % n) × (bit_and a (n - 1) < n)
slot-lt k n a e =
    let masked : bit_and a (n - 1) ≡ a % n = rw e (bit_and-mask k a) in
    (masked, rw masked (mod-lt a (rw e (pow-pos k))))
