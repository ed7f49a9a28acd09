-- ===== src/Bitmap/Search.antt =====
-- What the search for a clear bit finds.
use native.Mathlib.Decide.{dec_lt}
use native.Mathlib.Nat.{add-mul-mod_self_left, mod-eq_of_lt, mod-lt, div-add-mod}
use openamp_core.Prelude.{
  ℕ, zero, suc, ◌+◌, ◌-◌, ◌*◌, ◌/◌, ◌%◌, ◌<◌, ◌≤◌, ◌≡◌, refl, ◌∙◌, sym, ap, Bool, true, false, some,
  u32, Bool-cases, lt→ltb, inl, inr, arith,
}
use openamp_core.Bitmap.{Bitmap, is_bit_set, is_bit_clear, first_clear, next_clear_bit}

-- `bit` is where the search from `start` over `rounds` bits stops: all before it are set, and it is
-- clear unless it is the end.
pub record Found (bitmap : Bitmap) (max rounds start bit : ℕ) : Type 0 where
  lower : start ≤ bit
  upper : bit ≤ start + rounds
  passed : (j : ℕ) → start ≤ j → j < bit → is_bit_set bitmap (j % max) ≡ true
  clear : bit < start + rounds → is_bit_set bitmap (bit % max) ≡ false

pub first_clear-Found :
    (bitmap : Bitmap) (max rounds start : ℕ)
    → Found bitmap max rounds start (first_clear bitmap max rounds start)
unfolding first_clear is_bit_clear
first_clear-Found bitmap max zero start = record {
  lower = omega arith;
  upper = omega arith;
  passed = λ j l u. absurd (omega arith);
  clear = λ u. absurd (omega arith);
}
first_clear-Found bitmap max (suc rounds) start =
    elim (Bool-cases (is_bit_set bitmap (start % max))) [
      | inr free ↦ rw free (record {
        lower = omega arith;
        upper = omega arith;
        passed = λ j l u. absurd (omega arith);
        clear = λ u. free;
      })
      | inl used ↦ rw used (
          let rest = first_clear-Found bitmap max rounds (start + 1) in
          record {
            lower = omega (arith, rest.lower);
            upper = omega (arith, rest.upper);
            passed = λ j l u. elim (dec_lt start j) [
              | yes m ↦ rest.passed j (omega arith) u
              | no m ↦ ap (λ (t : ℕ). is_bit_set bitmap (t % max)) (same j l m) ∙ used
            ];
            clear = λ u. rest.clear (omega arith);
          })
    ]
  where
    same : (j : ℕ) → start ≤ j → ¬ (start < j) → j ≡ start
    same j l m = omega arith

-- Every bit below `max` stands at some place of the search.
place :
    (max start b : ℕ) → 0 < max → b < max → (j : ℕ) × start ≤ j × j < start + max × (j % max ≡ b)
place max start b p h = elim (dec_lt b (start % max)) [
  | yes l ↦ (
    b + max * (start / max + 1),
    omega (arith, whole, next),
    omega (arith, whole, next, mod-lt start p),
    add-mul-mod_self_left b max (start / max + 1) ∙ mod-eq_of_lt h,
  )
  | no l ↦ (
    b + max * (start / max),
    omega (arith, whole),
    omega (arith, whole),
    add-mul-mod_self_left b max (start / max) ∙ mod-eq_of_lt h,
  )
]
  where
    whole : max * (start / max) + start % max ≡ start
    whole = div-add-mod start max

    next : max * (start / max + 1) ≡ max * (start / max) + max
    next = omega arith

clash : {b : Bool} → b ≡ true → b ≡ false → ⊥
clash h k = ground arith

-- With a size that is not 0 the search returns.
pub next_clear_bit-returns :
    (bitmap : Bitmap) (start max : ℕ)
    → 0 < max
    → (n : ℕ) × (next_clear_bit bitmap start max ≡ some n)
unfolding next_clear_bit
next_clear_bit-returns bitmap start max p =
    (first_clear bitmap max ((max + start) % u32 - start) start % max, rw (lt→ltb 0 max p) refl)

module _ (bitmap : Bitmap) (start max : ℕ) (p : 0 < max) (room : max + start < u32) where
  searched : next_clear_bit bitmap start max ≡ some (first_clear bitmap max max start % max)
  unfolding next_clear_bit
  searched =
      rw (lt→ltb 0 max p, mod-eq_of_lt room)
        (ap (λ (t : ℕ). some (first_clear bitmap max t start % max)) rounds)
    where
      rounds : max + start - start ≡ max
      rounds = omega arith

  -- The search finds a clear bit if there is one.
  pub next_clear_bit-finds :
      (b : ℕ)
      → b < max
      → is_bit_set bitmap b ≡ false
      → (n : ℕ) × (next_clear_bit bitmap start max ≡ some n)
        × n < max
        × (is_bit_set bitmap n ≡ false)
  next_clear_bit-finds b h free =
      (first_clear bitmap max max start % max, searched, mod-lt _ p, clear)
    where
      found : Found bitmap max max start (first_clear bitmap max max start)
      found = first_clear-Found bitmap max max start

      clear : is_bit_set bitmap (first_clear bitmap max max start % max) ≡ false
      clear = elim (dec_lt (first_clear bitmap max max start) (start + max)) [
        | yes l ↦ found.clear l
        | no l ↦
            (let (j, low, high, at) = place max start b p h in
              absurd (
                clash
                  (sym (ap (is_bit_set bitmap) at)
                    ∙ found.passed j low (omega (arith, found.upper)))
                  free))
      ]

  -- If all bits are set, the search answers where it started.
  pub next_clear_bit-full :
      ((b : ℕ) → b < max → is_bit_set bitmap b ≡ true)
      → next_clear_bit bitmap start max ≡ some (start % max)
  next_clear_bit-full used = searched ∙ ap (λ (t : ℕ). some t) (ends (dec_lt last (start + max)))
    where
      last : ℕ
      last = first_clear bitmap max max start

      found : Found bitmap max max start last
      found = first_clear-Found bitmap max max start

      ends : Dec (last < start + max) → last % max ≡ start % max
      ends (yes l) = absurd (clash (used (last % max) (mod-lt last p)) (found.clear l))
      ends (no l) = ap (λ (t : ℕ). t % max) whole ∙ add-mul-mod_self_left start max 1
        where
          whole : last ≡ start + max * 1
          whole = omega (arith, found.upper)

  -- If the bit at the start is clear, it is the one that is found.
  pub next_clear_bit-here :
      is_bit_set bitmap (start % max) ≡ false → next_clear_bit bitmap start max ≡ some (start % max)
  next_clear_bit-here free = searched ∙ ap (λ (t : ℕ). some (t % max)) (stays (dec_lt start last))
    where
      last : ℕ
      last = first_clear bitmap max max start

      found : Found bitmap max max start last
      found = first_clear-Found bitmap max max start

      stays : Dec (start < last) → last ≡ start
      stays (yes l) = absurd (clash (found.passed start (omega arith) l) free)
      stays (no l) = omega (arith, found.lower)
