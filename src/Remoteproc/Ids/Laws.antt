-- ===== src/Remoteproc/Ids/Laws.antt =====
-- Which notification ids are handed out.
use native.Mathlib.Nat.{mod-eq_of_lt}
use native.Mathlib.Decide.{dec_lt}
use openamp_core.Prelude.{
  false, if◌then◌else◌, ltb, leb, ◌==◌, inl, inr, Bool-cases, ℕ, ◌+◌, ◌%◌, ◌<◌, ◌≤◌, ◌≡◌, refl, ap,
  ◌∙◌, true, some, ==_of_ne, lt→ltb, le→leb, arith,
}
use openamp_core.Bitmap.{Bitmap, set_bit, is_bit_set, next_clear_bit}
use openamp_core.Bitmap.Search.{
  next_clear_bit-finds, next_clear_bit-full, next_clear_bit-here, next_clear_bit-returns,
}
use openamp_core.Remoteproc.Ids.{id_any, id_between, allocate_id}

-- While an id is free, a call for any id hands out one that was free, and marks it.
pub allocate_id-free :
    (bitmap : Bitmap) (b : ℕ)
    → b < 64
    → is_bit_set bitmap b ≡ false
    → (n : ℕ) × (allocate_id bitmap id_any id_any ≡ some (n, set_bit bitmap n))
      × n < 64
      × (is_bit_set bitmap n ≡ false)
unfolding allocate_id
allocate_id-free bitmap b h free =
    let (n, runs, inside, clear) =
      next_clear_bit-finds bitmap 0 64 (omega arith) (omega arith) b h free in
    (n, rw (runs, ==_of_ne n 64 (omega (arith, inside))) refl, inside, clear)

-- The call for one id that is below 64, when the search finds `m`.
fixed :
    (bitmap : Bitmap) (n m : ℕ)
    → n < 64
    → m < n + 1
    → next_clear_bit bitmap n (n + 1) ≡ some m
    → allocate_id bitmap n (n + 1) ≡ some (m, set_bit bitmap m)
unfolding allocate_id
fixed bitmap n m h inside runs =
    rw
      (
        ==_of_ne n id_any (omega (arith, h)),
        ==_of_ne (n + 1) id_any (omega (arith, h)),
        lt→ltb n 64 h,
        le→leb (n + 1) 64 (omega (arith, h)),
        runs,
        ==_of_ne m (n + 1) (omega (arith, inside)),
      )
      refl

-- An id below 64 that is asked for and free is handed out and marked.
pub allocate_id-asked :
    (bitmap : Bitmap) (n : ℕ)
    → n < 64
    → is_bit_set bitmap n ≡ false
    → allocate_id bitmap n (n + 1) ≡ some (n, set_bit bitmap n)
allocate_id-asked bitmap n h free =
    let same : n % (n + 1) ≡ n = mod-eq_of_lt (omega arith) in
    fixed bitmap n n h (omega arith) (
      next_clear_bit-here bitmap n (n + 1) (omega arith) (omega (arith, h))
        (ap (is_bit_set bitmap) same ∙ free)
      ∙ ap (λ (t : ℕ). some t) same)

-- An id below 64 that is asked for when it and all below it are taken is handed out again.
pub allocate_id-taken :
    (bitmap : Bitmap) (n : ℕ)
    → n < 64
    → ((b : ℕ) → b ≤ n → is_bit_set bitmap b ≡ true)
    → allocate_id bitmap n (n + 1) ≡ some (n, set_bit bitmap n)
allocate_id-taken bitmap n h taken = fixed bitmap n n h (omega arith) (
    next_clear_bit-full bitmap n (n + 1) (omega arith) (omega (arith, h))
      (λ b l. taken b (omega (arith, l)))
    ∙ ap (λ (t : ℕ). some t) (mod-eq_of_lt (omega arith)))

-- The search for an id between two bounds, if there is one to make, is for at least one bit.
abbrev pub Searchable : (start end : ℕ) → Type 0
Searchable start end =
    (if start == id_any then 0 else start) < 64 → 0 < (if end == id_any then 64 else end)

-- Then the call for an id returns.
pub allocate_id-returns :
    (bitmap : Bitmap) (start end : ℕ)
    → Searchable start end
    → (n : ℕ) × (b : Bitmap) × (allocate_id bitmap start end ≡ some (n, b))
unfolding allocate_id
allocate_id-returns bitmap start end fine =
    bounded (if start == id_any then 0 else start) (if end == id_any then 64 else end) fine
  where
    bounded :
        (first last : ℕ)
        → (first < 64 → 0 < last)
        → (n : ℕ) × (b : Bitmap) × (id_between bitmap first last ≡ some (n, b))
    bounded first last fine' = elim (dec_lt first 64) [
      | no far ↦
          (id_any, bitmap, let out : ltb first 64 ≡ false = ground (arith, far) in rw out refl)
      | yes near ↦ elim (Bool-cases (leb last 64)) [
        | inr long ↦ (id_any, bitmap, rw (lt→ltb first 64 near, long) refl)
        | inl short ↦
            (let (n, runs) = next_clear_bit-returns bitmap first last (fine' near) in
              elim (Bool-cases (n == last)) [
                | inl at ↦ (id_any, bitmap, rw (lt→ltb first 64 near, short, runs, at) refl)
                | inr off ↦ (n, set_bit bitmap n, rw (lt→ltb first 64 near, short, runs, off) refl)
              ])
      ]
    ]
