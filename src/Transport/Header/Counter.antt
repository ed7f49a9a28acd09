-- ===== src/Transport/Header/Counter.antt =====
-- The count of holders: a buffer is released by the last of them.
use openamp_core.Prelude.{
  ℕ, zero, suc, ◌+◌, ◌*◌, ◌<◌, ◌≡◌, ap, ◌∙◌, ◌==◌, if◌then◌else◌, u16, arith,
}
use openamp_core.Transport.Header.{held_counter, held_inc, held_dec, held_dec_test}

-- The field for `n` holders of the buffer with this index.
abbrev pub held_by : (n index : ℕ) → ℕ
held_by n index = n * u16 + index

-- `n` further holders of a buffer.
pub held_times : ℕ → ℕ → ℕ
held_times zero reserved = reserved
held_times (suc n) reserved = held_times n (held_inc reserved)

-- `n` holders give the buffer back: how many of them are told to release it, and the field.
pub given_back : ℕ → ℕ → ℕ × ℕ
given_back zero reserved = (0, reserved)
given_back (suc n) reserved =
    let (last, after) = held_dec_test reserved in
    let (released, rest) = given_back n after in ((if last then 1 else 0) + released, rest)

pub held_inc_lem :
    (n index : ℕ) → index < u16 → n + 1 < u16 → held_inc (held_by n index) ≡ held_by (n + 1) index
unfolding held_inc
held_inc_lem n index i h = omega arith

pub held_dec_test_lem :
    (n index : ℕ)
    → index < u16
    → suc n < u16
    → held_dec_test (held_by (suc n) index) ≡ (n == 0, held_by n index)
unfolding held_dec_test held_counter held_dec
held_dec_test_lem n index i h = ground arith

pub held_times_lem :
    (m n index : ℕ)
    → index < u16
    → n + m < u16
    → held_times m (held_by n index) ≡ held_by (n + m) index
unfolding held_times
held_times_lem zero n index i h = omega arith
held_times_lem (suc m) n index i h =
    ap (held_times m) (held_inc_lem n index i (omega arith))
    ∙ held_times_lem m (n + 1) index i (omega arith)
    ∙ ap (λ (t : ℕ). held_by t index) (omega arith)

given_back_lem :
    (m n index : ℕ)
    → index < u16
    → n + suc m < u16
    → given_back (suc m) (held_by (n + suc m) index) ≡ (if n == 0 then 1 else 0, held_by n index)
unfolding given_back
given_back_lem zero n index i h = rw (first_back) (ground arith)
  where
    first_back : held_dec_test (held_by (n + 1) index) ≡ (n == 0, held_by n index)
    first_back =
        ap (λ (t : ℕ). held_dec_test (held_by t index)) (omega arith)
        ∙ held_dec_test_lem n index i (omega arith)
given_back_lem (suc m) n index i h = rw first_back (ground (arith, given_back_lem m n index i))
  where
    first_back :
        held_dec_test (held_by (n + suc (suc m)) index)
        ≡ (n + suc m == 0, held_by (n + suc m) index)
    first_back =
        ap (λ (t : ℕ). held_dec_test (held_by t index)) (omega arith)
        ∙ held_dec_test_lem (n + suc m) index i (omega arith)

-- A buffer that is held `k` times, counted from no holder, and given back `m` times, at least once
-- and at most `k` times, keeps its index. Exactly one call is told to release it if all holders
-- gave it back, and none before. The count has 16 bits.
pub held-given_back :
    (index k m n : ℕ)
    → index < u16
    → k < u16
    → k ≡ n + suc m
    → given_back (suc m) (held_times k index) ≡ (if n == 0 then 1 else 0, held_by n index)
held-given_back index k m n i h e =
    ap (given_back (suc m)) (
      ap (held_times k) (omega arith)
      ∙ held_times_lem k 0 index i (omega arith)
      ∙ ap (λ (t : ℕ). held_by t index) (omega (arith, e)))
    ∙ given_back_lem m n index i (omega arith)

-- The 65536th holder brings the count to 0 again, and the index stays.
pub held_inc-wraps : (index : ℕ) → index < u16 → held_inc (held_by 65535 index) ≡ index
unfolding held_inc
held_inc-wraps index i = omega arith
