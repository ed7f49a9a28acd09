-- ===== src/Utilities/Copy.antt =====
-- What `safe_strcpy` leaves in the destination.
use native.Mathlib.Decide.{dec_lt}
use openamp_core.Prelude.{
  ℕ, zero, suc, ◌+◌, ◌-◌, ◌<◌, ◌≤◌, ◌≡◌, ◌≢◌, ◌∙◌, refl, ap, ap₂, subst, true, some, ◌==◌, ==_of_ne,
  lt→ltb, update, update_self, update_ne, arith,
}
use openamp_core.Utilities.{Chars, copy_loop}

-- The string ends at `k`.
pub record EndsAt (src : Chars) (k : ℕ) : Type 0 where
  pub ends : src k ≡ 0
  pub goes_on : (j : ℕ) → j < k → src j ≢ 0

-- `out` is `dst` with the characters from `i` on and before `m` copied.
pub record Copied (src dst out : Chars) (i m : ℕ) : Type 0 where
  pub inside : (j : ℕ) → i ≤ j → j < m → out j ≡ src j
  pub before : (j : ℕ) → j < i → out j ≡ dst j

module _ (src : Chars) (d_size s_size : ℕ) where
  extend :
      (i m : ℕ) (dst out : Chars)
      → i < m
      → Copied src (update dst i (src i)) out (i + 1) m
      → Copied src dst out i m
  extend i m dst out h c = record {
    inside = λ j l u. elim (dec_lt i j) [
      | yes n ↦ c.inside j (omega arith) u
      | no n ↦ at_start j (omega arith)
    ];
    before = λ j u. c.before j (omega arith) ∙ update_ne dst i j (src i) (omega arith);
  }
    where
      at_start : (j : ℕ) → j ≡ i → out j ≡ src j
      at_start j e = rw e (c.before i (omega arith) ∙ update_self dst i (src i))

  pub loop_ends :
      (k : ℕ)
      → EndsAt src k
      → (nleft i : ℕ) (dst : Chars) → i ≤ k
      → k < i + nleft
      → i + nleft ≤ s_size
      → i + nleft ≤ d_size
      → (out : Chars) × (copy_loop src d_size s_size nleft i dst ≡ some (out, k + 1, i + nleft - k))
        × Copied src dst out i (k + 1)
  unfolding copy_loop
  loop_ends k e zero i dst l u s d = absurd (omega arith)
  loop_ends k e (suc nleft) i dst l u s d = elim (dec_lt i k) [
    | yes h ↦
        (let (out, runs, copied) =
            loop_ends k e nleft (i + 1) (update dst i (src i)) (omega arith) (omega arith)
              (omega arith) (omega arith) in
          (
            out,
            rw
                (
                  lt→ltb i s_size (omega arith),
                  lt→ltb i d_size (omega arith),
                  ==_of_ne (src i) 0 (e.goes_on i h),
                  runs,
                )
                (ap (λ (t : ℕ). some (out, k + 1, t - k)) (omega arith)),
            extend i (k + 1) dst out (omega arith) copied,
          ))
    | no h ↦ (
      update dst i (src i),
      rw (lt→ltb i s_size (omega arith), lt→ltb i d_size (omega arith), stops (omega arith))
          (ap₂ (λ (s t : ℕ). some (update dst i (src i), s, t)) (omega arith) (omega arith)),
      extend i (k + 1) dst (update dst i (src i)) (omega arith)
          (record { inside = λ j l u. absurd (omega arith); before = λ j u. refl }),
    )
  ]
    where
      stops : i ≡ k → (src i == 0) ≡ true
      stops at = rw (at, e.ends) refl

  pub loop_goes_on :
      (nleft i : ℕ) (dst : Chars)
      → ((j : ℕ) → j < i + nleft → src j ≢ 0)
      → i + nleft ≤ s_size
      → i + nleft ≤ d_size
      → (out : Chars) × (copy_loop src d_size s_size nleft i dst ≡ some (out, i + nleft, 0))
        × Copied src dst out i (i + nleft)
  unfolding copy_loop
  loop_goes_on zero i dst g s d = (
    dst,
    ap (λ (t : ℕ). some (dst, t, 0)) (omega arith),
    record { inside = λ j l u. absurd (omega arith); before = λ j u. refl },
  )
  loop_goes_on (suc nleft) i dst g s d =
      let (out, runs, copied) =
        loop_goes_on nleft (i + 1) (update dst i (src i)) (λ j u. g j (omega arith)) (omega arith)
          (omega arith) in
      (
        out,
        rw
            (
              lt→ltb i s_size (omega arith),
              lt→ltb i d_size (omega arith),
              ==_of_ne (src i) 0 (g i (omega arith)),
              runs,
            )
            (ap (λ (t : ℕ). some (out, t, 0)) (omega arith)),
        subst (λ (m : ℕ). Copied src dst out i m) (omega arith)
            (extend i (i + 1 + nleft) dst out (omega arith) copied),
      )
