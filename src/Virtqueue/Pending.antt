-- ===== src/Virtqueue/Pending.antt =====
-- The entries of a ring between two free-running 16-bit indices, as a list.
use native.Mathlib.Nat.{mod-add-mod, mod-eq_of_lt, mod-eq-sub-mod, mod-lt, add-zero}
use native.Mathlib.Decide.{dec_lt}
use openamp_core.Prelude.{
  ℕ, zero, suc, ◌+◌, ◌-◌, ◌%◌, ◌^◌, ◌≤◌, ◌<◌, ◌≡◌, ◌≢◌, refl, ap, ap₂, sym, ◌∙◌, List, [], ◌∷◌,
  ◌++◌, arith, update, update_ne, u16, u16-mod-pow,
}

module _ {ℓ} {A : Type ℓ} (k : ℕ) where
  -- The `m` entries of a ring of `2^k` slots from the free-running index `a` on.
  abbrev pub pending : (ring : ℕ → A) (a m : ℕ) → List A
  pending ring a zero = []
  pending ring a (suc m) = ring (a % 2 ^ k) ∷ pending ring (a + 1) m

mod_step : (n a b : ℕ) → a % n ≡ b % n → (a + 1) % n ≡ (b + 1) % n
mod_step n a b e = sym (mod-add-mod a n 1) ∙ ap (λ (t : ℕ). (t + 1) % n) e ∙ mod-add-mod b n 1

-- Fewer than `n` steps round a ring of `n` slots do not come back to the start.
mod-add-ne : (n a d : ℕ) → 0 < d → d < n → (a + d) % n ≢ a % n
mod-add-ne n a d pos small e = elim (dec_lt (a % n + d) n) [
  | yes p ↦ omega (arith, e, folded, mod-eq_of_lt p)
  | no p ↦ omega (
    arith,
    e,
    folded,
    mod-lt a {m = n} (omega arith),
    mod-eq-sub-mod {n = a % n + d} {m = n} (omega arith),
    mod-eq_of_lt {n = a % n + d - n} {m = n} (omega (arith, mod-lt a {m = n} (omega arith))),
  )
]
  where
    folded : (a % n + d) % n ≡ (a + d) % n
    folded = mod-add-mod a n d

module _ {ℓ} {A : Type ℓ} (k : ℕ) where
  -- Only the slots matter.
  pub pending_cong :
      (ring : ℕ → A) (a b m : ℕ) → a % 2 ^ k ≡ b % 2 ^ k → pending k ring a m ≡ pending k ring b m
  pending_cong ring a b zero e = refl
  pending_cong ring a b (suc m) e =
      ap₂ ◌∷◌ (ap ring e) (pending_cong ring (a + 1) (b + 1) m (mod_step (2 ^ k) a b e))

  -- A free-running index wraps at 2^16 without any effect.
  pub pending_wrap :
      (ring : ℕ → A) (a m : ℕ) → k ≤ 16 → pending k ring (a % u16) m ≡ pending k ring a m
  pending_wrap ring a m small = pending_cong ring (a % u16) a m (u16-mod-pow k a small)

  -- Writing the slot behind the pending entries appends an entry, while there is room.
  pub pending-update :
      (ring : ℕ → A) (a m s : ℕ) (v : A)
      → m < 2 ^ k
      → s ≡ (a + m) % 2 ^ k
      → pending k (update ring s v) a (suc m) ≡ pending k ring a m ++ (v ∷ [])
  pending-update ring a zero s v room at = ap (λ (t : A). t ∷ []) (rw at (ground (arith, same)))
    where
      same : (a + 0) % 2 ^ k ≡ a % 2 ^ k
      same = ap (λ (t : ℕ). t % 2 ^ k) (add-zero a)
  pending-update ring a (suc m) s v room at =
      ap₂ ◌∷◌
        (update_ne ring s (a % 2 ^ k) v
          (λ e. mod-add-ne (2 ^ k) a (suc m) (omega arith) room (sym at ∙ e)))
        (pending-update ring (a + 1) m s v (omega arith) (at ∙ ap (λ (t : ℕ). t % 2 ^ k) shift))
    where
      shift : a + suc m ≡ a + 1 + m
      shift = omega arith
