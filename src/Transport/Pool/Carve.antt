-- ===== src/Transport/Pool/Carve.antt =====
-- The buffers that a pool hands out lie in its memory and do not overlap.
use openamp_core.Prelude.{
  ℕ, zero, suc, ◌+◌, ◌-◌, ◌*◌, ◌<◌, ◌≤◌, ◌≡◌, ◌∙◌, refl, ap, subst, ==_of_ne, none, some, List, [],
  ◌∷◌, length, ◌==◌, if◌then◌else◌, arith,
}
use openamp_core.Transport.Pool.{ShmPool, get_buffer}

-- The pool is not at NULL, and no more is left of it than it has.
pub record IsPool (pool : ShmPool) : Type 0 where
  pub placed : 0 < pool.base
  pub bounded : pool.avail ≤ pool.size

-- `n` calls for buffers of this size: the buffers, NULL ones left out, and the pool.
pub carve : ℕ → (size : ℕ) → ShmPool → List ℕ × ShmPool
carve zero size pool = ([], pool)
carve (suc n) size pool =
    let (buffer, after) = get_buffer (some pool) size in
    let rest = carve n size (elim after [ none ↦ pool | some p ↦ p ]) in
    if buffer == 0 then rest else (buffer ∷ rest.0, rest.1)

-- The buffers from `low` on, in order, each of `size` bytes, and the last ends at `high` at the latest.
abbrev pub InOrder : (low high size : ℕ) → List ℕ → Type 0
InOrder low high size [] = low ≤ high
InOrder low high size (b ∷ bs) = (low ≤ b) × InOrder (b + size) high size bs

pub get_buffer_lem :
    (size : ℕ) (pool : ShmPool)
    → 0 < size
    → size ≤ pool.avail
    → get_buffer (some pool) size
      ≡ (pool.base + pool.size - pool.avail, some (record pool { avail = pool.avail - size }))
unfolding get_buffer
get_buffer_lem size pool pos fits = ground arith

-- As many buffers as the pool has room for are handed out, each within the memory of the pool that
-- was left, and none overlaps another.
pub carve_lem :
    (n size : ℕ) (pool : ShmPool)
    → IsPool pool
    → 0 < size
    → n * size ≤ pool.avail
    → (length (carve n size pool).0 ≡ n)
      × InOrder
          (pool.base + pool.size - pool.avail)
          (pool.base + pool.size)
          size
          (carve n size pool).0
      × ((carve n size pool).1 ≡ record pool { avail = pool.avail - n * size })
unfolding carve
carve_lem zero size pool v pos room =
    (refl, omega (arith, v.bounded), λ i. record pool { avail = whole i })
  where
    whole : pool.avail ≡ pool.avail - 0 * size
    whole = omega arith
carve_lem (suc n) size pool v pos room =
    let low = pool.base + pool.size - pool.avail in
    let after : ShmPool = record pool { avail = pool.avail - size } in
    let (many, apart, left) =
      carve_lem n size after (record { placed = v.placed; bounded = omega (arith, v.bounded) }) pos
        (omega arith) in
    rw (get_buffer_lem size pool pos fits, ==_of_ne low 0 (omega (arith, v.placed, v.bounded)))
      (
        ap suc many,
        (
          omega arith,
          subst (λ (b : ℕ). InOrder b (pool.base + pool.size) size (carve n size after).0)
              (omega (arith, v.bounded)) apart,
        ),
        left ∙ λ i. record pool { avail = spent i },
      )
  where
    fits : size ≤ pool.avail
    fits = omega arith

    spent : pool.avail - size - n * size ≡ pool.avail - suc n * size
    spent = omega arith
