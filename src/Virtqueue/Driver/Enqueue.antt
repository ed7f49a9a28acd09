-- ===== src/Virtqueue/Driver/Enqueue.antt =====
-- The loop of `vq_ring_add_buffer`: which descriptors it takes, and what it writes into them.
use openamp_core.Prelude.{
  ℕ, suc, ◌+◌, ◌%◌, ◌≤◌, ◌<◌, ◌≡◌, ◌≢◌, refl, ap, ◌∙◌, Bool, some, List, [], ◌∷◌, ◌++◌, arith,
  count, update, length, u32,
}
use openamp_core.Vring.{Desc, desc_chain_end}
use openamp_core.Virtqueue.State.{Buf, Io}
use openamp_core.Virtqueue.Driver.{desc_flags, add_loop}
use openamp_core.Virtqueue.Driver.Chains.{Table, FreeList, IsChain, FreeList-frame}

module _ (io : Io) (readable needed : ℕ) where
  -- Descriptor by descriptor from number `i` on, the buffers have been written.
  abbrev pub Written : ℕ → Table → List ℕ → List Buf → Type 0
  Written i e [] [] = Unit
  Written i e [] (b ∷ bs) = ⊥
  Written i e (x ∷ xs) [] = ⊥
  Written i e (x ∷ xs) (b ∷ bs) =
      ((e x).addr ≡ io.virt_to_phys b.buf)
      × ((e x).len ≡ b.len % u32)
      × ((e x).flags ≡ desc_flags i readable needed)
      × Written (i + 1) e xs bs

  pub record Added (i : ℕ) (d : Table) (xs fs : List ℕ) (bs : List Buf) (p : ℕ) (e : Table)
      : Type 0 where
    pub next_same : (a : ℕ) → (e a).next ≡ (d a).next
    pub outside : (a : ℕ) → count a xs ≡ 0 → e a ≡ d a
    pub written : Written i e xs bs
    pub rest : FreeList e p fs

  pub add_loop-Added :
      (debug : Bool) (n : ℕ) (xs fs : List ℕ) (bs : List Buf) (i idx : ℕ) (d : Table)
      → n ≤ desc_chain_end
      → length bs ≡ length xs
      → ((a : ℕ) → count a xs ≢ 0 → a < n)
      → ((a : ℕ) → count a xs ≤ 1)
      → FreeList d idx (xs ++ fs)
      → (p : ℕ) × (e : Table) × (add_loop debug io n readable needed (length xs) i bs idx d
          ≡ some (p, e))
        × Added i d xs fs bs p e
  unfolding add_loop
  add_loop-Added debug n [] fs [] i idx d small len below once f = (
    idx,
    d,
    refl,
    record { next_same = λ a. refl; outside = λ a h. refl; written = tt; rest = f },
  )
  add_loop-Added debug n [] fs (b ∷ bs) i idx d small len below once f = absurd (omega arith)
  add_loop-Added debug n (x ∷ xs) fs [] i idx d small len below once f = absurd (omega arith)
  add_loop-Added debug n (x ∷ xs) fs (b ∷ bs) i idx d small len below once f =
      let (p, e, run, added) =
        add_loop-Added debug n xs fs bs (i + 1) (d idx).next d' small (omega arith)
          (λ a h. below a (omega arith)) (λ a. omega (arith, once a))
          (FreeList-frame d d' (d idx).next (xs ++ fs) (λ a h. kept a) (rw (f.0) f.1)) in
      let here : e x ≡ entry = added.outside x (ground (arith, once x)) ∙ update_here in
      (
        p,
        e,
        step debug p e run,
        record {
          next_same = λ a. added.next_same a ∙ kept a;
          outside = λ a h. added.outside a (omega arith) ∙ ground arith;
          written = (
            ap (λ (t : Desc). t.addr) here,
            ap (λ (t : Desc). t.len) here,
            ap (λ (t : Desc). t.flags) here,
            added.written,
          );
          rest = added.rest;
        },
      )
    where
      entry : Desc
      entry = record {
        addr = io.virt_to_phys b.buf;
        len = b.len % u32;
        flags = desc_flags i readable needed;
        next = (d idx).next;
      }

      d' : Table
      d' = update d idx entry

      update_here : d' x ≡ entry
      update_here = ground arith

      step :
          (debug : Bool) (p : ℕ) (e : Table)
          → add_loop debug io n readable needed (length xs) (i + 1) bs (d idx).next d' ≡ some (p, e)
          → add_loop debug io n readable needed (suc (length xs)) i (b ∷ bs) idx d ≡ some (p, e)
      step debug p e run = rw run (ground (arith, below x))

      kept : (a : ℕ) → (d' a).next ≡ (d a).next
      kept a = ground arith

  -- What the loop wrote is a chain.
  pub Written-IsChain :
      (e : Table) (x : ℕ) (xs fs : List ℕ) (b : Buf) (bs : List Buf) (i : ℕ)
      → i + suc (length xs) ≡ needed
      → Written i e (x ∷ xs) (b ∷ bs)
      → FreeList e x (x ∷ (xs ++ fs))
      → IsChain e x xs
  Written-IsChain e x [] fs b bs i len w f = rw (w.2) (ground arith)
  Written-IsChain e x (y ∷ ys) fs b [] i len w f = absurd w.3
  Written-IsChain e x (y ∷ ys) fs b (b' ∷ bs) i len w f = (
    rw (w.2) (ground arith),
    f.1.0,
    Written-IsChain e y ys fs b' bs (i + 1) (omega arith) w.3 (refl, f.1.1),
  )
