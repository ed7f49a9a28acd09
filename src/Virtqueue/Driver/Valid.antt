-- ===== src/Virtqueue/Driver/Valid.antt =====
-- The invariant of the driver's side of a queue.
use openamp_core.Prelude.{
  ℕ, suc, ◌+◌, ◌^◌, ◌≤◌, ◌≡◌, ◌≢◌, false, List, [], ◌∷◌, ltb, arith, if◌then◌else◌, has_flag, count,
  count-append, All, length,
}
use openamp_core.Vring.{desc_f_indirect}
use openamp_core.Virtqueue.State.{DescExtra, Virtqueue}
use openamp_core.Virtqueue.Driver.Chains.{Table, FreeList, IsChain, Chain, indices, IsChain-frame}

-- A chain that the device may hold: its head knows its length and has a cookie, its other
-- descriptors have none, and it is no indirect chain.
pub record InFlight (d : Table) (extra : ℕ → DescExtra) (c : Chain) : Type 0 where
  pub chain : IsChain d c.0 c.1
  pub counted : (extra c.0).ndescs ≡ suc (length c.1)
  pub marked : (extra c.0).cookie ≢ 0
  pub unmarked : All (λ x. (extra x).cookie ≡ 0) c.1
  pub direct : has_flag desc_f_indirect (d c.0).flags ≡ false

-- `fs` is the free chain, in order, and `cs` are the chains in flight. Together they are all
-- descriptors of the ring, each once. The ring has `2^k` of them.
pub record IsValid (k : ℕ) (fs : List ℕ) (cs : List Chain) (vq : Virtqueue) : Type 0 where
  pub size : vq.nentries ≡ 2 ^ k
  pub small : k ≤ 15
  pub idle : vq.inuse ≡ false
  pub free : FreeList vq.ring.desc vq.desc_head_idx fs
  pub free_count : vq.free_cnt ≡ length fs
  pub unused : All (λ x. (vq.descx x).cookie ≡ 0) fs
  pub flight : All (InFlight vq.ring.desc vq.descx) cs
  pub parts : (x : ℕ) → count x fs + count x (indices cs) ≡ (if ltb x vq.nentries then 1 else 0)
  pub total : length fs + length (indices cs) ≡ vq.nentries

module _ {ℓ} (P Q : ℕ → Type ℓ) where
  -- A property of the members of a list carries over to a property that follows for each of them.
  pub All-mono : (xs : List ℕ) → ((x : ℕ) → count x xs ≢ 0 → P x → Q x) → All P xs → All Q xs
  All-mono [] f h = h
  All-mono (x ∷ xs) f h = (f x (ground arith) h.0, All-mono xs (λ y n. f y (omega arith)) h.1)

module _ {d e : Table} {extra extra' : ℕ → DescExtra} where
  InFlight-frame :
      (c : Chain)
      → ((a : ℕ) → count a (c.0 ∷ c.1) ≢ 0 → e a ≡ d a)
      → ((a : ℕ) → count a (c.0 ∷ c.1) ≢ 0 → extra' a ≡ extra a)
      → InFlight d extra c
      → InFlight e extra' c
  InFlight-frame c same same' h =
      let here : count c.0 (c.0 ∷ c.1) ≢ 0 = ground arith in
      record {
        chain = IsChain-frame d e c.0 c.1 same h.chain;
        counted = rw (same' c.0 here) h.counted;
        marked = rw (same' c.0 here) h.marked;
        unmarked =
            All-mono (λ x. (extra x).cookie ≡ 0) (λ x. (extra' x).cookie ≡ 0) c.1
              (λ x n z. rw (same' x (omega arith)) z) h.unmarked;
        direct = rw (same c.0 here) h.direct;
      }

  -- Chains in flight stay so under changes to other descriptors.
  pub flight_frame :
      (cs : List Chain)
      → ((a : ℕ) → count a (indices cs) ≢ 0 → e a ≡ d a)
      → ((a : ℕ) → count a (indices cs) ≢ 0 → extra' a ≡ extra a)
      → All (InFlight d extra) cs
      → All (InFlight e extra') cs
  flight_frame [] same same' h = h
  flight_frame ((x, xs) ∷ cs) same same' h = (
    InFlight-frame (x, xs) (λ a n. same a (omega (arith, count-append a xs (indices cs))))
        (λ a n. same' a (omega (arith, count-append a xs (indices cs)))) h.0,
    flight_frame cs (λ a n. same a (omega (arith, count-append a xs (indices cs))))
        (λ a n. same' a (omega (arith, count-append a xs (indices cs)))) h.1,
  )
