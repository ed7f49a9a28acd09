-- ===== src/Virtqueue/Driver/Create.antt =====
-- `virtqueue_create` for a driver: the queue that it sets up is valid, with every descriptor free.
use native.Mathlib.Nat.{mod_self}
use openamp_core.Prelude.{
  ℕ, zero, suc, ◌+◌, ◌-◌, ◌^◌, ◌≤◌, ◌<◌, ◌≡◌, ◌≢◌, refl, ap, subst, ◌∙◌, Bool, true, false, ◌&&◌,
  Option, none, some, List, [], ◌∷◌, ltb, leb, arith, bit_and, bit_and-mask, pow-pos, if◌then◌else◌,
  count, update, All, length,
}
use openamp_core.Virtqueue.State.{
  Role, driver, success, error_vqueue_invld_param, error_vring_align, error_no_mem, Ptr, Virtqueue,
}
use openamp_core.Virtqueue.Driver.{AllocInfo, ring_init_loop, create_status, create}
use openamp_core.Virtqueue.Driver.Chains.{Table, FreeList}
use openamp_core.Virtqueue.Driver.Valid.{IsValid}

-- `i`, `i + 1` and so on, `n` numbers.
abbrev pub range : (i n : ℕ) → List ℕ
range i zero = []
range i (suc n) = i ∷ range (i + 1) n

length-range : (i n : ℕ) → length (range i n) ≡ n
length-range i zero = refl
length-range i (suc n) = ap suc (length-range (i + 1) n)

count-range : (x i n : ℕ) → count x (range i n) ≡ (if leb i x && ltb x (i + n) then 1 else 0)
count-range x i zero = ground arith
count-range x i (suc n) = ground (arith, count-range x (i + 1) n)

-- The loop leaves the entries below its index alone.
ring_init_loop_below :
    (rounds i : ℕ) (d : Table) (a : ℕ) → a < i → ring_init_loop rounds i d a ≡ d a
unfolding ring_init_loop
ring_init_loop_below zero i d a h = ground arith
ring_init_loop_below (suc rounds) i d a h =
    ring_init_loop_below rounds (i + 1) _ a (omega arith) ∙ ground arith

ring_init_loop-FreeList :
    (rounds i : ℕ) (d : Table) → FreeList (ring_init_loop rounds i d) i (range i (suc rounds))
unfolding ring_init_loop
ring_init_loop-FreeList zero i d = (refl, ground arith)
ring_init_loop-FreeList (suc rounds) i d =
    let d' : Table = update d i (record (d i) { next = i + 1 }) in
    let here = ring_init_loop_below rounds (i + 1) d' i (omega arith) in
    (refl, rw here (ground (arith, ring_init_loop-FreeList rounds (i + 1) d')))

All-range : (P : ℕ → Type 0) (i n : ℕ) → ((x : ℕ) → P x) → All P (range i n)
All-range P i zero h = tt
All-range P i (suc n) h = (h i, All-range P (i + 1) n h)

-- The check of a debug build accepts a power of two.
create_status-success :
    (debug : Bool) (k : ℕ) (info : AllocInfo) (vq : Virtqueue)
    → info.num_descs ≡ 2 ^ k
    → create_status debug (some info) (some vq) ≡ success
unfolding create_status
create_status-success debug k info vq size =
    let masked : bit_and info.num_descs (info.num_descs - 1) ≡ 0 =
      rw size (bit_and-mask k (2 ^ k) ∙ mod_self (2 ^ k)) in
    ground (arith, pow-pos k)

-- `virtqueue_allocate` clears the memory of a queue.
pub record IsCleared (vq : Virtqueue) : Type 0 where
  pub head : vq.desc_head_idx ≡ 0
  pub idle : vq.inuse ≡ false
  pub cookies : (x : ℕ) → (vq.descx x).cookie ≡ 0

-- For a driver, a cleared queue and a ring of `2^k` descriptors with `k ≤ 15`,
-- `virtqueue_create` succeeds, in a debug build too, and the queue is valid with the descriptors
-- `0`, `1`, and so on as its free chain and nothing in flight, and has the given callbacks.
pub create-IsValid :
    (debug event_idx : Bool) (k id : ℕ) (info : AllocInfo) (callback notify : Ptr) (vq : Virtqueue)
    → info.num_descs ≡ 2 ^ k
    → k ≤ 15
    → IsCleared vq
    → (q : Virtqueue) × (create debug driver event_idx id (some info) callback notify (some vq)
        ≡ some (success, some q))
      × IsValid k (range 0 (2 ^ k)) [] q
      × (q.callback ≡ callback)
      × (q.notify ≡ notify)
unfolding create
create-IsValid debug event_idx k id info callback notify vq size small clear =
    let n = info.num_descs in
    let pos : 0 < n = rw size (pow-pos k) in
    let table = ring_init_loop (n - 1) 0 info.memory.desc in
    (
      record vq {
        role = driver;
        event_idx = event_idx;
        queue_index = id;
        nentries = n;
        free_cnt = n;
        callback = callback;
        notify = notify;
        ring = record info.memory { desc = table };
      },
      rw (create_status-success debug k info vq size, create) (ground arith),
      record {
        size = size;
        small = small;
        idle = clear.idle;
        free = rw clear.head (
            subst (λ (t : ℕ). FreeList table 0 (range 0 t)) (whole n size)
              (ring_init_loop-FreeList (n - 1) 0 info.memory.desc));
        free_count = omega (arith, length-range 0 (2 ^ k));
        unused = All-range (λ x. (vq.descx x).cookie ≡ 0) 0 (2 ^ k) clear.cookies;
        flight = tt;
        parts = λ x. ground (arith, count-range x 0 (2 ^ k));
        total = omega (arith, length-range 0 (2 ^ k));
      },
      refl,
      refl,
    )
  where
    whole : (n : ℕ) → n ≡ 2 ^ k → suc (n - 1) ≡ 2 ^ k
    whole n e = omega (arith, pow-pos k)

module _ (role : Role) (event_idx : Bool) (id : ℕ) (info : AllocInfo) (callback notify : Ptr)
    (vq : Option Virtqueue) where
  -- A debug build refuses a missing ring and a ring of no descriptors as invalid parameters, a ring
  -- whose size is not a power of two by the alignment error, and a missing queue as missing
  -- memory, and leaves the queue as it is.
  pub create_refuses :
      (create true role event_idx id none callback notify vq ≡ some (error_vqueue_invld_param, vq))
      × (info.num_descs ≡ 0
          → create true role event_idx id (some info) callback notify vq
            ≡ some (error_vqueue_invld_param, vq))
      × (info.num_descs ≢ 0
          → bit_and info.num_descs (info.num_descs - 1) ≢ 0
          → create true role event_idx id (some info) callback notify vq
            ≡ some (error_vring_align, vq))
      × (info.num_descs ≢ 0
          → bit_and info.num_descs (info.num_descs - 1) ≡ 0
          → create true role event_idx id (some info) callback notify none
            ≡ some (error_no_mem, none))
  unfolding create create_status
  create_refuses = (refl, (λ h. ground arith), (λ h k. ground arith), (λ h k. ground arith))
