-- ===== src/Virtqueue/Driver.antt =====
-- The driver's side of virtqueue.c: the free chain of descriptors, `virtqueue_create`,
-- `virtqueue_add_buffer` and `virtqueue_get_buffer`. `debug` says whether VQUEUE_DEBUG is defined.
pub mod Add
pub mod AddFull
pub mod AddResult
pub mod Chains
pub mod Create
pub mod Enqueue
pub mod Get
pub mod Valid
use openamp_core.Prelude.{
  ℕ, zero, suc, ◌+◌, ◌-◌, ◌%◌, Bool, true, false, not, ◌&&◌, ◌||◌, Option, none, some, List, [],
  ◌∷◌, bit_and, ltb, leb, ◌==◌, if◌then◌else◌, ◌>>=◌, ◌>>◌, require, update, has_flag, u16, u32,
}
use openamp_core.Vring.{
  Desc, UsedElem, Vring, desc_f_next, desc_f_write, desc_f_indirect, desc_chain_end, sub16,
}
use openamp_core.Virtqueue.State.{
  Role, driver, role_is_driver, Status, success, error_vring_full, error_vring_align, error_no_mem,
  error_vqueue_invld_param, Ptr, Buf, DescExtra, Io, Virtqueue, vqassert, vq_param_chk, vqueue_busy,
  vqueue_idle,
}

-- The loop of `vq_ring_init` at `i`, with `rounds` descriptors before the last.
pub ring_init_loop : (rounds i : ℕ) → (ℕ → Desc) → ℕ → Desc
ring_init_loop zero i desc = update desc i (record (desc i) { next = desc_chain_end })
ring_init_loop (suc rounds) i desc =
    ring_init_loop rounds (i + 1) (update desc i (record (desc i) { next = i + 1 }))

-- `vq_ring_init`: `ring` is the memory at the addresses that `vring_init` computes. A ring of no
-- descriptors would be written out of bounds.
pub ring_init : Virtqueue → Vring → Option Virtqueue
unfolding ring_init_loop
ring_init vq ring =
    if role_is_driver vq.role
    then (do
      require (ltb 0 vq.nentries)
      some (record vq {
        ring = record ring { desc = ring_init_loop (vq.nentries - 1) 0 ring.desc };
      }))
    else some (record vq { ring = ring })

-- `struct vring_alloc_info`, with the memory at its address.
pub record AllocInfo : Type 0 where
  pub memory : Vring
  pub num_descs : ℕ

abbrev is_null {ℓ} : {A : Type ℓ} → Option A → Bool
is_null none = true
is_null (some _) = false

abbrev on_ring : (ℕ → Bool) → Option AllocInfo → Bool
on_ring test none = false
on_ring test (some info) = test info.num_descs

-- The parameter checks of `virtqueue_create`.
pub create_status : Bool → Option AllocInfo → Option Virtqueue → Status
create_status debug ring vq =
    let s1 = vq_param_chk debug (is_null ring) success error_vqueue_invld_param in
    let s2 = vq_param_chk debug (on_ring (λ n. n == 0) ring) s1 error_vqueue_invld_param in
    let s3 =
      vq_param_chk debug (on_ring (λ n. not (bit_and n (n - 1) == 0)) ring) s2 error_vring_align in
    vq_param_chk debug (is_null vq) s3 error_no_mem

-- `virtqueue_create` for a device of this role and feature; `none` in `ring` or `vq` is NULL.
pub create :
    Bool
    → Role
    → Bool
    → ℕ
    → Option AllocInfo
    → Ptr
    → Ptr
    → Option Virtqueue
    → Option (Status × Option Virtqueue)
unfolding ring_init create_status
create debug role event_idx id ring callback notify vq = elim (create_status debug ring vq) [
  | success ↦ (do
    info ← ring
    q ← vq
    q' ←
        ring_init
          (record q {
            role = role;
            event_idx = event_idx;
            queue_index = id;
            nentries = info.num_descs;
            free_cnt = info.num_descs;
            callback = callback;
            notify = notify;
          })
          info.memory
    some (success, some q'))
  | e ↦ some (e, vq)
]

-- The flags that `vq_ring_add_buffer` gives descriptor `i` of `needed`.
abbrev pub desc_flags : (i readable needed : ℕ) → ℕ
desc_flags i readable needed =
    (if ltb (i + 1) needed then desc_f_next else 0) + (if leb readable i then desc_f_write else 0)

-- The loop of `vq_ring_add_buffer` at `i`, with `rounds` to go and `bufs` the rest of `buf_list`.
-- The `for` clause reads `dp->next` of the entry that was just written.
pub add_loop :
    (debug : Bool) (io : Io) (nentries readable needed : ℕ) (rounds i : ℕ)
    → List Buf
    → ℕ
    → (ℕ → Desc)
    → Option (ℕ × (ℕ → Desc))
add_loop debug io nentries readable needed zero i bufs idx desc = some (idx, desc)
add_loop debug io nentries readable needed (suc rounds) i [] idx desc = none
add_loop debug io nentries readable needed (suc rounds) i (b ∷ bufs) idx desc = do
  vqassert debug (not (idx == desc_chain_end))
  require (ltb idx nentries)
  add_loop debug io nentries readable needed rounds (i + 1) bufs (desc idx).next (
      update desc idx (record {
        addr = io.virt_to_phys b.buf;
        len = b.len % u32;
        flags = desc_flags i readable needed;
        next = (desc idx).next;
      }))

-- `vq_ring_update_avail`
pub ring_update_avail : Virtqueue → ℕ → Option Virtqueue
ring_update_avail vq desc_idx = do
  let avail_idx = bit_and vq.ring.avail_idx (vq.nentries - 1)
  require (ltb avail_idx vq.nentries)
  some (record vq {
    ring = record vq.ring {
      avail_ring = update vq.ring.avail_ring avail_idx desc_idx;
      avail_idx = (vq.ring.avail_idx + 1) % u16;
    };
    queued_cnt = (vq.queued_cnt + 1) % u16;
  })

-- The body of `virtqueue_add_buffer` behind its checks.
pub add_checked :
    (debug : Bool) → Virtqueue → List Buf → (readable writable : ℕ) → Ptr → Option Virtqueue
unfolding add_loop ring_update_avail
add_checked debug vq buf_list readable writable cookie = do
  let needed = readable + writable
  let head_idx = vq.desc_head_idx
  vqassert debug (not (cookie == 0))
  vqassert debug (ltb head_idx vq.nentries)
  require (ltb head_idx vq.nentries)
  vqassert debug ((vq.descx head_idx).cookie == 0)
  (idx, desc) ←
      add_loop debug vq.shm_io vq.nentries readable needed needed 0 buf_list head_idx vq.ring.desc
  let free_cnt = sub16 vq.free_cnt (needed % u16)
  vqassert debug (if free_cnt == 0 then idx == desc_chain_end else ltb idx vq.nentries)
  ring_update_avail
      (record vq {
        descx = update vq.descx head_idx (record { cookie = cookie; ndescs = needed % u16 });
        ring = record vq.ring { desc = desc };
        desc_head_idx = idx;
        free_cnt = free_cnt;
      })
      head_idx

-- `virtqueue_add_buffer` of a queue that is not NULL. The counts are not negative.
pub add_buffer :
    (debug : Bool)
    → Virtqueue
    → List Buf
    → (readable writable : ℕ) → Ptr
    → Option (Status × Virtqueue)
unfolding add_checked vqueue_busy vqueue_idle
add_buffer debug vq buf_list readable writable cookie =
    let needed = readable + writable in
    let s1 = vq_param_chk debug (ltb needed 1) success error_vqueue_invld_param in
    let status = vq_param_chk debug (ltb vq.free_cnt needed) s1 error_vring_full in
    (do
      busy ← vqueue_busy debug vq
      done ← elim status [
        | success ↦ add_checked debug busy buf_list readable writable cookie
        | _ ↦ some busy
      ]
      some (status, vqueue_idle debug done))

-- The loop of `vq_ring_free_chain` at descriptor `idx`: the last descriptor of the chain and what is
-- left of `ndescs`. `none` also if a chain is longer than the fuel.
pub walk_chain :
    (debug : Bool) (nentries : ℕ) (desc : ℕ → Desc) (fuel idx ndescs : ℕ) → Option (ℕ × ℕ)
walk_chain debug nentries desc zero idx ndescs = none
walk_chain debug nentries desc (suc fuel) idx ndescs =
    let next = (desc idx).next in
    let rest = walk_chain debug nentries desc fuel next (sub16 ndescs 1) in
    if has_flag desc_f_next (desc idx).flags
    then vqassert debug (ltb next nentries) >> (require (ltb next nentries) >> rest)
    else some (idx, ndescs)

-- `vq_ring_free_chain`
pub ring_free_chain : Bool → Virtqueue → ℕ → Option Virtqueue
unfolding walk_chain
ring_free_chain debug vq desc_idx = do
  let desc = vq.ring.desc
  let dxp = vq.descx desc_idx
  vqassert debug (ltb desc_idx vq.nentries)
  require (ltb desc_idx vq.nentries)
  vqassert debug (not (vq.free_cnt == 0) || (vq.desc_head_idx == desc_chain_end))
  (last, ndescs) ←
      (if has_flag desc_f_indirect (desc desc_idx).flags
        then some (desc_idx, sub16 dxp.ndescs 1)
        else walk_chain debug vq.nentries desc vq.nentries desc_idx (sub16 dxp.ndescs 1))
  vqassert debug (ndescs == 0)
  some (record vq {
    free_cnt = (vq.free_cnt + dxp.ndescs) % u16;
    descx = update vq.descx desc_idx (record dxp { ndescs = ndescs });
    ring = record vq.ring {
      desc = update desc last (record (desc last) { next = vq.desc_head_idx });
    };
    desc_head_idx = desc_idx;
  })

-- What `virtqueue_get_buffer` hands out: the cookie, `*len` and `*idx`.
pub record Got : Type 0 where
  pub cookie : Ptr
  pub len : ℕ
  pub idx : ℕ

-- `virtqueue_get_buffer` of a queue that is not NULL; the answer `none` is NULL.
pub get_buffer : Bool → Virtqueue → Option (Option Got × Virtqueue)
unfolding ring_free_chain vqueue_busy vqueue_idle
get_buffer debug vq = if vq.used_cons_idx == vq.ring.used_idx then some (none, vq) else do
  busy ← vqueue_busy debug vq
  let used_idx = bit_and busy.used_cons_idx (busy.nentries - 1)
  require (ltb used_idx busy.nentries)
  let uep = busy.ring.used_ring used_idx
  let desc_idx = uep.id % u16
  freed ←
      ring_free_chain debug (record busy { used_cons_idx = (busy.used_cons_idx + 1) % u16 })
        desc_idx
  let dxp = freed.descx desc_idx
  some (
    some (record { cookie = dxp.cookie; len = uep.len; idx = used_idx }),
    vqueue_idle debug
        (record freed { descx = update freed.descx desc_idx (record dxp { cookie = 0 }) }),
  )
