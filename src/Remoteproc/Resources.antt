-- ===== src/Remoteproc/Resources.antt =====
-- The resource table of a remote processor: remoteproc/rsc_table_parser.c.
pub mod Bounds
pub mod Returns
use openamp_core.Prelude.{
  ℕ, zero, suc, ◌+◌, ◌-◌, ◌*◌, ◌%◌, Bool, true, false, not, ◌&&◌, ◌||◌, Option, none, some, ℤ, pos,
  negsuc, is_success, ltb, leb, ◌==◌, if◌then◌else◌, ◌>>=◌, ◌>>◌, require, update, u32,
}
use openamp_core.Bitmap.{Bitmap, clear_bit}
use openamp_core.Utilities.{Chars}
use openamp_core.Remoteproc.State.{Rproc, Ops, Mapping, einval}
use openamp_core.Remoteproc.Ids.{id_any, allocate_id}
use openamp_core.Remoteproc.Memory.{mmap}

-- -RPROC_ERR_RSC_TAB_TRUNC, -RPROC_ERR_RSC_TAB_VER, -RPROC_ERR_RSC_TAB_RSVD, -RPROC_ERR_RSC_TAB_NP
-- and -RPROC_ERR_RSC_TAB_NS
abbrev pub err_trunc : ℤ
err_trunc = negsuc 4

abbrev pub err_ver : ℤ
err_ver = negsuc 5

abbrev pub err_rsvd : ℤ
err_rsvd = negsuc 6

abbrev pub err_np : ℤ
err_np = negsuc 9

abbrev pub err_ns : ℤ
err_ns = negsuc 10

-- `struct fw_rsc_carveout`, `struct fw_rsc_trace` and `struct fw_rsc_vdev`, with the notification ids
-- of its vrings.
pub record CarveoutRsc : Type 0 where
  pub da : ℕ
  pub pa : ℕ
  pub len : ℕ
  pub flags : ℕ
  pub reserved : ℕ

pub record TraceRsc : Type 0 where
  pub da : ℕ
  pub len : ℕ

pub record VdevRsc : Type 0 where
  pub notifyid : ℕ
  pub num_of_vrings : ℕ
  pub vring_notifyid : ℕ → ℕ

-- What stands at an offset of the table, by the type in its header.
pub data Resource : Type 0 where
  carveout : CarveoutRsc → Resource
  devmem : Resource
  trace : TraceRsc → Resource
  vdev : VdevRsc → Resource
  vendor : (rsc_type len : ℕ) → Resource
  other : (rsc_type : ℕ) → Resource

-- `struct resource_table` with what stands at its offsets. The resources do not overlap, other than by
-- an offset that is there twice: what `handle_vdev_rsc` writes into one is not seen in another.
pub record Table : Type 0 where
  pub ver : ℕ
  pub num : ℕ
  pub reserved : ℕ × ℕ
  pub offset : ℕ → ℕ
  pub at : ℕ → Resource

-- How many bytes a resource takes, but for a name, or the data of a vendor.
abbrev pub extent : Resource → ℕ
extent (carveout c) = 24
extent devmem = 4
extent (trace t) = 12
extent (vdev v) = 28 + 20 * v.num_of_vrings
extent (vendor rsc_type len) = 8
extent (other rsc_type) = 4

-- The type in the header of a resource.
abbrev pub type_of : Resource → ℕ
type_of (carveout c) = 0
type_of devmem = 1
type_of (trace t) = 2
type_of (vdev v) = 3
type_of (vendor rsc_type len) = rsc_type
type_of (other rsc_type) = rsc_type

-- The call of `remoteproc_allocate_id` for an id that a resource asks for.
pub take_id : Bitmap → (notifyid : ℕ) → Option (ℕ × Bitmap)
take_id bitmap notifyid =
    allocate_id bitmap notifyid (if notifyid == id_any then id_any else (notifyid + 1) % u32)

-- The loop over the vrings of `handle_vdev_rsc` at `i`, with `rounds` to go: at which vring it
-- failed, if it did, with the ids and the bitmap.
pub take_vring_ids : (rounds i : ℕ) → (ids : ℕ → ℕ) → Bitmap → Option (Option ℕ × (ℕ → ℕ) × Bitmap)
take_vring_ids zero i ids bitmap = some (none, ids, bitmap)
take_vring_ids (suc rounds) i ids bitmap = do
  (notifyid, taken) ← take_id bitmap (ids i)
  let rest = take_vring_ids rounds (i + 1) (update ids i notifyid) taken
  if notifyid == id_any then some (some i, ids, taken) else rest

-- Of how many vrings that loop reads the id.
pub vrings_read : (rounds i : ℕ) → (ids : ℕ → ℕ) → Bitmap → ℕ
vrings_read zero i ids bitmap = 0
vrings_read (suc rounds) i ids bitmap = elim (take_id bitmap (ids i)) [
  | none ↦ 1
  | some (notifyid, taken) ↦
      (let rest = vrings_read rounds (i + 1) (update ids i notifyid) taken in
        if notifyid == id_any then 1 else rest + 1)
]

-- The last byte that is read of a virtio device, by the number of those vrings.
abbrev pub vrings_end : ℕ → ℕ
vrings_end zero = 26
vrings_end (suc n) = 44 + 20 * n

-- The loop of `handle_vdev_rsc` that gives the ids of the first `n` vrings back.
pub free_vring_ids : (n : ℕ) → (ids : ℕ → ℕ) → Bitmap → Bitmap
free_vring_ids zero ids bitmap = bitmap
free_vring_ids (suc n) ids bitmap = free_vring_ids n ids (clear_bit bitmap (ids n))

-- `handle_trace_rsc`
pub handle_trace_rsc : TraceRsc → ℤ
handle_trace_rsc t = if not (t.da == 4294967295) && not (t.len == 0) then pos 0 else err_ns

-- Whether a status is the one of a resource that is not supported.
abbrev pub is_ns : ℤ → Bool
is_ns (pos n) = false
is_ns (negsuc n) = n == 10

-- Whether an offset is not in the I/O region, if there is one.
abbrev pub outside : Option (ℕ → Bool) → (offset : ℕ) → Bool
outside none offset = false
outside (some inside) offset = not (inside offset)

-- The loop of `find_rsc` at `i`, with `rounds` resources to go and `seen` of the type before.
unfoldable pub find_loop : Table → (rsc_type index rounds i seen : ℕ) → ℕ
find_loop t rsc_type index zero i seen = 0
find_loop t rsc_type index (suc rounds) i seen =
    let same = type_of (t.at (t.offset i)) == rsc_type in
    let rest = find_loop t rsc_type index rounds (i + 1) (if same then seen + 1 else seen) in
    if same && seen == index then t.offset i else rest

-- `find_rsc`: the offset of a resource, 0 if there is none.
unfoldable pub find_rsc : Table → (rsc_type index : ℕ) → ℕ
unfolding find_loop
find_rsc t rsc_type index = find_loop t rsc_type index t.num 0 0

module _ {X : Type 0} where
  -- `handle_vdev_rsc`: the answer, the resource and the remote processor.
  pub handle_vdev_rsc : Rproc X → VdevRsc → Option (ℤ × VdevRsc × Rproc X)
  handle_vdev_rsc r v = do
    (notifyid, taken) ← take_id r.bitmap v.notifyid
    if notifyid == id_any then some (err_np, v, record r { bitmap = taken }) else (do
      (failed, ids, all) ← take_vring_ids v.num_of_vrings 0 v.vring_notifyid taken
      let marked : VdevRsc = record v { notifyid = notifyid; vring_notifyid = ids }
      elim failed [
        | none ↦ some (pos 0, marked, record r { bitmap = all })
        | some i ↦
            some
              (err_np, marked, record r { bitmap = clear_bit (free_vring_ids i ids all) notifyid })
      ])

  -- Up to which byte of a resource its handler reads: `handle_vdev_rsc` the id, then the number of
  -- vrings and the ids of the vrings that it comes to, a vendor's the length if there is a handler.
  pub reads : Rproc X → Resource → ℕ
  unfolding vrings_read
  reads r (carveout c) = 24
  reads r devmem = 4
  reads r (trace t) = if t.da == 4294967295 then 8 else 12
  reads r (vdev v) = elim (take_id r.bitmap v.notifyid) [
    | none ↦ 12
    | some (notifyid, taken) ↦
        if notifyid == id_any
        then 12
        else vrings_end (vrings_read v.num_of_vrings 0 v.vring_notifyid taken)
  ]
  reads r (vendor rsc_type len) = elim r.ops.handle_rsc [ none ↦ 4 | some _ ↦ 8 ]
  reads r (other rsc_type) = 4

  module _ (differ : Chars → Chars → Bool) where
    -- `handle_carve_out_rsc`
    pub handle_carve_out_rsc : Rproc X → CarveoutRsc → ℤ × Rproc X
    handle_carve_out_rsc r c =
        if not (c.reserved == 0)
        then (err_rsvd, r)
        else (let (mapping, after) = mmap differ r (some (c.pa)) (some (c.da)) c.len c.flags in
            (elim mapping [ none ↦ einval | some m ↦ if m.va == 0 then einval else pos 0 ], after))

    -- `handle_vendor_rsc` of a resource at an offset of the table.
    pub handle_vendor_rsc : Rproc X → (offset len : ℕ) → ℤ × Rproc X
    handle_vendor_rsc r offset len = elim r.ops.handle_rsc [
      | none ↦ (err_ns, r)
      | some op ↦ (let (ret, world) = op r.world offset len in (ret, record r { world = world }))
    ]

    -- The choice of the handler in `handle_rsc_table`; a type without one leaves the status.
    pub handle_rsc :
        Rproc X → (offset : ℕ) → (status : ℤ) → Resource → Option (ℤ × Resource × Rproc X)
    handle_rsc r offset status (carveout c) =
        let (ret, after) = handle_carve_out_rsc r c in some (ret, carveout c, after)
    handle_rsc r offset status devmem = some (err_ns, devmem, r)
    handle_rsc r offset status (trace t) = some (handle_trace_rsc t, trace t, r)
    handle_rsc r offset status (vdev v) =
        handle_vdev_rsc r v >>= λ done. some (done.0, vdev done.1, done.2)
    handle_rsc r offset status (vendor rsc_type len) =
        let (ret, after) = handle_vendor_rsc r offset len in some (ret, vendor rsc_type len, after)
    handle_rsc r offset status (other rsc_type) = some (status, other rsc_type, r)

    -- The loop of `handle_rsc_table` at `idx`, with `rounds` resources to go, on a table of `size`
    -- bytes. `io` says whether an offset is in the I/O region, if there is one.
    pub handle_resources :
        (size : ℕ)
        → Option (ℕ → Bool)
        → (rounds idx : ℕ) → (status : ℤ) → Rproc X
        → Table
        → Option (ℤ × Rproc X × Table)
    handle_resources size io zero idx status r t = some (status, r, t)
    handle_resources size io (suc rounds) idx status r t = do
      require (leb (16 + 4 * (idx + 1)) size)
      let offset = t.offset idx
      if outside io offset then some (err_trunc, r, t) else (do
        require (leb (offset + reads r (t.at offset)) size)
        (ret, rsc, after) ← handle_rsc r offset status (t.at offset)
        let marked = record t { at = update t.at offset rsc }
        let rest = handle_resources size io rounds (idx + 1) (pos 0) after marked
        if is_ns ret || is_success ret then rest else some (ret, after, marked))

    -- `handle_rsc_table`
    pub handle_rsc_table :
        Rproc X → Table → (size : ℕ) → Option (ℕ → Bool) → Option (ℤ × Rproc X × Table)
    handle_rsc_table r t size io =
        if ltb size 16
        then some (err_trunc, r, t)
        else if not (t.ver == 1)
        then some (err_ver, r, t)
        else if ltb size ((16 + t.num * 4) % u32)
        then some (err_trunc, r, t)
        else if not (t.reserved.0 == 0) || not (t.reserved.1 == 0)
        then some (err_rsvd, r, t)
        else handle_resources size io t.num 0 (pos 0) r t
