-- ===== src/Remoteproc/Resources/Returns.antt =====
-- The parser of the resource table returns.
use openamp_core.Prelude.{
  ℕ, zero, suc, ◌+◌, ◌*◌, ◌%◌, ◌<◌, ◌≤◌, ◌≡◌, refl, ap, sym, subst, ◌∙◌, Bool, true, false, not,
  ◌||◌, Option, none, some, ℤ, pos, is_success, ltb, leb, ◌==◌, le→leb, if◌then◌else◌, update,
  update_self, update_ne, u32, arith, inl, inr, Bool-cases, equal_or_not,
}
use openamp_core.Bitmap.{Bitmap, clear_bit}
use openamp_core.Utilities.{Chars}
use openamp_core.Remoteproc.State.{Rproc}
use openamp_core.Remoteproc.Ids.{id_any}
use openamp_core.Remoteproc.Ids.Laws.{Searchable, allocate_id-returns}
use openamp_core.Remoteproc.Resources.{
  Resource, carveout, devmem, trace, vdev, vendor, other, VdevRsc, Table, extent, outside, take_id,
  vrings_read, vrings_end, reads, take_vring_ids, free_vring_ids, handle_vdev_rsc, is_ns,
  handle_rsc, handle_resources, handle_rsc_table, err_trunc, err_ver, err_rsvd, err_np,
}

-- The first `limit` entries among the offsets, and the resources there, are within the table.
abbrev pub Within : (size limit : ℕ) → Table → Type 0
Within size limit t =
    (16 + 4 * limit ≤ size) × ((i : ℕ) → i < limit → t.offset i + extent (t.at (t.offset i)) ≤ size)

-- The resources of a table overlap neither one another nor the offsets in front of them, unless they
-- are the same.
abbrev pub Apart : Table → Type 0
Apart t =
    ((i : ℕ) → i < t.num → 16 + 4 * t.num ≤ t.offset i)
    × ((i j : ℕ)
        → i < t.num
        → j < t.num
        → t.offset i < t.offset j
        → t.offset i + extent (t.at (t.offset i)) ≤ t.offset j)

take_id-returns :
    (bitmap : Bitmap) (n : ℕ) → (id : ℕ) × (b : Bitmap) × (take_id bitmap n ≡ some (id, b))
unfolding take_id
take_id-returns bitmap n =
    allocate_id-returns bitmap n (if n == id_any then id_any else (n + 1) % u32) fine
  where
    fine : Searchable n (if n == id_any then id_any else (n + 1) % u32)
    fine = ground arith

vrings_read-le :
    (rounds i : ℕ) (ids : ℕ → ℕ) (bitmap : Bitmap) → vrings_read rounds i ids bitmap ≤ rounds
unfolding vrings_read
vrings_read-le zero i ids bitmap = omega arith
vrings_read-le (suc rounds) i ids bitmap =
    at_taken (take_id bitmap (ids i))
      (λ id taken. vrings_read-le rounds (i + 1) (update ids i id) taken)
  where
    at_taken :
        (took : Option (ℕ × Bitmap))
        → ((id : ℕ) (taken : Bitmap) → vrings_read rounds (i + 1) (update ids i id) taken ≤ rounds)
        → elim took [
          | none ↦ 1
          | some (notifyid, taken) ↦
              (let rest = vrings_read rounds (i + 1) (update ids i notifyid) taken in
                if notifyid == id_any then 1 else rest + 1)
        ]
          ≤ suc rounds
    at_taken none rest = omega arith
    at_taken (some (id, taken)) rest = elim (Bool-cases (id == id_any)) [
      | inl full ↦ rw full (omega arith)
      | inr got ↦ rw got (omega (arith, rest id taken))
    ]

vrings_end-le : (n m : ℕ) → n ≤ m → vrings_end n ≤ 28 + 20 * m
vrings_end-le zero m few = omega arith
vrings_end-le (suc n) m few = omega (arith, few)

-- A handler reads no more than the resource.
reads-le : {X : Type 0} (r : Rproc X) (rsc : Resource) → reads r rsc ≤ extent rsc
unfolding reads
reads-le r (carveout c) = omega arith
reads-le r devmem = omega arith
reads-le r (trace t) = ground arith
reads-le r (vdev v) = at_taken (take_id r.bitmap v.notifyid)
  where
    at_taken :
        (took : Option (ℕ × Bitmap))
        → elim took [
          | none ↦ 12
          | some (notifyid, taken) ↦
              if notifyid == id_any
              then 12
              else vrings_end (vrings_read v.num_of_vrings 0 v.vring_notifyid taken)
        ]
          ≤ 28 + 20 * v.num_of_vrings
    at_taken none = omega arith
    at_taken (some (id, taken)) = elim (Bool-cases (id == id_any)) [
      | inl full ↦ rw full (omega arith)
      | inr got ↦ rw got (
          vrings_end-le _ v.num_of_vrings (vrings_read-le v.num_of_vrings 0 v.vring_notifyid taken))
    ]
reads-le {X} r (vendor rsc_type len) = handled_le r.ops.handle_rsc
  where
    handled_le :
        (op : Option (X → (offset len : ℕ) → ℤ × X)) → elim op [ none ↦ 4 | some _ ↦ 8 ] ≤ 8
    handled_le none = omega arith
    handled_le (some f) = omega arith
reads-le r (other rsc_type) = omega arith

-- A resource may be replaced by one of the same extent.
Within-update :
    (size limit : ℕ) (t : Table) (o : ℕ) (out : Resource)
    → extent out ≡ extent (t.at o)
    → Within size limit t
    → Within size limit (record t { at = update t.at o out })
Within-update size limit t o out same w =
    (w.0, λ i l. subst (λ (n : ℕ). t.offset i + n ≤ size) (sym (kept (t.offset i))) (w.1 i l))
  where
    kept : (a : ℕ) → extent (update t.at o out a) ≡ extent (t.at a)
    kept a = elim (equal_or_not o a) [
      | inl here ↦
          subst (λ (x : ℕ). extent (update t.at o out x) ≡ extent (t.at x)) here
            (ap extent (update_self t.at o out) ∙ same)
      | inr other_one ↦ ap extent (update_ne t.at o a out other_one)
    ]

take_vring_ids-returns :
    (rounds i : ℕ) (ids : ℕ → ℕ) (bitmap : Bitmap)
    → (failed : Option ℕ) × (out : ℕ → ℕ) × (b : Bitmap) × (take_vring_ids rounds i ids bitmap
        ≡ some (failed, out, b))
unfolding take_vring_ids
take_vring_ids-returns zero i ids bitmap = (none, ids, bitmap, refl)
take_vring_ids-returns (suc rounds) i ids bitmap =
    let (id, taken, runs) = take_id-returns bitmap (ids i) in
    let (failed, out, b, rest) = take_vring_ids-returns rounds (i + 1) (update ids i id) taken in
    elim (Bool-cases (id == id_any)) [
      | inl full ↦ (some i, ids, taken, rw (runs, full) refl)
      | inr got ↦ (failed, out, b, rw (runs, got) rest)
    ]

module _ {X : Type 0} where
  handle_vdev_rsc-returns :
      (r : Rproc X) (v : VdevRsc)
      → (ret : ℤ) × (w : VdevRsc) × (s : Rproc X) × (handle_vdev_rsc r v ≡ some (ret, w, s))
        × (w.num_of_vrings ≡ v.num_of_vrings)
  unfolding handle_vdev_rsc
  handle_vdev_rsc-returns r v =
      let (id, taken, runs) = take_id-returns r.bitmap v.notifyid in
      let (failed, out, b, rest) =
        take_vring_ids-returns v.num_of_vrings 0 v.vring_notifyid taken in
      elim (Bool-cases (id == id_any)) [
        | inl full ↦ (err_np, v, record r { bitmap = taken }, rw (runs, full) refl, refl)
        | inr got ↦ ended id taken b out failed runs got rest
      ]
    where
      ended :
          (id : ℕ) (taken b : Bitmap) (out : ℕ → ℕ) (failed : Option ℕ)
          → take_id r.bitmap v.notifyid ≡ some (id, taken)
          → (id == id_any) ≡ false
          → take_vring_ids v.num_of_vrings 0 v.vring_notifyid taken ≡ some (failed, out, b)
          → (ret : ℤ) × (w : VdevRsc) × (s : Rproc X) × (handle_vdev_rsc r v ≡ some (ret, w, s))
            × (w.num_of_vrings ≡ v.num_of_vrings)
      ended id taken b out none runs got rest = (
        pos 0,
        record v { notifyid = id; vring_notifyid = out },
        record r { bitmap = b },
        rw (runs, got, rest) refl,
        refl,
      )
      ended id taken b out (some i) runs got rest = (
        err_np,
        record v { notifyid = id; vring_notifyid = out },
        record r { bitmap = clear_bit (free_vring_ids i out b) id },
        rw (runs, got, rest) refl,
        refl,
      )

  module _ (differ : Chars → Chars → Bool) where
    handle_rsc-returns :
        (r : Rproc X) (offset : ℕ) (status : ℤ) (rsc : Resource)
        → (ret : ℤ) × (out : Resource) × (s : Rproc X) × (handle_rsc differ r offset status rsc
            ≡ some (ret, out, s))
          × (extent out ≡ extent rsc)
    unfolding handle_rsc
    handle_rsc-returns r offset status (carveout c) = (_, _, _, refl, refl)
    handle_rsc-returns r offset status devmem = (_, _, _, refl, refl)
    handle_rsc-returns r offset status (trace t) = (_, _, _, refl, refl)
    handle_rsc-returns r offset status (vdev v) =
        let (ret, w, s, runs, same) = handle_vdev_rsc-returns r v in
        (ret, vdev w, s, rw runs refl, ap (λ (n : ℕ). 28 + 20 * n) same)
    handle_rsc-returns r offset status (vendor rsc_type len) = (_, _, _, refl, refl)
    handle_rsc-returns r offset status (other rsc_type) = (_, _, _, refl, refl)

    handle_resources-returns :
        (size rounds idx limit : ℕ) (io : Option (ℕ → Bool)) (status : ℤ) (r : Rproc X) (t : Table)
        → Within size limit t
        → idx + rounds ≡ limit
        → (ret : ℤ) × (s : Rproc X) × (u : Table) × (handle_resources differ size io rounds idx
              status r t
            ≡ some (ret, s, u))
    unfolding handle_resources
    handle_resources-returns size zero idx limit io status r t w e = (status, r, t, refl)
    handle_resources-returns size (suc rounds) idx limit io status r t w e =
        let offset = t.offset idx in
        let (ret, out, s, runs, same) = handle_rsc-returns r offset status (t.at offset) in
        let marked : Table = record t { at = update t.at offset out } in
        let (ret', s', u, rest) =
          handle_resources-returns size rounds (idx + 1) limit io (pos 0) s marked
            (Within-update size limit t offset out same w) (omega (arith, e)) in
        let entry : leb (16 + 4 * (idx + 1)) size ≡ true =
          le→leb (16 + 4 * (idx + 1)) size (omega (arith, w.0, e)) in
        let body : leb (offset + reads r (t.at offset)) size ≡ true =
          le→leb (offset + reads r (t.at offset)) size
            (omega (arith, w.1 idx (omega (arith, e)), reads-le r (t.at offset))) in
        elim (Bool-cases (outside io offset)) [
          | inl far ↦ (err_trunc, r, t, rw (entry, far) refl)
          | inr near ↦ elim (Bool-cases (is_ns ret || is_success ret)) [
            | inl goes_on ↦ (ret', s', u, rw (entry, near, body, runs, goes_on) rest)
            | inr ends ↦ (ret, s, marked, rw (entry, near, body, runs, ends) refl)
          ]
        ]

    -- A table whose offsets and resources are all within its `size` bytes, and whose resources overlap
    -- neither one another nor the offsets, is parsed to the end or to
    -- the first resource that fails, without a read out of bounds.
    pub handle_rsc_table-returns :
        (size : ℕ) (io : Option (ℕ → Bool)) (r : Rproc X) (t : Table)
        → Within size t.num t
        → Apart t
        → (ret : ℤ) × (s : Rproc X) × (u : Table) × (handle_rsc_table differ r t size io
            ≡ some (ret, s, u))
    unfolding handle_rsc_table
    handle_rsc_table-returns size io r t w apart =
        let (ret, s, u, runs) =
          handle_resources-returns size t.num 0 t.num io (pos 0) r t w (omega arith) in
        elim (Bool-cases (ltb size 16)) [
          | inl short ↦ (err_trunc, r, t, rw short refl)
          | inr long ↦ elim (Bool-cases (t.ver == 1)) [
            | inr unknown ↦ (err_ver, r, t, rw (long, unknown) refl)
            | inl known ↦ elim (Bool-cases (ltb size ((16 + t.num * 4) % u32))) [
              | inl cut ↦ (err_trunc, r, t, rw (long, known, cut) refl)
              | inr whole ↦ elim (Bool-cases (not (t.reserved.0 == 0) || not (t.reserved.1 == 0))) [
                | inl set ↦ (err_rsvd, r, t, rw (long, known, whole, set) refl)
                | inr clear ↦ (ret, s, u, rw (long, known, whole, clear) runs)
              ]
            ]
          ]
        ]
