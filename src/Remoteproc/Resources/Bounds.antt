-- ===== src/Remoteproc/Resources/Bounds.antt =====
-- What `handle_rsc_table` reads.
use openamp_core.Prelude.{
  ℕ, zero, suc, ◌==◌, if◌then◌else◌, Option, some, ℤ, ◌+◌, ◌*◌, ◌%◌, ◌<◌, ◌≤◌, ◌≡◌, refl, ap, ◌∙◌,
  Bool, false, none, pos, ltb, leb, u32, arith, inl, inr, Bool-cases,
}
use openamp_core.Bitmap.{Bitmap}
use openamp_core.Remoteproc.Ids.{id_any}
use openamp_core.Utilities.{Chars}
use openamp_core.Remoteproc.State.{Rproc}
use openamp_core.Remoteproc.Resources.{
  Resource, carveout, devmem, trace, vdev, vendor, other, Table, take_id, vrings_read, vrings_end,
  reads, handle_resources, handle_rsc_table,
}

module _ {X : Type 0} (differ : Chars → Chars → Bool) where
  -- The type of a resource is read in any case.
  reads_ge : (r : Rproc X) (rsc : Resource) → 4 ≤ reads r rsc
  unfolding reads
  reads_ge r (carveout c) = omega arith
  reads_ge r devmem = omega arith
  reads_ge r (trace t) = ground arith
  reads_ge r (vdev v) = taken_ge (take_id r.bitmap v.notifyid)
    where
      end_ge : (n : ℕ) → 4 ≤ vrings_end n
      end_ge zero = omega arith
      end_ge (suc n) = omega arith

      taken_ge :
          (taken : Option (ℕ × Bitmap))
          → 4 ≤ elim taken [
            | none ↦ 12
            | some (notifyid, bitmap) ↦
                if notifyid == id_any
                then 12
                else vrings_end (vrings_read v.num_of_vrings 0 v.vring_notifyid bitmap)
          ]
      taken_ge none = omega arith
      taken_ge (some (notifyid, bitmap)) = elim (Bool-cases (notifyid == id_any)) [
        | inl full ↦ rw full (omega arith)
        | inr got ↦ rw got (end_ge (vrings_read v.num_of_vrings 0 v.vring_notifyid bitmap))
      ]
  reads_ge r (vendor rsc_type len) = handled_ge r.ops.handle_rsc
    where
      handled_ge :
          (op : Option (X → (offset len : ℕ) → ℤ × X)) → 4 ≤ elim op [ none ↦ 4 | some _ ↦ 8 ]
      handled_ge none = omega arith
      handled_ge (some f) = omega arith
  reads_ge r (other rsc_type) = omega arith

  -- A round at a resource that is not within the table.
  round_overruns :
      (r : Rproc X) (t : Table) (size n : ℕ)
      → size < t.offset 0 + 4
      → handle_resources differ size none (suc n) 0 (pos 0) r t ≡ none
  unfolding handle_resources
  round_overruns r t size n beyond =
      let outside : leb (t.offset 0 + reads r (t.at (t.offset 0))) size ≡ false =
        ground (arith, beyond, reads_ge r (t.at (t.offset 0))) in
      elim (Bool-cases (leb (16 + 4 * (0 + 1)) size)) [
        | inl entry ↦ rw (entry, outside) refl
        | inr no_entry ↦ rw no_entry refl
      ]

  -- The header of a table that is not empty, in local memory, may be in order, and so that the type of
  -- its first resource is not within the `size` bytes of the table: the parser reads it out of bounds.
  pub handle_rsc_table-overruns :
      (r : Rproc X) (t : Table) (size n : ℕ)
      → t.num ≡ suc n
      → t.ver ≡ 1
      → t.reserved ≡ (0, 0)
      → 16 + t.num * 4 ≤ size
      → size < u32
      → size < t.offset 0 + 4
      → handle_rsc_table differ r t size none ≡ none
  unfolding handle_rsc_table
  handle_rsc_table-overruns r t size n num ver rsvd room small beyond =
      let long : ltb size 16 ≡ false = ground (arith, room) in
      let fits : ltb size ((16 + t.num * 4) % u32) ≡ false = ground (arith, room, small) in
      let rest : handle_resources differ size none t.num 0 (pos 0) r t ≡ none =
        ap (λ (m : ℕ). handle_resources differ size none m 0 (pos 0) r t) num
        ∙ round_overruns r t size n beyond in
      rw (rest, long, ver, fits, ap (λ p. p.0) rsvd, ap (λ p. p.1) rsvd) refl
