-- ===== src/Remoteproc/Devices/Mapped.antt =====
-- `remoteproc_mmap` of remoteproc/remoteproc.c gives a region with each address.
use openamp_core.Prelude.{
  ℕ, ◌≡◌, ◌⊎◌, refl, ap, sym, subst, ◌∙◌, Bool, true, Option, none, some, ◌==◌, inl, inr,
  Bool-cases,
}
use openamp_core.Utilities.{Chars}
use openamp_core.Remoteproc.State.{Region, Mem, Asked, Mapping, Ops, Rproc}
use openamp_core.Remoteproc.Memory.{bad_phys, mapping_of, find_mem, get_mem, mapped, mmap}

-- A mapping has a region, or its address is NULL.
abbrev pub HasRegion : Mapping → Type 0
HasRegion m = ((io : Region) × (m.io ≡ some io)) ⊎ ((m.va == 0) ≡ true)

-- The operation `mmap` of a platform, if it has one, sets the region with each address.
abbrev pub SetsRegion :
    {X : Type 0} → Option (X → (pa da size attribute : ℕ) → Mapping × X) → Type 0
SetsRegion none = Unit {0}
SetsRegion {X} (some op) =
    (w : X) (pa da size attribute : ℕ) → HasRegion (op w pa da size attribute).0

-- What `remoteproc_mmap` has stored.
abbrev pub Located : Option Mapping → Type 0
Located none = Unit {0}
Located (some m) = HasRegion m

module _ {X : Type 0} (differ : Chars → Chars → Bool) where
  get_mem-ops : (r : Rproc X) (asked : Asked) → (get_mem differ r asked).1.ops.mmap ≡ r.ops.mmap
  unfolding get_mem
  get_mem-ops r asked = elim (Bool-cases (find_mem differ asked r.mems).1) [
    | inr known ↦ rw known refl
    | inl ask ↦ asks ask r.ops.get_mem refl
  ]
    where
      asks :
          (find_mem differ asked r.mems).1 ≡ true
          → (op : Option (X → Asked → Option Mem × X)) → r.ops.get_mem ≡ op
          → (get_mem differ r asked).1.ops.mmap ≡ r.ops.mmap
      asks ask none e = rw (get_mem, ask, e) refl
      asks ask (some f) e = rw (get_mem, ask, e) refl

  mapped_lem :
      (pa da size attribute : ℕ) (found : Option Mem) (r : Rproc X)
      → SetsRegion r.ops.mmap
      → Located (mapped differ pa da size attribute (found, r)).0
        × ((mapped differ pa da size attribute (found, r)).1.ops ≡ r.ops)
  unfolding mapped mapping_of
  mapped_lem pa da size attribute (some m) r sets = (inl (m.io, refl), refl)
  mapped_lem pa da size attribute none r sets = asks r.ops.mmap refl sets
    where
      asks :
          (op : Option (X → (pa da size attribute : ℕ) → Mapping × X))
          → r.ops.mmap ≡ op
          → SetsRegion op
          → Located (mapped differ pa da size attribute (none, r)).0
            × ((mapped differ pa da size attribute (none, r)).1.ops ≡ r.ops)
      asks none e s = rw e (inr refl, refl)
      asks (some f) e s = rw e (s r.world pa da size attribute, refl)

  -- The mapping of a device address.
  pub mmap_lem :
      (da size : ℕ) (r : Rproc X)
      → SetsRegion r.ops.mmap
      → Located (mmap differ r none (some da) size 0).0
        × ((mmap differ r none (some da) size 0).1.ops.mmap ≡ r.ops.mmap)
  unfolding mmap
  mmap_lem da size r sets = elim (Bool-cases (size == 0)) [
    | inl empty ↦ rw empty (tt, refl)
    | inr some_bytes ↦
        (let asked : Asked = record { name = none; pa = bad_phys; da = da; va = 0; size = size } in
          let same = get_mem-ops r asked in
          let (found, kept) =
            mapped_lem bad_phys da size 0 (get_mem differ r asked).0 (get_mem differ r asked).1
              (subst SetsRegion (sym same) sets) in
          rw some_bytes (found, ap (λ (o : Ops X). o.mmap) kept ∙ same))
  ]
