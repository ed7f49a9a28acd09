-- ===== src/Remoteproc/Devices/Refused.antt =====
-- `remoteproc_create_virtio` of remoteproc/remoteproc.c when one of the vrings cannot be set up.
use openamp_core.Prelude.{
  ℕ, zero, suc, ◌+◌, ◌-◌, ◌≡◌, ◌∙◌, refl, sym, subst, ap, Bool, true, false, not, ◌&&◌, ◌||◌, ltb,
  Option, none, some, List, [], ◌∷◌, ◌++◌, ◌==◌, if◌then◌else◌, ==_refl, is_success, Bool-cases,
  inl, inr, ℤ, ◌⊎◌, ◌*◌, arith,
}
use mathlib.Core.Bool.{true≢false}
use openamp_core.Utilities.{Chars}
use openamp_core.Vring.{Vring, vring_size}
use openamp_core.Virtqueue.State.{Role, driver, role_is_driver, Ptr}
use openamp_core.Virtio.Device.{Dispatch}
use openamp_core.Remoteproc.State.{Mapping, Rproc}
use openamp_core.Remoteproc.Memory.{mmap}
use openamp_core.Remoteproc.Resources.{Table, find_rsc}
use openamp_core.Remoteproc.Virtio.{Rpvdev, negotiate_features, set_features, get_dfeatures}
use openamp_core.Remoteproc.Queues.{
  Vdev, new_vdev, create_vdev, remove_vdev, wait_loop, wait_remote_ready, init_vring,
}
use openamp_core.Remoteproc.Devices.{
  DeviceRsc, Platform, virtio_notify, find_vdev, list_del, init_vrings, remove_virtio, finish,
  create_as, create_virtio,
}
use openamp_core.Remoteproc.Devices.Mapped.{SetsRegion, Located, mmap_lem}

module _ {W X : Type 0} where
  -- Whether no device of the list is that of the resource at an offset.
  unfoldable pub absent : (at : ℕ) → List (ℕ × Vdev W X) → Bool
  absent at [] = true
  absent at (d ∷ ds) = let rest = absent at ds in if d.0 == at then false else rest

  -- A device that was added behind the others is the one that is deleted.
  list_del-add :
      (at : ℕ) (d : Vdev W X) (ds : List (ℕ × Vdev W X))
      → absent at ds ≡ true
      → list_del at (ds ++ ((at, d) ∷ [])) ≡ ds
  unfolding absent list_del
  list_del-add at d [] new = rw (==_refl at) refl
  list_del-add at d (e ∷ ds) new = elim (Bool-cases (e.0 == at)) [
    | inl same ↦
        absurd (true≢false (sym (subst (λ b. (if b then false else absent at ds) ≡ true) same new)))
    | inr other ↦ rw other (
        ap (λ l. e ∷ l)
          (list_del-add at d ds
            (subst (λ b. (if b then false else absent at ds) ≡ true) other new)))
  ]

module _ {W X : Type 0} (differ : Chars → Chars → Bool) (ring_at : Ptr → Vring) where
  -- The loop over the vrings ends.
  init_vrings-returns :
      (rsc : DeviceRsc X) (rounds i : ℕ) (d : Vdev W X) (r : Rproc X)
      → SetsRegion r.ops.mmap
      → (complete : Bool) × (e : Vdev W X) × (s : Rproc X) × (init_vrings differ ring_at rsc rounds
            i d r
          ≡ some (complete, e, s))
  unfolding init_vrings
  init_vrings-returns rsc zero i d r sets = (true, d, r, refl)
  init_vrings-returns rsc (suc rounds) i d r sets =
      let v = rsc.vring i in
      let size = vring_size v.num v.align in
      let (found, same) = mmap_lem differ v.da size r sets in
      at_mapping (mmap differ r none (some v.da) size 0).0 (mmap differ r none (some v.da) size 0).1
        refl found (subst SetsRegion (sym same) sets)
        (λ e s ok. init_vrings-returns rsc rounds (i + 1) e s ok)
    where
      at_mapping :
          (mapping : Option Mapping) (after : Rproc X)
          → mmap differ r none
              (some (rsc.vring i).da)
              (vring_size (rsc.vring i).num (rsc.vring i).align)
              0
            ≡ (mapping, after)
          → Located mapping
          → SetsRegion after.ops.mmap
          → ((next : Vdev W X) (q : Rproc X)
              → SetsRegion q.ops.mmap
              → (complete : Bool) × (e : Vdev W X) × (s : Rproc X) × (init_vrings differ ring_at rsc
                    rounds
                    (i + 1)
                    next
                    q
                  ≡ some (complete, e, s)))
          → (complete : Bool) × (e : Vdev W X) × (s : Rproc X) × (init_vrings differ ring_at rsc
                (suc rounds)
                i
                d
                r
              ≡ some (complete, e, s))
      at_mapping none after e found sets' again = (false, d, after, rw e refl)
      at_mapping (some m) after e found sets' again = elim (Bool-cases (m.va == 0)) [
        | inl null ↦ (false, d, after, rw (e, null) refl)
        | inr there ↦ elim found [
          | inr null ↦ absurd (true≢false (sym null ∙ there))
          | inl (io, set) ↦
              (let v = rsc.vring i in
                let (ret, vdev) =
                  init_vring d.vdev i v.notifyid (ring_at m.va) (io.has_virt m.va) v.num in
                let (complete, f, s, rest) = again (record d { vdev = vdev }) after sets' in
                elim (Bool-cases (is_success ret)) [
                  | inl ok ↦ (complete, f, s, rw (e, there, set, ok) rest)
                  | inr bad ↦ (false, d, after, rw (e, there, set, bad) refl)
                ])
        ]
      ]

module _ {W X H : Type 0} (differ : Chars → Chars → Bool) (ring_at : Ptr → Vring) (free : H → H)
    (allocate : H → (size : ℕ) → Bool × H) (rpvdev_size entry_size : ℕ) (func : Dispatch W)
    (memory : W) (notify : Option (X → (id : ℕ) → ℤ × X)) (yield : Rpvdev X → Rpvdev X) (rounds : ℕ)
    (in_use : H → ℕ)
    (allocates : (heap : H) (size : ℕ)
      → in_use (allocate heap size).1
        ≡ (if (allocate heap size).0 then in_use heap + 1 else in_use heap))
    (frees : (heap : H) → in_use (free heap) ≡ in_use heap - 1) where
  created_lem :
      (notifyid id num_vrings : ℕ) (registers : Rpvdev X) (heap : H)
      → let made =
          create_vdev allocate free rpvdev_size entry_size func memory driver notifyid id num_vrings
            registers heap in
        ((made.0 ≡ none) × (in_use made.1 ≡ in_use heap))
        ⊎ ((d : Vdev W X) × (made.0 ≡ some d)
            × (d.rpvdev.role ≡ driver)
            × (in_use made.1 ≡ in_use heap + 2))
  unfolding create_vdev negotiate_features set_features get_dfeatures
  created_lem notifyid id num_vrings registers heap =
      let one = allocate heap rpvdev_size in
      let two = allocate one.1 (entry_size * num_vrings) in
      elim (Bool-cases one.0) [
        | inr bad ↦ inl (rw bad refl, rw bad (allocates heap rpvdev_size ∙ rw bad refl))
        | inl ok ↦
            (let first : in_use one.1 ≡ in_use heap + 1 = allocates heap rpvdev_size ∙ rw ok refl in
              elim (Bool-cases two.0) [
                | inr bad ↦
                    (let second : in_use two.1 ≡ in_use one.1 =
                        allocates one.1 (entry_size * num_vrings) ∙ rw bad refl in
                      inl (
                        rw (ok, bad) refl,
                        rw (ok, bad) (frees two.1 ∙ omega (arith, first, second)),
                      ))
                | inl fine ↦
                    (let second : in_use two.1 ≡ in_use one.1 + 1 =
                        allocates one.1 (entry_size * num_vrings) ∙ rw fine refl in
                      inr (
                        new_vdev allocate free func memory driver notifyid id num_vrings registers,
                        rw (ok, fine) refl,
                        refl,
                        rw (ok, fine) (omega (arith, first, second)),
                      ))
              ])
      ]

  wait_driver : (d : Rpvdev X) → d.role ≡ driver → wait_remote_ready yield rounds d ≡ some d
  unfolding wait_remote_ready
  wait_driver d role =
      ap (λ (side : Role). if role_is_driver side then some d else wait_loop yield rounds d) role

  finish_lem :
      (at : ℕ) (p : Platform W X H) (created : Vdev W X) (n : ℕ)
      → created.rpvdev.role ≡ driver
      → SetsRegion p.rproc.ops.mmap
      → absent at p.vdevs ≡ true
      → in_use p.heap ≡ n + 2
      → (answer : Option ℕ) × (q : Platform W X H) × (finish differ ring_at free allocate
            rpvdev_size entry_size func memory notify yield rounds at p
            (some created)
          ≡ some (answer, q))
        × (q.rproc.locked ≡ false)
        × (answer ≡ none → (q.vdevs ≡ p.vdevs) × (in_use q.heap ≡ n))
  unfolding finish remove_virtio remove_vdev
  finish_lem at p created n role sets new heap =
      let rsc = p.resources at in
      let (complete, d, r, runs) =
        init_vrings-returns differ ring_at rsc rsc.num_of_vrings 0 created
          (record p.rproc { world = created.rpvdev.world }) sets in
      let added : Platform W X H = record p {
        rproc = record r { locked = false };
        vdevs = p.vdevs ++ ((at, d) ∷ []);
      } in
      elim (Bool-cases complete) [
        | inl done ↦ (
          some at,
          added,
          rw (wait_driver created.rpvdev role, runs, done) refl,
          refl,
          λ e. absurd (cc),
        )
        | inr early ↦ (
          none,
          remove_virtio differ ring_at free added at,
          rw (wait_driver created.rpvdev role, runs, early) refl,
          refl,
          λ e. (
            list_del-add at d p.vdevs new,
            frees (free p.heap) ∙ omega (arith, frees p.heap, heap),
          ),
        )
      ]

  finish-none :
      (at : ℕ) (p : Platform W X H)
      → finish differ ring_at free allocate rpvdev_size entry_size func memory notify yield rounds
          at p none
        ≡ some (none, record p { rproc = record p.rproc { locked = false } })
  unfolding finish
  finish-none at p = refl

  -- The remote processor with a resource table.
  abbrev has_table : Platform W X H → Table → Platform W X H
  has_table p table = record p { rsc_table = some table }

  -- How `remoteproc_create_virtio` for a driver ends.
  abbrev Ends : (vdev_id : ℕ) → Platform W X H → Type 0
  Ends vdev_id p =
      (answer : Option ℕ) × (q : Platform W X H) × (create_virtio differ ring_at free allocate
          rpvdev_size entry_size func memory notify yield rounds false p vdev_id 0
        ≡ some (answer, q))
      × (q.rproc.locked ≡ false)
      × (answer ≡ none → (q.vdevs ≡ p.vdevs) × (in_use q.heap ≡ in_use p.heap))

  driver_returns :
      (p : Platform W X H) (vdev_id : ℕ) (table : Table)
      → p.rproc.locked ≡ false
      → SetsRegion p.rproc.ops.mmap
      → (find_vdev (p.resources (find_rsc table 3 vdev_id)).rpvdev.notifyid p.vdevs ≡ none
          → absent (find_rsc table 3 vdev_id) p.vdevs ≡ true)
      → Ends vdev_id (has_table p table)
  unfolding create_virtio create_as
  driver_returns p vdev_id table unlocked sets new =
      elim (Bool-cases (find_rsc table 3 vdev_id == 0)) [
        | inl unknown ↦ (
          none,
          record (has_table p table) { rproc = record p.rproc { locked = false } },
          rw (unlocked, unknown) refl,
          refl,
          λ e. (refl, refl),
        )
        | inr there ↦
            listed (find_vdev (p.resources (find_rsc table 3 vdev_id)).rpvdev.notifyid p.vdevs) refl
              there
      ]
    where
      at : ℕ
      at = find_rsc table 3 vdev_id

      rsc : DeviceRsc X
      rsc = p.resources at

      registers : Rpvdev X
      registers = record rsc.rpvdev {
        world = p.rproc.world;
        notify = λ world id. (virtio_notify notify world id).1;
      }

      made : Option (Vdev W X) × H
      made =
          create_vdev allocate free rpvdev_size entry_size func memory driver rsc.rpvdev.notifyid
            rsc.id rsc.num_of_vrings registers p.heap

      listed :
          (found : Option ℕ)
          → find_vdev rsc.rpvdev.notifyid p.vdevs ≡ found
          → (at == 0) ≡ false
          → (answer : Option ℕ) × (q : Platform W X H) × (create_virtio differ ring_at free allocate
                rpvdev_size entry_size func memory notify yield rounds false
                (has_table p table)
                vdev_id
                0
              ≡ some (answer, q))
            × (q.rproc.locked ≡ false)
            × (answer ≡ none → (q.vdevs ≡ p.vdevs) × (in_use q.heap ≡ in_use p.heap))
      listed (some device) e there = (
        some device,
        record (has_table p table) { rproc = record p.rproc { locked = false } },
        rw (unlocked, there, e) refl,
        refl,
        λ x. absurd (cc),
      )
      listed none e there =
          elim (created_lem rsc.rpvdev.notifyid rsc.id rsc.num_of_vrings registers p.heap) [
            | inl (failed, same) ↦ (
              none,
              record (has_table p table) {
                rproc = record p.rproc { locked = false };
                heap = made.1;
              },
              rw (unlocked, there, e, failed)
                  (finish-none at (record (has_table p table) {
                    rproc = record p.rproc { locked = true };
                    heap = made.1;
                  })),
              refl,
              λ x. (refl, same),
            )
            | inr (d, is, role, two) ↦
                (let (answer, q, runs, free_again, kept) =
                    finish_lem at
                      (record (has_table p table) {
                        rproc = record p.rproc { locked = true };
                        heap = made.1;
                      })
                      d (in_use p.heap) role sets (new e) two in
                  (answer, q, rw (unlocked, there, e, is) runs, free_again, kept))
          ]

  -- In the build of virtio.h, without VIRTIO_DEVICE_SUPPORT: on an unlocked remote processor with a
  -- resource table, `remoteproc_create_virtio` returns, for any role, if the operation `mmap` of the
  -- platform, where it has one, sets the region with each address, and no device of the list stands
  -- at the resource that is asked for when none has its notification id. The remote processor is then
  -- unlocked. If the answer is NULL, as for the role of a device, for an allocation that fails, or for
  -- a vring that cannot be mapped or is too large, it has the devices that it had, and as much memory
  -- is in use as before. `in_use` is what the allocator counts.
  pub create_virtio-returns :
      (p : Platform W X H) (vdev_id role : ℕ) (table : Table)
      → p.rproc.locked ≡ false
      → p.rsc_table ≡ some table
      → SetsRegion p.rproc.ops.mmap
      → (find_vdev (p.resources (find_rsc table 3 vdev_id)).rpvdev.notifyid p.vdevs ≡ none
          → absent (find_rsc table 3 vdev_id) p.vdevs ≡ true)
      → (answer : Option ℕ) × (q : Platform W X H) × (create_virtio differ ring_at free allocate
            rpvdev_size entry_size func memory notify yield rounds false p vdev_id role
          ≡ some (answer, q))
        × (q.rproc.locked ≡ false)
        × (answer ≡ none → (q.vdevs ≡ p.vdevs) × (in_use q.heap ≡ in_use p.heap))
  unfolding create_virtio create_as
  create_virtio-returns p vdev_id zero table unlocked present sets new =
      subst (Ends vdev_id) (ap (λ (t : Option Table). record p { rsc_table = t }) (sym present))
        (driver_returns p vdev_id table unlocked sets new)
  create_virtio-returns p vdev_id (suc role) table unlocked present sets new =
      let refused : (ltb 1 (suc role) || not false && suc role == 1) ≡ true = ground arith in
      (none, p, rw refused refl, unlocked, λ e. (refl, refl))
