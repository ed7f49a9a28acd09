-- ===== src/Remoteproc/Devices.antt =====
-- The virtio devices of a remote processor: `remoteproc_create_virtio`, `remoteproc_remove_virtio` and
-- `remoteproc_init_mem` of remoteproc/remoteproc.c. What a callback of the platform asks for is in
-- the state of the platform, `X`; the memory of the devices is a state `H`.
pub mod Mapped
pub mod Refused
use openamp_core.Prelude.{
  ℕ, zero, suc, ◌+◌, ◌-◌, ◌%◌, ◌^◌, Bool, true, false, not, ◌&&◌, ◌||◌, Option, none, some, List,
  [], ◌∷◌, ◌++◌, ℤ, pos, is_success, ltb, ◌==◌, if◌then◌else◌, ◌>>=◌, update,
}
use openamp_core.Utilities.{Chars, safe_strcpy}
use openamp_core.Vring.{Vring, vring_size}
use openamp_core.Virtqueue.State.{Role, role_of, Ptr}
use openamp_core.Virtio.Device.{Dispatch}
use openamp_core.Remoteproc.State.{Region, Mem, Mapping, Rproc, acquire, release}
use openamp_core.Remoteproc.Memory.{mmap}
use openamp_core.Remoteproc.Resources.{Table, find_rsc}
use openamp_core.Remoteproc.Load.State.{va_after}
use openamp_core.Remoteproc.Virtio.{Rpvdev}
use openamp_core.Remoteproc.Queues.{Vdev, create_vdev, remove_vdev, wait_remote_ready, init_vring}

-- `remoteproc_init_mem` of a memory that is not NULL.
pub init_mem : Mem → Option Chars → (pa da size : ℕ) → Option Region → Option Mem
init_mem mem name pa da size none = some mem
init_mem mem name pa da size (some io) = if size == 0 then some mem else (do
  copied ← elim name [
    | none ↦ some (update mem.name 0 0)
    | some source ↦ (do (n, copied) ← safe_strcpy mem.name 32 source 32; some copied)
  ]
  some (record { name = copied; pa = pa; da = da; size = size; io = io }))

-- `struct fw_rsc_vdev_vring` and `struct fw_rsc_vdev`, with the registers behind it.
pub record VringRsc : Type 0 where
  pub da : ℕ
  pub align : ℕ
  pub num : ℕ
  pub notifyid : ℕ

pub record DeviceRsc (X : Type 0) : Type 0 where
  pub id : ℕ
  pub rpvdev : Rpvdev X
  pub num_of_vrings : ℕ
  pub vring : ℕ → VringRsc

-- A remote processor with its resource table, what stands for a virtio device at an offset of that,
-- and its virtio devices, each by the offset of its resource. The registers of a device are with it
-- while it is in the list.
pub record Platform (W X H : Type 0) : Type 0 where
  pub rproc : Rproc X
  pub rsc_table : Option Table
  pub resources : ℕ → DeviceRsc X
  pub vdevs : List (ℕ × Vdev W X)
  pub heap : H

-- Whether a mapping is in its region.
abbrev pub reaches : Option Mapping → Bool
reaches none = false
reaches (some m) = elim m.io [ none ↦ false | some io ↦ io.has_virt m.va ]

-- `remoteproc_virtio_notify`, with the operation `notify` of the platform.
pub virtio_notify : {X : Type 0} → Option (X → (id : ℕ) → ℤ × X) → X → (id : ℕ) → ℤ × X
virtio_notify none world id = (pos 0, world)
virtio_notify (some op) world id = op world id

module _ {W X : Type 0} where
  -- The loop of `remoteproc_create_virtio` over the devices: the one with a notification id.
  unfoldable pub find_vdev : (notifyid : ℕ) → List (ℕ × Vdev W X) → Option ℕ
  find_vdev notifyid [] = none
  find_vdev notifyid (d ∷ ds) =
      let rest = find_vdev notifyid ds in
      if d.1.rpvdev.notifyid == notifyid then some (d.0) else rest

  -- `metal_list_del` of a device of the list.
  pub list_del : (device : ℕ) → List (ℕ × Vdev W X) → List (ℕ × Vdev W X)
  list_del device [] = []
  list_del device (d ∷ ds) = let rest = list_del device ds in if d.0 == device then ds else d ∷ rest

  -- The resources with the registers of a device of the list back in the table.
  pub written_back : (device : ℕ) → List (ℕ × Vdev W X) → (ℕ → DeviceRsc X) → ℕ → DeviceRsc X
  written_back device [] resources = resources
  written_back device (d ∷ ds) resources =
      let rest = written_back device ds resources in
      if d.0 == device
      then update resources device (record (resources device) { rpvdev = d.1.rpvdev })
      else rest

  module _ (differ : Chars → Chars → Bool) (ring_at : Ptr → Vring) where
    -- The loop of `remoteproc_create_virtio` over the vrings at `i`, with `rounds` to go: whether it
    -- came to the end. `ring_at` is the ring at an address. A region that the platform leaves unset
    -- is undefined.
    unfoldable pub init_vrings :
        DeviceRsc X → (rounds i : ℕ) → Vdev W X → Rproc X → Option (Bool × Vdev W X × Rproc X)
    init_vrings rsc zero i d r = some (true, d, r)
    init_vrings rsc (suc rounds) i d r =
        let v = rsc.vring i in
        let (mapping, after) = mmap differ r none (some (v.da)) (vring_size v.num v.align) 0 in
        let (ret, initialised) =
          init_vring d.vdev i v.notifyid (ring_at (va_after mapping)) (reaches mapping) v.num in
        let rest = init_vrings rsc rounds (i + 1) (record d { vdev = initialised }) after in
        if va_after mapping == 0
        then some (false, d, after)
        else (do m ← mapping; io ← m.io; if is_success ret then rest else some (false, d, after))

    module _ {H : Type 0} (free : H → H) where
      -- `remoteproc_remove_virtio` of a device of the list.
      pub remove_virtio : Platform W X H → (device : ℕ) → Platform W X H
      remove_virtio p device = record p {
        resources = written_back device p.vdevs p.resources;
        vdevs = list_del device p.vdevs;
        heap = remove_vdev free p.heap;
      }

      module _ (allocate : H → (size : ℕ) → Bool × H) (rpvdev_size entry_size : ℕ)
          (func : Dispatch W) (memory : W) (notify : Option (X → (id : ℕ) → ℤ × X))
          (yield : Rpvdev X → Rpvdev X) (rounds : ℕ) where
        -- The end of `remoteproc_create_virtio`, with the device that `rproc_virtio_create_vdev`
        -- made for the resource at an offset, if it did.
        pub finish :
            (at : ℕ) → Platform W X H → Option (Vdev W X) → Option (Option ℕ × Platform W X H)
        finish at p none = some (none, record p { rproc = release p.rproc })
        finish at p (some created) = do
          waited ← wait_remote_ready yield rounds created.rpvdev
          let rsc = p.resources at
          (complete, d, r) ←
              init_vrings rsc rsc.num_of_vrings 0 (record created { rpvdev = waited })
                (record p.rproc { world = waited.world })
          let added : Platform W X H = record p {
            rproc = release r;
            vdevs = p.vdevs ++ ((at, d) ∷ []);
          }
          some (if complete then (some at, added) else (none, remove_virtio added at))

        -- `remoteproc_create_virtio` behind the tests of the role.
        pub create_as : Platform W X H → (vdev_id : ℕ) → Role → Option (Option ℕ × Platform W X H)
        create_as p vdev_id role = do
          r ← acquire p.rproc
          table ← p.rsc_table
          let locked : Platform W X H = record p { rproc = r }
          let unlocked : Platform W X H = record p { rproc = release r }
          let at = find_rsc table 3 vdev_id
          let rsc = p.resources at
          let registers = record rsc.rpvdev {
            world = r.world;
            notify = λ world id. (virtio_notify notify world id).1;
          }
          let (created, heap) =
              create_vdev allocate free rpvdev_size entry_size func memory role rsc.rpvdev.notifyid
                rsc.id rsc.num_of_vrings registers p.heap
          let made = finish at (record locked { heap = heap }) created
          if at == 0 then some (none, unlocked) else elim (find_vdev rsc.rpvdev.notifyid p.vdevs) [
            | some device ↦ some (some device, unlocked)
            | none ↦ made
          ]

        -- `remoteproc_create_virtio` of a remote processor that is not NULL, for the role VIRTIO_DEV_DRIVER,
        -- 0, or VIRTIO_DEV_DEVICE, 1: the device, or NULL. VIRTIO_DRIVER_SUPPORT is 1, and
        -- `device_support` says whether VIRTIO_DEVICE_SUPPORT is, which is not so in virtio.h.
        -- `rounds` is the fuel for the wait; the notification is on the state of the platform.
        pub create_virtio :
            (device_support : Bool)
            → Platform W X H
            → (vdev_id role : ℕ) → Option (Option ℕ × Platform W X H)
        unfolding create_as
        create_virtio device_support p vdev_id role =
            if ltb 1 role || not device_support && role == 1
            then some (none, p)
            else create_as p vdev_id (role_of device_support role)
