-- ===== src/Remoteproc/Queues.antt =====
-- The virtqueues of a virtio device of a remote processor, and its creation: what
-- remoteproc/remoteproc_virtio.c does besides the registers in the resource table. The memory is a state
-- `H` of the platform's own, with what allocates in it and gives back to it as parameters.
pub mod Waits
use openamp_core.Prelude.{
  ◌&&◌, ℕ, zero, suc, ◌+◌, ◌^◌, Bool, true, false, not, ◌||◌, Option, none, some, List, [], ◌∷◌,
  ◌++◌, ◌*◌, ℤ, pos, ltb, leb, ◌==◌, if◌then◌else◌, ◌>>=◌, ◌>>◌, require, update, has_flag,
}
use openamp_core.Vring.{Vring}
use openamp_core.Virtqueue.State.{
  Status, success, error_vqueue_invld_param, error_no_mem, Role, role_is_driver, Ptr, Virtqueue,
}
use openamp_core.Virtqueue.Driver.{create}
use openamp_core.Virtqueue.Interrupts.{notification}
use openamp_core.Virtio.Device.{Dispatch, VringInfo, VirtioDevice, status_driver_ok}
use openamp_core.Virtio.Queues.{zero_vring, is_ok}
use openamp_core.Remoteproc.State.{einval}
use openamp_core.Remoteproc.Ids.{id_any}
use openamp_core.Remoteproc.Virtio.{Rpvdev, get_status, get_dfeatures, negotiate_features}

-- A virtio device of a remote processor: `struct remoteproc_virtio` with `struct virtio_device` in it.
pub record Vdev (W Y : Type 0) : Type 0 where
  pub rpvdev : Rpvdev Y
  pub vdev : VirtioDevice W

module _ {H : Type 0} (free : H → H) where
  -- The loop of `rproc_virtio_delete_virtqueues` over the entries from `i` on.
  pub free_queues : (rounds i : ℕ) → (ℕ → VringInfo) → H → H
  free_queues zero i entries heap = heap
  free_queues (suc rounds) i entries heap =
      free_queues rounds (i + 1) entries
        (elim ((entries i).vq) [ none ↦ heap | some vq ↦ free heap ])

module _ {W H : Type 0} (free : H → H) where
  -- `rproc_virtio_delete_virtqueues` of a device with entries: `virtqueue_free` gives the memory of
  -- each queue back, and the entries keep their pointers.
  pub delete_virtqueues : VirtioDevice W → H → H
  delete_virtqueues vdev heap = free_queues free vdev.vrings_num 0 vdev.vrings_info heap

  module _ (debug : Bool) (allocate_queue : H → (num_descs : ℕ) → Option Virtqueue × H)
      (callbacks : ℕ → Ptr) where
    -- `rproc_virtio_create_virtqueue`
    pub create_virtqueue : VirtioDevice W → H → (idx : ℕ) → Option (Status × VirtioDevice W × H)
    create_virtqueue vdev heap idx =
        let entry = vdev.vrings_info idx in
        let (vq, after) = allocate_queue heap entry.info.num_descs in
        let is_driver = role_is_driver vdev.role in
        let info =
          if is_driver && entry.in_io
          then record entry.info { memory = zero_vring }
          else entry.info in
        elim entry.vq [
          | some _ ↦ some (error_vqueue_invld_param, vdev, heap)
          | none ↦ elim vq [
            | none ↦ some (error_no_mem, vdev, after)
            | some cleared ↦ (do
              require (not is_driver || entry.has_io)
              func ← vdev.func
              (status, created) ←
                  create debug vdev.role (has_flag (2 ^ 29) vdev.features) idx (some info)
                    (callbacks idx) func.notify (some cleared)
              some (
                status,
                record vdev {
                  vrings_info =
                      update vdev.vrings_info idx (record entry { vq = created; info = info });
                },
                after,
              ))
          ]
        ]

    -- The loop of `rproc_virtio_create_virtqueues` at `i`, with `rounds` queues to go.
    pub create_loop : (rounds i : ℕ) → VirtioDevice W → H → Option (Status × VirtioDevice W × H)
    create_loop zero i vdev heap = some (success, vdev, heap)
    create_loop (suc rounds) i vdev heap = do
      (status, next, after) ← create_virtqueue vdev heap i
      let rest = create_loop rounds (i + 1) next after
      if is_ok status then rest else some (status, next, delete_virtqueues next after)

    -- `rproc_virtio_create_virtqueues` of a device that is not NULL and has entries.
    pub create_virtqueues : VirtioDevice W → H → (nvqs : ℕ) → Option (Status × VirtioDevice W × H)
    create_virtqueues vdev heap nvqs =
        if ltb vdev.vrings_num nvqs
        then some (error_vqueue_invld_param, vdev, heap)
        else create_loop nvqs 0 vdev heap

module _ {W Y : Type 0} where
  -- `rproc_virtio_virtqueue_notify` of the queue with an index.
  pub virtqueue_notify : Vdev W Y → (vq_id : ℕ) → Option (Vdev W Y)
  virtqueue_notify d vq_id = do
    require (ltb vq_id d.vdev.vrings_num)
    let id = (d.vdev.vrings_info vq_id).notifyid
    some (record d { rpvdev = record d.rpvdev { world = d.rpvdev.notify d.rpvdev.world id } })

module _ {Y : Type 0} where
  -- The loop of `rproc_virtio_wait_remote_ready`, with `rounds` of fuel. `yield` is what the other
  -- side does in the meantime.
  unfoldable pub wait_loop :
      (yield : Rpvdev Y → Rpvdev Y) → (rounds : ℕ) → Rpvdev Y → Option (Rpvdev Y)
  wait_loop yield zero d = none
  wait_loop yield (suc rounds) d =
      let rest = wait_loop yield rounds (yield d) in
      if has_flag status_driver_ok (get_status d) then some d else rest

  -- `rproc_virtio_wait_remote_ready`
  unfoldable pub wait_remote_ready :
      (yield : Rpvdev Y → Rpvdev Y) → (rounds : ℕ) → Rpvdev Y → Option (Rpvdev Y)
  wait_remote_ready yield rounds d =
      if role_is_driver d.role then some d else wait_loop yield rounds d

module _ {W : Type 0} where
  -- `rproc_virtio_init_vring`, with whether the ring is in the region, for a region that is set, of a ring in `memory`. `num_descs` is at most RPROC_MAX_VRING_DESC.
  pub init_vring :
      VirtioDevice W
      → (index notifyid : ℕ) → (memory : Vring) → (in_io : Bool) → (num_descs : ℕ)
      → ℤ × VirtioDevice W
  init_vring vdev index notifyid memory in_io num_descs =
      let entry = vdev.vrings_info index in
      if leb vdev.vrings_num index || ltb 65535 num_descs then (einval, vdev) else (
        pos 0,
        record vdev {
          vrings_info = update vdev.vrings_info index (record entry {
            has_io = true;
            in_io = in_io;
            notifyid = notifyid;
            info = record { memory = memory; num_descs = num_descs };
          });
        },
      )

-- The entry of a queue after `memset`.
abbrev pub zero_entry : VringInfo
zero_entry = record {
  vq = none;
  info = record { memory = zero_vring; num_descs = 0 };
  notifyid = 0;
  has_io = false;
  in_io = false;
}

module _ {W Y H : Type 0} (allocate : H → (size : ℕ) → Bool × H) (free : H → H) where
  -- The device that `rproc_virtio_create_vdev` sets up, on the registers of the resource.
  abbrev pub new_vdev : Dispatch W → W → Role → (notifyid id num_vrings : ℕ) → Rpvdev Y → Vdev W Y
  new_vdev func world role notifyid id num_vrings rsc =
      let created = record rsc { role = role; notifyid = notifyid } in
      record {
        rpvdev =
            if role_is_driver role
            then (negotiate_features created (get_dfeatures created)).1
            else created;
        vdev = record {
          role = role;
          id_device = id;
          features = 0;
          func = some func;
          vrings_num = num_vrings;
          vrings_info = λ i. zero_entry;
          world = world;
        };
      }

  -- `rproc_virtio_create_vdev`, with the sizes of the structures: the device, or NULL.
  unfoldable pub create_vdev :
      (rpvdev_size entry_size : ℕ)
      → Dispatch W
      → W
      → Role
      → (notifyid id num_vrings : ℕ) → Rpvdev Y
      → H
      → Option (Vdev W Y) × H
  create_vdev rpvdev_size entry_size func world role notifyid id num_vrings rsc heap =
      let (first, one) = allocate heap rpvdev_size in
      let (second, two) = allocate one (entry_size * num_vrings) in
      if not first
      then (none, one)
      else if not second
      then (none, free two)
      else (some (new_vdev func world role notifyid id num_vrings rsc), two)

-- `rproc_virtio_remove_vdev` of a device with entries.
unfoldable pub remove_vdev : {H : Type 0} → (free : H → H) → H → H
remove_vdev free heap = free (free heap)

-- The loop of `rproc_virtio_notified` over the entries from `i` on: the callbacks that are called.
-- `virtqueue_notification` of a queue that is NULL is undefined.
pub notify_queues : (notifyid : ℕ) → (rounds i : ℕ) → (ℕ → VringInfo) → Option (List Ptr)
notify_queues notifyid zero i entries = some []
notify_queues notifyid (suc rounds) i entries =
    let rest = notify_queues notifyid rounds (i + 1) entries in
    if not ((entries i).notifyid == notifyid || notifyid == id_any) then rest else (do
      vq ← (entries i).vq
      others ← rest
      some (elim (notification vq) [ none ↦ others | some callback ↦ callback ∷ others ]))

-- `rproc_virtio_notified` of a device that is not NULL, by the callbacks that it calls.
pub notified_queues : {W Y : Type 0} → Vdev W Y → (notifyid : ℕ) → Option (List Ptr)
notified_queues d notifyid =
    if d.rpvdev.notifyid == notifyid
    then some []
    else notify_queues notifyid d.vdev.vrings_num 0 d.vdev.vrings_info

-- The loop of `remoteproc_get_notification` over the devices of a remote processor: the callbacks
-- that are called. It answers 0.
pub get_notification : {W Y : Type 0} → List (Vdev W Y) → (notifyid : ℕ) → Option (List Ptr)
get_notification [] notifyid = some []
get_notification (d ∷ ds) notifyid = do
  called ← notified_queues d notifyid
  others ← get_notification ds notifyid
  some (called ++ others)
