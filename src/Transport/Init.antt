-- ===== src/Transport/Init.antt =====
-- Setting a device up: `rpmsg_init_vdev_with_config` and `rpmsg_deinit_vdev` of rpmsg_virtio.c.
pub mod Fill
pub mod Teardown
use openamp_core.Prelude.{
  ℕ, zero, suc, ◌+◌, ◌-◌, Bool, true, false, not, ◌&&◌, ◌||◌, Option, none, some, List, [], ◌∷◌, ℤ,
  pos, negsuc, is_success, ◌==◌, if◌then◌else◌, ◌>>=◌, ◌>>◌, require, update, has_flag,
}
use openamp_core.Utilities.{Chars}
use openamp_core.Virtqueue.State.{
  Role, driver, device, role_is_driver, role_is_device, Status, success, error_vring_full,
  error_vring_align, error_no_mem, error_vring_no_buff, error_vqueue_invld_param, Ptr, Io,
  Virtqueue,
}
use openamp_core.Virtqueue.Driver.{add_buffer}
use openamp_core.Virtqueue.Interrupts.{disable_cb}
use openamp_core.Virtio.Device.{
  VirtioDevice, VringInfo, get_status, set_status, get_features, delete_virtqueues,
  status_driver_ok, status_needs_reset,
}
use openamp_core.Virtio.Queues.{is_ok, create_virtqueues}
use openamp_core.Rpmsg.Address.{rpmsg_success, rpmsg_err_param}
use openamp_core.Rpmsg.Endpoint.{Device, register_endpoint, destroy_ept}
use openamp_core.Transport.Header.{Hdr}
use openamp_core.Transport.Pool as Pool
use openamp_core.Transport.Pool.{ShmPool}
use openamp_core.Transport.State.{Config, Rvdev, Env, locate_data}

-- The codes of virtqueue.h as numbers.
abbrev pub status_code : Status → ℤ
status_code success = pos 0
status_code error_vring_full = negsuc 3000
status_code error_no_mem = negsuc 3003
status_code error_vring_align = negsuc 3005
status_code error_vring_no_buff = negsuc 3006
status_code error_vqueue_invld_param = negsuc 3007

abbrev pub rpmsg_err_no_buff : ℤ
rpmsg_err_no_buff = negsuc 2001

-- "NS"
abbrev ns_name : Chars
ns_name i = if i == 0 then 78 else if i == 1 then 83 else 0

abbrev zero_hdr : Hdr
zero_hdr = record { src = 0; dst = 0; reserved = 0; len = 0; flags = 0 }

-- The addresses of the two callbacks that the driver and the device give to their queues, of the
-- callback of the name service and of the endpoint of the name service.
pub record Addresses : Type 0 where
  pub rx_callback : Ptr
  pub tx_callback : Ptr
  pub ns_callback : Ptr
  pub ns_ept : Ptr

module _ {W V : Type 0} (env : Env W V) (debug : Bool) where
  -- `rpmsg_virtio_wait_remote_ready`: the answer, with the device after it. `none` if the fuel runs
  -- out.
  pub wait_remote_ready : (fuel : ℕ) → VirtioDevice V → Option (ℤ × VirtioDevice V)
  wait_remote_ready zero vdev = none
  wait_remote_ready (suc fuel) vdev =
      let (ret, status, asked) = get_status vdev in
      elim (is_success ret) [
        | false ↦ some (ret, asked)
        | true ↦ elim (has_flag status_needs_reset status) [
          | true ↦
              (let (ret, reset) = set_status asked 0 in
                elim (is_success ret) [
                  | false ↦ some (ret, reset)
                  | true ↦ wait_remote_ready fuel reset
                ])
          | false ↦ elim (has_flag status_driver_ok status) [
            | true ↦ some (pos 0, asked)
            | false ↦ wait_remote_ready fuel asked
          ]
        ]
      ]

  -- A round of the loop for the receive queue: a buffer is cleared and given to the queue.
  pub give_buffer : (buffer : Ptr) → Rvdev W V → Option (Status × Rvdev W V)
  give_buffer buffer r = do
    let cleared = record r {
      hdr = update r.hdr buffer zero_hdr;
      payload = update r.payload (locate_data buffer) (λ i. 0);
    }
    (status, rvq) ←
        add_buffer debug cleared.rvq (record { buf = buffer; len = r.config.r2h_buf_size } ∷ []) 0 1
          buffer
    some (status, record cleared { rvq = rvq })

  -- The loop that gives the receive queue its buffers, with `rounds` to go: the status, the pool
  -- from which they are taken and the device.
  pub fill_rvq : (rounds : ℕ) → Option ShmPool → Rvdev W V → Option (ℤ × Option ShmPool × Rvdev W V)
  fill_rvq zero pool r = some (pos 0, pool, r)
  fill_rvq (suc rounds) pool r =
      let (buffer, rest) = Pool.get_buffer pool r.config.r2h_buf_size in
      if buffer == 0
      then some (rpmsg_err_no_buff, rest, r)
      else (give_buffer buffer r >>= λ given.
          let further = fill_rvq rounds rest given.1 in
          if is_ok given.0 then further else some (status_code given.0, rest, given.1))

  -- Handing the two queues over: which of the two is for receiving depends on the role. The
  -- transmit queue has its callback disabled.
  pub take_queues : Io → Rvdev W V → Option (Rvdev W V)
  take_queues io r = do
    first ← (r.vdev.vrings_info 0).vq
    second ← (r.vdev.vrings_info 1).vq
    let is_driver = role_is_driver r.vdev.role
    silent ← disable_cb debug (if is_driver then second else first)
    some (record r {
      rvq = record (if is_driver then first else second) { shm_io = io };
      svq = record silent { shm_io = io };
    })

  -- The end of `rpmsg_init_vdev_with_config`, from the list of endpoints on.
  pub finish_init : Addresses → Rvdev W V → Option (ℤ × Rvdev W V)
  finish_init at r = do
    let bare = record r.rdev { endpoints = [] }
    rdev ←
        (if bare.support_ns
          then register_endpoint bare at.ns_ept (some ns_name) 53 53 at.ns_callback 0 0
          else some bare)
    let listed = record r { rdev = rdev }
    if role_is_driver listed.vdev.role
        then (let (status, vdev) = set_status listed.vdev status_driver_ok in
            if is_success status
            then some (rpmsg_success, record listed { vdev = vdev })
            else some (status, record listed { vdev = delete_virtqueues vdev }))
        else some (rpmsg_success, listed)

  -- The buffers of the receive queue, which the driver gives. `pools` are the pool at `shpool` and
  -- the one behind it, of which the second is for sending if the memory is split.
  pub give_buffers : Addresses → ShmPool × ShmPool → Rvdev W V → Option (ℤ × Rvdev W V)
  unfolding fill_rvq finish_init
  give_buffers at pools r = do
    (status, left, filled) ← fill_rvq r.rvq.nentries (some pools.0) r
    let own = record filled { shpool = if filled.config.split_shpool then some pools.1 else left }
    if is_success status
        then finish_init at own
        else some (status, record own { vdev = delete_virtqueues own.vdev })

  -- From the creation of the queues on. A pool is there for the driver only. For a role that is not
  -- supported, the names and the callbacks of the queues are not set.
  pub start_queues :
      Addresses → Io → Option (ShmPool × ShmPool) → Rvdev W V → Option (ℤ × Rvdev W V)
  unfolding take_queues give_buffers
  start_queues at io pools r = do
    let is_driver = role_is_driver r.vdev.role
    require (is_driver || role_is_device r.vdev.role)
    let callbacks : ℕ → Ptr =
        λ i. if i == (if is_driver then 0 else 1) then at.rx_callback else at.tx_callback
    (status, vdev) ← create_virtqueues debug callbacks r.vdev 2
    let made = record r { vdev = vdev; reclaimer = [] }
    if is_ok status
        then (take_queues io made >>= λ taken. elim pools [
          | some ps ↦ give_buffers at ps taken
          | none ↦ finish_init at taken
        ])
        else some (status_code status, made)

  -- The checks of the driver's pools: NULL, and empty ones.
  pub pools_status : Option (ShmPool × ShmPool) → (split : Bool) → ℤ
  pools_status none split = rpmsg_err_param
  pools_status (some pools) split =
      if (pools.0.size == 0) || ((if split then pools.1 else pools.0).size == 0)
      then rpmsg_err_no_buff
      else rpmsg_success

  -- `rpmsg_init_vdev_with_config` from the features on; for a device, `pools` is not looked at.
  pub init_features :
      Addresses → Io → Option (ShmPool × ShmPool) → Rvdev W V → Option (ℤ × Rvdev W V)
  unfolding start_queues pools_status
  init_features at io pools r =
      let (status, features, vdev) = get_features r.vdev in
      let known = record r {
        vdev = vdev;
        rdev = record r.rdev {
          support_ns = if is_success status then has_flag 1 features else r.rdev.support_ns;
        };
      } in
      if not (is_success status)
      then some (status, known)
      else if role_is_driver vdev.role
      then (let checked = pools_status pools known.config.split_shpool in
          if is_success checked then start_queues at io pools known else some (checked, known))
      else start_queues at io none known

  -- `rpmsg_init_vdev_with_config` on an `rvdev`, whose `vdev` is set, and a vdev that are not NULL.
  -- The operations of `rdev` are the functions of this file.
  pub init_vdev :
      (fuel : ℕ)
      → Addresses
      → (shm_io : Option Io) → Option (ShmPool × ShmPool)
      → Option Config
      → Rvdev W V
      → Option (ℤ × Rvdev W V)
  unfolding init_features wait_remote_ready
  init_vdev fuel at none pools config r = some (rpmsg_err_param, r)
  init_vdev fuel at (some io) pools config r =
      let reset = record r {
        rdev = record r.rdev {
          endpoints = [];
          bitmap = λ word bit. false;
          bitnext = 0;
          locked = false;
          support_ns = false;
        };
      } in
      if role_is_driver r.vdev.role
      then elim config [
        | none ↦ some (rpmsg_err_param, reset)
        | some c ↦ init_features at io pools (record reset { config = c })
      ]
      else if not (role_is_device r.vdev.role)
      then init_features at io pools reset
      else do
        (status, vdev) ← wait_remote_ready fuel reset.vdev
        let ready = record reset { vdev = vdev }
        if is_success status then init_features at io pools ready else some (status, ready)

  -- The loop of `rpmsg_deinit_vdev`; `none` also if the fuel runs out.
  pub destroy_all : (fuel : ℕ) → Device W → Option (Device W)
  destroy_all zero rdev = none
  destroy_all (suc fuel) rdev = elim rdev.endpoints [
    | [] ↦ some rdev
    | p ∷ ps ↦ (destroy_ept rdev p >>= λ next. destroy_all fuel next)
  ]

  -- `rpmsg_deinit_vdev` of an `rvdev` that is not NULL. The queues are not used from then on.
  pub deinit_vdev : (fuel : ℕ) → Rvdev W V → Option (Rvdev W V)
  unfolding destroy_all
  deinit_vdev fuel r = do
    rdev ← destroy_all fuel r.rdev
    some (record r { rdev = rdev; vdev = delete_virtqueues r.vdev })
