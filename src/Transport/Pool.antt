-- ===== src/Transport/Pool.antt =====
-- The pool of shared memory from which the driver's side takes its buffers: rpmsg_virtio.c.
pub mod Carve
use openamp_core.Prelude.{
  ℕ, ◌+◌, ◌-◌, Bool, true, false, ◌||◌, Option, none, some, ltb, ◌==◌, if◌then◌else◌,
}

-- `struct rpmsg_virtio_shm_pool`
pub record ShmPool : Type 0 where
  pub base : ℕ
  pub avail : ℕ
  pub size : ℕ

-- `rpmsg_virtio_shm_pool_get_buffer`: the buffer, 0 for NULL, with the pool after it. `none` is a
-- pool that is NULL.
pub get_buffer : Option ShmPool → (size : ℕ) → ℕ × Option ShmPool
get_buffer none size = (0, none)
get_buffer (some pool) size =
    if (size == 0) || ltb pool.avail size
    then (0, some pool)
    else (pool.base + pool.size - pool.avail, some (record pool { avail = pool.avail - size }))

-- `rpmsg_virtio_init_shm_pool`
pub init_shm_pool : Option ShmPool → (shb size : ℕ) → Option ShmPool
init_shm_pool none shb size = none
init_shm_pool (some pool) shb size =
    if (shb == 0) || (size == 0)
    then some pool
    else some (record { base = shb; size = size; avail = size })
