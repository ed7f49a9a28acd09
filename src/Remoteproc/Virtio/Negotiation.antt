-- ===== src/Remoteproc/Virtio/Negotiation.antt =====
-- The configuration of a virtio device in a resource table: remoteproc/remoteproc_virtio.c.

use openamp_core.Prelude.{
  ℕ, ◌+◌, ◌-◌, ◌<◌, ◌≤◌, ◌≡◌, refl, ap, true, some, ltb, leb, ◌&&◌, if◌then◌else◌, le→leb, lt→ltb,
  u32, arith,
}
use openamp_core.Remoteproc.Virtio.{Rpvdev, notified, passes, read_config, write_config}

module _ {Y : Type 0} where
  -- Bytes that are written within the configuration, at an offset and with a length whose sum does
  -- not wrap, are what a read of the same place gives.
  pub write-read_config :
      (d : Rpvdev Y) (offset length : ℕ) (src : ℕ → ℕ)
      → offset + length ≤ d.config_len
      → d.config_len < u32
      → (e : Rpvdev Y) × (bytes : ℕ → ℕ) × (write_config d offset src length ≡ some e)
        × (read_config e offset length ≡ some (some bytes))
        × ((i : ℕ) → i < length → bytes i ≡ src i)
  unfolding write_config read_config
  write-read_config d offset length src inside small =
      let config : ℕ → ℕ =
        λ i. if leb offset i && ltb i (offset + length) then src (i - offset) else d.config i in
      let allowed : passes d offset length ≡ some (some length) = ground (arith, inside, small) in
      let e : Rpvdev Y = notified (record d { config = config }) in
      (
        e,
        (λ i. config (offset + i)),
        rw allowed refl,
        rw allowed refl,
        λ i h.
            let low : leb offset (offset + i) ≡ true = le→leb offset (offset + i) (omega arith) in
            let high : ltb (offset + i) (offset + length) ≡ true =
              lt→ltb (offset + i) (offset + length) (omega (arith, h)) in
            rw (low, high) (ap src (omega arith)),
      )
