-- ===== src/Remoteproc/Lifecycle.antt =====
-- The life cycle of a remote processor: `remoteproc_init`, `remoteproc_remove`, `remoteproc_config`,
-- `remoteproc_start`, `remoteproc_stop` and `remoteproc_shutdown` of remoteproc.c.
pub mod Relation
pub mod Steps
pub mod Programs
use openamp_core.Prelude.{
  Bool, true, false, not, ◌&&◌, Option, none, some, [], ℤ, pos, is_success, if◌then◌else◌, ◌>>=◌,
  ◌>>◌, require,
}
use openamp_core.Virtqueue.State.{Ptr}
use openamp_core.Remoteproc.State.{
  ProcState, offline, configured, ready, running, suspended, error, stopped, Ops, Rproc, einval,
  enodev, eagain, acquire, release,
}

abbrev pub is_offline : ProcState → Bool
is_offline offline = true
is_offline _ = false

abbrev pub is_ready : ProcState → Bool
is_ready ready = true
is_ready _ = false

abbrev pub is_stopped : ProcState → Bool
is_stopped stopped = true
is_stopped _ = false

module _ {X : Type 0} where
  -- A call of an operation, with the answer if it is NULL.
  abbrev pub call : Option (X → ℤ × X) → (missing : ℤ) → Rproc X → ℤ × Rproc X
  call none missing r = (missing, r)
  call (some op) missing r = let (ret, world) = op r.world in (ret, record r { world = world })

  abbrev pub call_remove : Option (X → X) → Rproc X → Rproc X
  call_remove none r = r
  call_remove (some op) r = record r { world = op r.world }

  -- `remoteproc_init`, without the operation `init` of the platform, of memory that is not NULL.
  pub init : Ops X → X → Rproc X
  init ops world = record {
    locked = false;
    mems = [];
    bitmap = λ word bit. false;
    ops = ops;
    state = offline;
    world = world;
  }

  -- `remoteproc_remove` of a remote processor that is not NULL.
  pub remove : Rproc X → Option (ℤ × Rproc X)
  remove r = do
    held ← acquire r
    if is_offline held.state
        then some (pos 0, release (call_remove held.ops.remove held))
        else some (eagain, release held)

  -- `remoteproc_config` of a remote processor that is not NULL.
  pub config : Rproc X → (datum : Ptr) → Option (ℤ × Rproc X)
  config r datum = do
    held ← acquire r
    let op : Option (X → ℤ × X) = elim held.ops.config [
      | none ↦ none
      | some f ↦ some (λ w. f w datum)
    ]
    if is_offline held.state
        then (let (ret, done) = call op (pos 0) held in
            some (ret, release (if is_success ret then record done { state = ready } else done)))
        else some (einval, release held)

  -- `remoteproc_start` of a remote processor that is not NULL.
  pub start : Rproc X → Option (ℤ × Rproc X)
  start r = do
    held ← acquire r
    if is_ready held.state
        then (let (ret, done) = call held.ops.start enodev held in
            some (ret, release (if is_success ret then record done { state = running } else done)))
        else some (einval, release held)

  -- `remoteproc_stop` of a remote processor that is not NULL.
  pub stop : Rproc X → Option (ℤ × Rproc X)
  stop r = do
    held ← acquire r
    if not (is_stopped held.state) && not (is_offline held.state)
        then (let (ret, done) = call held.ops.stop enodev held in
            some (
              ret,
              release (
                  if is_success ret
                  then record done { state = stopped; bitmap = λ word bit. false }
                  else done),
            ))
        else some (pos 0, release held)

  -- The end of `remoteproc_shutdown`, for a remote processor that stands still.
  pub go_offline : Rproc X → ℤ × Rproc X
  go_offline r =
      let (ret, done) = call r.ops.shutdown (pos 0) r in
      (ret, if is_success ret then record done { state = offline } else done)

  -- `remoteproc_shutdown` of a remote processor that is not NULL.
  pub shutdown : Rproc X → Option (ℤ × Rproc X)
  shutdown r = do
    held ← acquire r
    if is_offline held.state
        then some (pos 0, release held)
        else (let (stop_ret, still) =
              if is_stopped held.state then (pos 0, held) else call held.ops.stop (pos 0) held in
            let (ret, done) = if is_success stop_ret then go_offline still else (stop_ret, still) in
            some (ret, release done))
