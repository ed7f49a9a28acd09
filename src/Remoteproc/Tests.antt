-- ===== src/Remoteproc/Tests.antt =====
-- Runs of the model of remote processors, and the theorems at a concrete platform.
mod Devices
mod Images
use openamp_core.Prelude.{
  ℕ, ◌+◌, ◌-◌, ◌<◌, ◌≤◌, ◌≡◌, refl, true, false, none, some, List, [], ◌∷◌, ℤ, pos, negsuc,
  is_success, ◌==◌, if◌then◌else◌, arith,
}
use openamp_core.Bitmap.{set_bit, is_bit_set}
use openamp_core.Remoteproc.State.{offline, running, Mem, Ops, Rproc}
use openamp_core.Remoteproc.Lifecycle.{shutdown}
use openamp_core.Remoteproc.Lifecycle.Relation.{Call, configures, starts, stops, shuts_down}
use openamp_core.Remoteproc.Lifecycle.Steps.{shutdown_lem}
use openamp_core.Remoteproc.Ids.{id_any, allocate_id}
use openamp_core.Remoteproc.Ids.Laws.{allocate_id-taken}
use openamp_core.Remoteproc.Memory.{in_range, address_in, matches, find_mem, mmap}
use openamp_core.Remoteproc.Memory.Lookup.{mmap_by_da}
use openamp_core.Remoteproc.Resources.{vdev, other, Table, handle_rsc_table}
use openamp_core.Remoteproc.Resources.Returns.{handle_rsc_table-returns}
use openamp_core.Remoteproc.Resources.Bounds.{handle_rsc_table-overruns}

-- The state of the platform counts its operations; the first stop fails.
abbrev ops : Ops ℕ
ops = record {
  remove = none;
  mmap = none;
  handle_rsc = none;
  config = none;
  start = some (λ n. (pos 0, n + 1));
  stop = some (λ n. (if n == 1 then negsuc 0 else pos 0, n + 1));
  shutdown = none;
  get_mem = none;
}

abbrev program_text : List Call
program_text = configures 0 ∷ starts ∷ stops ∷ stops ∷ shuts_down ∷ []

abbrev board : Rproc ℕ
board = record {
  locked = false;
  mems = [];
  bitmap = λ word bit. false;
  ops = ops;
  state = offline;
  world = 0;
}

-- A running processor whose ids are all taken.
abbrev busy : Rproc ℕ
busy = record board { state = running; bitmap = λ word bit. true }

shutdown_lem_example :
    (ret : ℤ) × (s : Rproc ℕ) × (shutdown busy ≡ some (ret, s))
    × (is_success ret ≡ true → s.state ≡ offline)
    × (is_success ret ≡ false → s.state ≡ running)
    × (s.locked ≡ false)
    × (s.ops ≡ ops)
    × (s.bitmap ≡ busy.bitmap)
shutdown_lem_example = shutdown_lem busy refl refl

allocate_id-taken_example : allocate_id busy.bitmap 5 6 ≡ some (5, set_bit busy.bitmap 5)
unfolding is_bit_set
allocate_id-taken_example = allocate_id-taken busy.bitmap 5 (omega arith) (λ b l. refl)

-- 4096 bytes that the remote processor sees at 0, and this one at 1048576.
abbrev ram : Mem
ram = record {
  name = λ i. 0;
  da = 0;
  pa = 1048576;
  size = 4096;
  io = record {
    phys_to_virt = λ pa. pa + 1;
    phys_to_offset = λ pa. pa - 1048576;
    has_virt = λ va. false;
  };
}

abbrev with_ram : Rproc ℕ
with_ram = record board { mems = ram ∷ [] }

mmap_by_da_example :
    (◌≤◌ 0 256)
    × (◌≤◌ (256 + 16) (0 + 4096))
    × (mmap (λ a b. true) with_ram none (some 256) 16 0
        ≡ (some (record { va = 1048833; pa = 1048832; da = 256; io = some (ram.io) }), with_ram))
unfolding find_mem matches address_in in_range
mmap_by_da_example =
    mmap_by_da (λ a b. true) 256 16 (omega arith) with_ram ram false 0 (omega arith) (omega arith)
      (record { da_fits = omega arith; pa_fits = omega arith }, tt) refl

-- One resource, which points behind the 20 bytes of the table.
abbrev crafted : Table
crafted = record { ver = 1; num = 1; reserved = (0, 0); offset = λ i. 4096; at = λ o. other 7 }

handle_rsc_table-overruns_example : handle_rsc_table (λ a b. true) board crafted 20 none ≡ none
handle_rsc_table-overruns_example =
    handle_rsc_table-overruns (λ a b. true) board crafted 20 0 refl refl refl (omega arith)
      (omega arith) (omega arith)

-- A virtio device with two vrings that ask for any notification ids, behind the offsets.
abbrev sound : Table
sound = record {
  ver = 1;
  num = 1;
  reserved = (0, 0);
  offset = λ i. 20;
  at = λ o. vdev (record { notifyid = id_any; num_of_vrings = 2; vring_notifyid = λ i. id_any });
}

handle_rsc_table-returns_example :
    (ret : ℤ) × (s : Rproc ℕ) × (u : Table) × (handle_rsc_table (λ a b. true) board sound 88 none
      ≡ some (ret, s, u))
handle_rsc_table-returns_example =
    handle_rsc_table-returns (λ a b. true) 88 none board sound (omega arith, λ i l. omega arith)
      ((λ i l. omega arith), λ i j l m h. absurd (omega (arith, h)))
