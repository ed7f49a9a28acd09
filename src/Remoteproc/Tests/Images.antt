-- ===== src/Remoteproc/Tests/Images.antt =====
-- A platform and a loader on which the theorems about loading by remoteproc.c are applied.
use openamp_core.Prelude.{
  ℕ, ◌+◌, ◌-◌, ◌≡◌, refl, Bool, true, false, Option, none, some, [], pos, arith,
}
use openamp_core.Utilities.{Chars}
use openamp_core.Remoteproc.State.{ready, Ops, Rproc}
use openamp_core.Remoteproc.Memory.{find_mem, get_mem, mapped, mmap}
use openamp_core.Remoteproc.Loader.{Buffer, LoaderOps}
use openamp_core.Remoteproc.Load.{Host, TargetMemory}
use openamp_core.Remoteproc.Noblock.{Asked, load_noblock}
use openamp_core.Remoteproc.Noblock.Unmapped.{load_noblock-unmapped}

abbrev no_ops : Ops (Unit {0})
no_ops = record {
  remove = none;
  mmap = none;
  handle_rsc = none;
  config = none;
  start = none;
  stop = none;
  shutdown = none;
  get_mem = none;
}

abbrev idle : Rproc (Unit {0})
idle = record {
  locked = false;
  mems = [];
  bitmap = λ word bit. false;
  ops = no_ops;
  state = ready;
  world = tt;
}

-- A loader that has loaded an image with a resource table of 16 bytes at 4096. The heap counts the
-- memory in use.
abbrev done_loader : LoaderOps ℕ ℕ
done_loader = record {
  load_header = λ img offset len last l. some (last, l);
  load_data = λ img offset len last t. some (last, t);
  locate_rsc_table = λ info place. some (pos 0, record { da = 4096; offset = 0; size = 16 });
  release = λ info heap. heap - 1;
  get_entry = λ info. 42;
  get_load_state = λ info. pos 0x40800;
}

abbrev host : Host ℕ ℕ (Unit {0})
host = record {
  rproc = idle;
  loader = some done_loader;
  rsc_table = 0;
  rsc_len = 0;
  rsc_io = none;
  bootaddr = 7;
}

abbrev memory : TargetMemory (Unit {0})
memory = record {
  block_set = λ w region offset value len. w;
  read_table = λ w region va len. (pos len, record { bytes = λ i. 0; size = len }, w);
  write_table = λ w region va table len. (pos len, w);
}

abbrev asked : Asked ℕ ℕ
asked = record {
  target = record {
    loader = record { img_info = some 5; heap = 1; noffset = 0; nlen = 0 };
    da = 0;
    padding = 0;
    nmemsize = 0;
  };
  pa = 0;
  io = none;
}

abbrev allocate : ℕ → (size : ℕ) → Bool × ℕ
allocate heap size = (true, heap + 1)

abbrev free : ℕ → ℕ
free heap = heap - 1

abbrev check : Option Buffer → (len : ℕ) → Option (Option (LoaderOps ℕ ℕ))
check img len = some none

abbrev differ : Chars → Chars → Bool
differ a b = false

load_noblock-unmapped_example :
    (end : Host ℕ ℕ (Unit {0})) × (after : Asked ℕ ℕ) × (load_noblock differ allocate free memory 99
        check true host none 0 0 asked
      ≡ some (pos 0, end, after))
    × (end.bootaddr ≡ 7)
    × (end.rsc_table ≡ 0)
    × (end.rproc.locked ≡ false)
    × (after.target.loader.img_info ≡ some 5)
    × (after.target.loader.heap ≡ 0)
unfolding mmap mapped get_mem find_mem
load_noblock-unmapped_example =
    load_noblock-unmapped differ allocate free memory 99 check true done_loader host asked 5 0x40800
      (record { da = 4096; offset = 0; size = 16 }) 2
      (some (record { va = 0; pa = 18446744073709551615; da = 4096; io = none }))
      (record idle { locked = true }) none 0 0 refl refl refl refl refl refl refl refl refl
      (omega arith) refl refl refl
