-- ===== src/Remoteproc/Noblock/Unmapped.antt =====
-- `remoteproc_load_noblock` of remoteproc.c with a resource table that cannot be mapped.
use openamp_core.Prelude.{
  ℕ, ◌<◌, ◌≡◌, refl, Bool, true, false, Option, none, some, pos, has_flag, lt→ltb,
}
use openamp_core.Utilities.{Chars}
use openamp_core.Virtqueue.State.{Ptr}
use openamp_core.Remoteproc.State.{Rproc, Mapping}
use openamp_core.Remoteproc.Lifecycle.{is_ready}
use openamp_core.Remoteproc.Memory.{mmap}
use openamp_core.Remoteproc.Loader.{
  Buffer, ready_to_load, post_data_load, load_complete, LoaderOps, RscPlace,
}
use openamp_core.Remoteproc.Load.{Host, TargetMemory, io_after}
use openamp_core.Remoteproc.Noblock.{
  Asked, error_exit, take_rsc_table, complete, place_piece, load_piece, choose_loader, load_noblock,
}

module _ {I Y X : Type 0} (differ : Chars → Chars → Bool) (allocate : Y → (size : ℕ) → Bool × Y)
    (free : Y → Y) (memory : TargetMemory X) (local : Ptr)
    (check : Option Buffer → (len : ℕ) → Option (Option (LoaderOps I Y))) (keep : Bool)
    (ops : LoaderOps I Y) (h : Host I Y X) (a : Asked I Y) (info : I) (state : ℕ) (place : RscPlace)
    (heap : Y) (mapping : Option Mapping) (asked : Rproc X) (img : Option Buffer)
    (offset len : ℕ) where
  -- Once all segments are loaded, if the resource table of the image cannot be mapped and the caller
  -- has no region, then `remoteproc_load_noblock` answers 0, which stands for success: the image
  -- information is released but stays where the caller has it, and neither the entry point nor the
  -- resource table of the image is taken.
  pub load_noblock-unmapped :
      h.rproc.locked ≡ false
      → is_ready h.rproc.state ≡ true
      → h.loader ≡ some ops
      → a.target.loader.img_info ≡ some info
      → ops.get_load_state (some info) ≡ pos state
      → has_flag load_complete state ≡ true
      → has_flag ready_to_load state ≡ false
      → has_flag post_data_load state ≡ false
      → ops.locate_rsc_table (some info) (record { da = 0; offset = 0; size = 0 })
        ≡ some (pos 0, place)
      → 0 < place.size
      → allocate a.target.loader.heap place.size ≡ (true, heap)
      → mmap differ (record h.rproc { locked = true }) none (some place.da) place.size 0
        ≡ (mapping, asked)
      → io_after mapping a.io ≡ none
      → (host : Host I Y X) × (after : Asked I Y) × (load_noblock differ allocate free memory local
            check keep h img offset len a
          ≡ some (pos 0, host, after))
        × (host.bootaddr ≡ h.bootaddr)
        × (host.rsc_table ≡ h.rsc_table)
        × (host.rproc.locked ≡ false)
        × (after.target.loader.img_info ≡ some info)
        × (after.target.loader.heap ≡ ops.release (some info) (free heap))
  unfolding load_noblock choose_loader load_piece place_piece complete take_rsc_table error_exit
  load_noblock-unmapped unlocked idle chosen here known whole unready unpost found some_table ok
        mapped nowhere =
      rw
        (
          unlocked,
          idle,
          chosen,
          here,
          known,
          whole,
          unready,
          unpost,
          here,
          found,
          lt→ltb 0 place.size some_table,
          ok,
          mapped,
          nowhere,
        )
        (_, _, refl, refl, refl, refl, here, rw (here, ok) refl)
