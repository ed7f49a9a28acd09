-- ===== src/Remoteproc/Load/ShortRead.antt =====
-- `remoteproc_load` of remoteproc.c on a store that brings less than it is asked for.
use openamp_core.Prelude.{
  ℕ, suc, ◌<◌, ◌≡◌, refl, Bool, true, false, Option, none, some, pos, has_flag, arith, ◌==◌,
}
use openamp_core.Utilities.{Chars}
use openamp_core.Remoteproc.Loader.{
  Buffer, Loader, LoaderOps, StoreOps, any_address, int_of, int_less, ready_to_load,
}
use openamp_core.Remoteproc.Load.{
  Host, TargetMemory, can_load, next_piece, header_loop, give_up, load_with, load,
}

less_lem : (got n : ℕ) → got < n → n < 0x80000000 → int_less (pos got) (int_of n) ≡ true
unfolding int_less int_of
less_lem got n h k = ground arith

module _ {I Y X : Type 0} (differ : Chars → Chars → Bool) (allocate : Y → (size : ℕ) → Bool × Y)
    (free : Y → Y) (store : StoreOps X) (memory : TargetMemory X) (ops : LoaderOps I Y)
    (check : Option Buffer → (len : ℕ) → Option (Option (LoaderOps I Y))) (rounds : ℕ) (keep : Bool)
    (h : Host I Y X) (l l' : Loader I Y) (img : Buffer) (n got state : ℕ) (piece : Option Buffer)
    (opened after : X) where
  -- For an unlocked remote processor that can load and has a loader: if the store opens with some
  -- bytes, the loader's first call does not complete the headers with them, and the store then brings
  -- `got` bytes, fewer than the loader asks for, which is less than 2^31, then `remoteproc_load` gives
  -- up and answers `got`, without a sign of an error: 0, which stands for success, if the store has
  -- nothing more. The remote processor is in the state that it was in, unlocked, without an entry
  -- point or a resource table of the image, the loader has released its image information, and the
  -- store is closed.
  pub load-short_read :
      h.rproc.locked ≡ false
      → can_load h.rproc.state ≡ true
      → h.loader ≡ some ops
      → store.open_image h.rproc.world ≡ (pos (suc n), some img, opened)
      → ops.load_header (some img) 0 (suc n) (pos 0) (record l { img_info = none })
        ≡ some (pos state, l')
      → has_flag ready_to_load state ≡ false
      → store.load_image opened l'.noffset l'.nlen any_address none ≡ (pos got, piece, after)
      → got < l'.nlen
      → l'.nlen < 0x80000000
      → (host : Host I Y X) × (loader : Loader I Y) × (load differ allocate free store memory check
            (suc rounds)
            keep
            h
            l
          ≡ some (pos got, host, loader))
        × (host.rproc.state ≡ h.rproc.state)
        × (host.rproc.locked ≡ false)
        × (host.bootaddr ≡ h.bootaddr)
        × (host.rsc_table ≡ h.rsc_table)
        × (loader.img_info ≡ none)
        × (loader.heap ≡ ops.release l'.img_info l'.heap)
        × (host.rproc.world ≡ store.close_image after)
  unfolding load load_with header_loop next_piece give_up
  load-short_read unlocked loadable chosen open_lem headed unready short less small =
      let longer : (suc n == 0) ≡ false = ground arith in
      rw
        (
          unlocked,
          loadable,
          open_lem,
          chosen,
          longer,
          open_lem,
          headed,
          unready,
          open_lem,
          short,
          less_lem got l'.nlen less small,
        )
        (_, _, refl, refl, refl, refl, refl, refl, refl, refl)
