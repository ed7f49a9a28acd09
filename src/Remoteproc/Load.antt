-- ===== src/Remoteproc/Load.antt =====
-- To load an image: `remoteproc_load` of remoteproc.c, with `remoteproc_get_rsc_table`. The store of
-- the image and the memory of the target belong to the state `X` of the platform.
pub mod State
pub mod ShortRead
pub use State.*
use openamp_core.Prelude.{
  ℕ, zero, suc, ◌+◌, ◌-◌, ◌*◌, ◌/◌, ◌%◌, Bool, true, false, not, ◌&&◌, ◌||◌, Option, none, some, ℤ,
  pos, negsuc, is_success, is_negative, ltb, leb, ◌==◌, if◌then◌else◌, ◌>>=◌, ◌>>◌, require,
  has_flag, u32,
}
use openamp_core.Utilities.{Chars}
use openamp_core.Virtqueue.State.{Ptr}
use openamp_core.Remoteproc.State.{
  ProcState, ready, configured, Region, Mapping, Rproc, einval, acquire, release,
}
use openamp_core.Remoteproc.Memory.{u64, bad_phys, mmap}
use openamp_core.Remoteproc.Resources.{
  Table, Resource, carveout, devmem, trace, vdev, vendor, other, handle_rsc_table,
}
use openamp_core.Remoteproc.Loader.{
  Buffer, copied, number, any_address, ready_to_load, post_data_load, Loader, Target, RscPlace,
  LoaderOps, StoreOps, int_of, int_less, int_equal,
}

-- The loader of the remote processor, or the one for the format of the image.
abbrev pub chosen_loader :
    {I Y : Type 0}
    → (check : Option Buffer → (len : ℕ) → Option (Option (LoaderOps I Y))) → Option (LoaderOps I Y)
    → Option Buffer
    → (len : ℕ) → Option (Option (LoaderOps I Y))
chosen_loader check none img len = check img len
chosen_loader check (some ops) img len = some (some ops)

module _ {Y X : Type 0} (differ : Chars → Chars → Bool) (allocate : Y → (size : ℕ) → Bool × Y)
    (free : Y → Y) (store : StoreOps X) where
  -- `remoteproc_get_rsc_table`: the table, or NULL.
  pub get_rsc_table : Rproc X → Y → (offset len : ℕ) → Option (Option Table × Rproc X × Y)
  get_rsc_table r heap offset len =
      let (ok, after) = allocate heap len in
      let (got, img, world) = store.load_image r.world offset len any_address none in
      let loaded = record r { world = world } in
      if not ok
      then some (none, r, after)
      else if is_negative got || int_less got (int_of len)
      then some (none, loaded, free after)
      else elim img [
        | none ↦ some (none, loaded, free after)
        | some bytes ↦ (do
          copy ← copied bytes 0 len
          (ret, parsed, table) ← handle_rsc_table differ loaded (table_in copy) len none
          if is_negative ret
              then some (none, parsed, free after)
              else some (some table, parsed, after))
      ]

module _ {I Y X : Type 0} (differ : Chars → Chars → Bool) (allocate : Y → (size : ℕ) → Bool × Y)
    (free : Y → Y) (store : StoreOps X) (memory : TargetMemory X) where
  -- `store_ops->load` of the piece that the loader asks for, to memory of the store.
  unfoldable pub next_piece : Session I Y X → ℤ × Session I Y X
  next_piece s =
      let (got, piece, world) =
        store.load_image s.rproc.world s.loader.noffset s.loader.nlen any_address none in
      (got, record s { img = piece; rproc = record s.rproc { world = world } })

  -- The loop of `remoteproc_load` over the headers, with `rounds` of fuel: the error, if there is
  -- one, for which it goes to its error exit.
  unfoldable pub header_loop :
      LoaderOps I Y → (rounds : ℕ) → Session I Y X → Option (Option ℤ × Session I Y X)
  header_loop ops zero s = none
  header_loop ops (suc rounds) s = do
    (ret, l) ← ops.load_header s.img s.offset s.len s.last s.loader
    let answered = record s { loader = l; last = ret }
    let beyond = ltb ((s.offset + s.len) % u64) l.noffset && not store.seeks
    let (got, moved) = next_piece answered
    let rest = header_loop ops rounds (record moved { offset = l.noffset; len = l.nlen })
    elim ret [
      | negsuc n ↦ some (some (negsuc n), answered)
      | pos state ↦
          if has_flag ready_to_load state && (l.nlen == 0 || beyond)
          then some (none, answered)
          else if int_less got (int_of l.nlen)
          then some (some got, moved)
          else rest
    ]

  -- `locate_rsc_table` of the loader, and the table if it has one.
  pub find_rsc_table :
      LoaderOps I Y → Session I Y X → RscPlace → Option (Option Table × RscPlace × Session I Y X)
  find_rsc_table ops s place = do
    (ret, found) ← ops.locate_rsc_table s.loader.img_info place
    if is_success ret && ltb 0 found.size
        then (do
          (table, parsed, heap) ←
              get_rsc_table differ allocate free store s.rproc s.loader.heap found.offset found.size
          some
              (table, found, record s { rproc = parsed; loader = record s.loader { heap = heap } }))
        else some (none, found, s)

  -- The end of the branch for a segment with an address: the padding behind what was loaded.
  abbrev pub padded : Session I Y X → Target I Y → Region → (pa : ℕ) → Session I Y X
  padded s t region pa =
      let start = region.phys_to_offset ((pa + t.loader.nlen) % u64) in
      let size = t.nmemsize - t.loader.nlen in
      if ltb t.loader.nlen t.nmemsize
      then record s {
        rproc = record s.rproc {
          world = memory.block_set s.rproc.world region start t.padding size;
        };
      }
      else s

  -- The branch of the loop over the segments for one with an address: whether it failed.
  pub place_segment : Session I Y X → Target I Y → Bool × Session I Y X
  place_segment s t =
      let (mapping, asked) = mmap differ s.rproc (some bad_phys) (some t.da) t.nmemsize 0 in
      let pa = pa_after mapping in
      let mapped = record s { rproc = asked; img = none; io = io_after mapping s.io } in
      elim (io_after mapping s.io) [
        | none ↦ (true, mapped)
        | some region ↦
            (let (got, img, world) =
                store.load_image asked.world t.loader.noffset t.loader.nlen pa (some region) in
              let loaded = record mapped { img = img; rproc = record asked { world = world } } in
              if pa == bad_phys
              then (true, mapped)
              else if t.loader.nlen == 0
              then (false, padded mapped t region pa)
              else if not (int_equal got (int_of t.loader.nlen))
              then (true, loaded)
              else (false, padded loaded t region pa))
      ]

  -- The loop of `remoteproc_load` over the segments, with `rounds` of fuel.
  pub data_loop : LoaderOps I Y → (rounds : ℕ) → Session I Y X → Option (Option ℤ × Session I Y X)
  data_loop ops zero s = none
  data_loop ops (suc rounds) s = do
    let asking : Target I Y = record {
      loader = record s.loader { noffset = 0; nlen = 0 };
      da = any_address;
      padding = 0;
      nmemsize = 0;
    }
    (ret, t) ← ops.load_data s.img s.offset s.len s.last asking
    let answered = record s { loader = t.loader; last = ret }
    let (failed, placed) = place_segment answered t
    let segments = data_loop ops rounds placed
    let (got, moved) = next_piece answered
    let headers =
        data_loop ops rounds (record moved { offset = t.loader.noffset; len = t.loader.nlen })
    elim ret [
      | negsuc n ↦ some (some (negsuc n), answered)
      | pos state ↦
          if not (t.da == any_address)
          then if failed then some (some einval, placed) else segments
          else if t.loader.nlen == 0
          then some (none, answered)
          else if not (int_less got (int_of t.loader.nlen))
          then headers
          else if has_flag post_data_load state
          then some (none, moved)
          else some (some got, moved)
    ]

  -- The update of the resource table, with the copy that was parsed, and the session after it.
  pub update_rsc_table :
      Host I Y X → Session I Y X → RscPlace → Option Table → Option (Host I Y X × Session I Y X)
  update_rsc_table h s place none = some (h, s)
  update_rsc_table h s place (some table) =
      let (mapping, asked) = mmap differ s.rproc none (some place.da) place.size 0 in
      let mapped = record s {
        rproc = asked;
        io = io_after mapping s.io;
        loader = record s.loader { heap = free s.loader.heap };
      } in
      if va_after mapping == 0 then some (h, mapped) else (do
        region ← io_after mapping s.io
        let (ret, world) = memory.write_table asked.world region (va_after mapping) table place.size
        some (
          record h { rsc_table = va_after mapping; rsc_len = place.size; rsc_io = some region },
          record mapped { rproc = record asked { world = world } },
        ))

  -- The exits `error2` and `error3`: what has been allocated and opened is given back.
  pub give_up : LoaderOps I Y → Host I Y X → Session I Y X → Option Table → Host I Y X × Loader I Y
  give_up ops h s table =
      let heap : Y = elim table [ none ↦ s.loader.heap | some _ ↦ free s.loader.heap ] in
      (
        record h { rproc = release (record s.rproc { world = store.close_image s.rproc.world }) },
        record s.loader { img_info = none; heap = ops.release s.loader.img_info heap },
      )

  -- The successful end. `keep` says whether the caller wants the image information.
  pub finish : LoaderOps I Y → (keep : Bool) → Host I Y X → Session I Y X → Host I Y X × Loader I Y
  finish ops keep h s = (
    record h {
      bootaddr = ops.get_entry s.loader.img_info;
      rproc = release (record s.rproc { state = ready; world = store.close_image s.rproc.world });
    },
    if keep then s.loader else record s.loader {
      img_info = none;
      heap = ops.release s.loader.img_info s.loader.heap;
    },
  )

  -- What follows the loop over the segments.
  pub load_end :
      LoaderOps I Y
      → (keep : Bool) → Host I Y X
      → Session I Y X
      → RscPlace
      → Option Table
      → Option (ℤ × Host I Y X × Loader I Y)
  load_end ops keep h s place table = do
    (table', place', located) ←
        (if place.size == 0 then find_rsc_table ops s place else some (table, place, s))
    (updated, ended) ← update_rsc_table h located place' table'
    let (host, loader) = finish ops keep updated ended
    some (pos 0, host, loader)

  -- What follows the choice of the loader.
  pub load_with :
      LoaderOps I Y
      → (rounds : ℕ) → (keep : Bool) → Host I Y X
      → Session I Y X
      → Option (ℤ × Host I Y X × Loader I Y)
  load_with ops rounds keep h s = do
    (error, headed) ← header_loop ops rounds s
    elim error [
      | some ret ↦ (let (host, loader) = give_up ops h headed none in some (ret, host, loader))
      | none ↦ (do
        let nowhere : RscPlace = record { da = 0; offset = headed.offset; size = 0 }
        (table, place, located) ← find_rsc_table ops headed nowhere
        (failed, loaded) ← data_loop ops rounds (record located { offset = 0; len = 0 })
        elim failed [
          | some ret ↦ (let (host, loader) = give_up ops h loaded table in some (ret, host, loader))
          | none ↦ load_end ops keep h loaded place table
        ])
    ]

  -- `remoteproc_load` of a remote processor and a store that are not NULL, with `rounds` of fuel for
  -- its loops. `check` is `remoteproc_check_fw_format`.
  pub load :
      (check : Option Buffer → (len : ℕ) → Option (Option (LoaderOps I Y)))
      → (rounds : ℕ) → (keep : Bool) → Host I Y X
      → Loader I Y
      → Option (ℤ × Host I Y X × Loader I Y)
  load check rounds keep h l = do
    held ← acquire h.rproc
    let (ret, img, world) = store.open_image held.world
    let opened = record held { world = world }
    let refused = λ (r : Rproc X). some (einval, record h { rproc = release r }, l)
    if not (can_load held.state) then refused held else elim ret [
      | negsuc n ↦ refused opened
      | pos len ↦ if len == 0 then refused opened else (do
        image ← img
        chosen ← chosen_loader check h.loader img len
        elim chosen [
          | none ↦ refused (record opened { world = store.close_image world })
          | some ops ↦
              load_with ops rounds keep (record h { loader = some ops })
                (record {
                  rproc = opened;
                  loader = record l { img_info = none };
                  img = img;
                  offset = 0;
                  len = len;
                  last = pos 0;
                  io = none;
                })
        ])
    ]
