-- ===== src/Remoteproc/Noblock.antt =====
-- To load an image whose pieces the caller brings: `remoteproc_load_noblock` of remoteproc.c, with
-- `remoteproc_parse_rsc_table` and `remoteproc_set_rsc_table`.
pub mod Unmapped
use openamp_core.Prelude.{
  ℕ, ◌+◌, ◌-◌, ◌%◌, Bool, true, false, not, ◌&&◌, ◌||◌, Option, none, some, ℤ, pos, negsuc,
  is_success, is_negative, ltb, ◌==◌, if◌then◌else◌, ◌>>=◌, has_flag,
}
use openamp_core.Utilities.{Chars}
use openamp_core.Virtqueue.State.{Ptr}
use openamp_core.Remoteproc.State.{Region, Rproc, einval, acquire, release}
use openamp_core.Remoteproc.Lifecycle.{is_ready}
use openamp_core.Remoteproc.Memory.{bad_phys, mmap, get_io_with_va}
use openamp_core.Remoteproc.Resources.{Table, handle_rsc_table}
use openamp_core.Remoteproc.Loader.{
  Buffer, any_address, ready_to_load, post_data_load, load_complete, Loader, Target, RscPlace,
  LoaderOps, int_of, int_equal,
}
use openamp_core.Remoteproc.Load.{Host, TargetMemory, table_in, io_after, pa_after, va_after}

-- -RPROC_ENOMEM
abbrev pub enomem : ℤ
enomem = negsuc 0

-- What the caller gets: what the loader keeps and asks for, the padding and the size in memory, and
-- the address and the region to bring the piece to.
pub record Asked (I Y : Type 0) : Type 0 where
  pub target : Target I Y
  pub pa : ℕ
  pub io : Option Region

module _ (differ : Chars → Chars → Bool) {X : Type 0} where
  -- `remoteproc_parse_rsc_table` of a table at a virtual address that is not NULL.
  pub parse_rsc_table : Rproc X → (va : Ptr) → Table → (size : ℕ) → Option (ℤ × Rproc X × Table)
  parse_rsc_table r va table size =
      let (io, asked) = get_io_with_va differ r va in
      let inside : Option (ℕ → Bool) = elim io [
        | none ↦ none
        | some region ↦ some (λ offset. region.has_virt (va + offset))
      ] in
      handle_rsc_table differ asked table size inside

  -- `remoteproc_set_rsc_table` of a remote processor that is not NULL.
  pub set_rsc_table :
      {I Y : Type 0} → Host I Y X → (va : Ptr) → Table → (size : ℕ) → Option (ℤ × Host I Y X)
  set_rsc_table h va table size =
      let (io, asked) = get_io_with_va differ h.rproc va in
      if va == 0 || size == 0 then some (einval, h) else elim io [
        | none ↦ some (einval, record h { rproc = asked })
        | some region ↦ (do
          (ret, parsed, marked) ← parse_rsc_table asked va table size
          some (
            ret,
            if is_success ret
                then record h {
                  rproc = parsed;
                  rsc_table = va;
                  rsc_len = size;
                  rsc_io = some region;
                }
                else record h { rproc = parsed },
          ))
      ]

-- `(last_load_state & flag) != 0`, for an answer that is not an error
abbrev pub has_state : (flag : ℕ) → ℤ → Bool
has_state flag (pos state) = has_flag flag state
has_state flag (negsuc n) = false

module _ {I Y X : Type 0} (differ : Chars → Chars → Bool) (allocate : Y → (size : ℕ) → Bool × Y)
    (free : Y → Y) (memory : TargetMemory X) (local : Ptr) (ops : LoaderOps I Y) (keep : Bool)
    (entry : Option I) where
  -- The heap, in what the caller gets.
  abbrev pub with_heap : Asked I Y → Y → Asked I Y
  with_heap a heap = record a {
    target = record a.target { loader = record a.target.loader { heap = heap } };
  }

  -- The exit `out`. `keep` says whether the caller has a place for the image information.
  pub out : Host I Y X → Asked I Y → ℤ × Host I Y X × Asked I Y
  out h a =
      let l = a.target.loader in
      (
        pos 0,
        record h { rproc = release h.rproc },
        if keep then a else record a {
          target = record a.target {
            loader = record l { img_info = none; heap = ops.release l.img_info l.heap };
          };
        },
      )

  -- The exit `error1`: the image information is released. The caller has what it had before, `entry`.
  pub error_exit : (ret : ℤ) → Host I Y X → Asked I Y → ℤ × Host I Y X × Asked I Y
  error_exit ret h a =
      let l = a.target.loader in
      (
        ret,
        record h { rproc = release h.rproc },
        record a {
          target = record a.target {
            loader = record l { img_info = entry; heap = ops.release l.img_info l.heap };
          };
        },
      )

  -- The resource table at its place in the target: it is parsed in a copy, at `local`, and written
  -- back. The answer is that of the exit, if this fails.
  pub take_rsc_table :
      Host I Y X → Asked I Y → RscPlace → Option (Option ℤ × Host I Y X × Asked I Y)
  take_rsc_table h a place =
      let l = a.target.loader in
      let (ok, heap) = allocate l.heap place.size in
      let allocated = with_heap a heap in
      let (mapping, asked) = mmap differ h.rproc none (some place.da) place.size 0 in
      let mapped = record (with_heap a (free heap)) { io = io_after mapping a.io } in
      let va = va_after mapping in
      if not ok then some (some enomem, h, allocated) else elim (io_after mapping a.io) [
        | none ↦ some (some (pos 0), record h { rproc = asked }, mapped)
        | some region ↦ (do
          let (got, bytes, world) = memory.read_table asked.world region va place.size
          let read = record asked { world = world }
          if not (int_equal got (int_of place.size))
              then some (some got, record h { rproc = read }, mapped)
              else (do
                (ret, parsed, table) ← parse_rsc_table differ read local (table_in bytes) place.size
                if is_negative ret
                    then some (some ret, record h { rproc = parsed }, mapped)
                    else (let (wrote, after) =
                          memory.write_table parsed.world region va table place.size in
                        some (
                          none,
                          record h {
                            rproc = record parsed { world = after };
                            rsc_table = va;
                            rsc_len = place.size;
                            rsc_io = some region;
                          },
                          mapped,
                        ))))
      ]

  -- The end of `remoteproc_load_noblock`, once the last answer of the loader is `last`.
  pub complete : Host I Y X → Asked I Y → (last : ℤ) → Option (ℤ × Host I Y X × Asked I Y)
  complete h a last =
      let info = a.target.loader.img_info in
      let nowhere : RscPlace = record { da = 0; offset = 0; size = 0 } in
      if not (has_state load_complete last) then some (out h a) else (do
        (ret, place) ← ops.locate_rsc_table info nowhere
        (failed, located, taken) ←
            (if is_success ret && ltb 0 place.size
              then take_rsc_table h a place
              else some (none, h, a))
        elim failed [
          | some error ↦ some (error_exit error located taken)
          | none ↦ some (out (record located { bootaddr = ops.get_entry info }) taken)
        ])

  -- The part for the segments: the loader says which piece belongs where.
  pub place_piece :
      Host I Y X
      → Option Buffer
      → (offset len : ℕ) → Asked I Y
      → (last : ℤ) → Option (ℤ × Host I Y X × Asked I Y)
  place_piece h img offset len a last =
      if not (has_state ready_to_load last || has_state post_data_load last)
      then complete h a last
      else (do
        (ret, t) ← ops.load_data img offset len last (record a.target { da = any_address })
        let answered = record a { target = t }
        let (mapping, asked) = mmap differ h.rproc (some bad_phys) (some t.da) t.nmemsize 0
        let mapped = record answered { pa = pa_after mapping; io = io_after mapping a.io }
        let host = record h { rproc = asked }
        if is_negative ret
            then some (error_exit ret h answered)
            else if not (t.da == any_address) && pa_after mapping == bad_phys
            then some (error_exit einval host mapped)
            else if not (t.da == any_address)
            then (if t.loader.nlen == 0 then complete host mapped ret else some (out host mapped))
            else if t.loader.nlen == 0
            then complete h answered ret
            else some (out h answered))

  -- What `remoteproc_load_noblock` does with a loader and the last state of it.
  pub load_piece :
      Host I Y X
      → Option Buffer
      → (offset len : ℕ) → Asked I Y
      → (last : ℤ) → Option (ℤ × Host I Y X × Asked I Y)
  load_piece h img offset len a last =
      let started = record a {
        target = record a.target { loader = record a.target.loader { nlen = 0 } };
      } in
      if has_state ready_to_load last || has_state load_complete last
      then place_piece h img offset len started last
      else (do
        (ret, l) ← ops.load_header img offset len last started.target.loader
        let answered = record started { target = record started.target { loader = l } }
        if is_negative ret
            then some (error_exit ret h answered)
            else if not (l.nlen == 0) && not (has_state ready_to_load ret)
            then some (out h answered)
            else place_piece h img offset len answered ret)

module _ {I Y X : Type 0} (differ : Chars → Chars → Bool) (allocate : Y → (size : ℕ) → Bool × Y)
    (free : Y → Y) (memory : TargetMemory X) (local : Ptr)
    (check : Option Buffer → (len : ℕ) → Option (Option (LoaderOps I Y))) (keep : Bool) where
  -- The choice of the loader: only the beginning of an image shows its format.
  pub choose_loader :
      Option (LoaderOps I Y) → Option Buffer → (offset len : ℕ) → Option (Option (LoaderOps I Y))
  choose_loader (some ops) img offset len = some (some ops)
  choose_loader none none offset len = some none
  choose_loader none (some b) offset len =
      if not (offset == 0) || len == 0 then some none else check (some b) len

  -- `remoteproc_load_noblock` of a remote processor that is not NULL. The image information is in
  -- `a`, if the caller has a place for it.
  pub load_noblock :
      Host I Y X
      → Option Buffer
      → (offset len : ℕ) → Asked I Y
      → Option (ℤ × Host I Y X × Asked I Y)
  load_noblock h img offset len a = do
    held ← acquire h.rproc
    let refused = some (einval, h, a)
    if not (is_ready held.state) then refused else (do
      chosen ← choose_loader h.loader img offset len
      elim chosen [
        | none ↦ refused
        | some ops ↦
            (let host = record h { rproc = held; loader = some ops } in
              let load =
                load_piece differ allocate free memory local ops keep a.target.loader.img_info host
                  img offset len in
              elim a.target.loader.img_info [
                | none ↦ load a (pos 0)
                | some info ↦
                    (let state = ops.get_load_state (some info) in
                      if is_negative state
                      then some (einval, record host { rproc = release held }, a)
                      else load a state)
              ])
      ])
