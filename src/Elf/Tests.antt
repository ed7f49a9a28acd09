-- ===== src/Elf/Tests.antt =====
-- Images on which the theorems about elf_loader.c are applied.
use openamp_core.Prelude.{
  ℕ, ◌+◌, ◌-◌, ◌%◌, ◌<◌, ◌≡◌, ◌&&◌, ltb, refl, Bool, true, false, Option, none, some, [], ◌==◌,
  if◌then◌else◌, le→leb, leb, pos, negsuc, arith,
}
use openamp_core.Utilities.{Chars}
use openamp_core.Remoteproc.State.{Rproc, Ops, ready}
use openamp_core.Remoteproc.Loader.{
  copied, Buffer, Loader, LoaderOps, Target, StoreOps, number, int_less,
}
use openamp_core.Remoteproc.Load.{Session, TargetMemory, header_loop, Host, load}
use openamp_core.Remoteproc.Load.ShortRead.{load-short_read}
use openamp_core.Elf.Format.{
  Info, elf_ehdr_size, elf_is_64, elf_phoff, elf_phnum, elf_phentsize, elf_shoff, elf_shnum,
  elf_shentsize, elf_shstrndx, elf_parse_segment, elf_parse_section,
}
use openamp_core.Elf.Load.{elf_release}
use openamp_core.Elf.Format.Tables.{segment_of, HasSegments}
use openamp_core.Elf.Header.{elf_load_header, load_tables, load_ehdr, load_phdrs, info_for, lacks}
use openamp_core.Elf.Header.Pieces.{
  part, IsSane, Stage, header, phdrs, shdrs, shstrtab, size_of, Reply, phdrs_info, phdrs_size,
}
use openamp_core.Elf.Header.Progress.{elf_load_header-progress}
use openamp_core.Elf.Load.{elf_load, elf_ops}
use openamp_core.Elf.Load.Order.{HandsOut, load_all-loadable, piece, piece_of}
use openamp_core.Elf.Load.Segments.{loadable, at_segment}
use openamp_core.Elf.Load.Endless.{call_again-endless, call_again, Reaches}
use openamp_core.Elf.Load.Errors.{elf_load-loses, elf_load_header-overruns}
use openamp_core.Elf.Firmware.{Serves, Headed, header_loop-returns}

-- A heap that never runs out of memory, and counts.
abbrev allocate : ℕ → (size : ℕ) → Bool × ℕ
allocate heap size = (true, heap + 1)

-- A 32-bit header with 257 program headers, all of them segments to load.
abbrev many_ehdr : ℕ → ℕ
many_ehdr i = if i == 44 then 1 else if i == 45 then 1 else 0

abbrev many_segments : Buffer
many_segments = record { bytes = λ i. if i % 32 == 0 then 1 else 0; size = 8224 }

abbrev info_of : (ℕ → ℕ) → Buffer → Info
info_of ehdr table = record {
  ehdr = ehdr;
  load_state = 0x10800;
  phdrs = some table;
  shdrs = none;
  shstrtab = none;
}

abbrev loader_of : Info → Loader Info ℕ
loader_of info = record { img_info = some info; heap = 0; noffset = 0; nlen = 0 }

abbrev target_of : Info → Target Info ℕ
target_of info = record { loader = loader_of info; da = 0; padding = 0; nmemsize = 0 }

many_HasSegments : HasSegments (info_of many_ehdr many_segments) many_segments
unfolding elf_phnum elf_is_64 number
many_HasSegments = record { read = refl; whole = omega arith }

many_few : 0x100 < elf_phnum many_ehdr
unfolding elf_phnum elf_is_64 number
many_few = omega arith

many_loaded : (i : ℕ) → i < 0x100 → (segment_of many_ehdr many_segments i).p_type ≡ 1
unfolding elf_parse_segment elf_is_64 number
many_loaded i h = ground arith

abbrev many_info : Info
many_info = info_of many_ehdr many_segments

call_again-endless_example :
    Reaches allocate none 0 0 many_info 8 300
      (pos 0x10800)
      (target_of many_info)
      ((0 + 300) % 0x100)
    × ((after : Target Info ℕ) × (call_again allocate none 0 0 301
            (pos 0x10800)
            (target_of many_info)
          ≡ some (pos (at_segment 8 (((0 + 300) % 0x100 + 1) % 0x100)), after))
        × (piece after ≡ piece_of (segment_of many_ehdr many_segments ((0 + 300) % 0x100))))
call_again-endless_example =
    call_again-endless allocate none 0 0 many_info many_segments many_HasSegments 8 (omega arith)
      many_few many_loaded (target_of many_info) 0 refl refl (omega arith) 300

-- A 32-bit header with two program headers, of which the second is a segment to load.
abbrev two_ehdr : ℕ → ℕ
two_ehdr i = if i == 44 then 2 else 0

abbrev two_segments : Buffer
two_segments = record {
  bytes = λ i. if i == 32 then 1 else if i == 45 then 16 else if i == 48 then 8 else 0;
  size = 64;
}

abbrev two_info : Info
two_info = info_of two_ehdr two_segments

two_HasSegments : HasSegments two_info two_segments
unfolding elf_phnum elf_is_64 number
two_HasSegments = record { read = refl; whole = omega arith }

two_phnum : elf_phnum two_ehdr ≡ 2
unfolding elf_phnum elf_is_64 number
two_phnum = refl

two_addressed : (segment_of two_ehdr two_segments 1).p_paddr ≡ 4096
unfolding elf_parse_segment elf_is_64 number
two_addressed = refl

load_all-loadable_example :
    HandsOut allocate none 0 0 4 two_info (target_of two_info) (loadable two_ehdr two_segments 2 0)
unfolding elf_parse_segment elf_is_64 number
load_all-loadable_example =
    load_all-loadable allocate none 0 0 4 two_info two_segments (target_of two_info) 0 2 refl
      two_HasSegments refl (omega (arith, two_phnum)) (omega (arith, two_phnum))
      (λ e. absurd (omega (arith, e)), tt) (omega arith)

-- A 32-bit image of 125 bytes: one program header at 52, one section header at 84, for the names of
-- the sections, and the names at 124.
abbrev small_file : ℕ → ℕ
small_file i =
    if i == 28
    then 52
    else if i == 32
    then 84
    else if i == 42
    then 32
    else if i == 46
    then 40
    else if i == 44
    then 1
    else if i == 48
    then 1
    else if i == 52
    then 1
    else if i == 100
    then 124
    else if i == 104
    then 1
    else 0

small_IsSane : IsSane small_file
unfolding elf_phoff elf_phnum elf_phentsize elf_shoff elf_shnum elf_shentsize elf_shstrndx
    elf_parse_section elf_is_64 number
small_IsSane = record {
  phdrs_end = omega arith;
  shdrs_end = omega arith;
  names_end = omega arith;
  whole = omega arith;
  named = λ e. omega arith;
}

small_parts : (s : Stage) → size_of small_file s < 0x80000000
unfolding elf_phnum elf_phentsize elf_shnum elf_shentsize elf_shoff elf_shstrndx elf_parse_section
    elf_is_64 number
small_parts header = omega arith
small_parts phdrs = omega arith
small_parts shdrs = omega arith
small_parts shstrtab = omega arith

-- The store of the image, without a state.
abbrev small_store : StoreOps (Unit {0})
small_store = record {
  open_image = λ w. (pos 52, some (part small_file 0 52), w);
  close_image = λ w. w;
  load_image = λ w offset n pa io.
      if leb (offset + n) 125
      then (pos n, some (part small_file offset n), w)
      else (negsuc 0, none, w);
  seeks = true;
}

small_Serves : Serves small_store small_file 125
unfolding int_less
small_Serves = record {
  brings = λ w offset n h. (w, rw (le→leb (offset + n) 125 h) refl);
  ends = λ w offset n h.
      let outside : leb (offset + n) 125 ≡ false = ground (arith, h) in
      (negsuc 0, none, w, rw outside refl, refl);
}

abbrev no_ops : Ops (Unit {0})
no_ops = record {
  remove = none;
  mmap = none;
  handle_rsc = none;
  config = none;
  start = none;
  stop = none;
  shutdown = none;
  get_mem = none;
}

abbrev small_rproc : Rproc (Unit {0})
small_rproc = record {
  locked = true;
  mems = [];
  bitmap = λ word bit. false;
  ops = no_ops;
  state = ready;
  world = tt;
}

abbrev small_memory : TargetMemory (Unit {0})
small_memory = record {
  block_set = λ w region offset value len. w;
  read_table = λ w region va len. (pos len, part small_file 0 len, w);
  write_table = λ w region va table len. (pos len, w);
}

abbrev free : ℕ → ℕ
free heap = heap - 1

abbrev differ : Chars → Chars → Bool
differ a b = false

abbrev no_loader : Loader Info ℕ
no_loader = record { img_info = none; heap = 0; noffset = 0; nlen = 0 }

abbrev small_session : Session Info ℕ (Unit {0})
small_session = record {
  rproc = small_rproc;
  loader = no_loader;
  img = some (part small_file 0 52);
  offset = 0;
  len = 52;
  last = pos 0;
  io = none;
}

header_loop-returns_example : Headed differ allocate free small_store small_memory small_file 125 (
    header_loop differ allocate free small_store small_memory
      (elf_ops allocate free)
      5
      small_session)
header_loop-returns_example =
    header_loop-returns differ allocate free small_store small_memory small_file 125 small_IsSane
      small_parts small_Serves 5 52 small_session (omega arith) (omega arith) (omega arith) refl
      refl refl refl refl

elf_load_header-progress_example : Reply small_file 2 (
    elf_load_header allocate
      (some (part small_file (elf_phoff small_file) (phdrs_size small_file)))
      (elf_phoff small_file)
      (phdrs_size small_file)
      (pos 0x100)
      (loader_of (phdrs_info small_file)))
elf_load_header-progress_example =
    elf_load_header-progress small_file small_IsSane allocate phdrs
      (loader_of (phdrs_info small_file)) refl

-- With a last answer that is not the state of the loader, `elf_load_header` fails.
elf_load-loses_example :
    elf_load allocate none 0 0 (pos 5) (target_of (phdrs_info small_file))
    ≡ some (pos 0x100, target_of (phdrs_info small_file))
unfolding elf_load_header load_tables
elf_load-loses_example =
    elf_load-loses allocate none 0 0 (pos 5) (target_of (phdrs_info small_file))
      (loader_of (phdrs_info small_file)) (phdrs_info small_file) 1 refl refl (omega arith) refl
      refl refl

-- A 64-bit header whose program header begins at the last byte of the address space.
abbrev far_ehdr : ℕ → ℕ
far_ehdr i =
    if i == 4
    then 2
    else if i == 54
    then 56
    else if i == 56
    then 1
    else if leb 32 i && ltb i 40
    then 255
    else 0

far_fields :
    (elf_phoff far_ehdr ≡ 18446744073709551615)
    × (elf_phnum far_ehdr ≡ 1)
    × (elf_phentsize far_ehdr ≡ 56)
unfolding elf_phoff elf_phnum elf_phentsize elf_is_64 number
far_fields = (refl, refl, refl)

abbrev far_image : Buffer
far_image = record { bytes = far_ehdr; size = 64 }

elf_load_header-overruns_example :
    elf_load_header allocate (some far_image) 0 64 (pos 0x100) (loader_of (phdrs_info far_ehdr))
    ≡ none
unfolding elf_phoff elf_phnum elf_phentsize elf_is_64 number
elf_load_header-overruns_example =
    elf_load_header-overruns allocate (some far_image) 0 64 far_image
      (loader_of (phdrs_info far_ehdr)) (phdrs_info far_ehdr) refl refl refl (omega arith)
      (omega arith) (omega arith) (omega arith) (omega arith) (omega arith) refl

-- A store that has the header of the image and nothing more.
abbrev header_store : StoreOps (Unit {0})
header_store = record {
  open_image = λ w. (pos 52, some (part small_file 0 52), w);
  close_image = λ w. w;
  load_image = λ w offset n pa io. (pos 0, none, w);
  seeks = true;
}

abbrev idle : Host Info ℕ (Unit {0})
idle = record {
  rproc = record small_rproc { locked = false };
  loader = some (elf_ops allocate free);
  rsc_table = 0;
  rsc_len = 0;
  rsc_io = none;
  bootaddr = 7;
}

abbrev headed : Loader Info ℕ
headed = record {
  img_info = some (record (phdrs_info small_file) { ehdr = λ i. small_file (0 + (0 + i)) });
  heap = 1;
  noffset = 52;
  nlen = 32;
}

abbrev check : Option Buffer → (len : ℕ) → Option (Option (LoaderOps Info ℕ))
check img len = some none

-- The call answers 0, and nothing is loaded.
load-short_read_example :
    (host : Host Info ℕ (Unit {0})) × (loader : Loader Info ℕ) × (load differ allocate free
        header_store small_memory check 5 false idle no_loader
      ≡ some (pos 0, host, loader))
    × (host.rproc.state ≡ ready)
    × (host.rproc.locked ≡ false)
    × (host.bootaddr ≡ 7)
    × (host.rsc_table ≡ 0)
    × (loader.img_info ≡ none)
    × (loader.heap ≡ elf_release free headed.img_info headed.heap)
    × (host.rproc.world ≡ tt)
unfolding elf_load_header load_ehdr load_tables load_phdrs info_for elf_ehdr_size copied lacks
    elf_phoff elf_phnum elf_phentsize elf_is_64 number
load-short_read_example =
    load-short_read differ allocate free header_store small_memory (elf_ops allocate free) check 4
      false idle no_loader headed (part small_file 0 52) 51 0 0x100 none tt tt refl refl refl refl
      refl refl refl (omega arith) (omega arith)
