-- ===== src/Elf/Firmware.antt =====
-- The loop over the headers of remoteproc.c, with the loader of elf_loader.c and a store that has
-- an image.
use openamp_core.Prelude.{
  ℕ, zero, suc, ◌+◌, ◌-◌, ◌<◌, ◌≤◌, ◌≡◌, ◌⊎◌, inl, inr, refl, ◌∙◌, Bool, true, false, not, ◌&&◌,
  ◌||◌, Bool-cases, has_flag, Option, none, some, ◌==◌, ltb, arith, ℤ, pos, negsuc, ◌%◌,
}
use openamp_core.Utilities.{Chars}
use openamp_core.Remoteproc.State.{Rproc, Region}
use openamp_core.Remoteproc.Memory.{u64}
use openamp_core.Remoteproc.Loader.{
  Buffer, Loader, StoreOps, any_address, int_of, int_less, ready_to_load,
}
use openamp_core.Remoteproc.Load.{Session, TargetMemory, next_piece, header_loop}
use openamp_core.Elf.Format.{Info}
use openamp_core.Elf.Header.{elf_load_header}
use openamp_core.Elf.Header.Pieces.{
  part, IsSane, Stage, header, phdrs, shdrs, shstrtab, rank, state_of, place_of, size_of, info_at,
  complete_info, Reply,
}
use openamp_core.Elf.Header.Progress.{elf_load_header-progress, header_lem}
use openamp_core.Elf.Load.{elf_ops}

-- A store that has a file of `size` bytes: it brings a part that is in the file, and answers less
-- than the length of a part that is not.
pub record Serves {X : Type 0} (store : StoreOps X) (file : ℕ → ℕ) (size : ℕ) : Type 0 where
  pub brings :
      (w : X) (offset n : ℕ)
      → offset + n ≤ size
      → (after : X) × (store.load_image w offset n any_address none
          ≡ (pos n, some (part file offset n), after))
  pub ends :
      (w : X) (offset n : ℕ)
      → size < offset + n
      → (got : ℤ) × (img : Option Buffer) × (after : X) × (store.load_image w offset n any_address
            none
          ≡ (got, img, after))
        × (int_less got (pos n) ≡ true)

int_of_lem : (n : ℕ) → n < 0x80000000 → int_of n ≡ pos n
unfolding int_of
int_of_lem n h = ground arith

module _ {X Y : Type 0} (differ : Chars → Chars → Bool) (allocate : Y → (size : ℕ) → Bool × Y)
    (free : Y → Y) (store : StoreOps X) (memory : TargetMemory X) (file : ℕ → ℕ) (size : ℕ) where
  abbrev headers : (rounds : ℕ) → Session Info Y X → Option (Option ℤ × Session Info Y X)
  headers rounds s = header_loop differ allocate free store memory (elf_ops allocate free) rounds s

  -- The loop ends with an error, or with all headers, or with those that loading needs.
  abbrev pub Headed : Option (Option ℤ × Session Info Y X) → Type 0
  Headed r =
      (error : Option ℤ) × (s : Session Info Y X) × (r ≡ some (error, s))
      × (((ret : ℤ) × (error ≡ some ret))
          ⊎ ((error ≡ none)
              × (((s.loader.img_info ≡ some (complete_info file)) × (s.last ≡ pos 0x10800))
                  ⊎ ((stage : Stage) × (rank stage ≤ 2)
                      × (s.loader.img_info ≡ info_at file stage)
                      × (s.last ≡ pos (state_of stage))))))

  -- A session in which the loader has the part of the file that it waits for.
  abbrev pub given : Rproc X → Loader Info Y → Option Region → Stage → Session Info Y X
  given r l io stage = record {
    rproc = r;
    loader = l;
    img = some (part file (place_of file stage) (size_of file stage));
    offset = place_of file stage;
    len = size_of file stage;
    last = pos (state_of stage);
    io = io;
  }

  module _ (sane : IsSane file) (short : (s : Stage) → size_of file s < 0x80000000)
      (serves : Serves store file size) where
    -- A stage in which the loader is ready to load is one behind the program headers.
    ready_rank : (stage : Stage) → has_flag ready_to_load (state_of stage) ≡ true → rank stage ≤ 2
    ready_rank header h = absurd (cc)
    ready_rank phdrs h = absurd (cc)
    ready_rank shdrs h = omega arith
    ready_rank shstrtab h = omega arith

    -- Whether a piece is short.
    enough_lem : (n : ℕ) → n < 0x80000000 → int_less (pos n) (int_of n) ≡ false
    unfolding int_less int_of
    enough_lem n h = ground arith

    less_lem :
        (got : ℤ) (n : ℕ)
        → n < 0x80000000
        → int_less got (pos n) ≡ true
        → int_less got (int_of n) ≡ true
    less_lem got n h less = rw (int_of_lem n h) less

    -- A loader that asks for a part of the file.
    abbrev asking_for : (heap : Y) → Stage → Loader Info Y
    asking_for heap stage = record {
      img_info = info_at file stage;
      heap = heap;
      noffset = place_of file stage;
      nlen = size_of file stage;
    }

    wait_lem :
        (rounds : ℕ) (s : Session Info Y X) (stage : Stage) (heap : Y)
        → elf_load_header allocate s.img s.offset s.len s.last s.loader
          ≡ some (pos (state_of stage), asking_for heap stage)
        → ((r : Rproc X) → Headed (headers rounds (given r (asking_for heap stage) s.io stage)))
        → Headed (headers (suc rounds) s)
    unfolding header_loop next_piece
    wait_lem rounds s stage heap r next =
        let n = size_of file stage in
        let beyond = ltb ((s.offset + s.len) % u64) (place_of file stage) && not store.seeks in
        elim (Bool-cases (has_flag ready_to_load (state_of stage) && (n == 0 || beyond))) [
          | inl stop ↦
              let ready : has_flag ready_to_load (state_of stage) ≡ true = ground (arith, stop) in
              rw (r, stop) (_, _, refl, inr (refl, inr (stage, ready_rank stage ready, refl, refl)))
          | inr more ↦ elim (Bool-cases (ltb size (place_of file stage + n))) [
            | inl outside ↦
                let (got, img, after, missing, less) =
                  serves.ends s.rproc.world (place_of file stage) n (ground arith) in
                rw (r, more, missing, less_lem got n (short stage) less) (_, _, refl, inl (_, refl))
            | inr within ↦
                let (after, brought) =
                  serves.brings s.rproc.world (place_of file stage) n (ground arith) in
                rw (r, more, brought, enough_lem n (short stage))
                  (next (record s.rproc { world = after }))
          ]
        ]

    round_lem :
        (rounds bound : ℕ) (s : Session Info Y X)
        → Reply file bound (elf_load_header allocate s.img s.offset s.len s.last s.loader)
        → ((stage : Stage) (r : Rproc X) (l : Loader Info Y)
            → rank stage ≤ bound
            → l.img_info ≡ info_at file stage
            → Headed (headers rounds (given r l s.io stage)))
        → Headed (headers (suc rounds) s)
    unfolding header_loop
    round_lem rounds bound s (negsuc n, l, r, _) next = rw r (_, _, refl, inl (_, refl))
    round_lem rounds bound s (pos n, l, r, inl negative) next = absurd (cc)
    round_lem rounds bound s (pos n, l, r, inr (inl (ret, whole, end))) next =
        let ready : has_flag ready_to_load n ≡ true = ground (arith, ret) in
        rw (r, ready, end) (_, _, refl, inr (refl, inl (whole, ret)))
    round_lem rounds bound s (pos n, l, r, inr (inr (stage, below, (ret, here, at, long)))) next =
        let asks : elf_load_header allocate s.img s.offset s.len s.last s.loader
            ≡ some (pos (state_of stage), asking_for l.heap stage) =
          r ∙ (λ i.
            some (
              ret i,
              record { img_info = here i; heap = l.heap; noffset = at i; nlen = long i },
            )) in
        wait_lem rounds s stage l.heap asks (λ p. next stage p (asking_for l.heap stage) below refl)

    asked_lem :
        (rounds : ℕ) (stage : Stage) (r : Rproc X) (l : Loader Info Y) (io : Option Region)
        → l.img_info ≡ info_at file stage
        → rank stage ≤ rounds
        → Headed (headers rounds (given r l io stage))
    asked_lem zero header r l io here enough = absurd (omega arith)
    asked_lem zero phdrs r l io here enough = absurd (omega arith)
    asked_lem zero shdrs r l io here enough = absurd (omega arith)
    asked_lem zero shstrtab r l io here enough = absurd (omega arith)
    asked_lem (suc rounds) stage r l io here enough =
        round_lem rounds (rank stage - 1) (given r l io stage)
          (elf_load_header-progress file sane allocate stage l here)
          (λ next p after below there. asked_lem rounds next p after io there (omega arith))

    -- On a store with a sane file, of whose parts none is longer than an `int` counts, the loop over
    -- the headers ends within five rounds from any beginning of the file that has the class of the
    -- image: with an error, with all headers of the file, or, behind the program headers, when the
    -- store cannot seek to the others.
    pub header_loop-returns :
        (rounds len : ℕ) (s : Session Info Y X)
        → 5 ≤ rounds
        → 4 < len
        → len < u64
        → s.img ≡ some (part file 0 len)
        → s.offset ≡ 0
        → s.len ≡ len
        → s.last ≡ pos 0
        → s.loader.img_info ≡ none
        → Headed (headers rounds s)
    unfolding elf_load_header
    header_loop-returns zero len s five more small img at long last fresh = absurd (omega arith)
    header_loop-returns (suc rounds) len s five more small img at long last fresh =
        let first : Reply file 4 (elf_load_header allocate s.img s.offset s.len s.last s.loader) =
          rw (img, at, long, last)
            (header_lem file sane allocate len 4 s.loader more small fresh (omega arith)
              (inr (omega arith))) in
        round_lem rounds 4 s first
          (λ next p after below there. asked_lem rounds next p after s.io there (omega arith))
