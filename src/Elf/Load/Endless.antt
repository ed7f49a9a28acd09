-- ===== src/Elf/Load/Endless.antt =====
-- `elf_load` of elf_loader.c on an image with more segments than the state can count.
use openamp_core.Prelude.{
  ℕ, zero, suc, ◌+◌, ◌*◌, ◌/◌, ◌%◌, ◌<◌, ◌≡◌, refl, ap, ◌∙◌, Bool, true, false, Option, some, ◌==◌,
  arith, ◌>>=◌, ℤ, pos,
}
use openamp_core.Remoteproc.Loader.{Buffer, Target}
use openamp_core.Elf.Format.{Info, elf_phnum}
use openamp_core.Elf.Format.Tables.{segment_of, HasSegments, get_segment_lem}
use openamp_core.Elf.Load.{next_load_segment, elf_next_load_segment, load_segment, elf_load}
use openamp_core.Elf.Load.Segments.{at_segment}
use openamp_core.Elf.Load.Order.{piece_of, piece, reset, elf_load-ready}

module _ (info : Info) (b : Buffer) (table : HasSegments info b) (e k : ℕ) where
  first_lem :
      k < elf_phnum info.ehdr
      → (segment_of info.ehdr b k).p_type ≡ 1
      → elf_next_load_segment info k
        ≡ some (record { found = true; nseg = k + 1; parsed = some (segment_of info.ehdr b k) })
  unfolding elf_next_load_segment next_load_segment
  first_lem here load = rw (get_segment_lem info b table k here, load) refl

  step_lem :
      {Y : Type 0} (t : Target Info Y)
      → info.load_state ≡ at_segment e k
      → e < 0x100
      → k < 0x100
      → 0x100 < elf_phnum info.ehdr
      → (segment_of info.ehdr b k).p_type ≡ 1
      → (after : Target Info Y) × (load_segment info t
          ≡ some (pos (at_segment e ((k + 1) % 0x100)), after))
        × (after.loader.img_info
            ≡ some (record info { load_state = at_segment e ((k + 1) % 0x100) }))
        × (piece after ≡ piece_of (segment_of info.ehdr b k))
  unfolding load_segment
  step_lem t state small below many load =
      let place : info.load_state % 0x100 ≡ k = omega arith in
      let inside : (k + 1 == elf_phnum info.ehdr) ≡ false = ground arith in
      let moved : info.load_state / 0x100 * 0x100 + (k + 1) % 0x100
          ≡ at_segment e ((k + 1) % 0x100) =
        omega arith in
      let s = segment_of info.ehdr b k in
      let after : ℕ → Target Info _ = λ next. record t {
        loader = record t.loader {
          img_info = some (record info { load_state = next });
          noffset = s.p_offset;
          nlen = s.p_filesz;
        };
        da = s.p_paddr;
        nmemsize = s.p_memsz;
      } in
      (
        after (at_segment e ((k + 1) % 0x100)),
        rw (place, first_lem (omega arith) load, inside)
            (λ i. some (pos (moved i), after (moved i))),
        refl,
        refl,
      )

module _ {Y : Type 0} (allocate : Y → (size : ℕ) → Bool × Y) (img : Option Buffer)
    (offset len : ℕ) where
  -- Calls of `elf_load`, each with the state that the one before answered.
  pub call_again : (calls : ℕ) → (last : ℤ) → Target Info Y → Option (ℤ × Target Info Y)
  call_again zero last t = some (last, t)
  call_again (suc calls) last t =
      call_again calls last t >>= λ done. elf_load allocate img offset len done.0 (reset done.1)

  -- Where the loader is after some calls: at segment `k` of the information that it began with.
  abbrev pub Reaches : Info → (e : ℕ) → (calls : ℕ) → (last : ℤ) → Target Info Y → (k : ℕ) → Type 0
  Reaches info e calls last t k =
      (after : Target Info Y) × (call_again calls last t ≡ some (pos (at_segment e k), after))
      × (after.loader.img_info ≡ some (record info { load_state = at_segment e k }))

  module _ (info : Info) (b : Buffer) (table : HasSegments info b) (e : ℕ) (small : e < 0x100)
      (many : 0x100 < elf_phnum info.ehdr)
      (load : (i : ℕ) → i < 0x100 → (segment_of info.ehdr b i).p_type ≡ 1) where
    one_call :
        (t : Target Info Y) (k : ℕ)
        → t.loader.img_info ≡ some (record info { load_state = at_segment e k })
        → k < 0x100
        → (after : Target Info Y) × (elf_load allocate img offset len
              (pos (at_segment e k))
              (reset t)
            ≡ some (pos (at_segment e ((k + 1) % 0x100)), after))
          × (after.loader.img_info
              ≡ some (record info { load_state = at_segment e ((k + 1) % 0x100) }))
          × (piece after ≡ piece_of (segment_of info.ehdr b k))
    one_call t k here below =
        let now : Info = record info { load_state = at_segment e k } in
        let (after, call, there, handed) =
          step_lem now b (record { read = table.read; whole = table.whole }) e k
            (record (reset t) { padding = 0 }) refl small below many (load k below) in
        (
          after,
          elf_load-ready allocate img offset len now (reset t) e k here refl small below ∙ call,
          there,
          handed,
        )

    module _ (t : Target Info Y) (k : ℕ) (here : t.loader.img_info ≡ some info)
        (state : info.load_state ≡ at_segment e k) (below : k < 0x100) where
      reached : (calls : ℕ) → Reaches info e calls (pos info.load_state) t ((k + calls) % 0x100)
      unfolding call_again
      reached zero =
          let same : info.load_state ≡ at_segment e ((k + 0) % 0x100) = omega arith in
          (
            t,
            ap (λ (n : ℕ). some (pos n, t)) same,
            here ∙ ap (λ (n : ℕ). some (record info { load_state = n })) same,
          )
      reached (suc calls) =
          let (t', before, here') = reached calls in
          let (after, call, there, handed) =
            one_call t' ((k + calls) % 0x100) here' (omega arith) in
          let next : ((k + calls) % 0x100 + 1) % 0x100 ≡ (k + suc calls) % 0x100 = omega arith in
          rw (← next) (after, rw before call, there)

      -- With more than 256 program headers, of which the first 256 are segments to load, `elf_load`
      -- in READY_TO_LOAD at segment `k` never ends: the call behind `calls` calls hands out the
      -- segment `(k + calls) % 256` and answers READY_TO_LOAD again, so that no segment from 256 on
      -- is ever loaded.
      pub call_again-endless :
          (calls : ℕ)
          → Reaches info e calls (pos info.load_state) t ((k + calls) % 0x100)
            × ((after : Target Info Y) × (call_again (suc calls) (pos info.load_state) t
                  ≡ some (pos (at_segment e (((k + calls) % 0x100 + 1) % 0x100)), after))
                × (piece after ≡ piece_of (segment_of info.ehdr b ((k + calls) % 0x100))))
      unfolding call_again
      call_again-endless calls =
          let (t', before, here') = reached calls in
          let (after, call, there, handed) =
            one_call t' ((k + calls) % 0x100) here' (omega arith) in
          ((t', before, here'), (after, rw before call, handed))
