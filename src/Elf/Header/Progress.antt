-- ===== src/Elf/Header/Progress.antt =====
-- `elf_load_header` of elf_loader.c, given what it asks for: it gets further with each call.
use native.Mathlib.Nat.{mul-le-mul}
use mathlib.Core.Path.{fun_ext}
use openamp_core.Prelude.{
  ℕ, suc, ◌+◌, ◌-◌, ◌*◌, ◌<◌, ◌≤◌, ◌≡◌, ◌⊎◌, inl, inr, refl, ap, sym, subst, Bool, true, false,
  Option, none, some, ◌==◌, Bool-cases, ltb, leb, le→leb, arith, ℤ, pos,
}
use openamp_core.Remoteproc.Memory.{u64}
use openamp_core.Remoteproc.Loader.{Loader, copied}
use openamp_core.Elf.Format.{
  Info, by_class, elf_is_64, entry, elf_phoff, elf_phnum, elf_shoff, elf_shnum, elf_shstrndx,
  elf_get_section_from_index, elf_ehdr_size,
}
use openamp_core.Elf.Header.{
  lacks, load_shstrtab, load_shdrs, load_phdrs, load_tables, load_ehdr, elf_load_header, info_for,
}
use openamp_core.Elf.Header.Pieces.{
  part, phdrs_size, shdrs_size, names, IsSane, Stage, header, phdrs, shdrs, shstrtab, rank,
  state_of, place_of, size_of, info_at, phdrs_info, shdrs_info, names_info, Reply, lacks_not,
  read_cases,
}

module _ (file : ℕ → ℕ) (sane : IsSane file) where
  found_lem :
      (elf_shnum file == 0) ≡ false
      → elf_get_section_from_index (names_info file) (elf_shstrndx file) ≡ some (some (names file))
  unfolding elf_get_section_from_index entry
  found_lem some_sections =
      let c = by_class file 40 64 in
      let below : suc (elf_shstrndx file) ≤ elf_shnum file = sane.named some_sections in
      let inside : leb (elf_shnum file) (elf_shstrndx file) ≡ false = ground arith in
      let product : suc (elf_shstrndx file) * c ≤ shdrs_size file = mul-le-mul below sane.whole in
      let fits : leb (elf_shstrndx file * c + c) (shdrs_size file) ≡ true =
        le→leb _ _ (omega (arith, product)) in
      rw (inside, fits) refl

  no_names :
      (elf_shnum file == 0) ≡ true
      → elf_get_section_from_index (names_info file) (elf_shstrndx file) ≡ some none
  unfolding elf_get_section_from_index
  no_names no_sections =
      let beyond : leb (elf_shnum file) (elf_shstrndx file) ≡ true = ground (arith, no_sections) in
      rw beyond refl

  module _ (offset len : ℕ) (inside : offset + len < u64) {Y : Type 0}
      (allocate : Y → (size : ℕ) → Bool × Y) (last : ℕ) where
    -- Whether the piece has all of a part, or the bound allows to wait for it.
    abbrev HasOr : Stage → (bound : ℕ) → Type 0
    HasOr s bound = (lacks offset len (place_of file s) (size_of file s) ≡ false) ⊎ (rank s ≤ bound)

    -- What a branch does for a part: it has it, or it waits.
    has_cases :
        (s : Stage) (bound : ℕ)
        → HasOr s bound
        → (lacks offset len (place_of file s) (size_of file s) ≡ false)
          ⊎ ((lacks offset len (place_of file s) (size_of file s) ≡ true) × (rank s ≤ bound))
    has_cases s bound (inl has) = inl has
    has_cases s bound (inr small) =
        elim (Bool-cases (lacks offset len (place_of file s) (size_of file s))) [
          | inl lacking ↦ inr (lacking, small)
          | inr has ↦ inl has
        ]

    names_lem :
        (bound : ℕ) (l : Loader Info Y)
        → (elf_shnum file == 0) ≡ false
        → HasOr shstrtab bound
        → Reply file bound (
            load_shstrtab allocate
              (some (part file offset len))
              offset
              len
              last
              (names_info file)
              l)
    unfolding load_shstrtab
    names_lem bound l some_sections has =
        let found = found_lem some_sections in
        let at = (names file).sh_offset in
        let size = (names file).sh_size in
        elim (has_cases shstrtab bound has) [
          | inr (lacking, small) ↦
              rw (found, lacking)
                (_, _, refl, inr (inr (shstrtab, small, (refl, refl, refl, refl))))
          | inl held ↦
              elim (read_cases file offset len inside allocate l.heap at size sane.names_end held) [
                | inl (after, full) ↦ rw (found, held, full) (_, _, refl, inl refl)
                | inr (after, read) ↦
                    rw (found, held, read)
                      (_, _, refl, inr (inl (refl, rw some_sections refl, refl)))
              ]
        ]

    shdrs_lem :
        (bound : ℕ) (l : Loader Info Y)
        → 1 ≤ bound
        → HasOr shdrs bound
        → Reply file bound
            (load_shdrs allocate (some (part file offset len)) offset len last (shdrs_info file) l)
    unfolding load_shdrs
    shdrs_lem bound l one has = elim (Bool-cases (elf_shnum file == 0)) [
      | inl no_sections ↦ rw no_sections (_, _, refl, inr (inl (refl, refl, refl)))
      | inr some_sections ↦ elim (has_cases shdrs bound has) [
        | inr (lacking, small) ↦
            rw (some_sections, lacking)
              (_, _, refl, inr (inr (shdrs, small, (refl, refl, refl, refl))))
        | inl held ↦
            elim (read_cases file offset len inside allocate l.heap (elf_shoff file)
              (shdrs_size file) sane.shdrs_end held) [
                | inl (after, full) ↦ rw (some_sections, held, full) (_, _, refl, inl refl)
                | inr (after, read) ↦
                    let rest =
                      names_lem bound (record l { heap = after }) some_sections (inr one) in
                    rw (some_sections, held, read) (rw some_sections at rest)
              ]
      ]
    ]

    phdrs_lem :
        (bound : ℕ) (l : Loader Info Y)
        → 2 ≤ bound
        → HasOr phdrs bound
        → Reply file bound
            (load_phdrs allocate (some (part file offset len)) offset len last (phdrs_info file) l)
    unfolding load_phdrs
    phdrs_lem bound l two has = elim (has_cases phdrs bound has) [
      | inr (lacking, small) ↦
          rw lacking (_, _, refl, inr (inr (phdrs, small, (refl, refl, refl, refl))))
      | inl held ↦
          elim (read_cases file offset len inside allocate l.heap (elf_phoff file) (phdrs_size file)
            sane.phdrs_end held) [
              | inl (after, full) ↦ rw (held, full) (_, _, refl, inl refl)
              | inr (after, read) ↦
                  rw (held, read)
                    (shdrs_lem bound (record l { heap = after }) (omega arith) (inr two))
            ]
    ]

  -- The first call, on a piece from the beginning of the file.
  pub header_lem :
      {Y : Type 0} (allocate : Y → (size : ℕ) → Bool × Y) (len bound : ℕ) (l : Loader Info Y)
      → 4 < len
      → len < u64
      → l.img_info ≡ none
      → 3 ≤ bound
      → (size_of file header ≤ len) ⊎ (4 ≤ bound)
      → Reply file bound (load_ehdr allocate (some (part file 0 len)) 0 len l)
  unfolding load_ehdr elf_ehdr_size info_for copied load_tables elf_is_64 elf_phnum
  header_lem allocate len bound l more small here three has =
      let readable : ltb 4 len ≡ true = ground arith in
      let once : (λ (i : ℕ). file (0 + i)) ≡ file = fun_ext (λ i. ap file (omega arith)) in
      let twice : (λ (i : ℕ). file (0 + (0 + i))) ≡ file = fun_ext (λ i. ap file (omega arith)) in
      elim (Bool-cases (ltb len (size_of file header))) [
        | inl short ↦
            let four : 4 ≤ bound = elim has [
              | inl enough ↦ absurd (ground (arith, enough, short))
              | inr wait ↦ wait
            ] in
            rw (readable, once, short)
              (_, _, refl, inr (inr (header, four, (refl, here, refl, refl))))
        | inr long ↦
            let whole : leb (0 + size_of file header) len ≡ true = ground (arith, long) in
            elim (Bool-cases (allocate l.heap (by_class file 80 96)).0) [
              | inl ok ↦
                  rw (readable, once, long, here, ok, whole, twice)
                    (phdrs_lem 0 len (omega arith) allocate 0x100 bound
                      (record l {
                        img_info = some (phdrs_info file);
                        heap = (allocate l.heap (by_class file 80 96)).1;
                      })
                      (omega arith) (inr three))
              | inr full ↦ rw (readable, once, long, here, full) (_, _, refl, inl refl)
            ]
      ]

  place_end : (s : Stage) → place_of file s + size_of file s < u64
  place_end header = ground arith
  place_end phdrs = sane.phdrs_end
  place_end shdrs = sane.shdrs_end
  place_end shstrtab = sane.names_end

  held_lem :
      (s : Stage)
      → lacks (place_of file s) (size_of file s) (place_of file s) (size_of file s) ≡ false
  held_lem s =
      lacks_not file (place_of file s) (size_of file s) (place_end s) (place_of file s)
        (size_of file s) (omega arith) (omega arith)

  -- The call of `elf_load_header` with the part of the file that it waits for.
  abbrev asked_call :
      {Y : Type 0}
      → (Y → (size : ℕ) → Bool × Y)
      → Stage
      → Loader Info Y
      → Option (ℤ × Loader Info Y)
  asked_call allocate s l =
      elf_load_header allocate (some (part file (place_of file s) (size_of file s)))
        (place_of file s) (size_of file s) (pos (state_of s)) l

  asked_call_lem :
      {Y : Type 0} (allocate : Y → (size : ℕ) → Bool × Y) (s : Stage) (l : Loader Info Y)
      → Reply file (rank s - 1) (asked_call allocate s (record l { img_info = info_at file s }))
  unfolding elf_load_header load_tables load_phdrs load_shdrs
  asked_call_lem allocate header l =
      header_lem allocate (size_of file header) 3 (record l { img_info = none }) (ground arith)
        (ground arith) refl (omega arith) (inl (omega arith))
  asked_call_lem allocate phdrs l =
      phdrs_lem (place_of file phdrs) (size_of file phdrs) (place_end phdrs) allocate 0x100 2
        (record l { img_info = some (phdrs_info file) }) (omega arith) (inl (held_lem phdrs))
  asked_call_lem allocate shdrs l =
      shdrs_lem (place_of file shdrs) (size_of file shdrs) (place_end shdrs) allocate 0x10200 1
        (record l { img_info = some (shdrs_info file) }) (omega arith) (inl (held_lem shdrs))
  asked_call_lem allocate shstrtab l = elim (Bool-cases (elf_shnum file == 0)) [
    | inl no_sections ↦
        let nothing = no_names no_sections in
        unfold load_shstrtab in rw nothing (_, _, refl, inl refl)
    | inr some_sections ↦
        names_lem (place_of file shstrtab) (size_of file shstrtab) (place_end shstrtab) allocate
          0x10400 0 (record l { img_info = some (names_info file) }) some_sections
          (inl (held_lem shstrtab))
  ]

  -- Given the part of a sane file that the loader waits for, `elf_load_header` returns: it fails,
  -- it completes the headers, with the tables of the file, or it waits for a later part.
  pub elf_load_header-progress :
      {Y : Type 0} (allocate : Y → (size : ℕ) → Bool × Y) (s : Stage) (l : Loader Info Y)
      → l.img_info ≡ info_at file s
      → Reply file (rank s - 1) (asked_call allocate s l)
  elf_load_header-progress allocate s l here =
      subst
        (λ (info : Option Info).
          Reply file (rank s - 1) (asked_call allocate s (record l { img_info = info })))
        (sym here) (asked_call_lem allocate s l)
