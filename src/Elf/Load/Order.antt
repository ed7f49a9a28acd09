-- ===== src/Elf/Load/Order.antt =====
-- `elf_load` of elf_loader.c, called again and again: it hands out every segment to load, in order.
use openamp_core.Prelude.{
  ℕ, zero, suc, ◌+◌, ◌*◌, ◌/◌, ◌%◌, ◌<◌, ◌≡◌, ◌≢◌, inl, inr, refl, subst, ◌∙◌, Bool, true, false,
  Option, none, some, List, [], ◌∷◌, ◌==◌, ==_of_ne, if◌then◌else◌, arith, ◌>>=◌, ℤ, pos, All,
  has_flag, equal_or_not,
}
use openamp_core.Remoteproc.Loader.{Buffer, Target, any_address}
use openamp_core.Elf.Format.{Info, Segment, elf_phnum}
use openamp_core.Elf.Format.Tables.{segment_of, HasSegments}
use openamp_core.Elf.Load.{load_segment, load_post, load_data, elf_load}
use openamp_core.Elf.Load.Segments.{loadable, load_segment_lem, handed_out, at_segment}

-- The places of a segment: in the image, with its size there, and in memory, with its size there.
pub record Piece : Type 0 where
  pub offset : ℕ
  pub filesz : ℕ
  pub da : ℕ
  pub memsz : ℕ

abbrev pub piece_of : Segment → Piece
piece_of s = record { offset = s.p_offset; filesz = s.p_filesz; da = s.p_paddr; memsz = s.p_memsz }

abbrev pub pieces_of : List Segment → List Piece
pieces_of [] = []
pieces_of (s ∷ ss) = piece_of s ∷ pieces_of ss

module _ {Y : Type 0} where
  -- What the caller sets before each call.
  abbrev pub reset : Target Info Y → Target Info Y
  reset t = record t {
    da = any_address;
    nmemsize = 0;
    loader = record t.loader { noffset = 0; nlen = 0 };
  }

  -- What the caller gets to load by a call.
  abbrev pub piece : Target Info Y → Piece
  piece t = record {
    offset = t.loader.noffset;
    filesz = t.loader.nlen;
    da = t.da;
    memsz = t.nmemsize;
  }

module _ {Y : Type 0} (allocate : Y → (size : ℕ) → Bool × Y) (img : Option Buffer)
    (offset len : ℕ) where
  -- At most `calls` calls of `elf_load`, each with the state that the one before answered, until one
  -- gives no address: what they hand out, with the last answer.
  pub load_all : (calls : ℕ) → (last : ℤ) → Target Info Y → Option (List Piece × ℤ × Target Info Y)
  load_all zero last t = none
  load_all (suc calls) last t = do
    (ret, after) ← elf_load allocate img offset len last (reset t)
    let rest = load_all calls ret after
    if after.da == any_address
        then some ([], ret, after)
        else (rest >>= λ done. some (piece after ∷ done.0, done.1, done.2))

  -- A call in the state READY_TO_LOAD is one of `load_segment`.
  pub elf_load-ready :
      (info : Info) (t : Target Info Y) (e k : ℕ)
      → t.loader.img_info ≡ some info
      → info.load_state ≡ at_segment e k
      → e < 0x100
      → k < 0x100
      → elf_load allocate img offset len (pos info.load_state) t
        ≡ load_segment info (record t { padding = 0 })
  unfolding elf_load load_data
  elf_load-ready info t e k here state small below =
      let on : (info.load_state / 0x10000 % 0x100 == 0) ≡ false = ground arith in
      let ready : has_flag 0x10000 info.load_state ≡ true = ground arith in
      rw (on, here, ready) refl

  -- Behind the last segment, with all headers read, the next call ends the loading.
  elf_load-post :
      (info : Info) (t : Target Info Y) (n : ℕ)
      → t.loader.img_info ≡ some info
      → info.load_state ≡ 0x20800 + n
      → n < 0x100
      → elf_load allocate img offset len (pos info.load_state) t
        ≡ some (
          pos (0x40800 + n),
          record t {
            padding = 0;
            loader = record t.loader {
              img_info = some (record info { load_state = 0x40800 + n });
              nlen = 0;
            };
          },
        )
  unfolding elf_load load_data load_post
  elf_load-post info t n here state small =
      let on : (info.load_state / 0x10000 % 0x100 == 0) ≡ false = ground arith in
      let unready : has_flag 0x10000 info.load_state ≡ false = ground arith in
      let post : has_flag 0x20000 info.load_state ≡ true = ground arith in
      let whole : has_flag 0x800 info.load_state ≡ true = ground arith in
      let end : info.load_state / 0x1000000 * 0x1000000 + 0x40000 + info.load_state % 0x10000
          ≡ 0x40800 + n =
        omega arith in
      rw (on, here, unready, post, whole)
        (λ i. some (
          pos (end i),
          record t {
            padding = 0;
            loader = record t.loader {
              img_info = some (record info { load_state = end i });
              nlen = 0;
            };
          },
        ))

  load_all-more :
      (calls : ℕ) (last : ℤ) (t : Target Info Y) {ret r : ℤ} {after done : Target Info Y}
      {ps : List Piece}
      → elf_load allocate img offset len last (reset t) ≡ some (ret, after)
      → after.da ≢ any_address
      → load_all calls ret after ≡ some (ps, r, done)
      → load_all (suc calls) last t ≡ some (piece after ∷ ps, r, done)
  unfolding load_all
  load_all-more calls last t {after} e ne rest = rw (e, ==_of_ne after.da any_address ne, rest) refl

  load_all-stop :
      (calls : ℕ) (last : ℤ) (t : Target Info Y) {ret : ℤ} {after : Target Info Y}
      → elf_load allocate img offset len last (reset t) ≡ some (ret, after)
      → after.da ≡ any_address
      → load_all (suc calls) last t ≡ some ([], ret, after)
  unfolding load_all
  load_all-stop calls last t {after} e any = rw (e, any) refl

  -- What is left of the image for a loader with the information `info`: it hands out `ss`.
  abbrev pub HandsOut : (calls : ℕ) → Info → Target Info Y → List Segment → Type 0
  HandsOut calls info t ss =
      let end = 0x40800 + elf_phnum info.ehdr in
      (done : Target Info Y) × (load_all calls (pos info.load_state) t
        ≡ some (pieces_of ss, pos end, done))
      × (done.loader.img_info ≡ some (record info { load_state = end }))

  load_all-post :
      (calls : ℕ) (info : Info) (t : Target Info Y)
      → t.loader.img_info ≡ some info
      → info.load_state ≡ 0x20800 + elf_phnum info.ehdr
      → elf_phnum info.ehdr < 0x100
      → 0 < calls
      → HandsOut calls info t []
  load_all-post zero info t here state few enough = absurd (omega arith)
  load_all-post (suc calls) info t here state few enough = (
    _,
    load_all-stop calls (pos info.load_state) t
        (elf_load-post info (reset t) (elf_phnum info.ehdr) here state few) refl,
    refl,
  )

  -- Called again and again on an image with all headers read and with at most 255 program headers,
  -- from segment `k` on, `elf_load` hands out the segments to load from there, each once and in
  -- the order of the image, and then ends in LOAD_COMPLETE, if none of them has the address
  -- RPROC_LOAD_ANYADDR.
  pub load_all-loadable :
      (calls : ℕ) (info : Info) (b : Buffer) (t : Target Info Y) (k left : ℕ)
      → t.loader.img_info ≡ some info
      → HasSegments info b
      → info.load_state ≡ at_segment 8 k
      → k + left ≡ elf_phnum info.ehdr
      → elf_phnum info.ehdr < 0x100
      → All (λ s. s.p_paddr ≢ any_address) (loadable info.ehdr b left k)
      → left + 1 < calls
      → HandsOut calls info t (loadable info.ehdr b left k)
  load_all-loadable zero info b t k left here table state sum few addressed enough =
      absurd (omega arith)
  load_all-loadable (suc calls) info b t k left here table state sum few addressed enough =
      let call = elf_load-ready info (reset t) 8 k here state (omega arith) (omega arith) in
      elim (load_segment_lem info b table (record (reset t) { padding = 0 }) 8 k state (omega arith)
        left sum few) [
          | inr (noffset, l, e) ↦
              rw l (_, load_all-stop calls (pos info.load_state) t (call ∙ e) refl, refl)
          | inl (j, rest, more, shorter, l, e) ↦
              (let test = suc j == elf_phnum info.ehdr in
                let next_state : ℕ = (if test then 0x20000 else 0x10000) + 0x100 * 8 + suc j in
                let after : Info = record info { load_state = next_state } in
                let t' : Target Info Y =
                  handed_out info b table (record (reset t) { padding = 0 }) 8 k j in
                let fine : All (λ s. s.p_paddr ≢ any_address)
                    (segment_of info.ehdr b j ∷ loadable info.ehdr b rest (suc j)) =
                  subst (All (λ s. s.p_paddr ≢ any_address)) l addressed in
                let (done, others, end) : HandsOut calls after t'
                    (loadable info.ehdr b rest (suc j)) =
                  elim (equal_or_not (suc j) (elf_phnum info.ehdr)) [
                    | inl last ↦
                        let none_left : rest ≡ 0 = omega arith in
                        rw none_left
                          (load_all-post calls after t' refl (ground arith) few (omega arith))
                    | inr further ↦
                        load_all-loadable calls after b t' (suc j) rest refl
                          (record { read = table.read; whole = table.whole }) (ground arith) more
                          few fine.1 (omega arith)
                  ] in
                rw l
                  (done, load_all-more calls (pos info.load_state) t (call ∙ e) fine.0 others, end))
        ]
