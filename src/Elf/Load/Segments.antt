-- ===== src/Elf/Load/Segments.antt =====
-- The segments that `elf_load` of elf_loader.c hands out, against the program headers of the image.
use openamp_core.Prelude.{
  ℕ, zero, suc, ◌+◌, ◌*◌, ◌/◌, ◌%◌, ◌<◌, ◌≤◌, ◌≡◌, ◌⊎◌, inl, inr, refl, ap, true, false, not,
  Option, none, some, List, [], ◌∷◌, ◌==◌, if◌then◌else◌, Bool-cases, ==_refl, arith, pos,
}
use openamp_core.Remoteproc.Loader.{Buffer, Target, any_address, post_data_load, load_complete}
use openamp_core.Elf.Format.{Info, Segment, elf_phnum, elf_get_segment_from_index}
use openamp_core.Elf.Format.Tables.{segment_of, HasSegments, get_segment_lem, get_segment_end}
use openamp_core.Elf.Load.{
  with_loader_state, Next, next_load_segment, elf_next_load_segment, load_segment,
}

-- The segments to load among the `rounds` that begin with `i`, in their order.
abbrev pub loadable : (ehdr : ℕ → ℕ) → Buffer → (rounds i : ℕ) → List Segment
loadable ehdr b zero i = []
loadable ehdr b (suc rounds) i =
    let s = segment_of ehdr b i in
    if s.p_type == 1 then s ∷ loadable ehdr b rounds (i + 1) else loadable ehdr b rounds (i + 1)

-- The state of the loader with the next segment `k`, in the state `e` of the headers.
abbrev pub at_segment : (e k : ℕ) → ℕ
at_segment e k = 0x10000 + 0x100 * e + k

-- The state that `load_segment` leaves behind the segment `j` of `n`.
abbrev after_found : (state j n : ℕ) → ℕ
after_found state j n =
    (if not (suc j == n) then state else with_loader_state state post_data_load) / 0x100 * 0x100
    + suc j % 0x100

after_found_lem :
    (state j n e k : ℕ)
    → state ≡ at_segment e k
    → e < 0x100
    → k ≤ n
    → n < 0x100
    → suc j ≤ n
    → after_found state j n ≡ (if suc j == n then 0x20000 else 0x10000) + 0x100 * e + suc j
after_found_lem state j n e k here small below few before = ground arith

-- The state that it leaves if no segment is left.
at_end_lem :
    (state n e k : ℕ)
    → state ≡ at_segment e k
    → e < 0x100
    → k ≤ n
    → n < 0x100
    → with_loader_state state load_complete / 0x100 * 0x100 + n % 0x100 ≡ 0x40000 + 0x100 * e + n
at_end_lem state n e k here small below few = omega arith

module _ (info : Info) (b : Buffer) (table : HasSegments info b) where
  -- The loop stops behind the first segment to load, or at the end.
  next_lem :
      (rounds k left : ℕ) (parsed : Option Segment)
      → k + left ≡ elf_phnum info.ehdr
      → left < rounds
      → ((j rest : ℕ) × (suc j + rest ≡ elf_phnum info.ehdr)
          × (rest < left)
          × (loadable info.ehdr b left k
              ≡ segment_of info.ehdr b j ∷ loadable info.ehdr b rest (suc j))
          × (next_load_segment rounds info k parsed
              ≡ some (record {
                found = true;
                nseg = suc j;
                parsed = some (segment_of info.ehdr b j);
              })))
        ⊎ ((seen : Option Segment) × (loadable info.ehdr b left k ≡ [])
            × (next_load_segment rounds info k parsed
                ≡ some (record { found = false; nseg = elf_phnum info.ehdr; parsed = seen })))
  unfolding next_load_segment
  next_lem zero k left parsed e h = absurd (omega arith)
  next_lem (suc rounds) k zero parsed e h =
      let end : k ≡ elf_phnum info.ehdr = omega arith in
      let at_end : elf_get_segment_from_index info k ≡ some none =
        rw end (get_segment_end info b table) in
      let stop : ℕ → Next = λ n. record { found = false; nseg = n; parsed = parsed } in
      inr (parsed, refl, rw at_end (ap (λ (n : ℕ). some (stop n)) end))
  next_lem (suc rounds) k (suc left) parsed e h =
      let here : k < elf_phnum info.ehdr = omega arith in
      let one : k + 1 ≡ suc k = omega arith in
      elim (Bool-cases ((segment_of info.ehdr b k).p_type == 1)) [
        | inl hit ↦ inl (
          k,
          left,
          omega arith,
          omega arith,
          rw (hit, one) refl,
          rw (get_segment_lem info b table k here, hit, one) refl,
        )
        | inr miss ↦
            rw (get_segment_lem info b table k here, miss)
              (elim (next_lem rounds (k + 1) left (some (segment_of info.ehdr b k)) (omega arith)
                (omega arith)) [
                  | inl (j, rest, more, shorter, l, e) ↦ inl (j, rest, more, omega arith, l, e)
                  | inr end ↦ inr end
                ])
      ]

  module _ {Y : Type 0} (t : Target Info Y) (e k : ℕ) where
    -- What `load_segment` answers for the segment `j`.
    abbrev pub handed_out : (j : ℕ) → Target Info Y
    handed_out j =
        let s = segment_of info.ehdr b j in
        let flag = if suc j == elf_phnum info.ehdr then 0x20000 else 0x10000 in
        record t {
          loader = record t.loader {
            img_info = some (record info { load_state = flag + 0x100 * e + suc j });
            noffset = s.p_offset;
            nlen = s.p_filesz;
          };
          da = s.p_paddr;
          nmemsize = s.p_memsz;
        }

    pub load_segment_lem :
        info.load_state ≡ at_segment e k
        → e < 0x100
        → (left : ℕ) → k + left ≡ elf_phnum info.ehdr
        → elf_phnum info.ehdr < 0x100
        → ((j rest : ℕ) × (suc j + rest ≡ elf_phnum info.ehdr)
            × (rest < left)
            × (loadable info.ehdr b left k
                ≡ segment_of info.ehdr b j ∷ loadable info.ehdr b rest (suc j))
            × (load_segment info t
                ≡ some (
                  pos (
                      (if suc j == elf_phnum info.ehdr then 0x20000 else 0x10000)
                      + 0x100 * e
                      + suc j),
                  handed_out j,
                )))
          ⊎ ((noffset : ℕ) × (loadable info.ehdr b left k ≡ [])
              × (load_segment info t
                  ≡ some (
                    pos (0x40000 + 0x100 * e + elf_phnum info.ehdr),
                    record t {
                      da = any_address;
                      loader = record t.loader {
                        img_info = some (record info {
                          load_state = 0x40000 + 0x100 * e + elf_phnum info.ehdr;
                        });
                        noffset = noffset;
                      };
                    },
                  )))
    unfolding load_segment elf_next_load_segment
    load_segment_lem state small left below few =
        let place : info.load_state % 0x100 ≡ k = omega arith in
        elim (next_lem (suc (elf_phnum info.ehdr)) k left none (omega arith) (omega arith)) [
          | inl (j, rest, sum, shorter, l, found) ↦
              let up : after_found info.load_state j (elf_phnum info.ehdr)
                  ≡ (if suc j == elf_phnum info.ehdr then 0x20000 else 0x10000)
                    + 0x100 * e
                    + suc j =
                after_found_lem info.load_state j (elf_phnum info.ehdr) e k state small
                  (omega arith) few (omega arith) in
              inl (
                j,
                rest,
                sum,
                shorter,
                l,
                rw (place, found)
                    (λ i. some (
                      pos (up i),
                      record (handed_out j) {
                        loader = record (handed_out j).loader {
                          img_info = some (record info { load_state = up i });
                        };
                      },
                    )),
              )
          | inr (none, l, none_left) ↦
              let end =
                at_end_lem info.load_state (elf_phnum info.ehdr) e k state small (omega arith)
                  few in
              inr (
                t.loader.noffset,
                l,
                rw (place, none_left, ==_refl (elf_phnum info.ehdr))
                    (λ i. some (
                      pos (end i),
                      record t {
                        da = any_address;
                        loader = record t.loader {
                          img_info = some (record info { load_state = end i });
                        };
                      },
                    )),
              )
          | inr (some s, l, none_left) ↦
              let end =
                at_end_lem info.load_state (elf_phnum info.ehdr) e k state small (omega arith)
                  few in
              inr (
                s.p_offset,
                l,
                rw (place, none_left, ==_refl (elf_phnum info.ehdr))
                    (λ i. some (
                      pos (end i),
                      record t {
                        da = any_address;
                        loader = record t.loader {
                          noffset = s.p_offset;
                          img_info = some (record info { load_state = end i });
                        };
                      },
                    )),
              )
        ]
