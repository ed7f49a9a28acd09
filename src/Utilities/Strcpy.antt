-- ===== src/Utilities/Strcpy.antt =====
-- `safe_strcpy` for each relation between the sizes and the length of the source.
use openamp_core.Prelude.{
  ℕ, zero, suc, ◌+◌, ◌-◌, ◌<◌, ◌≤◌, ◌≡◌, ◌≢◌, ◌⊎◌, inl, inr, equal_or_not, subst, ◌∙◌, refl, ap,
  sym, false, none, some, min, ltb, leb, ==_of_ne, lt→ltb, ◌>>◌, require, update, update_ne, arith,
}
use openamp_core.Utilities.{Chars, clear, copy_loop, safe_strcpy}
use openamp_core.Utilities.Copy.{EndsAt, Copied, loop_ends, loop_goes_on}

-- `out` is the string of the first `n` characters of `src`.
pub record IsPrefix (src out : Chars) (n : ℕ) : Type 0 where
  pub end : EndsAt out n
  pub same : (j : ℕ) → j < n → out j ≡ src j

-- The destination after the terminator is put at its end.
ended :
    (src dst out : Chars) (d_size k m : ℕ)
    → k < d_size
    → ((j : ℕ) → j < k → src j ≢ 0)
    → (src k ≡ 0) ⊎ (k + 1 ≡ d_size)
    → k < m
    → Copied src dst out 0 m
    → IsPrefix src (update out (d_size - 1) 0) k
ended src dst out d_size k m h g stop below c = record {
  end = record {
    ends = elim stop [
      | inl z ↦ ground (arith, c.inside k (omega arith) below, z)
      | inr e ↦ ground arith
    ];
    goes_on = λ j l e. g j l (sym (kept j l) ∙ e);
  };
  same = kept;
}
  where
    kept : (j : ℕ) → j < k → update out (d_size - 1) 0 j ≡ src j
    kept j l = update_ne out (d_size - 1) j 0 (omega arith) ∙ c.inside j (omega arith) (omega arith)

module _ (dst src : Chars) (d_size s_size : ℕ) (positive : 0 < d_size) where
  no_padding :
      (out : Chars) (i nleft : ℕ)
      → d_size ≤ s_size
      → copy_loop src d_size s_size d_size 0 dst ≡ some (out, i, nleft)
      → safe_strcpy dst d_size src s_size ≡ some (d_size - nleft, update out (d_size - 1) 0)
  unfolding safe_strcpy
  no_padding out i nleft le runs =
      rw (smaller, ==_of_ne d_size 0 (omega arith), runs, not_less) refl
    where
      smaller : min s_size d_size ≡ d_size
      smaller = omega arith

      not_less : ltb d_size d_size ≡ false
      not_less = ground arith

  padding :
      (out : Chars) (i nleft : ℕ)
      → s_size < d_size
      → copy_loop src d_size s_size s_size 0 dst ≡ some (out, i, nleft)
      → safe_strcpy dst d_size src s_size ≡ (
          require (leb (i + (d_size - s_size + nleft)) d_size)
          >> some (s_size - nleft, clear out i (d_size - s_size + nleft)))
  unfolding safe_strcpy
  padding out i nleft lt runs =
      rw (smaller, ==_of_ne d_size 0 (omega arith), runs, lt→ltb s_size d_size lt) (ground arith)
    where
      smaller : min s_size d_size ≡ s_size
      smaller = omega arith

  -- A source that ends before the end of the destination, whose size is at most that of the source,
  -- is copied whole, and its length returned.
  pub safe_strcpy-fits :
      (k : ℕ)
      → d_size ≤ s_size
      → EndsAt src k
      → k < d_size
      → (out : Chars) × (safe_strcpy dst d_size src s_size ≡ some (k, out)) × IsPrefix src out k
  safe_strcpy-fits k le e h =
      let (out, runs, copied) =
        loop_ends src d_size s_size k e d_size 0 dst (omega arith) (omega arith) (omega arith)
          (omega arith) in
      (
        update out (d_size - 1) 0,
        no_padding out (k + 1) (0 + d_size - k) le runs
            ∙ ap (λ (t : ℕ). some (t, update out (d_size - 1) 0)) (omega arith),
        ended src dst out d_size k (k + 1) h e.goes_on (inl e.ends) (omega arith) copied,
      )

  -- A source that is longer than the destination, whose size is at most that of the source, is cut
  -- so that the terminator fits; but what is returned is the size of the destination.
  pub safe_strcpy-truncates :
      d_size ≤ s_size
      → ((j : ℕ) → j < d_size → src j ≢ 0)
      → (out : Chars) × (safe_strcpy dst d_size src s_size ≡ some (d_size, out))
        × IsPrefix src out (d_size - 1)
  safe_strcpy-truncates le g =
      let (out, runs, copied) =
        loop_goes_on src d_size s_size d_size 0 dst (λ j u. g j (omega arith)) (omega arith)
          (omega arith) in
      (
        update out (d_size - 1) 0,
        no_padding out (0 + d_size) 0 le runs
            ∙ ap (λ (t : ℕ). some (t, update out (d_size - 1) 0)) (omega arith),
        ended src dst out d_size (d_size - 1) (0 + d_size) (omega arith) (λ j u. g j (omega arith))
            (inr (omega arith)) (omega arith) copied,
      )

  -- A source that ends before its size, which is less than that of the destination, makes the
  -- padding of the destination write out of bounds.
  pub safe_strcpy-overruns :
      (k : ℕ)
      → s_size < d_size
      → EndsAt src k
      → k < s_size
      → safe_strcpy dst d_size src s_size ≡ none
  safe_strcpy-overruns k lt e h =
      let (out, runs, copied) =
        loop_ends src d_size s_size k e s_size 0 dst (omega arith) (omega arith) (omega arith)
          (omega arith) in
      padding out (k + 1) (0 + s_size - k) lt runs ∙ ground arith

  -- A source without an end before its size, which is less than that of the destination, is copied
  -- whole and terminated, and its size returned.
  pub safe_strcpy-pads :
      s_size < d_size
      → ((j : ℕ) → j < s_size → src j ≢ 0)
      → (out : Chars) × (safe_strcpy dst d_size src s_size ≡ some (s_size, out))
        × IsPrefix src out s_size
  safe_strcpy-pads lt g =
      let (out, runs, copied) =
        loop_goes_on src d_size s_size s_size 0 dst (λ j u. g j (omega arith)) (omega arith)
          (omega arith) in
      (
        clear out (0 + s_size) (d_size - s_size + 0),
        padding out (0 + s_size) 0 lt runs ∙ ground arith,
        record {
          end = record {
            ends = ground arith;
            goes_on = λ j l e. g j l (sym (kept out copied j l) ∙ e);
          };
          same = kept out copied;
        },
      )
    where
      kept :
          (out : Chars)
          → Copied src dst out 0 (0 + s_size)
          → (j : ℕ) → j < s_size
          → clear out (0 + s_size) (d_size - s_size + 0) j ≡ src j
      kept out c j l = ground (arith, c.inside j (omega arith) (omega arith))

-- A string ends before `n`, or has no end there.
first_end : (src : Chars) (n : ℕ) → ((k : ℕ) × EndsAt src k × k < n) ⊎ ((j : ℕ) → j < n → src j ≢ 0)
first_end src zero = inr (λ j l. absurd (omega arith))
first_end src (suc n) = elim (first_end src n) [
  | inl (k, e, l) ↦ inl (k, e, omega arith)
  | inr g ↦ elim (equal_or_not (src n) 0) [
    | inl z ↦ inl (n, record { ends = z; goes_on = g }, omega arith)
    | inr nz ↦ inr (λ j l. elim (equal_or_not j n) [
      | inl s ↦ subst (λ (i : ℕ). src i ≢ 0) (sym s) nz
      | inr d ↦ g j (omega arith)
    ])
  ]
]

-- If the destination is not larger than the source, the copy succeeds.
pub safe_strcpy-copies :
    (dst src : Chars) (d_size s_size : ℕ)
    → 0 < d_size
    → d_size ≤ s_size
    → (n : ℕ) × (out : Chars) × (safe_strcpy dst d_size src s_size ≡ some (n, out))
safe_strcpy-copies dst src d_size s_size p le = elim (first_end src d_size) [
  | inl (k, e, l) ↦
      (let (out, runs, _) = safe_strcpy-fits dst src d_size s_size p k le e l in (k, out, runs))
  | inr g ↦
      (let (out, runs, _) = safe_strcpy-truncates dst src d_size s_size p le g in
        (d_size, out, runs))
]
