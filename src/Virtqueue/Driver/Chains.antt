-- ===== src/Virtqueue/Driver/Chains.antt =====
-- The chains that run through a descriptor table: the free chain, and a chain in flight.
use openamp_core.Prelude.{
  ℕ, ◌+◌, ◌<◌, ◌≤◌, ◌≡◌, ◌≢◌, refl, ap, ◌∙◌, true, false, List, [], ◌∷◌, ◌++◌, arith, has_flag,
  count, count-append, length, length-append,
}
use openamp_core.Vring.{Desc, desc_f_next, desc_chain_end}

abbrev pub Table : Type 0
Table = ℕ → Desc

-- From `p` the `next` fields lead through `xs` to the end mark.
abbrev pub FreeList : Table → ℕ → List ℕ → Type 0
FreeList d p [] = p ≡ desc_chain_end
FreeList d p (x ∷ xs) = (p ≡ x) × FreeList d (d x).next xs

-- From `x` the `next` fields lead through `xs`, and the flags say where the chain goes on.
abbrev pub IsChain : Table → ℕ → List ℕ → Type 0
IsChain d x [] = has_flag desc_f_next (d x).flags ≡ false
IsChain d x (y ∷ ys) = (has_flag desc_f_next (d x).flags ≡ true) × ((d x).next ≡ y) × IsChain d y ys

abbrev pub last : ℕ → List ℕ → ℕ
last x [] = x
last x (y ∷ ys) = last y ys

-- A chain in flight: its head, and the descriptors behind it.
abbrev pub Chain : Type 0
Chain = ℕ × List ℕ

abbrev pub indices : List Chain → List ℕ
indices [] = []
indices ((x, xs) ∷ cs) = (x ∷ xs) ++ indices cs

pub count-indices_append :
    (a : ℕ) (cs ds : List Chain)
    → count a (indices (cs ++ ds)) ≡ count a (indices cs) + count a (indices ds)
count-indices_append a [] ds = omega arith
count-indices_append a ((x, xs) ∷ cs) ds = omega (
  arith,
  count-append a xs (indices (cs ++ ds)),
  count-append a xs (indices cs),
  count-indices_append a cs ds,
)

pub length-indices_append :
    (cs ds : List Chain) → length (indices (cs ++ ds)) ≡ length (indices cs) + length (indices ds)
length-indices_append [] ds = omega arith
length-indices_append ((x, xs) ∷ cs) ds = omega (
  arith,
  length-append xs (indices (cs ++ ds)),
  length-append xs (indices cs),
  length-indices_append cs ds,
)

-- The free chain depends on the `next` fields of its own descriptors only.
pub FreeList-frame :
    (d e : Table) (p : ℕ) (xs : List ℕ)
    → ((a : ℕ) → count a xs ≢ 0 → (e a).next ≡ (d a).next)
    → FreeList d p xs
    → FreeList e p xs
FreeList-frame d e p [] same f = f
FreeList-frame d e p (x ∷ xs) same f = (
  f.0,
  rw (same x (ground arith)) (FreeList-frame d e (d x).next xs (λ a h. same a (omega arith)) f.1),
)

pub IsChain-frame :
    (d e : Table) (x : ℕ) (xs : List ℕ)
    → ((a : ℕ) → count a (x ∷ xs) ≢ 0 → e a ≡ d a)
    → IsChain d x xs
    → IsChain e x xs
IsChain-frame d e x [] same c = rw (same x (ground arith)) c
IsChain-frame d e x (y ∷ ys) same c = (
  rw (same x (ground arith)) c.0,
  rw (same x (ground arith)) c.1,
  IsChain-frame d e y ys (λ a h. same a (omega arith)) c.2,
)

pub count-last : (x : ℕ) (xs : List ℕ) → count (last x xs) (x ∷ xs) ≢ 0
count-last x [] = ground arith
count-last x (y ∷ ys) = omega (arith, count-last y ys)

-- With the last descriptor led to the free chain, the chain and the free chain are one free chain.
pub FreeList-join :
    (d e : Table) (p x : ℕ) (xs fs : List ℕ)
    → ((a : ℕ) → count a (x ∷ (xs ++ fs)) ≤ 1)
    → (e (last x xs)).next ≡ p
    → ((a : ℕ) → a ≢ last x xs → (e a).next ≡ (d a).next)
    → IsChain d x xs
    → FreeList d p fs
    → FreeList e x (x ∷ (xs ++ fs))
FreeList-join d e p x [] fs once led same c f =
    (refl, rw led (FreeList-frame d e p fs (λ a h. same a (λ q. ground (arith, once a))) f))
FreeList-join d e p x (y ∷ ys) fs once led same c f = (
  refl,
  (same x apart ∙ c.1, (FreeList-join d e p y ys fs (λ a. omega (arith, once a)) led same c.2 f).1),
)
  where
    apart : x ≢ last y ys
    apart q =
        ground
          (arith, once x, count-last y ys, count-append x ys fs, ap (λ (t : ℕ). count t (y ∷ ys)) q)

-- Where a free chain begins: at the end mark if it is empty, else at one of its descriptors.
pub FreeList-start :
    (n : ℕ) (d : Table) (p : ℕ) (fs : List ℕ)
    → FreeList d p fs
    → ((a : ℕ) → count a fs ≢ 0 → a < n)
    → (length fs ≡ 0 → p ≡ desc_chain_end) × (length fs ≢ 0 → p < n)
FreeList-start n d p [] f below = (λ _. f, λ h. absurd (h refl))
FreeList-start n d p (x ∷ xs) f below =
    ((λ h. absurd (omega arith)), (λ _. rw (f.0) (below x (ground arith))))
