-- ===== src/Remoteproc/Memory/Lookup.antt =====
-- What a lookup by an address finds.
use openamp_core.Prelude.{
  ℕ, ◌+◌, ◌-◌, ◌<◌, ◌≤◌, ◌≡◌, ◌≢◌, refl, sym, subst, Bool, true, false, Option, none, some, List,
  [], ◌∷◌, ==_of_ne, Bool-cases, inl, inr, arith, All,
}
use openamp_core.Utilities.{Chars}
use openamp_core.Remoteproc.State.{Mem, Asked, Rproc}
use openamp_core.Remoteproc.Memory.{
  u64, bad_phys, in_range, address_in, matches, find_mem, get_mem, da_to_pa, mapping_of, mapped,
  mmap,
}

-- The test of a range, where neither the memory nor the range wraps around.
pub in_range_lem :
    (from mem_size addr size : ℕ)
    → from + mem_size < u64
    → addr + size < u64
    → in_range from mem_size addr size ≡ true
    → (from ≤ addr) × (addr + size ≤ from + mem_size) × (addr < from + mem_size)
unfolding in_range
in_range_lem from mem_size addr size m a h = ground (arith, h)

-- Neither the device's nor the physical addresses of a memory wrap around.
pub record Fits (m : Mem) : Type 0 where
  pub da_fits : m.da + m.size < u64
  pub pa_fits : m.pa + m.size < u64

-- A request for `size` bytes at a device address.
abbrev pub by_da : (da size : ℕ) → Asked
by_da da size = record { name = none; pa = bad_phys; da = da; va = 0; size = size }

module _ (differ : Chars → Chars → Bool) (da size : ℕ) (known : da ≢ bad_phys) where
  matches_da : (m : Mem) → matches differ (by_da da size) m ≡ some (in_range m.da m.size da size)
  unfolding matches address_in
  matches_da m = rw (==_of_ne da bad_phys known) refl

  -- A memory that is found has the bytes, and the platform is not asked.
  abbrev Good : Option Mem × Bool → Type 0
  Good (none, more) = Unit
  Good (some m, more) = (in_range m.da m.size da size ≡ true) × Fits m × (more ≡ false)

  hit_here :
      (x : Mem) (mems : List Mem)
      → in_range x.da x.size da size ≡ true
      → find_mem differ (by_da da size) (x ∷ mems) ≡ (some x, false)
  unfolding find_mem
  hit_here x mems hit = rw (matches_da x, hit) refl

  miss_here :
      (x : Mem) (mems : List Mem)
      → in_range x.da x.size da size ≡ false
      → find_mem differ (by_da da size) (x ∷ mems) ≡ find_mem differ (by_da da size) mems
  unfolding find_mem
  miss_here x mems miss = rw (matches_da x, miss) refl

  find_mem-Good : (mems : List Mem) → All Fits mems → Good (find_mem differ (by_da da size) mems)
  unfolding find_mem
  find_mem-Good [] fits = tt
  find_mem-Good (x ∷ mems) fits = elim (Bool-cases (in_range x.da x.size da size)) [
    | inl hit ↦ subst Good (sym (hit_here x mems hit)) (hit, fits.0, refl)
    | inr miss ↦ subst Good (sym (miss_here x mems miss)) (find_mem-Good mems fits.1)
  ]

  got_mem :
      {X : Type 0} (r : Rproc X) (m : Mem) (more : Bool)
      → find_mem differ (by_da da size) r.mems ≡ (some m, more)
      → more ≡ false
      → get_mem differ r (by_da da size) ≡ (some m, r)
  unfolding get_mem
  got_mem r m more e only = rw (e, only) refl

  -- Memory that is asked for by a device address and found in the list, where neither it nor the
  -- range wraps around, is mapped within one memory and at the same distance from the start of that
  -- memory, and the platform is not asked.
  pub mmap_by_da :
      {X : Type 0} (r : Rproc X) (m : Mem) (more : Bool) (attribute : ℕ)
      → size ≢ 0
      → da + size < u64
      → All Fits r.mems
      → find_mem differ (by_da da size) r.mems ≡ (some m, more)
      → (m.da ≤ da)
        × (da + size ≤ m.da + m.size)
        × (mmap differ r none (some da) size attribute ≡ (
          some (record {
            va = m.io.phys_to_virt (m.pa + (da - m.da));
            pa = m.pa + (da - m.da);
            da = da;
            io = some (m.io);
          }),
          r,
        ))
  unfolding mmap mapped mapping_of
  mmap_by_da r m more attribute some_bytes room fits e =
      let (hit, fit, only) = subst Good e (find_mem-Good r.mems fits) in
      let (low, high, inside) = in_range_lem m.da m.size da size fit.da_fits room hit in
      let at : da_to_pa m da ≡ m.pa + (da - m.da) = omega (arith, low, inside, fit.pa_fits) in
      (
        low,
        high,
        rw (==_of_ne size 0 some_bytes, got_mem r m more e only, ==_of_ne da bad_phys known)
            (λ i. (
              some (record { va = m.io.phys_to_virt (at i); pa = at i; da = da; io = some (m.io) }),
              r,
            )),
      )
