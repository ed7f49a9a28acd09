-- ===== src/Utilities.antt =====
-- Bounded copies of strings: openamp/open-amp/lib/utils/utilities.c. A string is the function from
-- the index to the character.
pub mod Copy
pub mod Strcpy
mod Tests
use openamp_core.Prelude.{
  ℕ, zero, suc, ◌+◌, ◌-◌, Bool, true, false, ◌&&◌, Option, none, some, min, ltb, leb, ◌==◌,
  if◌then◌else◌, ◌>>=◌, ◌>>◌, require, update,
}

abbrev pub Chars : Type 0
Chars = ℕ → ℕ

-- `memset(dst + first, '\0', n)`
abbrev pub clear : Chars → (first n : ℕ) → Chars
clear dst first n j = if leb first j && ltb j (first + n) then 0 else dst j

-- The loop of `safe_strcpy` at index `i`, where `nleft` is the count that is compared with 0: the
-- destination, the index and the count behind the loop.
pub copy_loop : (src : Chars) (d_size s_size nleft i : ℕ) → Chars → Option (Chars × ℕ × ℕ)
copy_loop src d_size s_size zero i dst = some (dst, i, 0)
copy_loop src d_size s_size (suc nleft) i dst =
    let copied = update dst i (src i) in
    let rest = copy_loop src d_size s_size nleft (i + 1) copied in
    require (ltb i s_size)
    >> (require (ltb i d_size) >> (if src i == 0 then some (copied, i + 1, suc nleft) else rest))

-- `safe_strcpy`: what it returns, with the destination after it.
pub safe_strcpy : (dst : Chars) (d_size : ℕ) (src : Chars) (s_size : ℕ) → Option (ℕ × Chars)
unfolding copy_loop
safe_strcpy dst d_size src s_size =
    let size = min s_size d_size in
    if d_size == 0 then some (0, dst) else do
      (copied, i, nleft) ← copy_loop src d_size s_size size 0 dst
      filled ←
          (if ltb size d_size
            then require (leb (i + (d_size - size + nleft)) d_size)
              >> some (clear copied i (d_size - size + nleft))
            else some (update copied (d_size - 1) 0))
      some (size - nleft, filled)
