-- ===== src/Remoteproc/Ids.antt =====
-- `remoteproc_allocate_id` of remoteproc.c: notification ids from the bitmap of a remote processor.
pub mod Laws
use openamp_core.Prelude.{
  ℕ, ◌+◌, Bool, true, false, ◌&&◌, Option, none, some, ltb, leb, ◌==◌, if◌then◌else◌, ◌>>=◌, u32,
}
use openamp_core.Bitmap.{Bitmap, set_bit, next_clear_bit}

-- RSC_NOTIFY_ID_ANY
abbrev pub id_any : ℕ
id_any = 4294967295

-- The search of `remoteproc_allocate_id` between two bounds.
abbrev pub id_between : Bitmap → (first last : ℕ) → Option (ℕ × Bitmap)
id_between bitmap first last =
    if ltb first 64 && leb last 64
    then (next_clear_bit bitmap first last >>= λ notifyid.
        some (if notifyid == last then (id_any, bitmap) else (notifyid, set_bit bitmap notifyid)))
    else some (id_any, bitmap)

-- `remoteproc_allocate_id`: the id, with the bitmap after it.
pub allocate_id : Bitmap → (start end : ℕ) → Option (ℕ × Bitmap)
allocate_id bitmap start end =
    id_between bitmap (if start == id_any then 0 else start) (if end == id_any then 64 else end)
