-- ===== src/Virtio/Names.antt =====
-- The names of virtio devices: virtio/virtio.c, with the identifiers of include/openamp/virtio.h.
use Prim.Native.String.{String}
use openamp_core.Prelude.{ℕ, All, ◌≡◌, refl, Option, none, some, List, [], ◌∷◌, ◌==◌, if◌then◌else◌}

-- `struct virtio_ident`
pub record VirtioIdent : Type 0 where
  pub devid : ℕ
  pub name : String

-- `virtio_ident_table`, without the entry that ends it.
abbrev pub virtio_ident_table : List VirtioIdent
virtio_ident_table =
    record { devid = 1; name = "Network" }
    ∷ record { devid = 2; name = "Block" }
    ∷ record { devid = 3; name = "Console" }
    ∷ record { devid = 4; name = "Entropy" }
    ∷ record { devid = 5; name = "Balloon" }
    ∷ record { devid = 6; name = "IOMemory" }
    ∷ record { devid = 8; name = "SCSI" }
    ∷ record { devid = 9; name = "9P Transport" }
    ∷ record { devid = 10; name = "MAC80211 WLAN" }
    ∷ record { devid = 11; name = "Remoteproc Serial" }
    ∷ record { devid = 16; name = "GPU" }
    ∷ record { devid = 18; name = "Input" }
    ∷ record { devid = 19; name = "Vsock Transport" }
    ∷ record { devid = 25; name = "Sound" }
    ∷ record { devid = 26; name = "File System" }
    ∷ record { devid = 29; name = "MAC80211 HWSIM" }
    ∷ record { devid = 34; name = "I2C Adapter" }
    ∷ record { devid = 40; name = "Bluetooth" }
    ∷ record { devid = 41; name = "GPIO" }
    ∷ []

-- The loop of `virtio_dev_name`.
pub find_ident : (devid : ℕ) → List VirtioIdent → Option String
find_ident devid [] = none
find_ident devid (ident ∷ idents) =
    let rest = find_ident devid idents in if ident.devid == devid then some ident.name else rest

-- `virtio_dev_name`; `none` is NULL.
pub virtio_dev_name : (devid : ℕ) → Option String
unfolding find_ident
virtio_dev_name devid = find_ident devid virtio_ident_table

-- Every entry of the table is found under its identifier: none hides another.
virtio_dev_name-table :
    All (λ ident. virtio_dev_name ident.devid ≡ some ident.name) virtio_ident_table
unfolding virtio_dev_name find_ident
virtio_dev_name-table = (
  refl,
  (
    refl,
    (
      refl,
      (
        refl,
        (
          refl,
          (
            refl,
            (
              refl,
              (
                refl,
                (
                  refl,
                  (
                    refl,
                    (refl, (refl, (refl, (refl, (refl, (refl, (refl, (refl, (refl, tt))))))))),
                  ),
                ),
              ),
            ),
          ),
        ),
      ),
    ),
  ),
)
