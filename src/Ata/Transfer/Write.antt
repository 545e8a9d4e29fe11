-- ===== src/Ata/Transfer/Write.antt =====
-- What `ATA_Write28` tells the disk.
use splongle_os.Base.{ℕ, ltb, if◌then◌else◌}

-- The bytes of the buffer, and zeros after them.
abbrev pub padded : (ℕ → ℕ) → ℕ → ℕ → ℕ
padded buffer count k = if ltb k count then buffer k else 0
