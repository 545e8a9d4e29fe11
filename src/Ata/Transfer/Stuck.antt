-- ===== src/Ata/Transfer/Stuck.antt =====
-- A disk that reports an error.
use splongle_os.Base.{ℕ, ◌^◌, ◌≤◌, ◌<◌, ◌≡◌, refl, arith, bit_and, false, none, ltb, u8}
use splongle_os.Ports.{Bus, Device}
use splongle_os.Ata.{Drive, Disk, max_addressable_space, unless_error}
use splongle_os.Ata.Trace.{trace}
use splongle_os.Ata.Transfer.Idle.{poll_ignoring-idle}
use splongle_os.Ata.Transfer.{read28, write28}

-- While the disk does not ask for data, whether it reports an error or not, neither transfer of a
-- sector of 28 bits and at most a sector's bytes returns, with whatever fuel: the test of the
-- error never holds.
pub transfer-none :
    (ports : Device) (fuel sector : ℕ) (buffer : ℕ → ℕ) (count : ℕ) (a : Drive) (d : Disk)
    → ((bus : Bus) → bit_and (u8 (ports bus a.command_port)) 0x08 ≡ 0)
    → sector < 2 ^ 28
    → count ≤ a.bytes_per_sector
    → (read28 ports fuel sector count a d ≡ none)
      × (write28 ports fuel sector buffer count a d ≡ none)
unfolding read28 write28 unless_error
transfer-none ports fuel sector buffer count a d idle h c =
    let fits : ltb max_addressable_space sector ≡ false = ground (arith, h) in
    let fits' : ltb a.bytes_per_sector count ≡ false = ground (arith, c) in
    let stuck = λ (bus : Bus).
      poll_ignoring-idle ports a.command_port (trace bus) (λ b e. idle b) fuel bus refl in
    (rw (fits, fits', stuck) refl, rw (fits, fits', stuck) refl)
