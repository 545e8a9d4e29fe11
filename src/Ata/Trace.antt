-- ===== src/Ata/Trace.antt =====
-- What a sequence of accesses tells the disk.
use splongle_os.Base.{
  not, ◌&&◌, ℕ, zero, suc, ◌+◌, ◌*◌, ◌/◌, ◌%◌, ◌^◌, ◌<◌, ◌≡◌, refl, arith, ◌∙◌, ap, bit_and, List,
  [], ◌∷◌, ◌++◌, ◌==◌, if◌then◌else◌, u8, Bool-cases, inl, inr,
}
use splongle_os.Ports.{
  Bus, Device, wrote8, read8, wrote16, read16, wrote32, read32, set_interrupts, last_byte,
}
use splongle_os.Base.Bits.{bit_and-low, bit_or-shifted}
use splongle_os.Ata.Transfer.{device_to_select}
use splongle_os.Interrupts.{Interrupts}
use splongle_os.Ata.{ata_init, Drive, Disk, select, dev_select, read_times}

-- The accesses but for the reads of bytes.
abbrev pub trace : Bus → Bus
trace [] = []
trace (read8 p v ∷ bus) = trace bus
trace (wrote8 p v ∷ bus) = wrote8 p v ∷ trace bus
trace (wrote16 p v ∷ bus) = wrote16 p v ∷ trace bus
trace (read16 p v ∷ bus) = read16 p v ∷ trace bus
trace (wrote32 p v ∷ bus) = wrote32 p v ∷ trace bus
trace (read32 p v ∷ bus) = read32 p v ∷ trace bus
trace (set_interrupts v ∷ bus) = set_interrupts v ∷ trace bus

pub read_times_lem :
    (ports : Device) (port n : ℕ) (bus : Bus) → trace (read_times ports port n bus) ≡ trace bus
unfolding read_times
read_times_lem ports port zero bus = refl
read_times_lem ports port (suc n) bus =
    read_times_lem ports port n (read8 port (u8 (ports bus port)) ∷ bus)

-- `f i`, `f (i + 1)` and so on.
abbrev pub table : ℕ → ℕ → (ℕ → ℕ) → List ℕ
table zero i f = []
table (suc n) i f = f i ∷ table n (i + 1) f

-- The bytes that were sent to the data port, the oldest first, two in each word.
abbrev pub received : Drive → Bus → List ℕ
received a [] = []
received a (wrote16 p v ∷ bus) =
    let rest = received a bus in if p == a.data_port then rest ++ v % 256 ∷ v / 256 ∷ [] else rest
received a (wrote8 p v ∷ bus) = received a bus
received a (read8 p v ∷ bus) = received a bus
received a (read16 p v ∷ bus) = received a bus
received a (wrote32 p v ∷ bus) = received a bus
received a (read32 p v ∷ bus) = received a bus
received a (set_interrupts v ∷ bus) = received a bus

-- The words that were read since the last command.
abbrev pub words_read : Drive → Bus → ℕ
words_read a [] = 0
words_read a (read16 p v ∷ bus) =
    let rest = words_read a bus in if p == a.data_port then rest + 1 else rest
words_read a (wrote8 p v ∷ bus) =
    let rest = words_read a bus in if p == a.command_port then 0 else rest
words_read a (wrote16 p v ∷ bus) = words_read a bus
words_read a (read8 p v ∷ bus) = words_read a bus
words_read a (wrote32 p v ∷ bus) = words_read a bus
words_read a (read32 p v ∷ bus) = words_read a bus
words_read a (set_interrupts v ∷ bus) = words_read a bus

-- The commands that were sent, the newest first.
abbrev pub commands : Drive → Bus → List ℕ
commands a [] = []
commands a (wrote8 p v ∷ bus) =
    let rest = commands a bus in if p == a.command_port then v ∷ rest else rest
commands a (wrote16 p v ∷ bus) = commands a bus
commands a (read8 p v ∷ bus) = commands a bus
commands a (read16 p v ∷ bus) = commands a bus
commands a (wrote32 p v ∷ bus) = commands a bus
commands a (read32 p v ∷ bus) = commands a bus
commands a (set_interrupts v ∷ bus) = commands a bus

-- The sector that the ports of the disk name: 28 bits, of which the device port has the upper four.
abbrev pub target : Drive → Bus → ℕ
target a bus =
    last_byte a.lba_low_port bus
    + 2 ^ 8 * last_byte a.lba_mid_port bus
    + 2 ^ 16 * last_byte a.lba_high_port bus
    + 2 ^ 24 * (last_byte a.device_port bus % 16)

-- The ports stand side by side, and a sector has 512 bytes, as `ATA_Init` sets them.
abbrev pub IsWired : Drive → Type 0
IsWired a =
    (a.error_port ≡ a.data_port + 1)
    × (a.sector_count_port ≡ a.data_port + 2)
    × (a.lba_low_port ≡ a.data_port + 3)
    × (a.lba_mid_port ≡ a.data_port + 4)
    × (a.lba_high_port ≡ a.data_port + 5)
    × (a.device_port ≡ a.data_port + 6)
    × (a.command_port ≡ a.data_port + 7)
    × (a.bytes_per_sector ≡ 512)

-- `g_last_device` is what the device port of this drive was told last.
abbrev pub IsSelected : Drive → Disk → Type 0
IsSelected a d = last_byte a.device_port (trace d.bus) ≡ d.last_device

pub select_lem :
    (ports : Device) (a : Drive) (device : ℕ) (d : Disk)
    → device < 2 ^ 8
    → let t = select ports a device d in
      (trace t.bus ≡ (
        if d.last_device == device then trace d.bus else wrote8 a.device_port device ∷ trace d.bus))
      × (t.last_device ≡ device)
      × (t.printed ≡ d.printed)
unfolding select dev_select
select_lem ports a device d h =
    let low : u8 device ≡ device = omega (arith, h) in
    elim (Bool-cases (d.last_device == device)) [
      | inl e ↦ rw e (refl, ground (arith, e), refl)
      | inr e ↦ rw e (
        read_times_lem ports a.control_port 15 (wrote8 a.device_port (u8 device) ∷ d.bus)
            ∙ ap (λ (v : ℕ). wrote8 a.device_port v ∷ trace d.bus) low,
        refl,
        refl,
      )
    ]

-- The upper bits of the sector, and which of the two disks.
pub device_to_select_lem :
    (a : Drive) (sector : ℕ)
    → sector < 2 ^ 28
    → (device_to_select a sector % 16 ≡ sector / 2 ^ 24) × (device_to_select a sector < 2 ^ 8)
device_to_select_lem a sector h =
    let four : bit_and (sector / 2 ^ 24) 0x0F ≡ sector / 2 ^ 24 =
      omega (arith, bit_and-low 4 (sector / 2 ^ 24), h) in
    let master = bit_or-shifted 4 14 (sector / 2 ^ 24) (omega (arith, h)) in
    let slave = bit_or-shifted 4 15 (sector / 2 ^ 24) (omega (arith, h)) in
    elim (Bool-cases a.master) [
      | inl e ↦ rw (e, four) (omega (arith, master, h), omega (arith, master, h))
      | inr e ↦ rw (e, four) (omega (arith, slave, h), omega (arith, slave, h))
    ]

-- The drive that `ATA_Init` gives for a port base below the last eight ports.
pub ata_init-IsWired :
    (port_base : ℕ) (d : Disk) (s : Interrupts)
    → port_base + 7 < 2 ^ 16
    → IsWired (ata_init port_base d s).0
unfolding ata_init
ata_init-IsWired port_base d s h = elim (Bool-cases (not d.int14_on && not d.int15_on)) [
  | inl e ↦ rw e (
    omega (arith, h),
    omega (arith, h),
    omega (arith, h),
    omega (arith, h),
    omega (arith, h),
    omega (arith, h),
    omega (arith, h),
    refl,
  )
  | inr e ↦ rw e (
    omega (arith, h),
    omega (arith, h),
    omega (arith, h),
    omega (arith, h),
    omega (arith, h),
    omega (arith, h),
    omega (arith, h),
    refl,
  )
]
