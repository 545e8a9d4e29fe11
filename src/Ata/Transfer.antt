-- ===== src/Ata/Transfer.antt =====
-- `ATA_Write28` and `ATA_Read28` of src/kernel/dev/ata.c: the transfer of one sector.
pub mod Write
pub mod Words
pub mod Read
pub mod Idle
pub mod Stuck
pub mod Finish
use splongle_os.Base.{
  codes, ℕ, zero, suc, ◌+◌, ◌-◌, ◌*◌, ◌/◌, ◌%◌, ◌^◌, bit_and, bit_or, Bool, true, false, not, ◌&&◌,
  ◌||◌, Option, none, some, List, [], ◌∷◌, ◌++◌, map, ltb, leb, ◌==◌, if◌then◌else◌, u8, u16, u32,
  ◌<<◌, ◌>>◌,
}
use splongle_os.Ports.{Bus, Device, outb, outw, inb, inw}
use splongle_os.Ata.{
  Drive, Disk, Printed, print, max_addressable_space, cache_flush, read_command, write_command,
  delay, select, poll, poll_ignoring, unless_error,
}

abbrev pub device_to_select : Drive → ℕ → ℕ
device_to_select a sector = bit_or (if a.master then 0xE0 else 0xF0) (bit_and (sector >> 24) 0x0F)

-- The bits of the sector number, to their ports.
abbrev pub send_lba : Drive → ℕ → Bus → Bus
send_lba a sector bus =
    outb a.lba_high_port (sector >> 16)
      (outb a.lba_mid_port (sector >> 8) (outb a.lba_low_port sector bus))

pub start_write : Device → Drive → ℕ → Disk → Disk
start_write ports a sector d =
    let t = select ports a (device_to_select a sector) d in
    let counted = outb a.sector_count_port 1 (outb a.error_port 0 t.bus) in
    record t {
      bus =
          delay ports a.control_port
            (outb a.command_port write_command (send_lba a sector counted));
    }

-- What is sent for the bytes `i` and `i + 1`.
pub wdata : (ℕ → ℕ) → ℕ → ℕ → ℕ
wdata buffer count i =
    if ltb i count
    then if ltb (i + 1) count then bit_or (buffer i) (u16 (buffer (i + 1) << 8)) else buffer i
    else 0

-- `for (uint16_t i = 0; i < ata->bytes_per_sector; i += 2)`, which has one round for two bytes.
pub send_words : Drive → (ℕ → ℕ) → ℕ → ℕ → ℕ → Bus → Bus
send_words a buffer count zero i bus = bus
send_words a buffer count (suc rounds) i bus =
    send_words a buffer count rounds (i + 2) (outw a.data_port (wdata buffer count i) bus)

abbrev pub rounds : Drive → ℕ
rounds a = (a.bytes_per_sector + 1) / 2

-- `buffer` holds the bytes at the pointer.
pub write28 : Device → ℕ → ℕ → (ℕ → ℕ) → ℕ → Drive → Disk → Option Disk
write28 ports fuel sector buffer count a d =
    let begun = start_write ports a sector d in
    if ltb max_addressable_space sector
    then some (print (codes "Cannot address sector > 28 bits: sector 0x%x\n") (sector ∷ []) d)
    else if ltb a.bytes_per_sector count
    then some
        (print (codes "Tried writing too much data for a single sector: count %d\n") (count ∷ []) d)
    else unless_error (poll_ignoring ports a.command_port fuel begun.bus) begun (λ b1.
      let sent = delay ports a.control_port (send_words a buffer count (rounds a) 0 b1) in
      unless_error (poll_ignoring ports a.command_port fuel sent) begun (λ b2.
        let flushed = outb a.command_port cache_flush b2 in
        unless_error (poll_ignoring ports a.command_port fuel flushed) begun
          (λ b3. some (record begun { bus = b3 }))))

pub start_read : Device → Drive → ℕ → Disk → Disk
start_read ports a sector d =
    let t = select ports a (device_to_select a sector) d in
    let counted = outb a.sector_count_port 1 t.bus in
    record t { bus = outb a.command_port read_command (send_lba a sector counted) }

-- Both bytes of a word, as far as they are asked for.
pub print_word : ℕ → ℕ → ℕ → Disk → Disk
print_word rdata count i d =
    let low = print (codes "%c") (bit_and rdata 0xFF ∷ []) d in
    if ltb i count
    then if ltb (i + 1) count then print (codes "%c") (bit_and (rdata >> 8) 0xFF ∷ []) low else low
    else d

pub read_words : Device → Drive → ℕ → ℕ → ℕ → Disk → Disk
read_words ports a count zero i d = d
read_words ports a count (suc rounds) i d =
    let (rdata, after) = inw ports a.data_port d.bus in
    read_words ports a count rounds (i + 2) (print_word rdata count i (record d { bus = after }))

pub read28 : Device → ℕ → ℕ → ℕ → Drive → Disk → Option Disk
read28 ports fuel sector count a d =
    let begun = start_read ports a sector d in
    if ltb max_addressable_space sector
    then some (print (codes "Cannot read sector that's > 28 bits: sector = 0x%x\n") (sector ∷ []) d)
    else if ltb a.bytes_per_sector count
    then some
        (print (codes "Tried reading too much data for a single sector: count %d\n") (count ∷ []) d)
    else unless_error (poll_ignoring ports a.command_port fuel begun.bus) begun (λ b1.
      let t = read_words ports a count (rounds a) 0 (record begun { bus = b1 }) in
      unless_error (poll ports a.command_port fuel (delay ports a.control_port t.bus)) t
        (λ b2. some (record t { bus = b2 })))
