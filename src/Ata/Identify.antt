-- ===== src/Ata/Identify.antt =====
-- `ATA_Identify` of src/kernel/dev/ata.c.
pub mod Model
pub mod Report
use splongle_os.Base.{
  codes, ℕ, zero, suc, ◌+◌, ◌-◌, ◌*◌, ◌/◌, ◌%◌, ◌^◌, bit_and, bit_or, Bool, true, false, not, ◌&&◌,
  ◌||◌, Option, none, some, List, [], ◌∷◌, ◌++◌, map, ltb, leb, ◌==◌, if◌then◌else◌, u8, u16, u32,
  ◌<<◌, ◌>>◌, get_or, set,
}
use splongle_os.Ports.{Bus, Device, outb, outw, inb, inw}
use splongle_os.Ata.{
  Drive, Disk, Printed, printk, print, identify_command, select, poll_busy, poll_drq,
}

pub skip_words : Device → ℕ → ℕ → Bus → Bus
skip_words ports port zero bus = bus
skip_words ports port (suc n) bus = skip_words ports port n (inw ports port bus).1

-- The model, the high byte of each word first.
pub read_model : Device → ℕ → ℕ → Bus → List ℕ × Bus
read_model ports port zero bus = ([], bus)
read_model ports port (suc n) bus =
    let (word, after) = inw ports port bus in
    let (rest, later) = read_model ports port n after in
    (bit_and (word >> 8) 0xFF ∷ bit_and word 0xFF ∷ rest, later)

-- The loop that puts a zero for each space at the end, from the character before `n` on.
pub trim : ℕ → List ℕ → List ℕ
trim zero model = model
trim (suc n) model =
    let rest = trim n (set model n 0) in if get_or model n 0 == b' ' then rest else model

pub print_chars : List ℕ → Disk → Disk
print_chars [] d = d
print_chars (c ∷ cs) d = print_chars cs (print (codes "%c") (c ∷ []) d)

-- What is left once the data is there.
pub print_model : Device → Drive → Disk → Disk
print_model ports a d =
    let (model, after) = read_model ports a.data_port 20 (skip_words ports a.data_port 27 d.bus) in
    print (codes "\n") []
      (print_chars (trim 40 model) (print (codes "Model: ") [] (record d { bus = after })))

-- Both polls, from the status `status` on.
pub await_model : Device → ℕ → Drive → ℕ → Disk → Option Disk
await_model ports fuel a status d = elim (poll_busy ports a.command_port fuel status d.bus) [
  | none ↦ none
  | some (ended, b) ↦ elim (poll_drq ports a.command_port fuel ended b) [
    | none ↦ none
    | some (true, c) ↦ some (print_model ports a (record d { bus = c }))
    | some (false, c) ↦ some (print (codes "Error during ATA identify\n") [] (record d { bus = c }))
  ]
]

pub identify : Device → ℕ → Drive → Disk → Option Disk
identify ports fuel a d =
    let selected = select ports a (if a.master then 0xA0 else 0xB0) d in
    let (floating, b1) = inb ports a.command_port (outb a.control_port 0 selected.bus) in
    let cleared =
      outb a.lba_high_port 0
        (outb a.lba_mid_port 0 (outb a.lba_low_port 0 (outb a.sector_count_port 0 b1))) in
    let (status, b2) = inb ports a.command_port (outb a.command_port identify_command cleared) in
    let (lba_mid, b3) = inb ports a.lba_mid_port b2 in
    let (lba_high, b4) = inb ports a.lba_high_port b3 in
    if floating == 0xFF
    then some
        (print (codes "No device on bus: 0x%x\n") (floating ∷ []) (record selected { bus = b1 }))
    else if status == 0
    then some (print (codes "Drive does not exist\n") [] (record selected { bus = b2 }))
    else if not (lba_mid == 0) || not (lba_high == 0)
    then some (
        print (codes "ATAPI device detected (probably CD-ROM)\n") [] (record selected { bus = b4 }))
    else await_model ports fuel a status (record selected { bus = b4 })
