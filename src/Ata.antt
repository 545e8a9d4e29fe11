-- ===== src/Ata.antt =====
-- src/kernel/dev/ata.c: the disk driver. The ports and the status are those of the disk, a parameter;
-- the polling loops are on fuel, and give `none` when it is spent.
pub mod Transfer
pub mod Identify
pub mod Trace
pub mod Poll
mod Examples
use splongle_os.Base.{
  codes, ℕ, zero, suc, ◌+◌, ◌-◌, ◌*◌, ◌/◌, ◌%◌, ◌^◌, bit_and, bit_or, Bool, true, false, not, ◌&&◌,
  ◌||◌, Option, none, some, List, [], ◌∷◌, ◌++◌, map, ltb, leb, ◌==◌, if◌then◌else◌, u8, u16, u32,
  ◌<<◌, ◌>>◌, get_or, set,
}
use splongle_os.Ports.{Bus, Device, outb, outw, inb, inw}
use splongle_os.Interrupts.{Interrupts, int14, int15, irq_register_handler}

-- `AdvancedTechnologyAttachment`
pub record Drive : Type 0 where
  pub data_port : ℕ
  pub error_port : ℕ
  pub sector_count_port : ℕ
  pub lba_low_port : ℕ
  pub lba_mid_port : ℕ
  pub lba_high_port : ℕ
  pub device_port : ℕ
  pub command_port : ℕ
  pub control_port : ℕ
  pub master : Bool
  pub initialized : Bool
  pub bytes_per_sector : ℕ

-- A call of `printk`, by its format and its arguments.
pub data Printed : Type 0 where
  printk : List ℕ → List ℕ → Printed

-- The variables of the file, the calls of `printk` so far, the oldest first, and the ports.
pub record Disk : Type 0 where
  pub int14_on : Bool
  pub int15_on : Bool
  pub last_device : ℕ
  pub printed : List Printed
  pub bus : Bus

abbrev pub print : List ℕ → List ℕ → Disk → Disk
print format args d = record d { printed = d.printed ++ printk format args ∷ [] }

abbrev pub primary_master_port : ℕ
primary_master_port = 0x1F0

abbrev pub max_addressable_space : ℕ
max_addressable_space = 0x0FFFFFFF

abbrev pub cache_flush : ℕ
cache_flush = 0xE7

abbrev pub identify_command : ℕ
identify_command = 0xEC

abbrev pub read_command : ℕ
read_command = 0x20

abbrev pub write_command : ℕ
write_command = 0x30

-- Reads of a port for the time they take.
pub read_times : Device → ℕ → ℕ → Bus → Bus
read_times ports port zero bus = bus
read_times ports port (suc n) bus = read_times ports port n (inb ports port bus).1

-- `ATA_420ns_delay`
abbrev pub delay : Device → ℕ → Bus → Bus
delay ports control_port bus = read_times ports control_port 15 bus

pub dev_select : Device → Drive → ℕ → Disk → Disk
dev_select ports a device d = record d {
  bus = delay ports a.control_port (outb a.device_port device d.bus);
  last_device = device;
}

-- `if (g_last_device != device_to_select) ATA_Dev_select(ata, device_to_select);`
pub select : Device → Drive → ℕ → Disk → Disk
select ports a device d = if d.last_device == device then d else dev_select ports a device d

pub ata_init : ℕ → Disk → Interrupts → Drive × Disk × Interrupts
ata_init port_base d s =
    let primary = port_base == primary_master_port in
    let drive : Drive = record {
      data_port = port_base;
      error_port = u16 (port_base + 1);
      sector_count_port = u16 (port_base + 2);
      lba_low_port = u16 (port_base + 3);
      lba_mid_port = u16 (port_base + 4);
      lba_high_port = u16 (port_base + 5);
      device_port = u16 (port_base + 6);
      command_port = u16 (port_base + 7);
      control_port = if primary then 0x3F6 else 0x376;
      master = primary;
      initialized = true;
      bytes_per_sector = 512;
    } in
    if not d.int14_on && not d.int15_on
    then (
      drive,
      record d { int14_on = true; int15_on = true },
      irq_register_handler 15 int15 (irq_register_handler 14 int14 s),
    )
    else (drive, d, s)

-- `while (status & 0x80) status = i686_inb(ata->command_port);`
pub poll_busy : Device → ℕ → ℕ → ℕ → Bus → Option (ℕ × Bus)
poll_busy ports port zero status bus = none
poll_busy ports port (suc fuel) status bus =
    let (next, after) = inb ports port bus in
    let rest = poll_busy ports port fuel next after in
    if bit_and status 0x80 == 0 then some (status, bus) else rest

-- The loop that waits for DRQ: false if it ends in an error.
pub poll_drq : Device → ℕ → ℕ → ℕ → Bus → Option (Bool × Bus)
poll_drq ports port zero status bus = none
poll_drq ports port (suc fuel) status bus =
    let (next, after) = inb ports port bus in
    let rest = poll_drq ports port fuel next after in
    if not (bit_and status 0x08 == 0)
    then some (true, bus)
    else if not (bit_and status 0x01 == 0)
    then some (false, bus)
    else rest

-- The same with the count of the polls to ignore, a `uint8_t`, whose test is `polls_ignored < 0`.
pub poll_drq_ignoring : Device → ℕ → ℕ → ℕ → ℕ → Bus → Option (Bool × Bus)
poll_drq_ignoring ports port zero polls_ignored status bus = none
poll_drq_ignoring ports port (suc fuel) polls_ignored status bus =
    let (next, after) = inb ports port bus in
    let rest = poll_drq_ignoring ports port fuel (u8 (polls_ignored + 255)) next after in
    if not (bit_and status 0x08 == 0)
    then some (true, bus)
    else if not (bit_and status 0x01 == 0) && ltb polls_ignored 0
    then some (false, bus)
    else rest

-- A read of the status and both loops.
pub poll : Device → ℕ → ℕ → Bus → Option (Bool × Bus)
poll ports port fuel bus =
    let (status, after) = inb ports port bus in
    elim (poll_busy ports port fuel status after) [
      | none ↦ none
      | some (ended, later) ↦ poll_drq ports port fuel ended later
    ]

pub poll_ignoring : Device → ℕ → ℕ → Bus → Option (Bool × Bus)
poll_ignoring ports port fuel bus =
    let (status, after) = inb ports port bus in
    elim (poll_busy ports port fuel status after) [
      | none ↦ none
      | some (ended, later) ↦ poll_drq_ignoring ports port fuel 4 ended later
    ]

-- An error of the disk ends the transfer with a message.
pub unless_error : Option (Bool × Bus) → Disk → (Bus → Option Disk) → Option Disk
unless_error none d continue = none
unless_error (some (true, bus)) d continue = continue bus
unless_error (some (false, bus)) d continue =
    some (print (codes "Error during ATA read\n") [] (record d { bus = bus }))
