-- ===== src/Pic.antt =====
-- src/kernel/arch/i686/i8259.c: the two cascaded 8259 interrupt controllers.
pub mod Mask
pub mod Vectors
mod Examples
use splongle_os.Base.{
  ℕ, ◌+◌, ◌%◌, bit_and, bit_or, Bool, ltb, ◌==◌, if◌then◌else◌, u16, not32, ◌<<◌, ◌>>◌,
}
use splongle_os.Ports.{Bus, Device, outb, inb, io_wait}

-- `g_PICMask`, and the ports.
pub record Pic : Type 0 where
  pub mask : ℕ
  pub bus : Bus

abbrev pub pic1_command : ℕ
pic1_command = 0x20

abbrev pub pic1_data : ℕ
pic1_data = 0x21

abbrev pub pic2_command : ℕ
pic2_command = 0xA0

abbrev pub pic2_data : ℕ
pic2_data = 0xA1

abbrev pub end_of_interrupt : ℕ
end_of_interrupt = 0x20

pub set_mask : ℕ → Pic → Pic
set_mask new_mask p =
    let low = outb pic1_data (bit_and new_mask 0xFF) p.bus in
    record { mask = new_mask; bus = io_wait (outb pic2_data (new_mask >> 8) (io_wait low)) }

-- One word for each controller, with a pause behind each.
abbrev pub send_both : ℕ → ℕ → ℕ → ℕ → Bus → Bus
send_both port1 word1 port2 word2 bus = io_wait (outb port2 word2 (io_wait (outb port1 word1 bus)))

pub config : ℕ → ℕ → Pic → Pic
config offset1 offset2 p =
    let q = set_mask 0xFFFF p in
    let word1 = send_both pic1_command 0x11 pic2_command 0x11 q.bus in
    let word2 = send_both pic1_data offset1 pic2_data offset2 word1 in
    let word3 = send_both pic1_data 4 pic2_data 2 word2 in
    let word4 = send_both pic1_data 3 pic2_data 3 word3 in
    set_mask 0xFFFF (record q { bus = word4 })

-- The argument of `i8259_SetMask` is a `uint16_t`.
pub mask_irq : ℕ → Pic → Pic
mask_irq irq p = set_mask (u16 (bit_or p.mask (1 << irq))) p

pub unmask_irq : ℕ → Pic → Pic
unmask_irq irq p = set_mask (u16 (bit_and p.mask (not32 (1 << irq)))) p

pub send_end_of_int : ℕ → Pic → Pic
send_end_of_int irq p =
    let second = if ltb irq 8 then p.bus else outb pic2_command end_of_interrupt p.bus in
    record p { bus = outb pic1_command end_of_interrupt second }

pub disable : Pic → Pic
disable p = set_mask 0xFFFF p

-- The operands of `|` are read in the order in which they are written.
pub get_mask : Device → Pic → ℕ × Pic
get_mask device p =
    let (low, bus) = inb device pic1_data p.bus in
    let (high, bus2) = inb device pic2_data bus in
    (u16 (bit_or low (high << 8)), record p { bus = bus2 })

-- `i8259_ReadIRQRequestRegister` with 0x0A, `i8259_ReadInServiceRegister` with 0x0B.
pub read_register : ℕ → Device → Pic → ℕ × Pic
read_register command device p =
    let asked = outb pic2_command command (outb pic1_command command p.bus) in
    let (low, bus) = inb device pic2_command asked in
    let (high, bus2) = inb device pic1_command bus in
    (u16 (bit_or low (high << 8)), record p { bus = bus2 })

pub probe : Device → Pic → Bool × Pic
probe device p =
    let (mask, q) = get_mask device (set_mask 0x1337 (disable p)) in (mask == 0x1337, q)
