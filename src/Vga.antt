-- ===== src/Vga.antt =====
-- src/kernel/dev/vga.c: the switch to the mode of 320 by 200 pixels, and the writing of pixels.
pub mod Crt
pub mod Mode
pub mod Pixels
mod Examples
use splongle_os.Base.{
  ℕ, zero, suc, ◌+◌, ◌-◌, ◌*◌, ◌/◌, ◌%◌, ◌^◌, bit_and, bit_or, Bool, true, false, ◌&&◌, Option,
  none, some, List, [], ◌∷◌, ltb, leb, ◌==◌, if◌then◌else◌, u8, u32, ◌<<◌, ◌>>◌, not32, update,
  get_or, set, drop,
}
use splongle_os.Ports.{Bus, Device, outb, inb}

-- `VideoGraphicsArray`
pub record Vga : Type 0 where
  pub misc_port : ℕ
  pub crt_index_port : ℕ
  pub crt_data_port : ℕ
  pub sequencer_index_port : ℕ
  pub sequencer_data_port : ℕ
  pub graphics_index_port : ℕ
  pub graphics_data_port : ℕ
  pub attribute_index_port : ℕ
  pub attribute_read_port : ℕ
  pub attribute_write_port : ℕ
  pub attribute_reset_port : ℕ

-- What `VGA_Init` assigns.
abbrev pub ports_of_vga : Vga
ports_of_vga = record {
  misc_port = 0x3C2;
  crt_index_port = 0x3D4;
  crt_data_port = 0x3D5;
  sequencer_index_port = 0x3C4;
  sequencer_data_port = 0x3C5;
  graphics_index_port = 0x3CE;
  graphics_data_port = 0x3CF;
  attribute_index_port = 0x3C0;
  attribute_read_port = 0x3C1;
  attribute_write_port = 0x3C0;
  attribute_reset_port = 0x3DA;
}

-- `g_320x200x256`
abbrev pub mode_320x200x256 : List ℕ
mode_320x200x256 =
    0x63 ∷ 0x03 ∷ 0x01 ∷ 0x0F ∷ 0x00 ∷ 0x0E ∷ 0x5F ∷ 0x4F ∷ 0x50 ∷ 0x82 ∷ 0x54 ∷ 0x80 ∷ 0xBF ∷ 0x1F
    ∷ 0x00 ∷ 0x41 ∷ 0x00 ∷ 0x00 ∷ 0x00 ∷ 0x00 ∷ 0x00 ∷ 0x00 ∷ 0x9C ∷ 0x0E ∷ 0x8F ∷ 0x28 ∷ 0x40
    ∷ 0x96 ∷ 0xB9 ∷ 0xA3 ∷ 0xFF ∷ 0x00 ∷ 0x00 ∷ 0x00 ∷ 0x00 ∷ 0x00 ∷ 0x40 ∷ 0x05 ∷ 0x0F ∷ 0xFF
    ∷ 0x00 ∷ 0x01 ∷ 0x02 ∷ 0x03 ∷ 0x04 ∷ 0x05 ∷ 0x06 ∷ 0x07 ∷ 0x08 ∷ 0x09 ∷ 0x0A ∷ 0x0B ∷ 0x0C
    ∷ 0x0D ∷ 0x0E ∷ 0x0F ∷ 0x41 ∷ 0x00 ∷ 0x0F ∷ 0x00 ∷ 0x00 ∷ []

pub supports_mode : ℕ → ℕ → ℕ → Bool
supports_mode width height colordepth = (width == 320) && (height == 200) && (colordepth == 8)

-- The loops that write an index and the next byte of the array, from the index `i` on.
pub write_indexed : ℕ → ℕ → ℕ → ℕ → List ℕ → Bus → Bus
write_indexed index_port data_port zero i registers bus = bus
write_indexed index_port data_port (suc rounds) i registers bus =
    write_indexed index_port data_port rounds (i + 1) (drop 1 registers)
      (outb data_port (get_or registers 0 0) (outb index_port i bus))

-- The same for the attribute controller, which is reset before each index.
pub write_attributes : Device → Vga → ℕ → ℕ → List ℕ → Bus → Bus
write_attributes device g zero i registers bus = bus
write_attributes device g (suc rounds) i registers bus =
    let reset = (inb device g.attribute_reset_port bus).1 in
    write_attributes device g rounds (i + 1) (drop 1 registers)
      (outb g.attribute_write_port (get_or registers 0 0) (outb g.attribute_index_port i reset))

-- The registers of the CRT controller are unlocked: bit 7 of register 3 on, of register 0x11 off.
pub unlock : Device → Vga → Bus → Bus
unlock device g bus =
    let (three, b1) = inb device g.crt_data_port (outb g.crt_index_port 0x03 bus) in
    let b2 = outb g.crt_index_port 0x11 (outb g.crt_data_port (bit_or three 0x80) b1) in
    let (seventeen, b3) = inb device g.crt_data_port b2 in
    outb g.crt_data_port (bit_and seventeen (not32 0x80)) b3

-- `registers[0x03]` and `registers[0x11]`, where `registers` has come to the CRT's first.
abbrev pub keep_unlocked : List ℕ → List ℕ
keep_unlocked crt =
    let t = set crt 0x03 (u8 (bit_or (get_or crt 0x03 0) 0x80)) in
    set t 0x11 (u8 (bit_and (get_or t 0x11 0) (not32 0x80)))

pub vga_write_registers : Device → Vga → List ℕ → Bus → Bus
vga_write_registers device g registers bus =
    let b1 = outb g.misc_port (get_or registers 0 0) bus in
    let b2 = write_indexed g.sequencer_index_port g.sequencer_data_port 5 0 (drop 1 registers) b1 in
    let crt = keep_unlocked (drop 6 registers) in
    let b3 = write_indexed g.crt_index_port g.crt_data_port 25 0 crt (unlock device g b2) in
    let b4 = write_indexed g.graphics_index_port g.graphics_data_port 9 0 (drop 25 crt) b3 in
    let b5 = write_attributes device g 21 0 (drop 34 crt) b4 in
    outb g.attribute_index_port 0x20 (inb device g.attribute_reset_port b5).1

pub set_mode : Device → Vga → ℕ → ℕ → ℕ → Bus → Bool × Bus
set_mode device g width height colordepth bus =
    if supports_mode width height colordepth
    then (true, vga_write_registers device g mode_320x200x256 bus)
    else (false, bus)

pub vga_init : Device → Bus → Vga × Bool × Bus
vga_init device bus =
    let (done, after) = set_mode device ports_of_vga 320 200 8 bus in (ports_of_vga, done, after)

pub get_frame_buffer_segment : Device → Vga → Bus → ℕ × Bus
get_frame_buffer_segment device g bus =
    let (value, after) = inb device g.graphics_data_port (outb g.graphics_index_port 0x06 bus) in
    let segment_num = bit_and (value >> 2) 0x03 in
    (
      if segment_num == 0
          then 0x00000
          else if segment_num == 1
          then 0xA0000
          else if segment_num == 2
          then 0xB0000
          else 0x0B800,
      after,
    )

-- The memory and the ports.
pub record Screen : Type 0 where
  pub memory : ℕ → ℕ
  pub bus : Bus

pub put_pixel_with_index : Device → Vga → ℕ → ℕ → ℕ → Screen → Screen
put_pixel_with_index device g x y color_index s =
    let (segment, after) = get_frame_buffer_segment device g s.bus in
    record {
      memory = update s.memory (u32 (segment + u32 (320 * y) + x)) (u8 color_index);
      bus = after;
    }

-- Any other colour ends without a value: `none`.
pub get_color_index : ℕ → ℕ → ℕ → Option ℕ
get_color_index red green blue =
    if (red == 0) && ((green == 0) && (blue == 0xA8)) then some 0x01 else none

-- `stack` is the value that is used in place of a missing one.
pub put_pixel : Device → Vga → ℕ → ℕ → ℕ → ℕ → ℕ → ℕ → Screen → Screen
put_pixel device g stack x y red green blue s =
    put_pixel_with_index device g x y
      (elim (get_color_index red green blue) [ some index ↦ index | none ↦ stack ]) s

-- `DrawRect` of src/kernel/main.c: the inner loop from `x` on, and the outer from `y` on.
pub draw_row : Device → Vga → ℕ → ℕ → ℕ → ℕ → Screen → Screen
draw_row device g stack y zero x s = s
draw_row device g stack y (suc rounds) x s =
    draw_row device g stack y rounds (x + 1) (put_pixel device g stack x y 0x00 0x00 0xA8 s)

pub draw_rows : Device → Vga → ℕ → ℕ → ℕ → Screen → Screen
draw_rows device g stack zero y s = s
draw_rows device g stack (suc rounds) y s =
    draw_rows device g stack rounds (y + 1) (draw_row device g stack y 320 0 s)

pub draw_rect : Device → Vga → ℕ → Screen → Screen
draw_rect device g stack s = draw_rows device g stack 200 0 s
