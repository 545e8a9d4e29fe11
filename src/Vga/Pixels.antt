-- ===== src/Vga/Pixels.antt =====
-- What `DrawRect` draws.
use splongle_os.Base.{
  ℕ, zero, suc, ◌+◌, ◌*◌, ◌/◌, ◌≤◌, ◌<◌, ◌≡◌, refl, arith, ◌∙◌, bit_and, ◌&&◌, ltb, leb, ◌==◌,
  if◌then◌else◌, u8, u32,
}
use splongle_os.Ports.{Bus, Device}
use splongle_os.Vga.{
  Screen, ports_of_vga, get_frame_buffer_segment, put_pixel_with_index, get_color_index, put_pixel,
  draw_row, draw_rows, draw_rect,
}

-- The graphics controller says that the screen is the 64 KiB at 0xA0000.
abbrev pub IsMapped : Device → Type 0
IsMapped device = (bus : Bus) → bit_and (u8 (device bus 0x3CF) / 4) 3 ≡ 1

module _ (device : Device) (stack : ℕ) (mapped : IsMapped device) where
  get_frame_buffer_segment_lem :
      (bus : Bus) → (get_frame_buffer_segment device ports_of_vga bus).0 ≡ 0xA0000
  unfolding get_frame_buffer_segment
  get_frame_buffer_segment_lem bus = rw (mapped _) refl

  put_pixel_lem :
      (x y q : ℕ) (s : Screen)
      → x < 320
      → y < 200
      → (put_pixel device ports_of_vga stack x y 0 0 0xA8 s).memory q
        ≡ (if 0xA0000 + 320 * y + x == q then 1 else s.memory q)
  unfolding put_pixel put_pixel_with_index get_color_index
  put_pixel_lem x y q s hx hy =
      let segment = get_frame_buffer_segment_lem s.bus in
      let address : u32 (0xA0000 + u32 (320 * y) + x) ≡ 0xA0000 + 320 * y + x =
        omega (arith, hx, hy) in
      rw (segment, address) refl

  draw_row_lem :
      (y n x q : ℕ) (s : Screen)
      → x + n ≤ 320
      → y < 200
      → (draw_row device ports_of_vga stack y n x s).memory q ≡ (
          if leb (0xA0000 + 320 * y + x) q && ltb q (0xA0000 + 320 * y + x + n)
          then 1
          else s.memory q)
  unfolding draw_row
  draw_row_lem y zero x q s hx hy = ground arith
  draw_row_lem y (suc n) x q s hx hy =
      let first = put_pixel_lem x y q s (omega (arith, hx)) hy in
      let rest =
        draw_row_lem y n (x + 1) q (put_pixel device ports_of_vga stack x y 0 0 0xA8 s)
          (omega (arith, hx)) hy in
      rest ∙ ground (arith, first)

  draw_rows_lem :
      (n y q : ℕ) (s : Screen)
      → y + n ≤ 200
      → (draw_rows device ports_of_vga stack n y s).memory q
        ≡ (if leb (0xA0000 + 320 * y) q && ltb q (0xA0000 + 320 * (y + n)) then 1 else s.memory q)
  unfolding draw_rows
  draw_rows_lem zero y q s h = ground arith
  draw_rows_lem (suc n) y q s h =
      let first = draw_row_lem y 320 0 q s (omega arith) (omega (arith, h)) in
      let rest =
        draw_rows_lem n (y + 1) q (draw_row device ports_of_vga stack y 320 0 s)
          (omega (arith, h)) in
      rest ∙ ground (arith, first)

-- Where the graphics controller maps the screen at 0xA0000, `DrawRect` writes the colour 1 to the
-- 64000 bytes of the screen, and to no other.
pub draw_rect_lem :
    (device : Device) (stack q : ℕ) (s : Screen)
    → IsMapped device
    → (draw_rect device ports_of_vga stack s).memory q
      ≡ (if leb 0xA0000 q && ltb q (0xA0000 + 64000) then 1 else s.memory q)
unfolding draw_rect
draw_rect_lem device stack q s mapped = draw_rows_lem device stack mapped 200 0 q s (omega arith)
