-- ===== src/Vga/Mode.antt =====
-- The registers of the graphics card after the switch of the mode.
use splongle_os.Base.{
  ℕ, zero, suc, ◌+◌, ◌-◌, ◌/◌, ◌%◌, ◌≤◌, ◌<◌, ◌≡◌, ◌≢◌, refl, arith, ◌∙◌, ap, true, ◌&&◌, Option,
  none, some, List, [], ◌∷◌, ltb, leb, ◌==◌, if◌then◌else◌, u8, get_or, drop,
}
use splongle_os.Ports.{
  Bus, Device, wrote8, read8, wrote16, read16, wrote32, read32, set_interrupts, last_byte,
}
use splongle_os.Vga.Crt.{
  crt, get_or-drop, crt-write_indexed, crt-write_other, crt-write_attributes, crt-unlock,
  crt-loaded,
}
use splongle_os.Vga.{
  ports_of_vga, mode_320x200x256, write_indexed, supports_mode, write_attributes, unlock,
  vga_write_registers, set_mode, vga_init,
}

-- The register `i` behind an index port and a data port: what was written to the data port last
-- while the index was `i`.
abbrev pub held : ℕ → ℕ → ℕ → Bus → Option ℕ
held ip dp i [] = none
held ip dp i (wrote8 p v ∷ bus) =
    let rest = held ip dp i bus in if (p == dp) && (last_byte ip bus == i) then some v else rest
held ip dp i (read8 p v ∷ bus) = held ip dp i bus
held ip dp i (wrote16 p v ∷ bus) = held ip dp i bus
held ip dp i (read16 p v ∷ bus) = held ip dp i bus
held ip dp i (wrote32 p v ∷ bus) = held ip dp i bus
held ip dp i (read32 p v ∷ bus) = held ip dp i bus
held ip dp i (set_interrupts v ∷ bus) = held ip dp i bus

write_indexed_lem :
    (ip dp n i j : ℕ) (registers : List ℕ) (bus : Bus)
    → ip ≢ dp
    → i + n ≤ 256
    → held ip dp j (write_indexed ip dp n i registers bus) ≡ (
        if leb i j && ltb j (i + n)
        then some (u8 (get_or registers (j - i) 0))
        else held ip dp j bus)
unfolding write_indexed
write_indexed_lem ip dp zero i j registers bus ne h = ground arith
write_indexed_lem ip dp (suc n) i j registers bus ne h =
    let v = u8 (get_or registers 0 0) in
    let rest =
      write_indexed_lem ip dp n (i + 1) j (drop 1 registers) (wrote8 dp v ∷ wrote8 ip (u8 i) ∷ bus)
        ne (omega (arith, h)) in
    let low : u8 i ≡ i = omega (arith, h) in
    let later : i < j → get_or (drop 1 registers) (j - (i + 1)) 0 ≡ get_or registers (j - i) 0 =
      λ l.
        get_or-drop 1 registers (j - (i + 1))
        ∙ ap (λ (k : ℕ). get_or registers k 0) (omega (arith, l)) in
    let now : i ≡ j → get_or registers 0 0 ≡ get_or registers (j - i) 0 =
      λ e. ap (λ (k : ℕ). get_or registers k 0) (omega (arith, e)) in
    rest ∙ ground (arith, later, now, low, ne)

-- Writes to other ports leave it.
write_indexed-other :
    (ip dp ip' dp' n i j : ℕ) (registers : List ℕ) (bus : Bus)
    → dp' ≢ ip
    → dp' ≢ dp
    → held ip' dp' j (write_indexed ip dp n i registers bus) ≡ held ip' dp' j bus
unfolding write_indexed
write_indexed-other ip dp ip' dp' zero i j registers bus ne ne' = refl
write_indexed-other ip dp ip' dp' (suc n) i j registers bus ne ne' =
    write_indexed-other ip dp ip' dp' n (i + 1) j (drop 1 registers)
      (wrote8 dp (u8 (get_or registers 0 0)) ∷ wrote8 ip (u8 i) ∷ bus) ne ne'
    ∙ ground arith

write_attributes-other :
    (device : Device) (ip dp n i j : ℕ) (registers : List ℕ) (bus : Bus)
    → dp ≢ 0x3C0
    → held ip dp j (write_attributes device ports_of_vga n i registers bus) ≡ held ip dp j bus
unfolding write_attributes
write_attributes-other device ip dp zero i j registers bus ne = refl
write_attributes-other device ip dp (suc n) i j registers bus ne =
    write_attributes-other device ip dp n (i + 1) j (drop 1 registers)
      (wrote8 0x3C0 (u8 (get_or registers 0 0))
        ∷ wrote8 0x3C0 (u8 i)
        ∷ read8 0x3DA (u8 (device bus 0x3DA))
        ∷ bus)
      ne
    ∙ ground (arith, ne)

unlock-other :
    (device : Device) (ip dp j : ℕ) (bus : Bus)
    → dp ≢ 0x3D4
    → dp ≢ 0x3D5
    → held ip dp j (unlock device ports_of_vga bus) ≡ held ip dp j bus
unfolding unlock
unlock-other device ip dp j bus ne ne' = ground (arith, ne, ne')

-- Registers from the first on, out of the part of an array from `o` on.
loaded :
    (registers : List ℕ) (o n j : ℕ) (x y : Option ℕ)
    → (n ≤ j → x ≡ y)
    → (if leb 0 j && ltb j (0 + n) then some (u8 (get_or (drop o registers) (j - 0) 0)) else x)
      ≡ (if ltb j n then some (u8 (get_or registers (o + j) 0)) else y)
loaded registers o n j x y same =
    let byte : get_or (drop o registers) (j - 0) 0 ≡ get_or registers (o + j) 0 =
      ap (λ (k : ℕ). get_or (drop o registers) k 0) (omega arith) ∙ get_or-drop o registers j in
    rw byte (ground (arith, same))

-- `VGA_Init` succeeds, and leaves the registers of the mode: those of the sequencer, the CRT
-- controller and the graphics controller hold their bytes of the table, whatever the card answers,
-- and registers above them what they held before. Of the CRT controller, whose registers may begin
-- with any bytes, registers 0 to 7 take a byte, but for bit 4 of register 7, only while bit 7 of
-- its register 0x11 is clear.
pub vga_init_lem :
    (device : Device) (start : ℕ → ℕ) (j : ℕ) (bus : Bus)
    → let (g, done, t) = vga_init device bus in
      (done ≡ true)
      × (held g.sequencer_index_port g.sequencer_data_port j t ≡ (
          if ltb j 5
          then some (u8 (get_or mode_320x200x256 (1 + j) 0))
          else held 0x3C4 0x3C5 j bus))
      × (crt start j t
          ≡ (if ltb j 25 then u8 (get_or mode_320x200x256 (6 + j) 0) else crt start j bus))
      × (held g.graphics_index_port g.graphics_data_port j t ≡ (
          if ltb j 9
          then some (u8 (get_or mode_320x200x256 (31 + j) 0))
          else held 0x3CE 0x3CF j bus))
unfolding vga_init set_mode supports_mode vga_write_registers
vga_init_lem device start j bus =
    let regs = mode_320x200x256 in
    let b1 : Bus = wrote8 0x3C2 0x63 ∷ bus in
    let b2 = write_indexed 0x3C4 0x3C5 5 0 (drop 1 regs) b1 in
    let u = unlock device ports_of_vga b2 in
    let opened = crt-unlock device start j b2 in
    let b3 = write_indexed 0x3D4 0x3D5 25 0 (drop 6 regs) u in
    let b4 = write_indexed 0x3CE 0x3CF 9 0 (drop 31 regs) b3 in
    (
      refl,
      write_attributes-other device 0x3C4 0x3C5 21 0 j (drop 40 regs) b4 (omega arith)
          ∙ write_indexed-other 0x3CE 0x3CF 0x3C4 0x3C5 9 0 j (drop 31 regs) b3 (omega arith)
              (omega arith)
          ∙ write_indexed-other 0x3D4 0x3D5 0x3C4 0x3C5 25 0 j (drop 6 regs) u (omega arith)
              (omega arith)
          ∙ unlock-other device 0x3C4 0x3C5 j b2 (omega arith) (omega arith)
          ∙ write_indexed_lem 0x3C4 0x3C5 5 0 j (drop 1 regs) b1 (omega arith) (omega arith)
          ∙ loaded regs 1 5 j (held 0x3C4 0x3C5 j b1) (held 0x3C4 0x3C5 j bus) (λ l. refl),
      crt-write_attributes device start 21 0 j (drop 40 regs) b4
          ∙ crt-write_other start 0x3CE 0x3CF 9 0 j (drop 31 regs) b3 (omega arith) (omega arith)
          ∙ crt-write_indexed start 25 0 j (drop 6 regs) u (omega arith) opened.0 (λ k e.
            let last : k ≡ 0x11 = omega (arith, e) in
            ap (λ (x : ℕ). u8 (get_or (drop 6 regs) x 0) / 128 % 2) last)
          ∙ crt-loaded regs 6 25 j (crt start j u) (crt start j bus) (λ l.
            opened.1 l
            ∙ crt-write_other start 0x3C4 0x3C5 5 0 j (drop 1 regs) b1 (omega arith) (omega arith)),
      write_attributes-other device 0x3CE 0x3CF 21 0 j (drop 40 regs) b4 (omega arith)
          ∙ write_indexed_lem 0x3CE 0x3CF 9 0 j (drop 31 regs) b3 (omega arith) (omega arith)
          ∙ loaded regs 31 9 j (held 0x3CE 0x3CF j b3) (held 0x3CE 0x3CF j bus) (λ l.
            write_indexed-other 0x3D4 0x3D5 0x3CE 0x3CF 25 0 j (drop 6 regs) u (omega arith)
              (omega arith)
            ∙ unlock-other device 0x3CE 0x3CF j b2 (omega arith) (omega arith)
            ∙ write_indexed-other 0x3C4 0x3C5 0x3CE 0x3CF 5 0 j (drop 1 regs) b1 (omega arith)
                (omega arith)),
    )
