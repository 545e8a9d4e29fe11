-- ===== src/Vga/Crt.antt =====
-- The registers of the CRT controller, of which the first eight can be protected.
use splongle_os.Base.{
  ℕ, zero, suc, ◌+◌, ◌-◌, ◌*◌, ◌/◌, ◌%◌, ◌≤◌, ◌<◌, ◌≡◌, ◌≢◌, refl, sym, arith, ◌∙◌, ap, ◌&&◌,
  bit_and, bit_or, not32, List, [], ◌∷◌, ltb, leb, ◌==◌, if◌then◌else◌, u8, get_or, drop,
}
use splongle_os.Base.Bits.{bit, bit-bit_and, bit-complement, bit-pow}
use splongle_os.Ports.{
  Bus, Device, wrote8, read8, wrote16, read16, wrote32, read32, set_interrupts, last_byte,
}
use splongle_os.Vga.{ports_of_vga, write_indexed, write_attributes, unlock}

-- The byte in register `i` of a CRT controller that began with the bytes `start`: its data port is
-- 0x3D5, its index port 0x3D4, and while bit 7 of register 0x11 is set, registers 0 to 7 keep
-- their bytes, but for bit 4 of register 7.
abbrev pub crt : (ℕ → ℕ) → ℕ → Bus → ℕ
crt start i [] = start i
crt start i (wrote8 p v ∷ bus) =
    let rest = crt start i bus in
    let protected = (crt start 0x11 bus / 128 % 2 == 1) && ltb i 8 in
    let open_bits = if i == 7 then rest / 32 * 32 + v / 16 % 2 * 16 + rest % 16 else rest in
    if (p == 0x3D5) && (last_byte 0x3D4 bus == i) then if protected then open_bits else v else rest
crt start i (read8 p v ∷ bus) = crt start i bus
crt start i (wrote16 p v ∷ bus) = crt start i bus
crt start i (read16 p v ∷ bus) = crt start i bus
crt start i (wrote32 p v ∷ bus) = crt start i bus
crt start i (read32 p v ∷ bus) = crt start i bus
crt start i (set_interrupts v ∷ bus) = crt start i bus

pub get_or-drop : (n : ℕ) (xs : List ℕ) (k : ℕ) → get_or (drop n xs) k 0 ≡ get_or xs (n + k) 0
get_or-drop zero xs k = ap (λ (i : ℕ). get_or xs i 0) (omega arith)
get_or-drop (suc n) [] k = refl
get_or-drop (suc n) (x ∷ xs) k =
    let same : suc (n + k) ≡ suc n + k = omega arith in
    get_or-drop n xs k ∙ ap (λ (i : ℕ). get_or (x ∷ xs) i 0) same

-- Where registers 0 to 7 are not protected, and the byte for register 0x11 does not protect them.
pub crt-write_indexed :
    (start : ℕ → ℕ) (n i j : ℕ) (registers : List ℕ) (bus : Bus)
    → i + n ≤ 256
    → crt start 0x11 bus / 128 % 2 ≡ 0
    → ((k : ℕ) → i + k ≡ 0x11 → u8 (get_or registers k 0) / 128 % 2 ≡ 0)
    → crt start j (write_indexed 0x3D4 0x3D5 n i registers bus)
      ≡ (if leb i j && ltb j (i + n) then u8 (get_or registers (j - i) 0) else crt start j bus)
unfolding write_indexed
crt-write_indexed start zero i j registers bus h clear stays = ground arith
crt-write_indexed start (suc n) i j registers bus h clear stays =
    let v = u8 (get_or registers 0 0) in
    let low : u8 i ≡ i = omega (arith, h) in
    let next : Bus = wrote8 0x3D5 v ∷ wrote8 0x3D4 (u8 i) ∷ bus in
    let clear' : crt start 0x11 next / 128 % 2 ≡ 0 =
      let here = stays 0 in ground (arith, here, low, clear) in
    let stays' : (k : ℕ) → i + 1 + k ≡ 0x11 → u8 (get_or (drop 1 registers) k 0) / 128 % 2 ≡ 0 =
      λ k e. rw (get_or-drop 1 registers k) (stays (1 + k) (omega (arith, e))) in
    let rest =
      crt-write_indexed start n (i + 1) j (drop 1 registers) next (omega (arith, h)) clear'
        stays' in
    let later : i < j → get_or (drop 1 registers) (j - (i + 1)) 0 ≡ get_or registers (j - i) 0 =
      λ l.
        get_or-drop 1 registers (j - (i + 1))
        ∙ ap (λ (k : ℕ). get_or registers k 0) (omega (arith, l)) in
    let now : i ≡ j → get_or registers 0 0 ≡ get_or registers (j - i) 0 =
      λ e. ap (λ (k : ℕ). get_or registers k 0) (omega (arith, e)) in
    rest ∙ ground (arith, later, now, low, clear)

pub crt-write_other :
    (start : ℕ → ℕ) (ip dp n i j : ℕ) (registers : List ℕ) (bus : Bus)
    → ip ≢ 0x3D5
    → dp ≢ 0x3D5
    → crt start j (write_indexed ip dp n i registers bus) ≡ crt start j bus
unfolding write_indexed
crt-write_other start ip dp zero i j registers bus ne ne' = refl
crt-write_other start ip dp (suc n) i j registers bus ne ne' =
    crt-write_other start ip dp n (i + 1) j (drop 1 registers)
      (wrote8 dp (u8 (get_or registers 0 0)) ∷ wrote8 ip (u8 i) ∷ bus) ne ne'
    ∙ ground (arith, ne, ne')

pub crt-write_attributes :
    (device : Device) (start : ℕ → ℕ) (n i j : ℕ) (registers : List ℕ) (bus : Bus)
    → crt start j (write_attributes device ports_of_vga n i registers bus) ≡ crt start j bus
unfolding write_attributes
crt-write_attributes device start zero i j registers bus = refl
crt-write_attributes device start (suc n) i j registers bus =
    crt-write_attributes device start n (i + 1) j (drop 1 registers) (
      wrote8 0x3C0 (u8 (get_or registers 0 0))
      ∷ wrote8 0x3C0 (u8 i)
      ∷ read8 0x3DA (u8 (device bus 0x3DA))
      ∷ bus)

seventh : (w : ℕ) → bit 7 w ≡ w / 128 % 2
unfolding bit
seventh w = omega arith

-- Bit 7 of register 0x11 is off behind it, whatever was there and whatever the card answers.
pub crt-unlock :
    (device : Device) (start : ℕ → ℕ) (j : ℕ) (bus : Bus)
    → let t = unlock device ports_of_vga bus in
      (crt start 0x11 t / 128 % 2 ≡ 0) × (25 ≤ j → crt start j t ≡ crt start j bus)
unfolding unlock
crt-unlock device start j bus =
    let three = u8 (device (wrote8 0x3D4 3 ∷ bus) 0x3D5) in
    let b1 : Bus = read8 0x3D5 three ∷ wrote8 0x3D4 3 ∷ bus in
    let b2 : Bus = wrote8 0x3D4 0x11 ∷ wrote8 0x3D5 (u8 (bit_or three 0x80)) ∷ b1 in
    let w = u8 (device b2 0x3D5) in
    let off : bit_and w (not32 0x80) / 128 % 2 ≡ 0 =
      sym (seventh (bit_and w (not32 0x80)))
      ∙ bit-bit_and 7 w (not32 0x80)
      ∙ ground (arith, bit-complement 32 7 0x80 (omega arith) (omega arith), bit-pow 7 7) in
    let closed : crt start 0x11 (unlock device ports_of_vga bus) ≡ u8 (bit_and w (not32 0x80)) =
      ground arith in
    (omega (arith, off, closed), λ above. ground (arith, above))

-- The registers of the controller are those of an array, from `o` on.
pub crt-loaded :
    (registers : List ℕ) (o n j x y : ℕ)
    → (n ≤ j → x ≡ y)
    → (if leb 0 j && ltb j (0 + n) then u8 (get_or (drop o registers) (j - 0) 0) else x)
      ≡ (if ltb j n then u8 (get_or registers (o + j) 0) else y)
crt-loaded registers o n j x y same =
    let byte : get_or (drop o registers) (j - 0) 0 ≡ get_or registers (o + j) 0 =
      ap (λ (k : ℕ). get_or (drop o registers) k 0) (omega arith) ∙ get_or-drop o registers j in
    rw byte (ground (arith, same))
