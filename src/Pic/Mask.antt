-- ===== src/Pic/Mask.antt =====
-- Which interrupts the mask holds back, and what the controllers are told.
use splongle_os.Base.{
  ℕ, ◌+◌, ◌*◌, ◌/◌, ◌%◌, ◌^◌, ◌<◌, ◌≡◌, refl, sym, arith, ◌∙◌, ap, bit_and, bit_or, true, ◌∷◌, ◌==◌,
  if◌then◌else◌, u8, u16, not32,
}
use splongle_os.Base.Bits.{
  bit, bit-lt_two, bit-bit_or, bit-bit_and, bit-pow, bit-complement, bit_and-low, bit_or-lt,
  bit_and-le, bit_or-shifted, bit_or_comm, one_shl, two_pow-lt,
}
use splongle_os.Ports.{Bus, Device, read8, last_byte}
use splongle_os.Pic.{Pic, set_mask, mask_irq, unmask_irq, config, disable, get_mask, probe}

-- The mask that the two controllers hold.
abbrev pub programmed : Pic → ℕ
programmed p = last_byte 0x21 p.bus + last_byte 0xA1 p.bus * 256

-- Every mask that is set is the one that the controllers hold.
pub set_mask_lem :
    (new_mask : ℕ) (p : Pic)
    → new_mask < 2 ^ 16
    → ((set_mask new_mask p).mask ≡ new_mask) × (programmed (set_mask new_mask p) ≡ new_mask)
unfolding set_mask
set_mask_lem new_mask p h = (refl, ground (arith, bit_and-low 8 new_mask))

-- `i8259_Mask` holds one more interrupt back, and the controllers are told.
pub mask_irq_lem :
    (irq j : ℕ) (p : Pic)
    → irq < 16
    → p.mask < 2 ^ 16
    → let q = mask_irq irq p in
      (bit j q.mask ≡ (if j == irq then 1 else bit j p.mask)) × (programmed q ≡ q.mask)
unfolding mask_irq
mask_irq_lem irq j p h l =
    let joined = bit_or p.mask (2 ^ irq) in
    let low : joined < 2 ^ 16 = bit_or-lt 16 p.mask (2 ^ irq) l (two_pow-lt irq 16 h) in
    let word : u16 joined ≡ joined = omega arith in
    let set = set_mask_lem joined p low in
    rw (one_shl irq, word, set.0, set.1)
      (ground (arith, bit-bit_or j p.mask (2 ^ irq), bit-pow j irq, bit-lt_two j p.mask), refl)

-- `i8259_Unmask` of an interrupt below 16, with a mask of 16 bits: of the bits of the mask, that
-- of the interrupt is cleared and the others stay, and the controllers are given the new mask.
pub unmask_irq_lem :
    (irq j : ℕ) (p : Pic)
    → irq < 16
    → j < 32
    → p.mask < 2 ^ 16
    → let q = unmask_irq irq p in
      (bit j q.mask ≡ (if j == irq then 0 else bit j p.mask)) × (programmed q ≡ q.mask)
unfolding unmask_irq
unmask_irq_lem irq j p h k l =
    let met = bit_and p.mask (not32 (2 ^ irq)) in
    let low : met < 2 ^ 16 = omega (arith, bit_and-le 16 p.mask (not32 (2 ^ irq))) in
    let word : u16 met ≡ met = omega arith in
    let set = set_mask_lem met p low in
    let small = two_pow-lt irq 32 (omega arith) in
    rw (one_shl irq, word, set.0, set.1)
      (
        ground (
          arith,
          bit-bit_and j p.mask (not32 (2 ^ irq)),
          bit-complement 32 j (2 ^ irq) k small,
          bit-pow j irq,
          bit-lt_two j p.mask,
        ),
        refl,
      )

low_byte : (new_mask : ℕ) (p : Pic) → last_byte 0x21 (set_mask new_mask p).bus ≡ new_mask % 2 ^ 8
unfolding set_mask
low_byte new_mask p = omega (arith, bit_and-low 8 new_mask)

high_byte :
    (new_mask : ℕ) (p : Pic)
    → new_mask < 2 ^ 16
    → last_byte 0xA1 (set_mask new_mask p).bus ≡ new_mask / 2 ^ 8
unfolding set_mask
high_byte new_mask p h = omega arith

-- What the kernel relies on: a controller answers with the mask that it was given.
pub record IsWired (device : Device) : Type 0 where
  pub first : (bus : Bus) → device bus 0x21 ≡ last_byte 0x21 bus
  pub second : (bus : Bus) → device bus 0xA1 ≡ last_byte 0xA1 bus

-- The mask that `i8259_GetMask` reads back is the 16-bit mask that `i8259_SetMask` set, where the
-- controllers answer with the byte that was written to their data port last.
pub get_mask-set_mask :
    (device : Device) (new_mask : ℕ) (p : Pic)
    → IsWired device
    → new_mask < 2 ^ 16
    → (get_mask device (set_mask new_mask p)).0 ≡ new_mask
unfolding get_mask
get_mask-set_mask device new_mask p w h =
    let q = set_mask new_mask p in
    let told = read8 0x21 (u8 (last_byte 0x21 q.bus)) ∷ q.bus in
    let low : device q.bus 0x21 ≡ new_mask % 2 ^ 8 = w.first q.bus ∙ low_byte new_mask p in
    let high : device told 0xA1 ≡ new_mask / 2 ^ 8 = w.second told ∙ high_byte new_mask p h in
    let join = bit_or-shifted 8 (new_mask / 2 ^ 8) (new_mask % 2 ^ 8) (omega arith) in
    let comm =
      bit_or_comm 16 (new_mask / 2 ^ 8 * 2 ^ 8) (new_mask % 2 ^ 8) (omega arith) (omega arith) in
    let low_value : u8 (device q.bus 0x21) ≡ new_mask % 2 ^ 8 = omega (arith, low) in
    let high_value : u8 (device told 0xA1) ≡ new_mask / 2 ^ 8 = omega (arith, high) in
    let told_value : u8 (last_byte 0x21 q.bus) ≡ u8 (device q.bus 0x21) =
      ap u8 (sym (w.first q.bus)) in
    let again : u8 (device (read8 0x21 (u8 (device q.bus 0x21)) ∷ q.bus) 0xA1) ≡ new_mask / 2 ^ 8 =
      ap (λ x. u8 (device (read8 0x21 x ∷ q.bus) 0xA1)) (sym told_value) ∙ high_value in
    rw (again, low_value) (omega (arith, join, comm))

pub probe_lem : (device : Device) (p : Pic) → IsWired device → (probe device p).0 ≡ true
unfolding probe
probe_lem device p w = ground (arith, get_mask-set_mask device 0x1337 (disable p) w (omega arith))

pub config-mask : (offset1 offset2 : ℕ) (p : Pic) → (config offset1 offset2 p).mask ≡ 0xFFFF
unfolding config set_mask
config-mask offset1 offset2 p = refl

pub unmask_irq-mask :
    (irq : ℕ) (p : Pic) → (unmask_irq irq p).mask ≡ u16 (bit_and p.mask (not32 (1 * 2 ^ irq)))
unfolding unmask_irq set_mask
unmask_irq-mask irq p = refl
