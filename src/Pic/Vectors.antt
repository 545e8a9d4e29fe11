-- ===== src/Pic/Vectors.antt =====
-- What the controllers make of the words they are sent: the vector that each line raises.
use splongle_os.Base.{
  ℕ, ◌+◌, ◌-◌, ◌*◌, ◌/◌, ◌%◌, ◌<◌, ◌≡◌, refl, arith, List, [], ◌∷◌, ltb, ◌==◌, ◌&&◌, if◌then◌else◌,
}
use splongle_os.Ports.{Bus, wrote8, read8, wrote16, read16, wrote32, read32, set_interrupts}
use splongle_os.Pic.{Pic, set_mask, unmask_irq, config}

-- A data word of the initialisation goes behind those before it; once there are four, or if none
-- was begun, it is a mask.
abbrev pub continued : ℕ → List ℕ → List ℕ
continued v (first ∷ []) = first ∷ v ∷ []
continued v (first ∷ base ∷ []) = first ∷ base ∷ v ∷ []
continued v (first ∷ base ∷ cascade ∷ []) = first ∷ base ∷ cascade ∷ v ∷ []
continued v words = words

-- The initialisation words of an 8259 with these two ports: the last command with bit 4 set
-- begins them, and the three data words behind it follow.
abbrev pub words : ℕ → ℕ → Bus → List ℕ
words command port [] = []
words command port (wrote8 p v ∷ bus) =
    let rest = words command port bus in
    if (p == command) && (v / 16 % 2 == 1)
    then v ∷ []
    else if p == port
    then continued v rest
    else rest
words command port (read8 p v ∷ bus) = words command port bus
words command port (wrote16 p v ∷ bus) = words command port bus
words command port (read16 p v ∷ bus) = words command port bus
words command port (wrote32 p v ∷ bus) = words command port bus
words command port (read32 p v ∷ bus) = words command port bus
words command port (set_interrupts v ∷ bus) = words command port bus

-- The vector of a controller's line 0: the second word, without its three lowest bits; 0 for a
-- controller that was sent none.
abbrev pub base : List ℕ → ℕ
base (first ∷ offset ∷ more) = offset / 8 * 8
base words = 0

-- The vector that one of the sixteen lines raises.
abbrev pub vector : ℕ → Bus → ℕ
vector line bus =
    if ltb line 8
    then base (words 0x20 0x21 bus) + line
    else base (words 0xA0 0xA1 bus) + (line - 8)

-- Both are cascaded, in the mode of the 8086, with the second at line 2 of the first.
pub record IsRemapped (bus : Bus) : Type 0 where
  pub first : words 0x20 0x21 bus ≡ 0x11 ∷ 32 ∷ 4 ∷ 3 ∷ []
  pub second : words 0xA0 0xA1 bus ≡ 0x11 ∷ 40 ∷ 2 ∷ 3 ∷ []

pub config-IsRemapped : (p : Pic) → IsRemapped (config 32 40 p).bus
unfolding config set_mask
config-IsRemapped p = record { first = refl; second = refl }

-- A mask is no word of the initialisation.
pub unmask_irq-IsRemapped :
    (irq : ℕ) (p : Pic) → IsRemapped p.bus → IsRemapped (unmask_irq irq p).bus
unfolding unmask_irq set_mask
unmask_irq-IsRemapped irq p r = record { first = rw (r.first) refl; second = rw (r.second) refl }

pub vector_lem : (line : ℕ) (bus : Bus) → IsRemapped bus → line < 16 → vector line bus ≡ 32 + line
vector_lem line bus r h = rw (r.first, r.second) (ground arith)
