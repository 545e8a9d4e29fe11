-- ===== src/Pic/Examples.antt =====
-- Controllers that hold back everything but the keyboard, and the claims about them.
use splongle_os.Base.{◌≡◌, refl, arith, []}
use splongle_os.Base.Bits.{bit}
use splongle_os.Ports.{Device, last_byte}
use splongle_os.Pic.{Pic, set_mask, mask_irq, unmask_irq, get_mask}
use splongle_os.Pic.Mask.{programmed, mask_irq_lem, unmask_irq_lem, IsWired, get_mask-set_mask}

abbrev keyboard_only : Pic
keyboard_only = record { mask = 0xFFFD; bus = [] }

mask_irq_lem_example :
    let q = mask_irq 1 keyboard_only in (bit 1 q.mask ≡ 1) × (programmed q ≡ q.mask)
mask_irq_lem_example = mask_irq_lem 1 1 keyboard_only (omega arith) (omega arith)

unmask_irq_lem_example :
    let q = unmask_irq 8 keyboard_only in (bit 8 q.mask ≡ 0) × (programmed q ≡ q.mask)
unmask_irq_lem_example = unmask_irq_lem 8 8 keyboard_only (omega arith) (omega arith) (omega arith)

-- A device that remembers the bytes written to its ports.
abbrev latches : Device
latches = λ bus port. last_byte port bus

latches-IsWired : IsWired latches
latches-IsWired = record { first = λ bus. refl; second = λ bus. refl }

get_mask-set_mask_example : (get_mask latches (set_mask 0x1337 keyboard_only)).0 ≡ 0x1337
get_mask-set_mask_example =
    get_mask-set_mask latches 0x1337 keyboard_only latches-IsWired (omega arith)
