-- ===== src/Paging/Entries.antt =====
-- The fields of addresses and entries as arithmetic.
use splongle_os.Base.{ℕ, ◌+◌, ◌-◌, ◌*◌, ◌/◌, ◌%◌, ◌^◌, ◌<◌, ◌≡◌, arith, bit_and, bit_or}
use splongle_os.Base.Bits.{
  bit_and-low, bit_and-high, bit_or-shifted, bit_or_comm, bit_or_step, bit_or-zero,
}
use splongle_os.Paging.{pd_index, pt_index, page_phys_addr, set_attr, clear_attr, set_frame}

pub pd_index_lem : (virt : ℕ) → virt < 2 ^ 32 → pd_index virt ≡ virt / 2 ^ 22
unfolding pd_index
pd_index_lem virt h = omega (arith, bit_and-low 10 (virt / 2 ^ 22))

pub pt_index_lem : (virt : ℕ) → pt_index virt ≡ virt / 4096 % 1024
unfolding pt_index
pt_index_lem virt = bit_and-low 10 (virt / 4096)

pub page_phys_addr_lem : (e : ℕ) → e < 2 ^ 32 → page_phys_addr e ≡ e / 4096 * 4096
unfolding page_phys_addr
page_phys_addr_lem e h =
    let split : e / 4096 * 4096 + e % 4096 ≡ e = omega arith in
    let high = bit_and-high 12 (e / 4096) (e % 4096) (2 ^ 20 - 1) (omega arith) in
    let low = bit_and-low 20 (e / 4096) in
    let high' : bit_and e 0xFFFF_F000 ≡ bit_and (e / 4096) (2 ^ 20 - 1) * 4096 = rw split at high in
    omega (arith, high', low)

-- `SET_FRAME` keeps the flags and puts in the frame, if the address is that of a page.
pub set_frame_lem :
    (e frame : ℕ) → frame < 2 ^ 32 → frame % 4096 ≡ 0 → set_frame e frame ≡ frame + e % 4096
unfolding set_frame
set_frame_lem e frame h k =
    let low = bit_and-low 12 e in
    let whole : frame / 4096 * 4096 ≡ frame = omega arith in
    let join = bit_or-shifted 12 (frame / 4096) (e % 4096) (omega arith) in
    let join' : bit_or frame (e % 4096) ≡ frame + e % 4096 = rw whole at join in
    rw low (omega (arith, bit_or_comm 32 (e % 4096) frame (omega arith) h, join'))

pub set_present : (e : ℕ) → set_attr e 1 ≡ e / 2 * 2 + 1
unfolding set_attr
set_present e = omega (arith, bit_or_step e 1, bit_or-zero (e / 2))

pub set_present_write : (e : ℕ) → set_attr e 3 ≡ e / 4 * 4 + 3
unfolding set_attr
set_present_write e = omega (arith, bit_or_step e 3, bit_or_step (e / 2) 1, bit_or-zero (e / 2 / 2))

pub clear_present : (e : ℕ) → e < 2 ^ 32 → clear_attr e 1 ≡ e / 2 * 2
unfolding clear_attr
clear_present e h =
    let split : e / 2 * 2 + e % 2 ≡ e = omega arith in
    let high = bit_and-high 1 (e / 2) (e % 2) (2 ^ 31 - 1) (omega arith) in
    let high' : bit_and e 0xFFFF_FFFE ≡ bit_and (e / 2) (2 ^ 31 - 1) * 2 = rw split at high in
    omega (arith, high', bit_and-low 31 (e / 2))

pub present_bit : (e : ℕ) → bit_and e 1 ≡ e % 2
present_bit e = bit_and-low 1 e
