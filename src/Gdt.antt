-- ===== src/Gdt.antt =====
-- src/kernel/arch/i686/gdt.c: the entries of the global descriptor table.
pub mod Fields
mod Examples
use splongle_os.Base.{ℕ, bit_and, bit_or, List, [], ◌∷◌, u8, u16, ◌>>◌}

pub record GdtEntry : Type 0 where
  pub segment_limit_low : ℕ
  pub base_low : ℕ
  pub base_middle : ℕ
  pub access : ℕ
  pub flags_limit_hi : ℕ
  pub base_high : ℕ

-- `GDT_ENTRY`, cut to the widths of the fields it initializes.
pub gdt_entry : ℕ → ℕ → ℕ → ℕ → GdtEntry
gdt_entry base limit access flags = record {
  segment_limit_low = u16 (bit_and limit 0xFFFF);
  base_low = u16 (bit_and base 0xFFFF);
  base_middle = u8 (bit_and (base >> 16) 0xFF);
  access = u8 access;
  flags_limit_hi = u8 (bit_or (bit_and (limit >> 16) 0x0F) (bit_and flags 0xF0));
  base_high = u8 (bit_and (base >> 24) 0xFF);
}

-- The null descriptor, the kernel's code and the kernel's data.
abbrev pub g_gdt : List GdtEntry
g_gdt = gdt_entry 0 0 0 0 ∷ gdt_entry 0 0xF_FFFF 0x9A 0xC0 ∷ gdt_entry 0 0xF_FFFF 0x92 0xC0 ∷ []
