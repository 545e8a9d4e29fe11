-- ===== src/Gdt/Examples.antt =====
-- The code segment of the kernel.
use splongle_os.Base.{◌≡◌, arith}
use splongle_os.Gdt.{gdt_entry}
use splongle_os.Gdt.Fields.{base_of, limit_of, flags_of, gdt_entry_lem}

gdt_entry_lem_example :
    let e = gdt_entry 0x1234_5678 0xF_FFFF 0x9A 0xC0 in
    (base_of e ≡ 0x1234_5678) × (limit_of e ≡ 0xF_FFFF) × (e.access ≡ 0x9A) × (flags_of e ≡ 12)
gdt_entry_lem_example =
    gdt_entry_lem 0x1234_5678 0xF_FFFF 0x9A 0xC0 (omega arith) (omega arith) (omega arith)
      (omega arith)
