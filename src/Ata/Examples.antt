-- ===== src/Ata/Examples.antt =====
-- The first disk, with answers that are ready at once, that report an error, or that end.
use splongle_os.Base.{
  codes, not, get_or, all_below, ℕ, ◌+◌, ◌*◌, ◌%◌, ◌^◌, ◌≡◌, refl, arith, true, none, some, inl,
  inr, ◌||◌, Bool-cases, [], ◌∷◌, ◌++◌, map, ◌==◌, if◌then◌else◌,
}
use splongle_os.Ports.{Device}
use splongle_os.Ata.{printk, Drive, Disk}
use splongle_os.Ata.Trace.{trace, words_read}
use splongle_os.Ata.Poll.{IsServing}
use splongle_os.Ata.Transfer.{write28, read28}
use splongle_os.Ata.Transfer.Words.{character, IsStored}
use splongle_os.Ata.Identify.{trim, identify}
use splongle_os.Ata.Identify.Model.{trim_lem}
use splongle_os.Ata.Identify.Report.{swapped, identify_lem}
use splongle_os.Ata.Transfer.Finish.{words_written, finish-none}
use splongle_os.Ata.Transfer.Stuck.{transfer-none}

-- What `ATA_Init(0x1F0)` gives.
abbrev first : Drive
first = record {
  data_port = 0x1F0;
  error_port = 0x1F1;
  sector_count_port = 0x1F2;
  lba_low_port = 0x1F3;
  lba_mid_port = 0x1F4;
  lba_high_port = 0x1F5;
  device_port = 0x1F6;
  command_port = 0x1F7;
  control_port = 0x3F6;
  master = true;
  initialized = true;
  bytes_per_sector = 512;
}

abbrev fresh : Disk
fresh = record { int14_on = true; int15_on = true; last_device = 0; printed = []; bus = [] }

-- The bytes of a sector: their own offsets.
abbrev offset_byte : ℕ → ℕ
offset_byte k = k % 256

-- Ready whenever it is asked.
abbrev prompt : Device
prompt = λ bus port.
    if port == 0x1F7
    then 0x08
    else if not (port == 0x1F0)
    then 0
    else offset_byte (words_read first (trace bus) * 2)
      + 2 ^ 8 * offset_byte (words_read first (trace bus) * 2 + 1)

prompt-IsServing : IsServing prompt 0x1F7 (λ bus. 0) 0
prompt-IsServing = (λ bus. omega arith, λ bus e. refl, λ bus e. omega arith, λ bus v. refl)

prompt-IsStored : IsStored prompt first [] offset_byte
prompt-IsStored bus keeps = omega arith

identify_lem_example :
    (t : Disk) × (identify prompt 2 first fresh ≡ some t)
    × (t.printed
        ≡ printk (codes "Model: ") []
          ∷ (map character (trim 40 (swapped 20 27 offset_byte)) ++ printk (codes "\n") [] ∷ []))
identify_lem_example =
    identify_lem prompt (λ bus. 0) 0 1 offset_byte first fresh prompt-IsServing
      (λ bus. (refl, omega arith, omega arith)) (λ bus. (refl, refl)) (omega arith)
      (λ k. omega arith) prompt-IsStored

-- The spaces at the end alone.
trim_lem_example : get_or (trim 4 (b'A' ∷ b' ' ∷ b' ' ∷ b' ' ∷ [])) 1 0 ≡ 0
unfolding all_below
trim_lem_example = trim_lem 4 3 1 (b'A' ∷ b' ' ∷ b' ' ∷ b' ' ∷ []) refl (omega arith)

-- A disk that reports an error at each poll.
abbrev failing : Device
failing = λ bus port. 0x01

transfer-none_example :
    (read28 failing 100 10 9 first fresh ≡ none)
    × (write28 failing 100 10 (λ k. 7) 9 first fresh ≡ none)
transfer-none_example =
    transfer-none failing 100 10 (λ k. 7) 9 first fresh (λ bus. refl) (omega arith) (omega arith)

-- A disk that asks for data until the words of a sector have gone over, and for none behind them.
abbrev documented : Device
documented = λ bus port.
    if (words_written first (trace bus) == 256) || (words_read first (trace bus) == 256)
    then 0x50
    else 0x58

finish-none_example :
    (read28 documented 100 10 9 first fresh ≡ none)
    × (write28 documented 100 10 (λ k. 7) 9 first fresh ≡ none)
finish-none_example =
    finish-none documented 100 10 (λ k. 7) 9 first fresh refl
      (λ bus h. elim h [
        | inl e ↦ rw e (refl, refl)
        | inr e ↦
            let rest = words_written first (trace bus) == 256 in
            rw e (elim (Bool-cases rest) [ inl f ↦ rw f (refl, refl) | inr f ↦ rw f (refl, refl) ])
      ])
      (omega arith) (omega arith)
