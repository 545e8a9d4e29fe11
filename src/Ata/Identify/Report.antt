-- ===== src/Ata/Identify/Report.antt =====
-- What `ATA_Identify` prints of a disk that is there.
use splongle_os.Base.{
  codes, ℕ, zero, suc, ◌+◌, ◌*◌, ◌/◌, ◌^◌, ◌<◌, ◌≡◌, ◌≢◌, refl, arith, ◌∙◌, sym, ap, bit_and, true,
  false, Bool-cases, inl, inr, some, List, [], ◌∷◌, ◌++◌, map, append_assoc, append-nil, ◌==◌,
  if◌then◌else◌, u8, u16,
}
use splongle_os.Base.Bits.{bit_and-low}
use splongle_os.Ports.{Bus, Device, read8, read16, outb}
use splongle_os.Ata.{Drive, Disk, Printed, printk, identify_command, select, poll_busy, poll_drq}
use splongle_os.Ata.Trace.{trace, words_read, received, select_lem}
use splongle_os.Ata.Poll.{IsServing, poll_busy_lem, poll_drq_lem}
use splongle_os.Ata.Identify.{
  skip_words, read_model, trim, print_chars, print_model, await_model, identify,
}
use splongle_os.Ata.Transfer.Words.{character, IsStored}

-- The bytes of `n` words from the word `k` on, the high byte of each first.
abbrev pub swapped : ℕ → ℕ → (ℕ → ℕ) → List ℕ
swapped zero k f = []
swapped (suc n) k f = f (k * 2 + 1) ∷ f (k * 2) ∷ swapped n (k + 1) f

print_chars_lem :
    (cs : List ℕ) (d : Disk) → (print_chars cs d).printed ≡ d.printed ++ map character cs
unfolding print_chars
print_chars_lem [] d = sym (append-nil d.printed)
print_chars_lem (c ∷ cs) d =
    print_chars_lem cs _ ∙ append_assoc d.printed (character c ∷ []) (map character cs)

module _ (ports : Device) (a : Drive) (f : ℕ → ℕ) (bytes : (k : ℕ) → f k < 2 ^ 8) (kept : List ℕ)
    (stored : IsStored ports a kept f) where
  skip_words_lem :
      (n k : ℕ) (bus : Bus)
      → words_read a (trace bus) ≡ k
      → let t = skip_words ports a.data_port n bus in
        (words_read a (trace t) ≡ k + n) × (received a (trace t) ≡ received a (trace bus))
  unfolding skip_words
  skip_words_lem zero k bus w = (omega (arith, w), refl)
  skip_words_lem (suc n) k bus w =
      let same : (a.data_port == a.data_port) ≡ true = ground arith in
      let after : Bus = read16 a.data_port (u16 (ports bus a.data_port)) ∷ bus in
      let rest = skip_words_lem n (k + 1) after (rw same (omega (arith, w))) in
      (rest.0 ∙ omega arith, rest.1)

  read_model_lem :
      (n k : ℕ) (bus : Bus)
      → words_read a (trace bus) ≡ k
      → received a (trace bus) ≡ kept
      → (read_model ports a.data_port n bus).0 ≡ swapped n k f
  unfolding read_model
  read_model_lem zero k bus w keeps = refl
  read_model_lem (suc n) k bus w keeps =
      let same : (a.data_port == a.data_port) ≡ true = ground arith in
      let word = u16 (ports bus a.data_port) in
      let rest =
        read_model_lem n (k + 1) (read16 a.data_port word ∷ bus) (rw same (omega (arith, w)))
          keeps in
      let content : word ≡ f (k * 2) + 2 ^ 8 * f (k * 2 + 1) =
        stored bus keeps ∙ ap (λ (j : ℕ). f (j * 2) + 2 ^ 8 * f (j * 2 + 1)) w in
      let low : bit_and word 0xFF ≡ f (k * 2) =
        omega (arith, bit_and-low 8 word, content, bytes (k * 2)) in
      let high : bit_and (word / 2 ^ 8) 0xFF ≡ f (k * 2 + 1) =
        omega (arith, bit_and-low 8 (word / 2 ^ 8), content, bytes (k * 2), bytes (k * 2 + 1)) in
      rw (high, low, rest) refl

  print_model_lem :
      (d : Disk)
      → words_read a (trace d.bus) ≡ 0
      → received a (trace d.bus) ≡ kept
      → (print_model ports a d).printed
        ≡ d.printed
          ++ printk (codes "Model: ") []
            ∷ (map character (trim 40 (swapped 20 27 f)) ++ printk (codes "\n") [] ∷ [])
  unfolding print_model
  print_model_lem d w keeps =
      let skipped = skip_words_lem 27 0 d.bus w in
      let model =
        read_model_lem 20 27 (skip_words ports a.data_port 27 d.bus) skipped.0
          (skipped.1 ∙ keeps) in
      let say = printk (codes "Model: ") [] in
      let end = printk (codes "\n") [] ∷ [] in
      let (cs, after) = read_model ports a.data_port 20 (skip_words ports a.data_port 27 d.bus) in
      let start : Disk = record d { bus = after; printed = d.printed ++ say ∷ [] } in
      ap (λ (ps : List Printed). ps ++ end) (print_chars_lem (trim 40 cs) start)
      ∙ append_assoc (d.printed ++ say ∷ []) (map character (trim 40 cs)) end
      ∙ append_assoc d.printed (say ∷ []) (map character (trim 40 cs) ++ end)
      ∙ ap (λ (xs : List ℕ). d.printed ++ say ∷ (map character (trim 40 xs) ++ end)) model

-- Both loops, from a status that was read some accesses before.
polls_lem :
    (ports : Device) (port : ℕ) (wait : Bus → ℕ) (n fuel status : ℕ) (bus : Bus)
    → IsServing ports port wait n
    → ((b : Bus) → bit_and (u8 (ports b port)) 0x01 ≡ 0)
    → bit_and status 0x01 ≡ 0
    → n < fuel
    → (r : ℕ × Bus) × (later : Bus) × (poll_busy ports port (suc fuel) status bus ≡ some r)
      × (poll_drq ports port (suc fuel) r.0 r.1 ≡ some (true, later))
      × (trace later ≡ trace bus)
unfolding poll_busy poll_drq
polls_lem ports port wait n fuel status bus serving fine now h =
    elim (Bool-cases (bit_and status 0x80 == 0)) [
      | inr busy ↦
          let b =
            poll_busy_lem ports port wait n serving fuel bus (omega (arith, serving.0 bus, h)) in
          let r =
            poll_drq_lem ports port wait n serving (suc fuel) b.0 (omega (arith, serving.0 b.0, h))
              fine in
          (
            (u8 (ports b.0 port), read8 port (u8 (ports b.0 port)) ∷ b.0),
            r.0,
            rw busy b.1,
            r.1,
            r.2 ∙ b.2,
          )
      | inl idle ↦ elim (Bool-cases (bit_and status 0x08 == 0)) [
        | inr data' ↦ ((status, bus), bus, rw idle refl, rw data' refl, refl)
        | inl more ↦
            let r =
              poll_drq_lem ports port wait n serving fuel bus (omega (arith, serving.0 bus, h))
                fine in
            ((status, bus), r.0, rw idle refl, rw (more, now) r.1, r.2)
      ]
    ]

await_model_lem :
    (ports : Device) (wait : Bus → ℕ) (n fuel status : ℕ) (a : Drive) (d : Disk)
    → IsServing ports a.command_port wait n
    → ((b : Bus) → bit_and (u8 (ports b a.command_port)) 0x01 ≡ 0)
    → bit_and status 0x01 ≡ 0
    → n < fuel
    → (later : Bus) × (await_model ports (suc fuel) a status d
        ≡ some (print_model ports a (record d { bus = later })))
      × (trace later ≡ trace d.bus)
unfolding await_model
await_model_lem ports wait n fuel status a d serving fine now h =
    let p = polls_lem ports a.command_port wait n fuel status d.bus serving fine now h in
    (p.1, rw (p.2, await_model) (rw p.3 refl), p.4)

-- `ATA_Identify` of a disk that is not a CD drive, serves each poll within `n` reads of its
-- status, reports no error and shows no status of only zeros or only ones, with fuel above `n +
-- 1`, returns: it prints the 40 characters in the words 27 to 46 of what the disk tells, the high
-- byte of each first, with the end trimmed.
pub identify_lem :
    (ports : Device) (wait : Bus → ℕ) (n fuel : ℕ) (f : ℕ → ℕ) (a : Drive) (d : Disk)
    → IsServing ports a.command_port wait n
    → ((bus : Bus)
        → (bit_and (u8 (ports bus a.command_port)) 0x01 ≡ 0)
          × (u8 (ports bus a.command_port) ≢ 0)
          × (u8 (ports bus a.command_port) ≢ 0xFF))
    → ((bus : Bus) → (u8 (ports bus a.lba_mid_port) ≡ 0) × (u8 (ports bus a.lba_high_port) ≡ 0))
    → n < fuel
    → ((k : ℕ) → f k < 2 ^ 8)
    → IsStored ports a (received a (trace d.bus)) f
    → (t : Disk) × (identify ports (suc fuel) a d ≡ some t)
      × (t.printed
          ≡ d.printed
            ++ printk (codes "Model: ") []
              ∷ (map character (trim 40 (swapped 20 27 f)) ++ printk (codes "\n") [] ∷ []))
unfolding identify
identify_lem ports wait n fuel f a d serving status disk h bytes stored =
    let selected = select ports a (if a.master then 0xA0 else 0xB0) d in
    let small : (if a.master then 0xA0 else 0xB0) < 2 ^ 8 = ground arith in
    let selects = select_lem ports a (if a.master then 0xA0 else 0xB0) d small in
    let port = a.command_port in
    let c0 = outb a.control_port 0 selected.bus in
    let b1 : Bus = read8 port (u8 (ports c0 port)) ∷ c0 in
    let cleared =
      outb a.lba_high_port 0
        (outb a.lba_mid_port 0 (outb a.lba_low_port 0 (outb a.sector_count_port 0 b1))) in
    let c2 = outb port identify_command cleared in
    let b2 : Bus = read8 port (u8 (ports c2 port)) ∷ c2 in
    let b3 : Bus = read8 a.lba_mid_port (u8 (ports b2 a.lba_mid_port)) ∷ b2 in
    let b4 : Bus = read8 a.lba_high_port (u8 (ports b3 a.lba_high_port)) ∷ b3 in
    let found : (u8 (ports c0 port) == 0xFF) ≡ false = ground (arith, status c0) in
    let drive : (u8 (ports c2 port) == 0) ≡ false = ground (arith, status c2) in
    let mid : (u8 (ports b2 a.lba_mid_port) == 0) ≡ true = ground (arith, disk b2) in
    let high : (u8 (ports b3 a.lba_high_port) == 0) ≡ true = ground (arith, disk b3) in
    let w =
      await_model_lem ports wait n fuel (u8 (ports c2 port)) a (record selected { bus = b4 })
        serving (λ b. (status b).0) (status c2).0 h in
    let same : (port == port) ≡ true = ground arith in
    let none' : words_read a (trace b4) ≡ 0 = rw same refl in
    let kept : received a (trace selected.bus) ≡ received a (trace d.bus) =
      ap (λ (log : Bus). received a log) selects.0 ∙ ground arith in
    (
      print_model ports a (record selected { bus = w.0 }),
      rw (found, drive, mid, high) w.1,
      print_model_lem ports a f bytes (received a (trace d.bus)) stored
            (record selected { bus = w.0 }) (ap (λ (log : Bus). words_read a log) w.2 ∙ none')
            (ap (λ (log : Bus). received a log) w.2 ∙ kept)
          ∙ ap
              (λ (ps : List Printed).
                ps
                ++ printk (codes "Model: ") []
                  ∷ (map character (trim 40 (swapped 20 27 f)) ++ printk (codes "\n") [] ∷ []))
              selects.2,
    )
