-- ===== src/Ata/Transfer/Read.antt =====
-- What `ATA_Read28` prints.
use splongle_os.Base.{
  ℕ, ◌*◌, ◌^◌, ◌≤◌, ◌<◌, ◌≡◌, refl, arith, ◌∙◌, ap, List, ◌∷◌, ◌++◌, map, ◌==◌, Bool-cases, inl,
  inr,
}
use splongle_os.Ports.{Bus, Device, last_byte}
use splongle_os.Ata.{Drive, Disk, Printed, read_command}
use splongle_os.Ata.Trace.{
  table, trace, received, words_read, commands, target, IsWired, IsSelected, select_lem,
  device_to_select_lem,
}
use splongle_os.Ata.Transfer.{device_to_select, start_read, read_words, rounds}
use splongle_os.Ata.Transfer.Words.{character, IsStored, read_words_lem}

-- What the commands for a read tell the disk.
start_read_lem :
    (ports : Device) (a : Drive) (sector : ℕ) (d : Disk)
    → IsWired a
    → IsSelected a d
    → sector < 2 ^ 28
    → let t = start_read ports a sector d in
      (words_read a (trace t.bus) ≡ 0)
      × (commands a (trace t.bus) ≡ read_command ∷ commands a (trace d.bus))
      × (target a (trace t.bus) ≡ sector)
      × IsSelected a t
      × (t.printed ≡ d.printed)
      × (received a (trace t.bus) ≡ received a (trace d.bus))
unfolding start_read
start_read_lem ports a sector d wired selected h =
    let device = device_to_select a sector in
    let told = device_to_select_lem a sector h in
    let selects = select_lem ports a device d told.1 in
    elim (Bool-cases (d.last_device == device)) [
      | inl same ↦
          let whole = rw same at selects.0 in
          let device' : last_byte a.device_port (trace d.bus) ≡ device =
            ground (arith, selected, same) in
          rw whole (
            ground (arith, wired),
            ground (arith, wired),
            ground (arith, wired, device', told.0, h),
            ground (arith, wired, device', selects.1),
            selects.2,
            refl,
          )
      | inr other ↦
          let whole = rw other at selects.0 in
          rw whole (
            ground (arith, wired),
            ground (arith, wired),
            ground (arith, wired, told.0, h),
            ground (arith, wired, selects.1),
            selects.2,
            refl,
          )
    ]

-- Up to the poll behind the last word, `ATA_Read28` prints the first `count` bytes that the disk
-- has stored, having named the sector and sent the command to read once.
pub read_sector_lem :
    (ports : Device) (sector count : ℕ) (f : ℕ → ℕ) (a : Drive) (d : Disk) (bus : Bus)
    → IsWired a
    → IsSelected a d
    → sector < 2 ^ 28
    → count ≤ 512
    → ((k : ℕ) → f k < 2 ^ 8)
    → IsStored ports a (received a (trace d.bus)) f
    → trace bus ≡ trace (start_read ports a sector d).bus
    → let begun = start_read ports a sector d in
      let t = read_words ports a count (rounds a) 0 (record begun { bus = bus }) in
      (t.printed ≡ d.printed ++ map character (table count 0 f))
      × (commands a (trace t.bus) ≡ read_command ∷ commands a (trace d.bus))
      × (target a (trace t.bus) ≡ sector)
read_sector_lem ports sector count f a d bus wired selected h c bytes stored same =
    let begun = start_read ports a sector d in
    let started = start_read_lem ports a sector d wired selected h in
    let ready : Disk = record begun { bus = bus } in
    let enough : count ≤ rounds a * 2 = omega (arith, wired.7, c) in
    let none' : words_read a (trace ready.bus) ≡ 0 =
      ap (λ (log : Bus). words_read a log) same ∙ started.0 in
    let kept = ap (λ (log : Bus). received a log) same ∙ started.5 in
    let words =
      read_words_lem ports a f bytes (received a (trace d.bus)) stored count (rounds a) count 0 0
        ready (omega arith) (omega arith) enough none' kept in
    (
      words.0 ∙ ap (λ (xs : List Printed). xs ++ map character (table count 0 f)) started.4,
      words.1 ∙ (ap (λ (log : Bus). commands a log) same ∙ started.1),
      words.2 ∙ (ap (λ (log : Bus). target a log) same ∙ started.2),
    )
