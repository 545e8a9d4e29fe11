-- ===== src/Ata/Transfer/Finish.antt =====
-- The polls behind the last word of a sector.
use splongle_os.Base.{
  ℕ, zero, suc, ◌+◌, ◌^◌, ◌≤◌, ◌<◌, ◌≡◌, ◌⊎◌, refl, arith, ◌∙◌, ap, bit_and, true, false, inl, inr,
  none, [], ◌∷◌, ltb, ◌==◌, if◌then◌else◌, u8, u16,
}
use splongle_os.Ports.{
  Bus, Device, wrote8, read8, wrote16, read16, wrote32, read32, set_interrupts, outb,
}
use splongle_os.Ata.{Drive, Disk, max_addressable_space, unless_error, write_command, delay, select}
use splongle_os.Ata.Trace.{trace, read_times_lem, words_read}
use splongle_os.Ata.Transfer.Idle.{poll_ignoring-cases, poll_ignoring-idle, poll-idle}
use splongle_os.Ata.Transfer.{
  device_to_select, send_lba, start_write, start_read, send_words, wdata, read_words, print_word,
  rounds, read28, write28,
}

-- The words that were sent since the last command.
abbrev pub words_written : Drive → Bus → ℕ
words_written a [] = 0
words_written a (wrote16 p v ∷ bus) =
    let rest = words_written a bus in if p == a.data_port then rest + 1 else rest
words_written a (wrote8 p v ∷ bus) =
    let rest = words_written a bus in if p == a.command_port then 0 else rest
words_written a (read8 p v ∷ bus) = words_written a bus
words_written a (read16 p v ∷ bus) = words_written a bus
words_written a (wrote32 p v ∷ bus) = words_written a bus
words_written a (read32 p v ∷ bus) = words_written a bus
words_written a (set_interrupts v ∷ bus) = words_written a bus

-- The commands for a write end with the command.
start_write-words :
    (ports : Device) (a : Drive) (sector : ℕ) (d : Disk)
    → words_written a (trace (start_write ports a sector d).bus) ≡ 0
unfolding start_write
start_write-words ports a sector d =
    let t = select ports a (device_to_select a sector) d in
    let sent : Bus =
      outb a.command_port write_command
        (send_lba a sector (outb a.sector_count_port 1 (outb a.error_port 0 t.bus))) in
    let same : (a.command_port == a.command_port) ≡ true = ground arith in
    rw (read_times_lem ports a.control_port 15 sent, same) refl

start_read-words :
    (ports : Device) (a : Drive) (sector : ℕ) (d : Disk)
    → words_read a (trace (start_read ports a sector d).bus) ≡ 0
unfolding start_read
start_read-words ports a sector d =
    let same : (a.command_port == a.command_port) ≡ true = ground arith in rw same refl

send_words-words :
    (a : Drive) (buffer : ℕ → ℕ) (count n i : ℕ) (bus : Bus)
    → words_written a (trace (send_words a buffer count n i bus)) ≡ n + words_written a (trace bus)
unfolding send_words
send_words-words a buffer count zero i bus = omega arith
send_words-words a buffer count (suc n) i bus =
    let rest =
      send_words-words a buffer count n (i + 2)
        (wrote16 a.data_port (u16 (wdata buffer count i)) ∷ bus) in
    let same : (a.data_port == a.data_port) ≡ true = ground arith in
    let rest' = rw same at rest in omega (arith, rest')

print_word-bus : (rdata count i : ℕ) (d : Disk) → (print_word rdata count i d).bus ≡ d.bus
unfolding print_word
print_word-bus rdata count i d = ground arith

read_words-words :
    (ports : Device) (a : Drive) (count n i : ℕ) (d : Disk)
    → words_read a (trace (read_words ports a count n i d).bus) ≡ n + words_read a (trace d.bus)
unfolding read_words print_word
read_words-words ports a count zero i d = omega arith
read_words-words ports a count (suc n) i d =
    let rdata = u16 (ports d.bus a.data_port) in
    let read : Disk = record d { bus = read16 a.data_port rdata ∷ d.bus } in
    let rest = read_words-words ports a count n (i + 2) (print_word rdata count i read) in
    let same : (a.data_port == a.data_port) ≡ true = ground arith in
    let rest' = rw (print_word-bus rdata count i read, same) at rest in omega (arith, rest')

module _ (ports : Device) (a : Drive) (whole : a.bytes_per_sector ≡ 512)
    (done : (bus : Bus)
      → (words_written a (trace bus) ≡ 256) ⊎ (words_read a (trace bus) ≡ 256)
      → (bit_and (u8 (ports bus a.command_port)) 0x08 ≡ 0)
        × (bit_and (u8 (ports bus a.command_port)) 0x01 ≡ 0)) where
  write28-stalls :
      (fuel sector : ℕ) (buffer : ℕ → ℕ) (count : ℕ) (d : Disk)
      → sector < 2 ^ 28
      → count ≤ 512
      → write28 ports fuel sector buffer count a d ≡ none
  unfolding write28 unless_error
  write28-stalls fuel sector buffer count d h c =
      let begun = start_write ports a sector d in
      let fits : ltb max_addressable_space sector ≡ false = ground (arith, h) in
      let fits' : ltb a.bytes_per_sector count ≡ false = ground (arith, c, whole) in
      elim (poll_ignoring-cases ports a.command_port fuel begun.bus) [
        | inl e ↦ rw (fits, fits', e) refl
        | inr (b1, e, same) ↦
            let words = send_words a buffer count (rounds a) 0 b1 in
            let sent = delay ports a.control_port words in
            let log = read_times_lem ports a.control_port 15 words in
            let before : words_written a (trace b1) ≡ 0 =
              ap (λ (x : Bus). words_written a x) same ∙ start_write-words ports a sector d in
            let full : words_written a (trace sent) ≡ 256 =
              ap (λ (x : Bus). words_written a x) log
              ∙ (send_words-words a buffer count (rounds a) 0 b1 ∙ omega (arith, whole, before)) in
            let idle =
              poll_ignoring-idle ports a.command_port (trace sent)
                (λ bus f. (done bus (inl (ap (λ (x : Bus). words_written a x) f ∙ full))).0) fuel
                sent refl in
            rw (fits, fits', e) (rw idle refl)
      ]

  read28-stalls :
      (fuel sector count : ℕ) (d : Disk)
      → sector < 2 ^ 28
      → count ≤ 512
      → read28 ports fuel sector count a d ≡ none
  unfolding read28 unless_error
  read28-stalls fuel sector count d h c =
      let begun = start_read ports a sector d in
      let fits : ltb max_addressable_space sector ≡ false = ground (arith, h) in
      let fits' : ltb a.bytes_per_sector count ≡ false = ground (arith, c, whole) in
      elim (poll_ignoring-cases ports a.command_port fuel begun.bus) [
        | inl e ↦ rw (fits, fits', e) refl
        | inr (b1, e, same) ↦
            let ready : Disk = record begun { bus = b1 } in
            let t = read_words ports a count (rounds a) 0 ready in
            let read = delay ports a.control_port t.bus in
            let log = read_times_lem ports a.control_port 15 t.bus in
            let before : words_read a (trace b1) ≡ 0 =
              ap (λ (x : Bus). words_read a x) same ∙ start_read-words ports a sector d in
            let full : words_read a (trace read) ≡ 256 =
              ap (λ (x : Bus). words_read a x) log
              ∙ (read_words-words ports a count (rounds a) 0 ready
                  ∙ omega (arith, whole, before)) in
            let idle =
              poll-idle ports a.command_port (trace read)
                (λ bus f. done bus (inr (ap (λ (x : Bus). words_read a x) f ∙ full))) fuel read
                refl in
            rw (fits, fits', e) (rw idle refl)
      ]

-- From a disk that asks for no more data and reports no error once the 256 words of a sector have
-- gone over since the last command, neither `ATA_Write28` nor `ATA_Read28` of a sector of 28 bits
-- and at most 512 bytes returns, with whatever fuel, on a drive with sectors of 512 bytes: the
-- poll behind the last word waits for data.
pub finish-none :
    (ports : Device) (fuel sector : ℕ) (buffer : ℕ → ℕ) (count : ℕ) (a : Drive) (d : Disk)
    → a.bytes_per_sector ≡ 512
    → ((bus : Bus)
        → (words_written a (trace bus) ≡ 256) ⊎ (words_read a (trace bus) ≡ 256)
        → (bit_and (u8 (ports bus a.command_port)) 0x08 ≡ 0)
          × (bit_and (u8 (ports bus a.command_port)) 0x01 ≡ 0))
    → sector < 2 ^ 28
    → count ≤ 512
    → (read28 ports fuel sector count a d ≡ none)
      × (write28 ports fuel sector buffer count a d ≡ none)
finish-none ports fuel sector buffer count a d whole done h c = (
  read28-stalls ports a whole done fuel sector count d h c,
  write28-stalls ports a whole done fuel sector buffer count d h c,
)
