-- ===== src/Ata/Transfer/Words.antt =====
-- The words that `ATA_Read28` takes from the data port, and what it prints of them.
use splongle_os.Base.{
  codes, ℕ, zero, suc, ◌+◌, ◌-◌, ◌*◌, ◌/◌, ◌^◌, ◌≤◌, ◌<◌, ◌≡◌, refl, arith, ◌∙◌, sym, ap, bit_and,
  true, false, List, [], ◌∷◌, ◌++◌, map, append_assoc, append-nil, ltb, ◌==◌, u16,
}
use splongle_os.Base.Bits.{bit_and-low}
use splongle_os.Ports.{Bus, Device, read16, last_byte}
use splongle_os.Ata.{Drive, Disk, Printed, printk}
use splongle_os.Ata.Trace.{table, trace, received, words_read, commands, target}
use splongle_os.Ata.Transfer.{print_word, read_words}

-- The call that prints one byte.
abbrev pub character : ℕ → Printed
character c = printk (codes "%c") (c ∷ [])

-- After a command, the words of the data port are those of the bytes `f`, as long as the disk has
-- received the bytes `kept` and no others.
abbrev pub IsStored : Device → Drive → List ℕ → (ℕ → ℕ) → Type 0
IsStored ports a kept f =
    (bus : Bus)
    → received a (trace bus) ≡ kept
    → u16 (ports bus a.data_port)
      ≡ f (words_read a (trace bus) * 2) + 2 ^ 8 * f (words_read a (trace bus) * 2 + 1)

module _ (ports : Device) (a : Drive) (f : ℕ → ℕ) (bytes : (k : ℕ) → f k < 2 ^ 8) (kept : List ℕ)
    (stored : IsStored ports a kept f) (count : ℕ) where
  word_lem :
      (k i : ℕ) (bus : Bus)
      → i ≡ k * 2
      → words_read a (trace bus) ≡ k
      → received a (trace bus) ≡ kept
      → (bit_and (u16 (ports bus a.data_port)) 0xFF ≡ f i)
        × (bit_and (u16 (ports bus a.data_port) / 2 ^ 8) 0xFF ≡ f (i + 1))
  word_lem k i bus e w keeps =
      let word : u16 (ports bus a.data_port) ≡ f i + 2 ^ 8 * f (i + 1) =
        stored bus keeps
        ∙ ap (λ (j : ℕ). f j + 2 ^ 8 * f (j + 1)) (ap (λ (j : ℕ). j * 2) w ∙ sym e) in
      (
        omega (arith, bit_and-low 8 (u16 (ports bus a.data_port)), word, bytes i),
        omega (
          arith,
          bit_and-low 8 (u16 (ports bus a.data_port) / 2 ^ 8),
          word,
          bytes i,
          bytes (i + 1),
        ),
      )

  counted :
      (k : ℕ) (bus : Bus)
      → words_read a (trace bus) ≡ k
      → words_read a (trace (read16 a.data_port (u16 (ports bus a.data_port)) ∷ bus)) ≡ k + 1
  counted k bus w =
      let same : (a.data_port == a.data_port) ≡ true = ground arith in rw same (omega (arith, w))

  -- The bytes of the words from `k` on, `m` of which are to be printed.
  pub read_words_lem :
      (n m k i : ℕ) (d : Disk)
      → i ≡ k * 2
      → m ≡ count - i
      → m ≤ n * 2
      → words_read a (trace d.bus) ≡ k
      → received a (trace d.bus) ≡ kept
      → let t = read_words ports a count n i d in
        (t.printed ≡ d.printed ++ map character (table m i f))
        × (commands a (trace t.bus) ≡ commands a (trace d.bus))
        × (target a (trace t.bus) ≡ target a (trace d.bus))
        × (last_byte a.device_port (trace t.bus) ≡ last_byte a.device_port (trace d.bus))
        × (t.last_device ≡ d.last_device)
        × (received a (trace t.bus) ≡ kept)
  unfolding read_words print_word
  read_words_lem zero zero k i d e em h w keeps =
      (sym (append-nil d.printed), refl, refl, refl, refl, keeps)
  read_words_lem zero (suc m) k i d e em h w keeps = absurd (omega arith)
  read_words_lem (suc n) zero k i d e em h w keeps =
      let past : ltb i count ≡ false = ground (arith, em) in
      let word = u16 (ports d.bus a.data_port) in
      let after : Disk = record d { bus = read16 a.data_port word ∷ d.bus } in
      rw (past, read_words, print_word)
        (read_words_lem n zero (k + 1) (i + 2) after (omega (arith, e)) (omega (arith, em))
          (omega arith) (counted k d.bus w) keeps)
  read_words_lem (suc n) (suc zero) k i d e em h w keeps =
      let word = u16 (ports d.bus a.data_port) in
      let last : (ltb i count ≡ true) × (ltb (i + 1) count ≡ false) =
        (ground (arith, em), ground (arith, em)) in
      let low = (word_lem k i d.bus e w keeps).0 in
      let after : Disk = record d {
        bus = read16 a.data_port word ∷ d.bus;
        printed = d.printed ++ character (f i) ∷ [];
      } in
      let rest =
        read_words_lem n zero (k + 1) (i + 2) after (omega (arith, e)) (omega (arith, em))
          (omega arith) (counted k d.bus w) keeps in
      rw (last.0, last.1, read_words, print_word, low)
        (
          rest.0 ∙ append-nil (d.printed ++ character (f i) ∷ []),
          rest.1,
          rest.2,
          rest.3,
          rest.4,
          rest.5,
        )
  read_words_lem (suc n) (suc (suc m)) k i d e em h w keeps =
      let word = u16 (ports d.bus a.data_port) in
      let inside : (ltb i count ≡ true) × (ltb (i + 1) count ≡ true) =
        (ground (arith, em), ground (arith, em)) in
      let both = word_lem k i d.bus e w keeps in
      let one = d.printed ++ character (f i) ∷ [] in
      let after : Disk = record d {
        bus = read16 a.data_port word ∷ d.bus;
        printed = one ++ character (f (i + 1)) ∷ [];
      } in
      let rest =
        read_words_lem n m (k + 1) (i + 2) after (omega (arith, e)) (omega (arith, em))
          (omega (arith, h)) (counted k d.bus w) keeps in
      let more = map character (table m (i + 2) f) in
      let next : i + 2 ≡ i + 1 + 1 = omega arith in
      rw (inside.0, inside.1, read_words, print_word, both.0, both.1)
        (
          rest.0
              ∙ append_assoc one (character (f (i + 1)) ∷ []) more
              ∙ append_assoc d.printed (character (f i) ∷ []) (character (f (i + 1)) ∷ more)
              ∙ ap
                  (λ (j : ℕ).
                    d.printed
                    ++ character (f i) ∷ character (f (i + 1)) ∷ map character (table m j f))
                  next,
          rest.1,
          rest.2,
          rest.3,
          rest.4,
          rest.5,
        )
