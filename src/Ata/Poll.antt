-- ===== src/Ata/Poll.antt =====
-- When the polling loops end.
use splongle_os.Base.{
  ℕ, zero, suc, ◌-◌, ◌≤◌, ◌<◌, ◌≡◌, ◌≢◌, refl, arith, bit_and, true, some, ◌∷◌, ◌==◌, u8,
  Bool-cases, inl, inr,
}
use splongle_os.Ports.{Bus, Device, read8}
use splongle_os.Ata.{poll_busy, poll_drq}
use splongle_os.Ata.Trace.{trace}

-- After at most `n` reads of the status port, of whatever values, the disk is not busy and has its
-- data ready; `wait` counts the reads that are left.
abbrev pub IsServing : Device → ℕ → (Bus → ℕ) → ℕ → Type 0
IsServing ports port wait n =
    ((bus : Bus) → wait bus ≤ n)
    × ((bus : Bus) → wait bus ≡ 0 → bit_and (u8 (ports bus port)) 0x80 ≡ 0)
    × ((bus : Bus) → wait bus ≡ 0 → bit_and (u8 (ports bus port)) 0x08 ≢ 0)
    × ((bus : Bus) (v : ℕ) → wait (read8 port v ∷ bus) ≡ wait bus - 1)

module _ (ports : Device) (port : ℕ) (wait : Bus → ℕ) (n : ℕ)
    (serving : IsServing ports port wait n) where
  -- The status as it is read after `bus`, and the accesses with this read.
  abbrev status : Bus → ℕ
  status bus = u8 (ports bus port)

  abbrev read : Bus → Bus
  read bus = read8 port (status bus) ∷ bus

  pub poll_busy_lem :
      (fuel : ℕ) (bus : Bus)
      → wait bus < fuel
      → (later : Bus) × (poll_busy ports port fuel (status bus) (read bus)
          ≡ some (status later, read later))
        × (trace later ≡ trace bus)
        × (wait later ≤ wait bus)
  unfolding poll_busy
  poll_busy_lem zero bus h = absurd (omega arith)
  poll_busy_lem (suc fuel) bus h = elim (Bool-cases (bit_and (status bus) 0x80 == 0)) [
    | inl e ↦ (bus, rw e refl, refl, omega arith)
    | inr e ↦
        let step = serving.3 bus (status bus) in
        let waiting : 0 < wait bus = ground (arith, serving.1 bus, e) in
        let r = poll_busy_lem fuel (read bus) (omega (arith, step, waiting, h)) in
        (r.0, rw e r.1, r.2, omega (arith, r.3, step))
  ]

  -- One round of the loop that waits for DRQ, where the disk does not have its data ready.
  more :
      (bus : Bus)
      → (bit_and (status bus) 0x08 == 0) ≡ true
      → (0 < wait bus) × (wait (read bus) ≡ wait bus - 1)
  more bus e = (ground (arith, serving.2 bus, e), serving.3 bus (status bus))

  pub poll_drq_lem :
      (fuel : ℕ) (bus : Bus)
      → wait bus < fuel
      → ((b : Bus) → bit_and (status b) 0x01 ≡ 0)
      → (later : Bus) × (poll_drq ports port fuel (status bus) (read bus) ≡ some (true, later))
        × (trace later ≡ trace bus)
  unfolding poll_drq
  poll_drq_lem zero bus h fine = absurd (omega arith)
  poll_drq_lem (suc fuel) bus h fine = elim (Bool-cases (bit_and (status bus) 0x08 == 0)) [
    | inr e ↦ (read bus, rw e refl, refl)
    | inl e ↦
        let step = more bus e in
        let r = poll_drq_lem fuel (read bus) (omega (arith, step.0, step.1, h)) fine in
        (r.0, rw (e, fine bus) r.1, r.2)
  ]
