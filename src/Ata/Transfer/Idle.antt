-- ===== src/Ata/Transfer/Idle.antt =====
-- How the polls end, on any disk and on one that does not ask for data.
use splongle_os.Base.{
  ℕ, zero, suc, ◌≡◌, ◌⊎◌, refl, arith, ◌∙◌, bit_and, true, false, not, ◌&&◌, Bool-cases, inl, inr,
  none, some, ◌∷◌, ltb, ◌==◌, u8,
}
use splongle_os.Ports.{Bus, Device, read8}
use splongle_os.Ata.{poll_busy, poll_drq, poll_drq_ignoring, poll, poll_ignoring}
use splongle_os.Ata.Trace.{trace}

-- A poll ends with no error, or not at all, and does no more than read the status.
poll_busy-cases :
    (ports : Device) (port fuel status : ℕ) (bus : Bus)
    → (poll_busy ports port fuel status bus ≡ none)
      ⊎ ((r : ℕ × Bus) × (poll_busy ports port fuel status bus ≡ some r) × (trace r.1 ≡ trace bus))
unfolding poll_busy
poll_busy-cases ports port zero status bus = inl refl
poll_busy-cases ports port (suc fuel) status bus = elim (Bool-cases (bit_and status 0x80 == 0)) [
  | inl e ↦ inr ((status, bus), rw e refl, refl)
  | inr e ↦ rw e (poll_busy-cases ports port fuel _ _)
]

poll_drq_ignoring-cases :
    (ports : Device) (port fuel ignored status : ℕ) (bus : Bus)
    → (poll_drq_ignoring ports port fuel ignored status bus ≡ none)
      ⊎ ((later : Bus) × (poll_drq_ignoring ports port fuel ignored status bus ≡ some (true, later))
          × (trace later ≡ trace bus))
unfolding poll_drq_ignoring
poll_drq_ignoring-cases ports port zero ignored status bus = inl refl
poll_drq_ignoring-cases ports port (suc fuel) ignored status bus =
    elim (Bool-cases (bit_and status 0x08 == 0)) [
      | inr e ↦ inr (bus, rw e refl, refl)
      | inl e ↦
          let none' : (not (bit_and status 0x01 == 0) && ltb ignored 0) ≡ false = ground arith in
          rw (e, none') (poll_drq_ignoring-cases ports port fuel _ _ _)
    ]

pub poll_ignoring-cases :
    (ports : Device) (port fuel : ℕ) (bus : Bus)
    → (poll_ignoring ports port fuel bus ≡ none)
      ⊎ ((later : Bus) × (poll_ignoring ports port fuel bus ≡ some (true, later))
          × (trace later ≡ trace bus))
unfolding poll_ignoring
poll_ignoring-cases ports port fuel bus =
    let status = u8 (ports bus port) in
    elim (poll_busy-cases ports port fuel status (read8 port status ∷ bus)) [
      | inl e ↦ inl (rw (e, poll_ignoring) refl)
      | inr (r, e, same) ↦
          rw (e, poll_ignoring)
            (elim (poll_drq_ignoring-cases ports port fuel 4 r.0 r.1) [
              | inl f ↦ inl f
              | inr (later, f, same') ↦ inr (later, f, same' ∙ same)
            ])
    ]

-- After the accesses `log`, however often the status is read, it has the property `P`.
module _ (ports : Device) (port : ℕ) (log : Bus) (P : ℕ → Type 0)
    (answers : (bus : Bus) → trace bus ≡ log → P (u8 (ports bus port))) where
  -- What the first loop ends with is a status of the disk.
  poll_busy-ends :
      (fuel status : ℕ) (bus : Bus)
      → trace bus ≡ log
      → P status
      → (poll_busy ports port fuel status bus ≡ none)
        ⊎ ((r : ℕ × Bus) × (poll_busy ports port fuel status bus ≡ some r)
            × (trace r.1 ≡ log)
            × P r.0)
  unfolding poll_busy
  poll_busy-ends zero status bus e h = inl refl
  poll_busy-ends (suc fuel) status bus e h = elim (Bool-cases (bit_and status 0x80 == 0)) [
    | inl f ↦ inr ((status, bus), rw f refl, e, h)
    | inr f ↦ rw f (poll_busy-ends fuel _ _ e (answers bus e))
  ]

-- Where the data bit stays clear, the poll that ignores errors does not end.
module _ (ports : Device) (port : ℕ) (log : Bus)
    (idle : (bus : Bus) → trace bus ≡ log → bit_and (u8 (ports bus port)) 0x08 ≡ 0) where
  poll_drq_ignoring-idle :
      (fuel ignored status : ℕ) (bus : Bus)
      → trace bus ≡ log
      → bit_and status 0x08 ≡ 0
      → poll_drq_ignoring ports port fuel ignored status bus ≡ none
  unfolding poll_drq_ignoring
  poll_drq_ignoring-idle zero ignored status bus e h = refl
  poll_drq_ignoring-idle (suc fuel) ignored status bus e h =
      let none' : (not (bit_and status 0x01 == 0) && ltb ignored 0) ≡ false = ground arith in
      rw (h, none') (poll_drq_ignoring-idle fuel _ _ _ e (idle bus e))

  pub poll_ignoring-idle :
      (fuel : ℕ) (bus : Bus) → trace bus ≡ log → poll_ignoring ports port fuel bus ≡ none
  unfolding poll_ignoring
  poll_ignoring-idle fuel bus e =
      let status = u8 (ports bus port) in
      let after : Bus = read8 port status ∷ bus in
      elim (poll_busy-ends ports port log (λ x. bit_and x 0x08 ≡ 0) idle fuel status after e
        (idle bus e)) [
          | inl f ↦ rw (f, poll_ignoring) refl
          | inr (r, f, g, h) ↦ rw (f, poll_ignoring) (poll_drq_ignoring-idle fuel 4 r.0 r.1 g h)
        ]

-- Where the error bit stays clear too, the other poll does not end either.
module _ (ports : Device) (port : ℕ) (log : Bus)
    (idle : (bus : Bus)
      → trace bus ≡ log
      → (bit_and (u8 (ports bus port)) 0x08 ≡ 0) × (bit_and (u8 (ports bus port)) 0x01 ≡ 0)) where
  poll_drq-idle :
      (fuel status : ℕ) (bus : Bus)
      → trace bus ≡ log
      → (bit_and status 0x08 ≡ 0) × (bit_and status 0x01 ≡ 0)
      → poll_drq ports port fuel status bus ≡ none
  unfolding poll_drq
  poll_drq-idle zero status bus e h = refl
  poll_drq-idle (suc fuel) status bus e h = rw (h.0, h.1) (poll_drq-idle fuel _ _ e (idle bus e))

  pub poll-idle : (fuel : ℕ) (bus : Bus) → trace bus ≡ log → poll ports port fuel bus ≡ none
  unfolding poll
  poll-idle fuel bus e =
      let status = u8 (ports bus port) in
      let after : Bus = read8 port status ∷ bus in
      elim (poll_busy-ends ports port log (λ x. (bit_and x 0x08 ≡ 0) × (bit_and x 0x01 ≡ 0)) idle
        fuel status after e (idle bus e)) [
          | inl f ↦ rw (f, poll) refl
          | inr (r, f, g, h) ↦ rw (f, poll) (poll_drq-idle fuel r.0 r.1 g h)
        ]
