-- ===== src/Pci/Scan.antt =====
-- What the walk over the bus finds.
use splongle_os.Base.{
  ℕ, zero, suc, ◌+◌, ◌*◌, ◌/◌, ◌%◌, ◌^◌, ◌≡◌, refl, arith, ◌∙◌, sym, ap, bit_and, ◌||◌, List, [],
  ◌∷◌, ◌++◌, map, append_assoc, append-nil, map-append, ◌==◌, if◌then◌else◌, u16, u32, ◌>>◌,
  Bool-cases, inl, inr,
}
use splongle_os.Ports.{Bus, Device, last_word}
use splongle_os.Pci.{
  Bar, Descriptor, Walk, identifier, pci_read, has_functions, get_dev_descriptor, walk_bars,
  walk_function, walk_functions, walk_device, walk_devices, walk_buses, select_drivers,
}
use splongle_os.Pci.Address.{identifier_lem}

-- The data port answers with the register that the address port was told last.
abbrev pub IsConfigSpace : Device → (ℕ → ℕ) → Type 0
IsConfigSpace ports config = (log : Bus) → ports log 0xCFC ≡ config (last_word 0xCF8 log)

-- The address of a register's word in the layout of PCI: the enable bit, eight bits of the bus,
-- five of the device, three of the function, and the offset without its two lowest bits.
abbrev pub word_address : ℕ → ℕ → ℕ → ℕ → ℕ
word_address bus device function offset =
    2 ^ 31 + bus % 256 * 2 ^ 16 + device % 32 * 2 ^ 11 + function % 8 * 2 ^ 8 + offset % 256 / 4 * 4

-- The register of a function, from the byte of the offset on.
abbrev pub register : (ℕ → ℕ) → ℕ → ℕ → ℕ → ℕ → ℕ
register config bus device function offset =
    u32 (config (word_address bus device function offset)) >> (8 * (offset % 4))

-- Bus, device, function, vendor and device id.
abbrev pub Place : Type 0
Place = ℕ × ℕ × ℕ × ℕ × ℕ

abbrev pub place : Descriptor → Place
place d = (d.bus, d.device, d.function, d.vendor_id, d.device_id)

-- A function is there unless its vendor is all zeros or all ones.
abbrev pub present : (ℕ → ℕ) → ℕ → ℕ → ℕ → List Place
present config bus device function =
    let vendor = u16 (register config bus device function 0) in
    if (vendor == 0) || (vendor == 0xFFFF)
    then []
    else (bus, device, function, vendor, u16 (register config bus device function 2)) ∷ []

-- The lists of `n` numbers from `i` on, one after another.
abbrev pub each : ℕ → ℕ → (ℕ → List Place) → List Place
each zero i f = []
each (suc n) i f = f i ++ each n (i + 1) f

-- Bit 7 of the header type of function 0.
abbrev pub functions : (ℕ → ℕ) → ℕ → ℕ → ℕ
functions config bus device = if bit_and (register config bus device 0 0x0E) 128 == 0 then 1 else 8

pci_read_lem :
    (ports : Device) (config : ℕ → ℕ) (bus device function offset : ℕ) (log : Bus)
    → IsConfigSpace ports config
    → (pci_read ports bus device function offset log).0 ≡ register config bus device function offset
unfolding pci_read
pci_read_lem ports config bus device function offset log answers =
    let whole : u32 (identifier bus device function offset)
        ≡ word_address bus device function offset =
      omega (arith, identifier_lem bus device function offset) in
    rw (answers, whole) refl

walk_bars_lem :
    (ports : Device) (stack : Bus → Bar) (rounds number : ℕ) (dev : Descriptor) (w : Walk)
    → let r = walk_bars ports stack rounds number dev w in
      (place r.0 ≡ place dev) × (r.1.found ≡ w.found) × (r.1.manager ≡ w.manager)
unfolding walk_bars
walk_bars_lem ports stack zero number dev w = (refl, refl, refl)
walk_bars_lem ports stack (suc rounds) number dev w =
    walk_bars_lem ports stack rounds (number + 1) _ _

module _ (ports : Device) (config : ℕ → ℕ) (stack : Bus → Bar)
    (answers : IsConfigSpace ports config) where
  -- A step of the walk that lists `xs`, and adds no driver.
  abbrev Lists : (Walk → Walk) → List Place → Type 0
  Lists step xs =
      (w : Walk)
      → (map place (step w).found ≡ map place w.found ++ xs) × ((step w).manager ≡ w.manager)

  Lists-then :
      (f g : Walk → Walk) {xs ys : List Place}
      → Lists f xs
      → Lists g ys
      → Lists (λ w. g (f w)) (xs ++ ys)
  Lists-then f g {xs} {ys} p q w = (
    (q (f w)).0
        ∙ ap (λ (zs : List Place). zs ++ ys) (p w).0
        ∙ append_assoc (map place w.found) xs ys,
    (q (f w)).1 ∙ (p w).1,
  )

  get_dev_descriptor_lem :
      (bus device function : ℕ) (log : Bus)
      → place (get_dev_descriptor ports bus device function log).0 ≡ (
        bus,
        device,
        function,
        u16 (register config bus device function 0),
        u16 (register config bus device function 2),
      )
  unfolding get_dev_descriptor
  get_dev_descriptor_lem bus device function log =
      let vendor = pci_read_lem ports config bus device function 0 log answers in
      let after = (pci_read ports bus device function 0 log).1 in
      let id = pci_read_lem ports config bus device function 2 after answers in
      ap (λ (v : ℕ × ℕ). (bus, device, function, u16 v.0, u16 v.1)) (λ i. (vendor i, id i))

  walk_function_lem :
      (bus device function : ℕ)
      → Lists (walk_function ports stack bus device function) (present config bus device function)
  unfolding walk_function
  walk_function_lem bus device function w =
      let (dev, after) = get_dev_descriptor ports bus device function w.log in
      let told = get_dev_descriptor_lem bus device function w.log in
      let vendor = ap (λ (p : Place). p.3) told in
      let r = walk_bars ports stack 6 0 dev (record w { log = after }) in
      let walked = walk_bars_lem ports stack 6 0 dev (record w { log = after }) in
      let v = u16 (register config bus device function 0) in
      elim (Bool-cases ((v == 0) || (v == 0xFFFF))) [
        | inl none' ↦ rw (vendor, none') (sym (append-nil (map place w.found)), refl)
        | inr some' ↦
            rw (vendor, some')
              (
                map-append place r.1.found (r.0 ∷ [])
                    ∙ ap (λ (v : List Descriptor × Place). map place v.0 ++ v.1 ∷ [])
                        (λ i. (walked.1 i, (walked.0 ∙ told) i)),
                walked.2,
              )
      ]

  walk_functions_lem :
      (bus device rounds function : ℕ)
      → Lists
          (walk_functions ports stack bus device rounds function)
          (each rounds function (present config bus device))
  unfolding walk_functions
  walk_functions_lem bus device zero function w = (sym (append-nil (map place w.found)), refl)
  walk_functions_lem bus device (suc rounds) function w =
      Lists-then (walk_function ports stack bus device function)
        (walk_functions ports stack bus device rounds (function + 1))
        (walk_function_lem bus device function)
        (walk_functions_lem bus device rounds (function + 1)) w

  walk_device_lem :
      (bus device : ℕ)
      → Lists
          (walk_device ports stack bus device)
          (each (functions config bus device) 0 (present config bus device))
  unfolding walk_device has_functions
  walk_device_lem bus device w =
      let header = pci_read_lem ports config bus device 0 0x0E w.log answers in
      let after : Walk = record w { log = (pci_read ports bus device 0 0x0E w.log).1 } in
      elim (Bool-cases (bit_and (register config bus device 0 0x0E) 128 == 0)) [
        | inl e ↦ rw (header, e) (walk_functions_lem bus device 1 0 after)
        | inr e ↦ rw (header, e) (walk_functions_lem bus device 8 0 after)
      ]

  walk_devices_lem :
      (bus rounds device : ℕ)
      → Lists
          (walk_devices ports stack bus rounds device)
          (each rounds device (λ d. each (functions config bus d) 0 (present config bus d)))
  unfolding walk_devices
  walk_devices_lem bus zero device w = (sym (append-nil (map place w.found)), refl)
  walk_devices_lem bus (suc rounds) device w =
      Lists-then (walk_device ports stack bus device)
        (walk_devices ports stack bus rounds (device + 1)) (walk_device_lem bus device)
        (walk_devices_lem bus rounds (device + 1)) w

  walk_buses_lem :
      (rounds bus : ℕ)
      → Lists (walk_buses ports stack rounds bus) (
          each rounds bus
            (λ b. each 32 0 (λ d. each (functions config b d) 0 (present config b d))))
  unfolding walk_buses
  walk_buses_lem zero bus w = (sym (append-nil (map place w.found)), refl)
  walk_buses_lem (suc rounds) bus w =
      Lists-then (walk_devices ports stack bus 32 0) (walk_buses ports stack rounds (bus + 1))
        (walk_devices_lem bus 32 0) (walk_buses_lem rounds (bus + 1)) w

-- On a bus that answers from a configuration space, `SelectDrivers` lists each function of the
-- eight buses of 32 devices, in their order, with its vendor and device id, unless its vendor is
-- all zeros or all ones; of a device whose header is not marked as having several functions, the
-- first only. It adds no driver.
pub select_drivers_lem :
    (ports : Device) (config : ℕ → ℕ) (stack : Bus → Bar) (w : Walk)
    → IsConfigSpace ports config
    → let t = select_drivers ports stack w in
      (map place t.found
        ≡ map place w.found
          ++ each 8 0 (λ b. each 32 0 (λ d. each (functions config b d) 0 (present config b d))))
      × (t.manager ≡ w.manager)
unfolding select_drivers
select_drivers_lem ports config stack w answers = walk_buses_lem ports config stack answers 8 0 w
