-- ===== src/Pci/Examples.antt =====
-- A bus with one device, a host bridge.
use splongle_os.Base.{ℕ, ◌+◌, ◌*◌, ◌^◌, ◌≡◌, refl, false, [], ◌∷◌, map, ◌==◌, if◌then◌else◌}
use splongle_os.Ports.{Device, last_word}
use splongle_os.Pci.{Bar, Walk, identifier, select_drivers}
use splongle_os.Pci.Address.{identifier_lem}
use splongle_os.Pci.Scan.{place, select_drivers_lem}

abbrev bridge : ℕ → ℕ
bridge n = if n == 2 ^ 31 then 0x12378086 else if n == 2 ^ 31 + 12 then 0 else 0xFFFFFFFF

abbrev one_device : Device
one_device = λ log port. bridge (last_word 0xCF8 log)

abbrev nothing : Bar
nothing = record { prefetchable = false; address = 0; kind = 0 }

abbrev begun : Walk
begun = record { manager = record { drivers = λ i. 0; num_drivers = 0 }; found = []; log = [] }

identifier_lem_example :
    identifier 3 31 7 0x3D ≡ 2 ^ 31 + 3 * 2 ^ 16 + 31 * 2 ^ 11 + 7 * 2 ^ 8 + 0x3C
identifier_lem_example = identifier_lem 3 31 7 0x3D

select_drivers_lem_example :
    let t = select_drivers one_device (λ log. nothing) begun in
    (map place t.found ≡ (0, 0, 0, 0x8086, 0x1237) ∷ []) × (t.manager ≡ begun.manager)
select_drivers_lem_example =
    select_drivers_lem one_device bridge (λ log. nothing) begun (λ log. refl)
