-- ===== src/Vga/Examples.antt =====
-- A card that answers what the mode has set.
use splongle_os.Base.{ℕ, ◌≡◌, refl, true, some, [], ◌==◌, if◌then◌else◌}
use splongle_os.Ports.{Device}
use splongle_os.Vga.{Screen, ports_of_vga, vga_init, draw_rect}
use splongle_os.Vga.Crt.{crt}
use splongle_os.Vga.Mode.{held, vga_init_lem}
use splongle_os.Vga.Pixels.{draw_rect_lem}

abbrev card : Device
card = λ bus port. if port == 0x3CF then 0x05 else 0

abbrev dark : Screen
dark = record { memory = λ p. 0; bus = [] }

-- Registers 0 to 7 of the CRT controller are protected at first.
abbrev guarded : ℕ → ℕ
guarded i = if i == 0x11 then 0x8E else 0

vga_init_lem_example :
    let (g, done, t) = vga_init card [] in
    (done ≡ true)
    × (held g.sequencer_index_port g.sequencer_data_port 4 t ≡ some 0x0E)
    × (crt guarded 4 t ≡ 0x54)
    × (held g.graphics_index_port g.graphics_data_port 4 t ≡ some 0x00)
vga_init_lem_example = vga_init_lem card guarded 4 []

draw_rect_lem_example : (draw_rect card ports_of_vga 0 dark).memory 0xA0140 ≡ 1
draw_rect_lem_example = draw_rect_lem card 0 0xA0140 dark (λ bus. refl)
