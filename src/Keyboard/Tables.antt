-- ===== src/Keyboard/Tables.antt =====
-- The tables of src/kernel/dev/keyboard.c: a character, or a code above every character for a key
-- that has none.
use splongle_os.Base.{ℕ, ◌-◌, List, [], ◌∷◌}

abbrev unknown : ℕ
unknown = 0xffff_ffff - 0

abbrev esc : ℕ
esc = 0xffff_ffff - 1

abbrev ctrl : ℕ
ctrl = 0xffff_ffff - 2

abbrev lshft : ℕ
lshft = 0xffff_ffff - 3

abbrev rshft : ℕ
rshft = 0xffff_ffff - 4

abbrev alt : ℕ
alt = 0xffff_ffff - 5

abbrev f1 : ℕ
f1 = 0xffff_ffff - 6

abbrev f2 : ℕ
f2 = 0xffff_ffff - 7

abbrev f3 : ℕ
f3 = 0xffff_ffff - 8

abbrev f4 : ℕ
f4 = 0xffff_ffff - 9

abbrev f5 : ℕ
f5 = 0xffff_ffff - 10

abbrev f6 : ℕ
f6 = 0xffff_ffff - 11

abbrev f7 : ℕ
f7 = 0xffff_ffff - 12

abbrev f8 : ℕ
f8 = 0xffff_ffff - 13

abbrev f9 : ℕ
f9 = 0xffff_ffff - 14

abbrev f10 : ℕ
f10 = 0xffff_ffff - 15

abbrev f11 : ℕ
f11 = 0xffff_ffff - 16

abbrev f12 : ℕ
f12 = 0xffff_ffff - 17

abbrev scrlck : ℕ
scrlck = 0xffff_ffff - 18

abbrev home : ℕ
home = 0xffff_ffff - 19

abbrev up : ℕ
up = 0xffff_ffff - 20

abbrev left : ℕ
left = 0xffff_ffff - 21

abbrev right : ℕ
right = 0xffff_ffff - 22

abbrev down : ℕ
down = 0xffff_ffff - 23

abbrev pgup : ℕ
pgup = 0xffff_ffff - 24

abbrev pgdown : ℕ
pgdown = 0xffff_ffff - 25

abbrev end : ℕ
end = 0xffff_ffff - 26

abbrev ins : ℕ
ins = 0xffff_ffff - 27

abbrev del : ℕ
del = 0xffff_ffff - 28

abbrev caps : ℕ
caps = 0xffff_ffff - 29

abbrev numlck : ℕ
numlck = 0xffff_ffff - 32

-- `lowercase[128]`, by scancode.
abbrev pub lowercase : List ℕ
lowercase =
    unknown ∷ esc ∷ 49 ∷ 50 ∷ 51 ∷ 52 ∷ 53 ∷ 54 ∷ 55 ∷ 56 ∷ 57 ∷ 48 ∷ 45 ∷ 61 ∷ 8 ∷ 9 ∷ 113 ∷ 119
    ∷ 101 ∷ 114 ∷ 116 ∷ 121 ∷ 117 ∷ 105 ∷ 111 ∷ 112 ∷ 91 ∷ 93 ∷ 10 ∷ ctrl ∷ 97 ∷ 115 ∷ 100 ∷ 102
    ∷ 103 ∷ 104 ∷ 106 ∷ 107 ∷ 108 ∷ 59 ∷ 39 ∷ 96 ∷ lshft ∷ 92 ∷ 122 ∷ 120 ∷ 99 ∷ 118 ∷ 98 ∷ 110
    ∷ 109 ∷ 44 ∷ 46 ∷ 47 ∷ rshft ∷ 42 ∷ alt ∷ 32 ∷ caps ∷ f1 ∷ f2 ∷ f3 ∷ f4 ∷ f5 ∷ f6 ∷ f7 ∷ f8 ∷ f9
    ∷ f10 ∷ numlck ∷ scrlck ∷ home ∷ up ∷ pgup ∷ 45 ∷ left ∷ unknown ∷ right ∷ 43 ∷ end ∷ down
    ∷ pgdown ∷ ins ∷ del ∷ unknown ∷ unknown ∷ unknown ∷ f11 ∷ f12 ∷ unknown ∷ unknown ∷ unknown
    ∷ unknown ∷ unknown ∷ unknown ∷ unknown ∷ unknown ∷ unknown ∷ unknown ∷ unknown ∷ unknown
    ∷ unknown ∷ unknown ∷ unknown ∷ unknown ∷ unknown ∷ unknown ∷ unknown ∷ unknown ∷ unknown
    ∷ unknown ∷ unknown ∷ unknown ∷ unknown ∷ unknown ∷ unknown ∷ unknown ∷ unknown ∷ unknown
    ∷ unknown ∷ unknown ∷ unknown ∷ unknown ∷ unknown ∷ unknown ∷ unknown ∷ unknown ∷ unknown ∷ []

-- `uppercase[128]`, by scancode.
abbrev pub uppercase : List ℕ
uppercase =
    unknown ∷ esc ∷ 33 ∷ 64 ∷ 35 ∷ 36 ∷ 37 ∷ 94 ∷ 38 ∷ 42 ∷ 40 ∷ 41 ∷ 95 ∷ 43 ∷ 8 ∷ 9 ∷ 81 ∷ 87 ∷ 69
    ∷ 82 ∷ 84 ∷ 89 ∷ 85 ∷ 73 ∷ 79 ∷ 80 ∷ 123 ∷ 125 ∷ 10 ∷ ctrl ∷ 65 ∷ 83 ∷ 68 ∷ 70 ∷ 71 ∷ 72 ∷ 74
    ∷ 75 ∷ 76 ∷ 58 ∷ 34 ∷ 126 ∷ lshft ∷ 124 ∷ 90 ∷ 88 ∷ 67 ∷ 86 ∷ 66 ∷ 78 ∷ 77 ∷ 60 ∷ 62 ∷ 63
    ∷ rshft ∷ 42 ∷ alt ∷ 32 ∷ caps ∷ f1 ∷ f2 ∷ f3 ∷ f4 ∷ f5 ∷ f6 ∷ f7 ∷ f8 ∷ f9 ∷ f10 ∷ numlck
    ∷ scrlck ∷ home ∷ up ∷ pgup ∷ 45 ∷ left ∷ unknown ∷ right ∷ 43 ∷ end ∷ down ∷ pgdown ∷ ins ∷ del
    ∷ unknown ∷ unknown ∷ unknown ∷ f11 ∷ f12 ∷ unknown ∷ unknown ∷ unknown ∷ unknown ∷ unknown
    ∷ unknown ∷ unknown ∷ unknown ∷ unknown ∷ unknown ∷ unknown ∷ unknown ∷ unknown ∷ unknown
    ∷ unknown ∷ unknown ∷ unknown ∷ unknown ∷ unknown ∷ unknown ∷ unknown ∷ unknown ∷ unknown
    ∷ unknown ∷ unknown ∷ unknown ∷ unknown ∷ unknown ∷ unknown ∷ unknown ∷ unknown ∷ unknown
    ∷ unknown ∷ unknown ∷ unknown ∷ unknown ∷ unknown ∷ unknown ∷ unknown ∷ []
