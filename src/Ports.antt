-- ===== src/Ports.antt =====
-- The port instructions of src/kernel/arch/i686/asm_wrappers.asm, as a log of accesses.
-- What a port answers is up to the device: a parameter, which sees every access made so far.
use splongle_os.Base.{ℕ, List, [], ◌∷◌, ◌==◌, if◌then◌else◌, u8, u16, u32}

-- Each with its port and the value that was written or read.
pub data Access : Type 0 where
  wrote8 read8 wrote16 read16 wrote32 read32 : ℕ → ℕ → Access
  set_interrupts : ℕ → Access

-- The accesses so far, the newest first.
abbrev pub Bus : Type 0
Bus = List Access

abbrev pub outb : ℕ → ℕ → Bus → Bus
outb port value bus = wrote8 port (u8 value) ∷ bus

abbrev pub outw : ℕ → ℕ → Bus → Bus
outw port value bus = wrote16 port (u16 value) ∷ bus

abbrev pub outl : ℕ → ℕ → Bus → Bus
outl port value bus = wrote32 port (u32 value) ∷ bus

-- `i686_io_wait` writes to the unused port 0x80.
abbrev pub io_wait : Bus → Bus
io_wait bus = outb 0x80 0 bus

-- `sti` and `cli`
abbrev pub enable_ints : Bus → Bus
enable_ints bus = set_interrupts 1 ∷ bus

abbrev pub disable_ints : Bus → Bus
disable_ints bus = set_interrupts 0 ∷ bus

-- The byte that was written to a port last; 0 if none was.
abbrev pub last_byte : ℕ → Bus → ℕ
last_byte port [] = 0
last_byte port (wrote8 p v ∷ bus) = let rest = last_byte port bus in if p == port then v else rest
last_byte port (read8 p v ∷ bus) = last_byte port bus
last_byte port (wrote16 p v ∷ bus) = last_byte port bus
last_byte port (read16 p v ∷ bus) = last_byte port bus
last_byte port (wrote32 p v ∷ bus) = last_byte port bus
last_byte port (read32 p v ∷ bus) = last_byte port bus
last_byte port (set_interrupts v ∷ bus) = last_byte port bus

-- What a port answers after the given accesses.
abbrev pub Device : Type 0
Device = Bus → ℕ → ℕ

abbrev pub inb : Device → ℕ → Bus → ℕ × Bus
inb device port bus = let value = u8 (device bus port) in (value, read8 port value ∷ bus)

abbrev pub inw : Device → ℕ → Bus → ℕ × Bus
inw device port bus = let value = u16 (device bus port) in (value, read16 port value ∷ bus)

abbrev pub inl : Device → ℕ → Bus → ℕ × Bus
inl device port bus = let value = u32 (device bus port) in (value, read32 port value ∷ bus)

-- The word of 32 bits that was written to a port last; 0 if none was.
abbrev pub last_word : ℕ → Bus → ℕ
last_word port [] = 0
last_word port (wrote32 p v ∷ bus) = let rest = last_word port bus in if p == port then v else rest
last_word port (wrote8 p v ∷ bus) = last_word port bus
last_word port (read8 p v ∷ bus) = last_word port bus
last_word port (wrote16 p v ∷ bus) = last_word port bus
last_word port (read16 p v ∷ bus) = last_word port bus
last_word port (read32 p v ∷ bus) = last_word port bus
last_word port (set_interrupts v ∷ bus) = last_word port bus
