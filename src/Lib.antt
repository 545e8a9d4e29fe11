-- ===== src/Lib.antt =====
-- A model of splongleOS, a 32-bit kernel for the PC in C and assembler, and what is proved of it.
--
-- The kernel is started by a multiboot loader. It reads the memory map of the loader into a bitmap of
-- physical blocks, builds page tables over them, and starts tasks that a round-robin scheduler runs.
-- Interrupts bring in the keyboard, whose characters wait in a ring until the shell takes them, and
-- the clock. The shell edits a line and runs commands, and everything is shown by `printk` on the
-- text screen. The parts share state by calls alone, so each is a record of its variables with a
-- function for each C function, and a part that calls another one holds that part's record.
--
--   Base      the names of the libraries, tests, words of C (`u8` to `u64`, `sub32`), lists, bits
--   Ports     src/kernel/arch/i686/asm_wrappers.asm: port accesses as a log; a device is a parameter
--             that answers a read from the accesses so far
--   Pmm       src/kernel/memory/physical_manager.c: the bitmap of blocks (`set_block`,
--             `allocate_blocks`, `initialize_region`, ... under their C names)
--   Paging    src/kernel/memory/page.c: directory and tables as words of memory; Paging/Translate is
--             the walk of the processor, Paging/MapPage what `map_page` and `unmap_page` do to it,
--             Paging/Start what `Page_Manager_Init` leaves, Paging/OnDemand what `PFHandler` does;
--             Paging/Reach says where the kernel can write to its tables, which it uses by their
--             physical addresses: in the first 4 MiB, which are mapped to themselves
--   Sched     src/kernel/sched/sched.c and sched.asm: a task pointer is a slot; Sched/Ready is the
--             list of ready tasks, Sched/Switch, Sched/Fair and Sched/Lost are about `Schedule`,
--             Sched/Create and Sched/Start about `create_kernel_task`, Sched/Block and Sched/Stale
--             about blocking; Sched/Order is a step relation of all of them
--   Console   src/kernel/stdio.c up to `puts`: screen, colours and cursor; Console/Place is text at a
--             place of its own
--   Printk    src/kernel/stdio.c from `printk_unsigned` on; the arguments are the words on the stack.
--             Printk/Render is the text of a call, Printk/Typed the words that a format wants
--   Keyboard  src/kernel/dev/keyboard.c: the ring and `keyboardHandler`, with its two tables
--   Memory    src/kernel/memory.c and src/kernel/shell/string.c: `memcpy`, `memset`, `memcmp`,
--             `strcmp`, `strlen` on a memory of bytes
--   Shell     src/kernel/shell/shell.c: one round of `Shell_Run` is `shell_step`; the calls that a
--             command makes are recorded in order
--   Memmap    src/kernel/memory/memmap.c: the walks over the loader's map; Memmap/Print
--             also `get_block_info` of physical_manager.c
--   Rtc       src/kernel/arch/i686/rtc.c: reading and decoding the clock, its handler and
--             display
--   Pic       src/kernel/arch/i686/i8259.c: the interrupt masks; Pic/Vectors is what the
--             controllers make of their initialisation words
--   Gdt       src/kernel/arch/i686/gdt.c: the entries of the descriptor table
--   Interrupts src/kernel/arch/i686/idt.c, isr.c, isrs_gen.c and irq.c: gates, handlers, and in
--             which handler an interrupt ends; Interrupts/Panic is what an exception prints
--   Timer     src/kernel/arch/i686/i8254.c: the channels, the ticks and `sleep`
--   Speaker   src/kernel/dev/pc_speaker.c: `play_note` and `rest` over Timer
--   Pci       src/kernel/arch/i686/pci.c and driver.c: configuration space and `SelectDrivers`
--   Ata       src/kernel/dev/ata.c: Ata/Transfer is `ATA_Write28` and `ATA_Read28`, Ata/Identify is
--             `ATA_Identify`; Ata/Trace says what the disk is told by a log of accesses,
--             Ata/Transfer/Stuck and Ata/Transfer/Finish are about polls that do not end
--   Vga       src/kernel/dev/vga.c, and `DrawRect` of src/kernel/main.c; Vga/Crt is the CRT
--             controller with its protected registers
--   Hal       src/kernel/hal/hal.c: `HAL_Init` over Gdt, Interrupts, Timer, Rtc and Pci
--   Boot      src/kernel/main.c: `kernel_main` over Memmap, Pmm, Paging, Hal and Sched; Boot/Memory is
--             physical memory, Boot/Running what runs at the end
--   System    the shell with the interrupts of the keyboard and the display of the clock, over Shell,
--             Keyboard, Rtc and Console: a step relation and what can be reached by it
--
-- Numbers are natural numbers, with the wrap of the C type written out where it can occur. Loops are
-- recursion on the number of rounds. Where a loop has no such number it runs on fuel: 64 rounds for
-- the digits of a 64-bit number, which halve at least; the length of the map for a memory map, whose
-- entries are 4 bytes at least; any fuel above the length of the text for `strlen` and `strcmp`; for
-- the two waits of the clock the result is none when the fuel is spent, and a steady clock needs one
-- round of each. `sleep` needs one more round than the `hlt`s until its ticks have come, and in
-- `ATA_Identify` each poll of the disk one more than the reads of the status for which the disk keeps
-- the driver waiting.
-- Memory outside a structure is a function from addresses.
--
-- Not modelled: the tasks `task1` to `task3` of src/kernel/main.c, which nothing starts; the code of
-- src/kernel/arch/i686 in assembler, but for the port instructions and the switch of tasks; the
-- messages of `HAL_Init`, `i686_IRQ_Init` and `SelectDrivers`, that of `get_total_mem` and
-- `get_num_entries` without a map, and those of `kernel_main` but the first. In `HAL_Init` each part
-- keeps the log of its own port accesses.
-- `lock_scheduler` and the handlers are atomic here: no interrupt comes between the statements of a
-- function. An interrupt of the keyboard or the clock comes between two rounds of the shell's loop.
mod Base
pub mod Ports
pub mod Pmm
pub mod Console
pub mod Keyboard
pub mod Sched
pub mod Printk
pub mod Memory
pub mod Shell
pub mod Paging
pub mod Pic
pub mod Interrupts
pub mod Boot
pub mod System
pub mod Timer
pub mod Speaker
pub mod Pci
pub mod Ata
pub mod Vga
pub mod Gdt
pub mod Hal
pub mod Memmap
pub mod Rtc
