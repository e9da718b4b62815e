-- ===== src/Lib.antt =====
-- FYNAOS, a kernel for x86-64 in C: its start, its tables, its drivers, its memory managers and its
-- runtime library.
--
-- The program. init/main.c starts the kernel: it sets up the serial port (drivers/uart.c), the
-- descriptor tables (cpu/gdt.c, cpu/idt.c, and init_interrupt of kernel/interrupt.c), takes the
-- information of the boot loader, gives the screen to drivers/framebuffer.c and to the text console
-- drivers/fbcon.c, and calls init_memory with the memory map. mm/mm.c takes the largest region for the
-- boot allocator (mm/boot.c), which holds the table of frames, and gives the usable regions to the
-- frame allocator (mm/pmm.c), a buddy allocator of blocks of 2^0 to 2^11 pages. On it stand the pool
-- (mm/pool.c: kmalloc and kfree in pools of one page) and the virtual memory manager (mm/vmm.c: page
-- tables of four levels). kernel/interrupt.c keeps lists of handlers on the pool. kernel/kprintf.c and
-- kernel/panic.c format a message with vsnprintf (rtl/) and write it to the serial port and the console.
--
-- The files.
--   Base: names of the libraries, machine words with their wrap-around, Boolean tests, runs, tables
--   and lists over the native numbers, and the laws of masks, flags and fields (Base/Bits).
--   Start: init/main.c. Multiboot: the structures of include/multiboot2.h.
--   Cpu/Gdt, Cpu/Idt: cpu/gdt.c and cpu/idt.c. Kernel/Gates: init_interrupt of kernel/interrupt.c.
--   Kernel/Interrupt: connect_interrupt and interrupt_service. Kernel/Messages: vkprintf and vpanic.
--   Drivers/Uart, Drivers/Framebuffer, Drivers/Fbcon: the files of drivers/. Fbcon/Grid is the abstract
--   view of the console: a page of cells on which text is typed.
--   Mm/Boot: mm/boot.c. Mm/Init: mm/mm.c, and init_frames of mm/pmm.c; below it one module for each
--   loop of init_memory, Ready and Protected for the whole, and Plan, which says from the memory map
--   alone, without those loops, what should be free.
--   Mm/Frames: the rest of mm/pmm.c, one function for each of its functions and loops. Below it, Chain
--   says what a free list is, Coverage counts the blocks over a page, Accounts and Detached state the
--   whole account of the frames; the other modules are named for the operation they are about.
--   Mm/Machine: memory as words, the interrupt flag, cr3 and the globals that Mm/Pool (mm/pool.c),
--   Mm/Vmm (mm/vmm.c) and Kernel/Interrupt share.
--   Rtl/Bytes: rtl/string.c. Rtl/Number and Rtl/Snprintf: print_number and vsnprintf of
--   rtl/snprintf.c.
--
-- The state. Globals are fields of a record that each operation takes and returns; a run is a function
-- from the state to a Result: `ok`, `panicked` for panic(), `fault` for what C leaves undefined (NULL,
-- an index behind a table, a write outside the buffer or the screen), `out_of_fuel`. A run of a part is
-- a run of the whole that changes its part (on_frames, on_console and the like). A frame pointer is
-- the index of the frame. A 64-bit or 32-bit sum wraps as it is written (u64, u32). The buffer pointer
-- of vsnprintf is a number without a bound: the code moves it past the end of the buffer, but does not
-- write there. A function that does not return ends its run where it halts, or where it hands over to
-- the assembly.
--
-- Fuel. init_buddy_allocator moves `begin` on in each round, so `limit - begin` rounds are enough;
-- the walk of remove_frame_from_list has one round for each frame, since a list has no frame twice;
-- merge_buddy raises an order of at most 11, so 13 rounds are enough; the number of print_number has
-- at most 64 digits; the loop of vsnprintf takes a byte of the format each round. The walks of the pool
-- have 512 rounds for the blocks of a page, and one for each frame. fbcon_write calls itself for a tab
-- alone, with spaces, so a depth of 2 is enough. A tag of the boot loader takes 8 bytes of a buffer of
-- 16384, so 2048 rounds are enough. The wait of uart_write and the walk of interrupt_service take their
-- fuel as an argument, since the device and the list decide it. The theorems show that a run returns,
-- so that its fuel is enough, where they are about such a run.
--
-- Parameters. The bounds of the kernel image and the addresses of the tables are the linker's; the
-- routines of the interrupts are the assembly's; the answers of the serial device, the font and what a
-- handler of an interrupt does are arguments. The arguments of vsnprintf are a list of 64-bit words and
-- texts in place of va_list.
--
-- Not modelled: assembly (boot/boot.S, kernel/asm.S, kernel/context.S), and the register access of
-- include/fynaos/cpu.h but for the interrupt flag, byte ports and what the inline assembly of cpu/
-- loads. The parts have memories of their own: the frame table is not part of the memory of
-- Mm/Machine, the screen is words of 32 bits at its own addresses, and the boot loader's information
-- and the buffers of messages are bytes.
pub mod Base
pub mod Cpu
pub mod Drivers
pub mod Kernel
pub mod Mm
pub mod Multiboot
pub mod Rtl
pub mod Start
