-- ===== src/Lib.antt =====
-- MakenOS is a small x86-64 kernel in C. Its parts, and the files that model them:
--
--   * kernel/lib: Klib/Mem (memcpy, memset, memmove, memcmp), Klib/Str (strlen, strcmp, strcpy,
--     reverse), Klib/Num (itoa, uint64toa) and Klib/Print (printNumber). The other parts call them.
--   * kernel/memory: Memory/Pmm is pmm.c, where b_malloc and k_malloc search one entry of the boot
--     loader's memory map; Memory/Paging is paging.c, whose tables come from k_malloc, and
--     Memory/Heap the stub heap.c. Memory/Paging/Space has the calls of mapPage in sequence, and
--     Memory/Paging/Fresh and Grow the tables that allocateEntry makes.
--   * kernel/filesystem: Filesystem/File is file.c, calls through the function pointers of a node;
--     Filesystem/Initrd is initrd.c, which fills those pointers; Filesystem/Simplefs is simplefs.c.
--   * kernel/sys/io.c: Sys, the instructions that reach the hardware, and Sys/Trace, a machine that
--     keeps the history of its accesses.
--   * kernel/interrupts and kernel/gdt.c: Interrupts/Idt, Interrupts/Isr and Interrupts/Gdt.
--   * kernel/devices: Devices/Pic, Pit, Ps2, Serial, Apic, Ioapic (with ps2_keyboard.c), Pci and Ahci,
--     one file each. Drivers register handlers in the table of isr.c and mask lines at the 8259s.
--     Devices/Ahci has ahci.c in parts: Table is what runCommand writes into the command table,
--     Command the command itself, and Port the start, the stop and the rebase of a port.
--   * kernel/interfaces: Interfaces/Acpi is acpi.c; Interfaces/Madt and Interfaces/Fadt are
--     description_tables/madt.c and fadt.c, which find their tables with findHeader.
--   * kernel/process: Process/Task is task.c with the registers and stacks of switch.asm, and
--     Process/Task/Run what the two tasks do around their yields.
--   * kernel/kernel.c: Boot is the loop of _start that lists the ram disk through file.c, and
--     Boot/Tables the part before it that finds the ACPI tables and reports them. Boot/Image puts
--     initialise_initrd and the loop together, and Boot/Start has the rest of _start and the whole.
--
-- Base holds what they share: tests on numbers, bits of words, arrays, byte memory, and the index
-- that a search loop finds. A module X has its theorems in X/Laws or in files named for what they
-- prove, and its runs on concrete data in X/Tests.
--
-- Functions keep their names, in lower case with underscores: getPhysicalAddress is
-- get_physical_address. Memory is a function from addresses to bytes and a pointer is its address;
-- packed structures are read at the offsets of their members. Unsigned numbers are natural numbers
-- with the wrap-around of their width written out. The code that changes memory gets it and gives
-- it back. The drivers are actions on a Kernel record: their shared variables and the state of a
-- Machine. The machine, a parameter, is what runs beneath the C code: ports, registers, hlt, the
-- terminal of the boot loader, and the number printing on it. Sys/Trace gives the machine that
-- records each access and answers by any function of its history.
--
-- Loops with a bound in the source are structural. The loops over strings, digits, the halvings of
-- an allocation, MADT records, ticks and device status take fuel, and give `none` when it runs out;
-- for strings one more than the length is enough, for uint64toa one more than the bits of the
-- number, for itoa 33, for an allocation one more than the halvings of the entry down to a block,
-- for the MADT its length and 256, for a device one more than the looks that it takes to answer.
-- The listing has a round for each entry and one for the end.
--
-- Not modelled: the assembly files but switch.asm, interrupts that arrive while _start runs, what
-- a SATA device transfers, and limine.h, which is the boot loader's. Nodes of the ram disk are a
-- list beside memory, since they hold function pointers, so that memory does not show where they
-- are written; the arrays of the MADT are lists, and a write behind their 32 elements is an outcome of
-- its own. The C compiler's use of registers is outside the model: a switch of tasks is seen on the
-- registers that the assembly code reads and writes, and the registers and the stack at a call of it
-- are arguments, for the second task a function of the registers that it starts with.
pub mod Base
pub mod Klib
pub mod Memory
pub mod Filesystem
pub mod Sys
pub mod Interrupts
pub mod Devices
pub mod Interfaces
pub mod Process
pub mod Boot
