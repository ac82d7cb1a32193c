-- ===== src/Lib.antt =====
-- The kernel of JUDD_OS: a 32-bit teaching kernel in C with three text terminals, a read-only file system, a clock, a
-- timer and up to six processes.
--
-- The parts and how they interact. The interrupt controllers (i8259.c) gate the lines of the keyboard, the clock and
-- the timer. The clock (rtc.c) programs its chip and wakes a reader on each tick. The file system
-- (filesystem.c) reads an image in memory with the string and memory routines of lib.c. The system calls
-- (syscalls.c) reach the devices through the descriptor table of a process. Paging (paging.c) gives each process 4 MB of
-- its own and each terminal a page that leads to the screen or to a buffer. The terminals (terminal.c) write
-- to that page, and the keyboard (keyboard.c) edits the line that a process reads and switches the screens. `execute` and `halt` (syscalls.c) start
-- and end processes, the timer (pit.c) passes the processor from terminal to terminal, and the table of idt.c leads from
-- an exception, an interrupt or a system call to its handler (interrupt_handler.c, isr_wrapper.S).
--
-- Files. Prelude: Boolean tests, arrays, machine words, memory as a function from addresses to bytes.
-- Pic: i8259.c; its state is the two masks and the bytes written to ports, which `outb` appends.
-- Rtc: rtc.c and IRQ_RTC_handler of interrupt_handler.c; what a port gives is the parameter `inb`, a function of the
-- bytes written before. Block and CString: the fills, memcpy, memmove, strlen, strncmp, strcpy and strncpy of
-- lib.c, the fills and copies by the loops of their assembly. FileSystem: filesystem.c, its globals as the record
-- Fs; a dentry is an address. Task: syscalls.c and `file_read`, on the record Task; `read` and `write` are over any functions behind
-- the jump tables. Paging: paging.c; the tables are functions of the index, entries are records of bit
-- fields, and Paging.Walk is the processor's translation, which the theorems use as the specification. Terminal:
-- terminal.c, `clear` and `putc` of lib.c, on the record Console; the bytes of a screen are bytes of physical memory, found through the video
-- table. Keyboard: keyboard.c on the same record. Timer: `pit_init`, `terminal_init` and `fill_terminal_attribute` of
-- pit.c. Print: printf, itoa, strrev and puts of lib.c; what is printed is a list of characters. Process: `execute` with
-- its helpers, `halt` and `pit_handler`, on the record Kernel; a control block is found by its address, and a function that leaves
-- its stack ends with an Outcome. Process.Parse is the parser, Process.Command and
-- Process.Buffers use it on a command with or without arguments, Process.Launch follows `execute` to the start of a program, Process.Consistent what the scheduler relies on, Process.Start,
-- Switch and Tick are the three operations, Process.Steps the kernel as a step relation. Interrupts: the exception handlers, the
-- gates of idt.c (Interrupts.Gates) and the system call wrapper (Interrupts.Calls). Boot: `entry` of
-- kernel.c. Boot itself has the descriptors, Boot.Multiboot the first part, which prints what the boot loader left, and Boot.Entry the
-- initialisations in their order and the first call of `execute`, on the record Machine; Print.Total is about `printf` on any format, Print.Negative about `%d`, Task.Found about `open` on a directory. Terminal.Bump is `test_interrupts` of lib.c, which nothing calls. Each function keeps its name from the source; `open`,
-- `close`, `read` and `write` are sys_open, sys_close, sys_read and sys_write. The modules
-- below a part prove what their names say; Tests holds runs at concrete inputs, Sample the data that they share.
--
-- Conventions. An int32_t is its bit pattern, so -1 is `fail`, 2 ^ 32 - 1. Addresses are numbers without a bound, and a
-- pointer that the source never checks is taken to be one that does not run out of the address space.
--
-- Bounds and fuel. `scan` bounds the search for the end of a string and `fuel` the rounds of a loop; `none` says that the
-- bound was too small, and theorems give a bound that is enough: more than the length for strlen and strcpy, 64 for the names
-- of a directory, one round for each block and one more for read_data, a power of two above the
-- frequency for rtc_write, two rounds for execute_setup, 1025 rounds for an `execute` that loads a program and for an interrupt that
-- calls it, 12 more than the format for printf, 12 for `%d`, 140 for the messages of `entry`. `send_eoi` calls itself once, so depth 2 is enough. Waiting loops take what the interrupts do
-- meanwhile as an argument: `rtc_read` a list of ticks, `terminal_read` a function on the state.
--
-- `itoa` needs one round more than the number has digits, so 11 for a decimal and 9 for a hexadecimal 32-bit number.
--
-- The memory of Process is the one that a program sees, in which the user page is that of the process that is
-- being started; the control blocks are kept apart from it, but for the arguments and the entry point, which stand there at
-- their addresses. The program is loaded to 0x08048000 in the user page, which ends at 0x08400000; a byte behind it is a page fault, and
-- load_process then gives `none`, as `initialise` does when the boot block of the file system is not in sight. Every other address that the source uses is
-- taken to be mapped. A descriptor outside the array of a process reads as one that is open with a table that leads anywhere.
-- In the step relation of Process.Steps an `execute` that faults is no step; an `execute` that fails after its setup, and a timer interrupt
-- whose shell fails to start, are none either: the first leaves the page of the new process mapped, the second goes on with a
-- null pointer.
--
-- Not modelled: the registers that the wrappers of isr_wrapper.S save, and the frames behind a saved stack pointer; the
-- start-up assembly; an interrupt between the `sti` of `entry` and the `cli` of `execute`; the loop at the end of `entry`; the kernel's
-- own tests. Before a program runs, memory in Boot.Entry is physical memory, and `seen` is what a program sees of it. The 16-bit and 32-bit port accesses, cli and sti do not change the state that is modelled and are left out.
pub mod Prelude
pub mod Pic
pub mod Rtc
pub mod Block
pub mod CString
pub mod Print
pub mod FileSystem
pub mod Task
pub mod Paging
pub mod Process
pub mod Interrupts
pub mod Boot
pub mod Terminal
pub mod Keyboard
pub mod Timer
