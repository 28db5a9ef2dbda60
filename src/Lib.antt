-- ===== src/Lib.antt =====
-- A model of the operating system under student-distrib, with the theorems that make it correct.
--
-- Parts. The kernel starts in kernel.c, sets up the interrupt table (idt.c), the interrupt
-- controllers (i8259.c), the clock (rtc.c), the keyboard (kb.c) and paging (paging.c), and runs one
-- shell on each of three terminals (terminal.c). Programs call it through the ten system calls of
-- systemcall.c, which find files by file_sys.c and print by lib.c; the timer of schedule.c shares the
-- processor between the terminals. The programs themselves are under syscalls.
--
-- Base holds what the modules share: tests on the native numbers, lists indexed by them, signed
-- integers, arrays as functions, and `for_range` for the counting loops. The others model:
--   Memory     the block operations of lib.c; memory is a function from addresses to bytes
--   Port       inb and outb of lib.h; the devices are a parameter, the accesses a log
--   CString    the string functions of lib.c; a string is the list of bytes up to the end of its
--              object, and reading past that end is `none`
--   Screen     the console of lib.c: video memory, cursors, row ends; Screen/Printf is printf
--   FileSys    file_sys.c: Image the file system image and its lookups, Descriptors the operations
--              on the global descriptor array
--   Pic, Rtc   i8259.c and rtc.c, as the accesses they make
--   Paging     paging.c, with the mappings of systemcall.c and schedule.c
--   Terminal   terminal.c, and clear_buffer of kb.c
--   Keyboard   the interrupt handler of kb.c
--   Process    systemcall.c: Calls read, write, open (`sys_open`) and close; Memory getargs and
--              vidmap; Program the command line and the file that it names; Life
--              execute and halt; Status the status that a parent sees, Opening the call open,
--              Ownership and Halting a process from its start to its end
--   Idt        init_idt of idt.c; Exceptions its exception_handler
--   Scheduler  schedule.c: Turns how the terminals take turns, Display the mappings, Registers
--              the stack registers
--   Boot       entry of kernel.c: Report what it prints, Setup the initialisations, Masks the
--              interrupt lines they enable, Ready the state they leave
--   Os         the kernel as a whole: the interrupt handlers, the exceptions, the calls and whatever
--              programs do to memory are steps of one machine (`Step`), in any order (`Reach`);
--              Sane says what holds between them, Steps that each keeps it, Reachable what follows
--              from the start on
--   UserLib    the string functions of syscalls/ece391support.c
--   UserProg   the programs cat, ls, shell, counter, hello, testprint, grep and syserr of syscalls,
--              over a record of the system calls; OnKernel fills that record with the calls of Process,
--              and has the test of the number in systemcall_wrapper.S;
--              Stream says what a program relies on that reads a file and prints; SysErr/Expected what
--              the tests of syserr expect, SysErr/Served that the kernel does it; Desk is the kernel
--              with a user who types lines, on which the shell and counter run
-- State is passed explicitly: each operation takes the record of the globals it changes and returns
-- the new one. Functions keep the names of the source; fileSystem_init is `file_system_init`.
--
-- Integers. Unsigned 32-bit and 8-bit values are natural numbers with their wrap-around written out
-- where the source can reach it; an int32_t argument or result is a `ℤ`. A block of memory is
-- assumed not to run past the end of the 32-bit address space.
--
-- Failure. `none` is what C leaves undefined, a read outside of an object or through a null
-- pointer, and a wait that never ends. Uninitialised variables are arguments.
--
-- Fuel. `itoa_loop` has the number itself as its fuel, which is enough for every radix from 2 on,
-- as CString/Number shows. `strlen_at` in `put_name` has one more than the length of the name,
-- whose terminator ends it. `string_at` in `getargs` has 129 bytes, the longest command with its
-- terminator. The waits of rtc_read and terminal_read recurse on the list of what happens while
-- they wait. `cat_loop` and `ls_loop` have one round for each read; as many rounds as the file
-- has bytes and one more are enough for cat. `shell_loop` has a round for each line that is typed
-- up to `exit`, and `counter_loop` one for each number. `print_maps` has a round for each byte of
-- the memory map and one more, since each entry has at least the four bytes of its size field. A
-- program that runs out of its rounds has the result `none`; `lines_loop` of grep has 1025, one for
-- each byte of its array. The loops of syserr have as many rounds as its `for` loops.
--
-- Steps. A step of Os is one handler or one call as a whole. The gate of the calls leaves interrupts
-- on, so that on the machine one may come in the middle of a call; the model has this only
-- where a call waits: terminal_read has the list `arrivals` of the changes to the console that come
-- meanwhile, each of which must keep the console in its bounds (`Tame`), as the keyboard's
-- handler does, and rtc_read has the list `ticks`. A timer interrupt in such a wait, which changes
-- the running process and the mappings, is not represented. The registers, the stack and the
-- devices may hold anything at each step.
--
-- Not modelled: boot.S and x86_desc.S, the assembly that saves registers, the loading of control
-- registers, the tests and the first `execute` of kernel.c, the programs pingpong and sigtest, the
-- emulation of the calls on a host, and the demonstration under fish. Jumping to user
-- space and back is an `Ending` of execute and halt. The control block of a process is found by its
-- number, not by its address, so what a stack that overflows does to it is outside of the model.
pub mod Base
pub mod Memory
pub mod Port
pub mod CString
pub mod Screen
pub mod FileSys
pub mod Pic
pub mod Rtc
pub mod Paging
pub mod Terminal
pub mod Keyboard
pub mod Process
pub mod Scheduler
pub mod UserLib
pub mod Os
pub mod UserProg
pub mod Boot
pub mod Idt
