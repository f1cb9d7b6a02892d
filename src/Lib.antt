-- ===== src/Lib.antt =====
-- AdvancedOS, a small 32-bit protected-mode kernel in C. Almost all of its code stands in header
-- files under include/, which kernel.c includes. This library models the parts that decide what the
-- kernel does, and proves what makes them correct.
--
-- The parts. `Task` models include/task.h: `proc_list` is a function from the slot to the process, a
-- pointer into it is the slot's number, and NULL is `none`. A handler is a function from the kernel
-- to a run, which returns to its caller, leaves the kernel through `restart_proc` with the registers
-- that it loads, enters the shell's loop for good, or uses NULL. Task.Table has the table and
-- `proc_pick`, Task.Switch the switch and the timer, Task.Life fork, wait, exit and kill. `Sem`
-- models include/semaphore.h, `Syscall` interrupt 0x80 of include/syscall.h with its entry stub in
-- kernel_entry.asm, `Thread` interrupt 0x81 of include/systhread.h. They share the state `Kernel` of
-- Task.State. `System` puts the entries together: a `Call` is one way into the kernel, and
-- `exec_calls` runs a sequence of them in any order. `Pic` and `Pit` give the port writes of
-- include/pic.h and include/pit.h. `Memory` has the memory that these parts and the disk driver
-- share. `Ide` models the transfers of include/ide.h; the disk is a parameter. `Fat` models
-- include/fat12.h over it: the allocation table as a function of the cluster, its packed form, and
-- the chains; Fat.Entry has the directory entries as bytes of memory, Fat.Volume the operations on
-- the current directory, with the state `Volume`, and Fat.Listing the display of a directory.
-- `Sysfile` models the files of include/sysfile.h over it, with the dispatch of interrupt 0x82 in
-- include/syscall.h. `Cstr` models include/string.h on lists of characters, `Gdt` the tables of
-- include/gdt.h, include/idt.h and include/tss.h, `Console` the screen of include/stdio.h and the
-- switching of include/terminal.h, `Format` the formatted output and input of include/stdio.h over
-- it, `Exception` the handlers of include/exception.h, `Keyboard` the handler of include/keyboard.h
-- with the table of include/scancode.h. `Elf` and `Exec` model the loader of include/elf.h and
-- include/user.h, `Terminal` the start and the prompt of include/terminal.h, `Shell` the rounds of its
-- loop, `Info` a message of include/task.h, `Hal` the start of include/hal.h with the interrupt
-- table, and `Start` kernel.c. `User` stands above the kernel: User.Api models the stubs of
-- include/api.h, include/pthread.h and include/file.h by the registers that they set and the
-- interrupt that they raise, and the other modules the programs under usr/: `Bank`, `ProCon`,
-- `Fruit`, `Matmal` and `Hello` the steps of their processes or threads in any order, `File` the
-- `main` of usr/file.c over the stubs and `Sysfile`, and `Letters` the counting of usr/fork.c.
-- `Base` is shared. `Examples` applies the theorems to concrete data.
--
-- The correspondence. Definitions have the names of the functions, structures and constants that
-- they model; a part of a function that is a definition of its own says so in its comment. Numbers
-- are bit patterns of their C types, with the wrap-around written out: `u32` and `u8` in Memory,
-- `is_negative` and `int_div` where an `int` has a sign. An array index that the source does not
-- check is a fault where the model has faults, as a semaphore number from 100 on in `check_sem` or a
-- path that is too long for `curr_path` in `set_curr_path`.
--
-- The programs with several processes share their globals, since a fork copies the stack alone and
-- there is no paging. An order of their steps is a list of the processes that make a step; a step is
-- one access of a global, one call or one message. The semaphores of these programs are their
-- values, and a process that is stopped at one of them stands so in its place: each of them stops at
-- most one process at a time, so that the queue of `do_sem_p` has at most one.
--
-- Bounds and fuel. Scans of `proc_list` and `sem_list` go over all 20 and 100 slots. The loops that
-- follow a chain of clusters have fuel, one unit for each cluster; the theorems say that the length
-- of the chain is enough. `itoa_digits` has room for the 32 characters of its buffer, which is
-- enough for every base from 2 on. The loops of `printf` and `sprintf` have a unit of fuel for each
-- character of the format. A directory operation takes the fuel of the chains that it follows. Where
-- a result is an `Option`, `none` stands for a lack of fuel, for a use of NULL and for a buffer that
-- overflows; each module says which of them it has.
--
-- Not modelled: assembly (bootloader.asm, the port instructions of include/io.h, and kernel_entry.asm
-- but for the entries of the interrupts 0x80 and 0x81), usr/fork2.c, whose eight processes print, and the joins
-- and the output of usr/matmal.c and usr/hello.c. Busy waits of the disk (`waitdisk`) and `sleep` are
-- left out; `getchar` is modelled for a sequence of keyboard interrupts, and `getline` takes the
-- characters that are typed as an argument. `fat12_alloc` takes the `int` size of a file as a bit pattern, so that a negative size is not that
-- of the code. The address of a static object is a field of `Layout` or
-- an argument. The terminals of `Console` and the two terminal numbers of `Kernel` are separate
-- states, and so is the memory of `Kernel` except in `Exec`: the copies of `do_fork` and of the threads
-- do not reach `proc_list` or `sem_list`, whatever the addresses are.
pub mod Base
pub mod Memory
pub mod Pic
pub mod Task
pub mod Sem
pub mod Syscall
pub mod Thread
pub mod System
pub mod Ide
pub mod Fat
pub mod Cstr
pub mod Gdt
pub mod Console
pub mod Format
pub mod Exception
pub mod Hal
pub mod Sysfile
pub mod Elf
pub mod Terminal
pub mod Exec
pub mod Shell
pub mod Start
pub mod User
pub mod Info
pub mod Keyboard
pub mod Pit
pub mod Examples
