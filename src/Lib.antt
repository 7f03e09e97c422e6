-- ===== src/Lib.antt =====
-- The kernel of an xv6 variant: physical memory, processes, the file system, pipes; and parts of
-- its user library and programs, with the shell.
--
-- The parts. kalloc.c keeps the free pages of physical memory; every kernel stack, page table and
-- pipe is a page of it. vm.c makes the page directories of the address spaces from these pages.
-- proc.c keeps the process table: `fork` makes a process in a free slot, `scheduler` picks one,
-- `sleep` and `wakeup` block it on an address and release it, `exit(status)` ends it, and
-- `wait(&status)` of its parent takes the status and frees the slot. log.c groups the block writes
-- of system calls into transactions on the disk: `begin_op` and `end_op` enclose a call,
-- `log_write` records a block, `commit` writes the log, its header, the blocks at home and an
-- empty header, and `initlog` recovers after a crash. pipe.c is a byte queue between processes
-- that sleeps and wakes through proc.c. string.c has the string routines that the others use.
-- spinlock.c keeps the processors apart, file.c counts the references to open files, and syscall.c
-- reads the arguments of system calls from the user's stack. fs.c lays files out in blocks: a
-- bitmap of the blocks in use, inodes with the addresses of a file's blocks, and a cache of inodes
-- with reference counts; each change of a block is recorded by `log_write` of log.c. bio.c keeps
-- the buffers of blocks in a ring, the most recently used first. ulib.c and printf.c are the
-- library of user programs, and grep.c is one of them, with a matcher. sh.c is the shell: it
-- parses a line into a tree of commands, runs it in a child process, and keeps a list of jobs,
-- each with the list of the processes that the child reported.
--
-- The files. Prelude passes on library names; Prelude/Tests has Boolean tests, Prelude/Lists lists
-- over native numbers and searches through them, Prelude/Results the outcome of a kernel routine:
-- a value, `panic`, or fuel that ran out, and Prelude/Rounds what comes of loops that have enough.
-- Kalloc is kalloc.c, function by function; Kalloc/FreeList states what it does to the set of free
-- pages.
-- Str is the part of string.c on strings, and Str/Copy reads its arrays as C strings; Str/Memory
-- is the part on blocks of memory, and Str/Blocks says what they hold.
-- Proc/Table is `struct proc`, `ptable` and the loops of proc.c over it (`allocproc`, `wakeup`,
-- `kill`, `pstat`), Proc/Birth `userinit`, `growproc` and `fork`, Proc/Life `sleep`, `yield`,
-- `sched`, `scheduler`, `wait` and `exit`. The proofs: Proc/Wakeup for single slots,
-- Proc/Scheduler, Proc/Wait, Proc/Exit, Proc/Handover for exit followed by wait, Proc/Copying
-- and Proc/Forking for fork. Proc/Step is the table as a state machine, Proc/Quiet and Proc/Cases
-- say what a step does to a slot, Proc/Pids has the invariant, and Proc/Births shows that the
-- tables that `userinit` and `fork` leave are reached by such steps.
-- Log is log.c with `bwrite` of bio.c; Log/Phases has one lemma per loop, Log/Crash the commit
-- under a power failure, Log/Recover the recoveries that follow, Log/Ops `log_write` and
-- `begin_op`.
-- Pipe is pipe.c; Pipe/Queue takes it as a queue of bytes, Pipe/Wake is about its wakeups.
-- File is the table of file.c with its reference counts; File/Counts relates them to the handles.
-- Spinlock is spinlock.c; Spinlock/Exclusion interleaves the processors, Spinlock/Cli nests
-- `pushcli`.
-- Syscall is syscall.c without the dispatch, and `sys_kill` and `sys_pstat` of sysproc.c;
-- Syscall/Bounds states what a checked argument guarantees.
-- Fs/Store is the part of fs.c on blocks, Fs/Inode inodes on the disk, Fs/ReadWrite the part on
-- one locked inode, from `bmap` to `writei`, Fs/Cache the inode cache, Fs/Path the elements of
-- path names, Fs/Directory `dirlookup`, `dirlink` and `namex`. The proofs: Fs/Room for the space
-- in the log, Fs/Bits, Fs/Bitmap for `balloc`, Fs/Freeing for `bfree`, Fs/Dinode for inodes on the
-- disk, Fs/Content for `readi`, Fs/Writing for `writei`, Fs/Entries for the inode cache, Fs/Lookup
-- for `dirlookup`, Fs/Ends, Fs/Walks and Fs/Namex for the loops.
-- Bio is bio.c; Bio/Ring takes the links of the buffers as a list, Bio/Lookup states what `bget`
-- and `brelse` do to it.
-- Ulib is the part of ulib.c and printf.c on strings and numbers; Ulib/Numbers has `printint` and
-- `atoi`.
-- Grep is the matcher of grep.c; Grep/Pattern says what a pattern means, Grep/Match that the
-- matcher decides it.
-- Vm is the part of vm.c that makes page tables, Vm/Spaces the part on user memory. Vm/Tables says
-- what a directory maps and what pages it has; Vm/Bits has the lemmas on `|`, Vm/Entries writes of
-- an entry, Vm/Fresh a new table, Vm/Walk `walkpgdir`, Vm/Mapping and Vm/Loop the loop of `mappages`,
-- Vm/Maps `mappages`, `uva2ka` and `allocuvm`.
-- Console is the input ring of console.c, with `consoleintr` for one byte; Console/Editing states
-- what each key does to the line.
-- Sh is sh.c: Sh/Lexer has `gettoken` and `peek`, Sh/Parser the functions from `parsecmd` to
-- `nulterminate`, Sh/Jobs the lists of jobs and processes, Sh/Commands `clearJobList` and the body
-- of the loop of `main`. The proofs: Sh/Words for tokens, Sh/Strings for `nulterminate`, Sh/Parsed
-- for the parser, Sh/Chains, Sh/Unlink, Sh/Zombies and Sh/Losses for `clearZombieProcesses`,
-- Sh/Resume for `fg`, Sh/Making for `getJob`, Sh/Received for the pids of a job, Sh/Started for
-- the start of a job. The memory of the shell is a store of jobs, one of processes, and the bytes
-- of the texts of commands, with the size of the block of each text; where the byte behind a block
-- belongs to another object, what a write there does to that object is not followed.
-- Each Tests module has runs at concrete inputs.
--
-- Names. A definition has the name of the C function or type; a part of a function that is a loop
-- or a branch has a name of its own, and its comment says which. A pointer to a slot of the
-- process table is the slot's index, a NULL pointer `none`; other pointers are numbers. A `uint`
-- is a natural number with its wrap-around written out, an `int` its bit pattern where it can
-- wrap.
--
-- Sleeping. `namex`, which can sleep for the lock of an inode on its way, then comes to `asleep`
-- with the inode, the rest of the path and the element, from where a round of `ilock` and then
-- `walk_reply` go on.
--
-- Locks. What runs between the acquisition of a lock and its release, or up to the `sleep` that
-- releases it, is one step. `sleep` is split at the switch to the scheduler: `sleep_start` before,
-- `sleep_end` after. An interleaving is a sequence of `Step`s; what a process writes to its own
-- slot, or to an EMBRYO that it fills, is a step too. What makes one step of a critical section is
-- the mutual exclusion of spinlock.c, which is modelled by itself, with `acquire` and `release`
-- split at each access to the lock; that the components rest on it is not proved.
--
-- The disk. A write of one block happens or does not. `power` counts the writes that still reach
-- the disk; at 0 the machine goes on, but nothing it does is kept. A reboot starts with the cache
-- equal to the disk. The cache never evicts a dirty block, and the superblock is an argument of
-- `initlog`.
--
-- The blocks. In fs.c a buffer belongs to its caller from `bread` to `brelse`, so a `Store` has
-- the data of each block, and a change of a buffer and its `log_write` are one step,
-- `write_logged`. The blocks of Fs and the disk of Log are not connected: a `Store` is what the
-- buffer cache holds.
--
-- Fuel. The loop of `freerange` runs on `vend / 4096 + 1` rounds: each round moves the address by
-- a page and stops above `vend`. The outer loop of `balloc` has `size / 4096 + 2` rounds, as each
-- moves by 4096 blocks and it stops at `size`; the loops of `readi` and `writei` have `n + 1`, as
-- each round takes a byte at least; the search of a directory has `size / 16 + 2`, as an entry has
-- 16 bytes; the loop of `namex` has one more than the path has bytes, as each round takes a byte
-- at least; the loops of `bget` have NBUF + 1, one more than there are buffers; the loops of the
-- shell's parser have one more than the line has bytes, as each round takes a byte, and those over
-- its lists are given a number of rounds, which is enough if it is above the length; the loop of
-- `mappages` has the number of its pages, those of `allocuvm`, `deallocuvm` and `copyuvm` have two
-- more than the size has whole pages, as each round moves by a page at least; the
-- copy of a line by `getJob` has one more than the line has bytes; the loop of
-- `printint` has 32, the digits of a `uint` in base 2. All other loops are recursion on a list or
-- a count.
--
-- Arguments. `kernel_end` and `data`, the end of the kernel's text, are set by the linker. What
-- proc.c calls of vm.c, file.c and fs.c, such as `copyuvm`, `freevm`, `allocuvm`, `filedup`,
-- `fileclose`, `idup` and `iput`, are arguments of the functions that call them, with results that
-- can be panics, as those of Vm/Spaces can; so are `pipeclose` and `iput` in File. What `malloc`
-- returns is an argument of the shell's functions. The entries of `devsw` are arguments of `readi`
-- and `writei`, and `iderw` is one of `bread`.
--
-- Not modelled: of vm.c, `inituvm`, `loaduvm` and `copyout`, which write bytes into pages, and the
-- registers; `iinit` of fs.c, the reads and writes of file.c, traps, the dispatch of system calls
-- and the calls of sysfile.c, exec.c, the output of the console and the other drivers, the boot
-- code, the assembly, mkfs.c and the user programs but the matcher of grep.c and the parser and
-- jobs of sh.c (not `runcmd`, `getcmd`, `printAllJobs` and the calls of `pipe`, `fork`, `close`);
-- the rest of ulib.c and printf.c, and umalloc.c; of proc.c, `pinit`, `forkret` and `procdump`,
-- which initialise or print; of pipe.c, `pipealloc`.
pub mod Prelude
pub mod Kalloc
pub mod Str
pub mod Proc
pub mod Log
pub mod Pipe
pub mod File
pub mod Syscall
pub mod Spinlock
pub mod Grep
pub mod Fs
pub mod Bio
pub mod Ulib
pub mod Sh
pub mod Vm
pub mod Console
