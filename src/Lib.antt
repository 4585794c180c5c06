-- ===== src/Lib.antt =====
-- Ducko.UNIX, a small Unix for the x86 in C: its kernel's log, pipes, processes, locks, caches,
-- files and console, and some of its user programs, as functions and relations, with proofs.
--
-- The parts and how they interact. System calls (sysfile.c) work on descriptors, which point into
-- the file table (file.c); a file is a pipe (pipe.c) or an inode (fs.c). Paths are walked from inode
-- to inode (fs.c). Inodes are read and written through the buffer cache (bio.c) and, inside a
-- transaction, the log (log.c), which makes the writes of a group of calls reach the disk all or not
-- at all. Processes (proc.c) sleep and wake on channels, under spin locks (spinlock.c). Pages come
-- from kalloc.c, keys from console.c, and string.c moves the bytes.
-- A process's memory is the page tables of vm.c, which `growproc` changes and by whose size
-- syscall.c checks arguments; inodes and buffers have sleep locks (sleeplock.c). sh.c runs as a
-- program above all of it.
--
-- Which file models which part. Each directory belongs to the file above it.
--   Log       log.c: `begin_op`, `end_op`, `log_write`, `commit`, `install_trans`, `write_log`,
--             `read_head`, `write_head`, `recover_from_log`, `initlog`; of bio.c `bread` and `bwrite`
--             as the log sees them. The state is `struct log`, the disk as a function from block
--             numbers to words, the blocks in memory, and the number of writes that power is left
--             for: a write without power changes nothing. Log.Boot is any number of interrupted
--             starts and a full one.
--   Pipe      pipe.c: `pipewrite`, `piperead`, `pipeclose`, one critical section at a time, with the
--             indices as 32-bit words that wrap round. Pipe.System is every order of the sections.
--   Proc      proc.c: `allocproc`, `fork`, `exit`, `wait`, `sleep`, `wakeup1`, `yield`, `scheduler`,
--             `kill` on the list of slots of `ptable`, with what `allocproc` and `fork` store without
--             the lock as steps of their own. Proc.System is every order of them.
--   Spinlock  spinlock.c: `acquire` as its start, the turns of its loop and its store, `release` as its
--             test and its two stores, `holding`, `pushcli`, `popcli`. Spinlock.Steps is every order
--             of the steps of the CPUs.
--   Sleeplock sleeplock.c: `acquiresleep` as a turn of its loop, `releasesleep` with its wakeup,
--             `holdingsleep`. Sleeplock.Order is every order of the steps of the processes.
--   Bio       bio.c and memide.c: `bget`, `bread`, `bwrite`, `brelse`, `iderw`.
--   Fs        fs.c. Fs.Namex: `skipelem` and `namex`, over what `dirlookup` finds. Fs.Icache: `iget`,
--             `idup`, `ilock`, `iunlock`, `iupdate`, with the disk's inodes as a function.
--             Fs.FreeMap: `balloc`, `bfree`, `bzero` on the bits of the free map. Fs.Content:
--             `bmap`, `readi`, `writei`, `itrunc` on the blocks of one inode, the words of its
--             indirect block as bytes of the disk. Fs.Directory: `dirlookup` on that content. Fs.Lifetime:
--             `ialloc` and `iput`, with the cache and the content together.
--   Vm        vm.c: `walkpgdir`, `mappages`, `deallocuvm`, `allocuvm`, `freevm`, `clearpteu`,
--             `setupkvm`, `copyuvm`, on pages of words named by their addresses in the kernel, with
--             the free list of Kalloc.
--   Syscall   syscall.c: `fetchint`, `fetchstr`, `argint`, `argptr`, `argstr` on the bytes of a
--             process; `growproc` of proc.c on the address space of Vm; of sysproc.c `sys_sbrk` and a
--             turn of the loop of `sys_sleep`.
--   File      file.c: `filealloc`, `filedup`, `fileclose`; sysfile.c: `argfd`, `fdalloc`, `sys_dup`,
--             `sys_close`, `sys_pipe`; pipe.c: `pipealloc`; the loops over descriptors of `fork` and
--             `exit` in proc.c.
--   Console   console.c: `consoleintr` key by key, and `consoleread`, on the ring `input`.
--   Kalloc    kalloc.c: `kfree`, `kalloc`, `freerange`, `kinit1`, `kinit2`, with the free list as the
--             list of its addresses.
--   Str       string.c and `stosb`, `stosl` of x86.h, on memory as a function from addresses.
--   User      grep.c (the matcher), printf.c and ulib.c (`printint`, `atoi`), cal.c.
--   Shell     sh.c: `gettoken`, `peek`, `parsecmd` and what it calls, on lists of characters.
--   Prelude   what the others share: Boolean tests, lists, `Outcome` for what may panic, counted
--             loops, integers.
--
-- Conventions. A pointer into a table is an index, a null pointer is `none`, a panic is `panic`. A
-- call that would sleep returns so, and the sleeper enters its loop again. A loop is a recursion
-- on what it has left. Fuel is used by `free_pages` (one turn for each page below the end),
-- `namex_from` (a turn takes a byte of the path), `scan_blocks` (a turn covers 4096 blocks),
-- `read_loop` and `write_loop` (a turn moves a byte at least), `map_loop` and `dealloc_loop` (a
-- turn moves on by a page at least), `look_loop` (a turn moves on by an entry), `parse` (three
-- calls for each character), `redir_loop` and `back_loop` (a turn takes a character), `args_loop`
-- (one turn for each argument), `kill_line` (128, the size of the ring), `digits_from` (16, the
-- size of the buffer) and `strlen`; the theorems show that it is enough.
--
-- Bounds. Indices of rings, addresses, `nextpid` and the value of `atoi` wrap at 2 ^ 32, and the
-- theorem on pids is about runs that do not bring `nextpid` to 2 ^ 31. Reference counts and depths
-- of `pushcli` are unbounded: they stay far below 2 ^ 31. `dayofweek` wraps as
-- an `int`, and the theorem on it is about years below 1727000000, where none overflows. Entries of
-- page tables are sums of a page address and flags.
--
-- Not modelled: the calls of vm.c that move bytes, the dispatch of syscall.c and the calls of
-- sysproc.c that only pass on, exec.c, `dirlink` of fs.c, and the rest of the shell, which are for
-- later; drivers, traps, assembly and start-up, which are hardware; mkfs.c, the small programs
-- that only print, and the tests.
pub mod Prelude
pub mod Str
pub mod Kalloc
pub mod Spinlock
pub mod Sleeplock
pub mod Pipe
pub mod Log
pub mod Bio
pub mod Proc
pub mod Vm
pub mod Fs
pub mod File
pub mod Console
pub mod User
pub mod Syscall
pub mod Shell
