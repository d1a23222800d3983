-- ===== src/Lib.antt =====
-- A model of the core of the open98 kernel, a small operating system in C.
--
-- The parts, all under ntoskrnl/. The page allocator mm/pmm.c hands out physical pages. The
-- scheduler ps/sched.c shares the processor among the threads that ps/ps.c creates, one turn to
-- each timer interrupt. The FAT32 driver drv/filesystem/fat32/fat32.c stands on the sector
-- transfers of drv/filesystem/ata.c and the partition table of drv/filesystem/partition.c. File
-- streams, drv/filesystem/fat32/file.c, read the files of a volume, and the file handles of
-- fsrtl/drive.c open and read streams. mm/vmm.c keeps the page tables, in pages of the page
-- allocator. drv/ustar/ustar.c finds the files of an archive in memory, and ntuser/elf.c checks
-- an image. The keyboard and mouse handlers, drv/keyboard.c and drv/mouse.c, turn the bytes of
-- the interrupts into characters and cursor positions; the mouse moves the windows of mod/wm.c.
-- ke/mutex.c and ke/clock.c serve the others.
--
-- - Common: comparisons, 32 bit words, lists, counted loops and checks by evaluation that the
--   parts share.
-- - Pmm models mm/pmm.c: the bitmap as memory seen from its pointer (Pmm.Bits), runs of pages
--   (Pmm.Range), the search for a free page (Pmm.Search), pmalloc and pcalloc (Pmm.Alloc),
--   MmInitializePmm (Pmm.Boot).
-- - Sched models ps/sched.c and PspCreateThread of ps/ps.c: PsLoadTask and the shape of the
--   queue (Sched.Inv), the loops of PsScheduleThreads (Sched.Loops), turns (Sched.RoundRobin),
--   new threads (Sched.Threads). The task whose registers pop_regs loads is part of the result.
-- - Fat models fat32.c: sectors (Fat.Sector), mounting and the table's way to the drive and
--   back (Fat.Volume), clusters (Fat.Cluster), FatAllocCluster, FatZeroFatChain and
--   FatGetFreeClusters (Fat.Table), long names (Fat.LongName), the entries of a file with its
--   short name (Fat.Entry), FatLocateEntries, FatReadFile and FatWriteFileImplementation
--   (Fat.File), directories with FatPopulateDir, FatDeleteFile and FatMakeDirectory
--   (Fat.Directory). A drive is a function from sectors to bytes.
-- - Stream models file.c: fread (Stream.Whole for a file read at once, Stream.Sequential for
--   one read after another) and fopen with the walk along a path (Stream.Open). Stream.Handle
--   models drive.c: NtCreateFile, NtReadFile, NtWriteFile and NtClose.
-- - Heap models mm/heap.c, the hooks by which the vendored allocator takes pages and gives them
--   back.
-- - Vmm models mm/vmm.c: bytes and words of memory (Vmm.Memory), the four levels of tables
--   (Vmm.Tables, Vmm.Level, Vmm.Fresh, Vmm.Walk), the map from pages to entries that they stand
--   for (Vmm.Space, Vmm.Refine, Vmm.Run), MmInitializeVmm and vmm_create_new_pagemap
--   (Vmm.Kernel).
-- - Ustar models drv/ustar/ustar.c: sizes in octal (Ustar.Size), the walk over the headers
--   (Ustar.Walk), the lookups by name (Ustar.Find). Elf models getelf of ntuser/elf.c.
-- - Keyboard models drv/keyboard.c: the modifier keys (Keyboard.Modifiers) and KiUniToAscii
--   (Keyboard.Layout), over the scan codes of drv/drv.h (Keyboard.Keys).
-- - Mouse models drv/mouse.c: packets (Mouse.Packets) and the cursor (Mouse.Position). Dwm
--   models the table of windows of mod/wm.c.
-- - Utill models functions of lib/utill.c and lib/string.c: strings (Utill.Strings), copies
--   (Utill.Copy), numbers in decimal and octal (Utill.Numbers), tokens, search and comparison
--   (Utill.Text). Mutex models ke/mutex.c as calls of several threads on one word; Clock models
--   ke/clock.c over the CMOS registers.
--
-- Numbers are naturals with the wrap-around written out; an INT is the number of its two's
-- complement. Pointers are offsets into memory, and memory is a function, so an access past the
-- end of a buffer meets what lies there. Counted loops are structural recursion on the rounds
-- that are left. The other loops have fuel. FatZeroFatChain has two tests more than there are
-- entries below the end mark, and each round zeroes one of them; FatReadFile has as many rounds
-- as there are such entries, and a chain that is longer is a cycle; the loop over long entries
-- has the bytes of the cluster; the string functions have any fuel. fread has one round more
-- than there are bytes to read, and each round but the last passes a whole cluster; the walk
-- along a path, the loops over the clusters of a directory and the loops over digits have any
-- fuel, and the theorems say how much is enough. KeTryAcquireMutex and the search of
-- FatLocateEntries over clusters have any fuel, since they may run for ever. A result of none
-- is a loop that does not end, a halt, a null pointer or a function that ends without its
-- value, as each definition says.
--
-- Parameters stand for what the kernel takes from elsewhere: the results of malloc, the memory
-- that it finds, the boot loader's memory map, port reads, and the value a caller meets when a
-- function ends without one. Not modelled: port protocols, interrupt and system call dispatch,
-- drawing, printed messages, the vendored allocator and printf, the listings of archives and
-- sections, PCI and ACPI.
pub mod Clock
pub mod Common
pub mod Dwm
pub mod Elf
pub mod Fat
pub mod Heap
pub mod Keyboard
pub mod Mouse
pub mod Mutex
pub mod Pmm
pub mod Sched
pub mod Stream
pub mod Ustar
pub mod Utill
pub mod Vmm
