-- ===== src/Lib.antt =====
-- Jonix: a model of the core of the jonix kernel, a small 32-bit x86 kernel in C.
--
-- The kernel heap (lib/heap.c) is a run of blocks between boundary tags in byte memory, with an
-- index of its holes. The index is an ordered array (lib/util/oarray.c) whose comparison reads the
-- sizes of the holes (lib/util/sort.h). The heap grows by pages that lib/mem.c maps: physical
-- pages lie on two stacks, and the page tables are seen in the last 4 MB of virtual memory. The
-- text screen (lib/devs/scrn.c) and the keyboard (lib/devs/kb.c), which prints to the screen, use
-- the memory functions of lib/c/string.c. main fills the interrupt table with the entries of
-- lib/isr.c, lib/irq.c and lib/syscall.c, and mem_init builds the first page tables from the first
-- of the stacks of pages. The disks (lib/devs/ata.c) are read through ports, and lib/devs/ptbl.c
-- reads their partitions; the busmaster of a disk is found by lib/devs/pci.c. The scheduler
-- (lib/thr.c, lib/sched.c) keeps the ready threads in a list by priority, beginning with the null
-- thread that thr_init makes, and the sleeping ones in a list by time; the timer interrupt
-- (lib/time.c) and the semaphores (lib/sem.c) move threads between these lists, all of them linked
-- lists in one memory.
--
-- Base holds what the parts share: lists and tests over native numbers, byte memory as a function
-- of the address, and 32-bit words in it. The other files follow the source, one function for one
-- C function or for one named part of a long one:
--   CString         lib/c/string.c; each loop takes its rounds as fuel and returns none without it
--   Util.Sort       lib/util/sort.h, Util.OArray lib/util/oarray.c, Util.LinkedList lib/util/list.c
--   Heap            lib/heap.c and the structures of lib/mem.h: heap_alloc is scan, the loop over the
--                   index, with carve, the branch that aligns, and give, the end that splits a hole;
--                   heap_free is free_start, merge_prev, merge_next and free_end; Heap.Kernel is
--                   kmalloc, kpalloc, kpsalloc and kfree of lib/mem.c
--   Paging          the stacks of pages and the page tables of lib/mem.c; Paging.Boot is mem_init, as
--                   mem_init_paging up to the switch to paging and move_stack behind it
--   Screen          lib/devs/scrn.c and memset_w of lib/c/string.c, over 16-bit cells
--   Keyboard        lib/devs/kb.c
--   Ptbl            lib/devs/ptbl.c
--   Tables          lib/gdt.c and lib/idt.c, the entries of the descriptor tables
--   Printf          lib/c/printf.c, the output as a list of characters
--   Pci             lib/devs/pci.c; pci_search_bus is search_slots and search_funcs, its two loops
--   Io              lib/io.c, the ports as an interface
--   Irq             lib/irq.c, with the writes to the ports as a list; Irq.Timer is time_init of lib/time.c
--   Isr             lib/isr.c and lib/syscall.c, and idt_init of lib/idt.c; boot_idt is the part of main.c
--                   that fills the interrupt table
--   Ata             lib/devs/ata.c: the waits and ata_pio_lba28_read, whose loops are read_sectors and
--                   read_data; Ata.Dev is IDENTIFY and the partitions, Ata.Prdt the table of physical
--                   regions, Ata.Find the search for drives, Ata.Dma the reads by DMA
--   Threads         lib/thr.c, lib/sched.c, lib/sem.c and lib/time.c; time_irq_handler is tick_from,
--                   with wake for its loop; Threads.New is thr_new, in the parts with_stack, with_frame,
--                   with_page_dir and finish_thread, and set_page_table_entry_flags of lib/mem.c;
--                   Threads.Init is thr_init
-- The modules below them hold the proofs: Util.LinkedList.Rep says what a list head stands for,
-- and Util.LinkedList.Pair puts two lists into one memory; Ata.Drive is a drive as the ATA
-- standard has it; Threads.Spec is the abstract scheduler. Heap.Tags says what tags are, Heap.Inv
-- is the invariant, Heap.Alloc, Heap.Keeps, Heap.Scan, Heap.Extend and Heap.Find lead to
-- heap_alloc, Heap.Join, Heap.Coalesce and Heap.Free to heap_free. Heap.Place is the structure that
-- heap_place stores in memory; the operations behind it keep it as a record. Printf.Reference
-- describes the texts of numbers, sizes and conversions without the loops of the code. The Tests
-- modules hold concrete runs.
--
-- Bounds and fuel. Addresses and sizes are natural numbers; a sum that the code computes over 32
-- bits is taken modulo 2^32 where it is stored or compared. The address of a tag that is only
-- followed is not wrapped: the invariant of the heap keeps all blocks below 2^32. Counted loops
-- recurse on the rounds that are left. heap_alloc calls itself after each extension of the heap,
-- and its fuel bounds these calls; 2 are enough for a request without page alignment. The loops
-- over strings end with the NUL, and fuel beyond the length of the string is enough. olist_add
-- needs fuel beyond the length of the list, and the loop of the timer interrupt one round more
-- than there are sleepers. The waits for a disk read its status at most 1000 times, as the code
-- does, and ata_prdt_new makes at most 50 tries, so that its list has fewer nodes than the fuel of
-- its list_free. memmove downwards runs out of any fuel, since the code does not end there.
--
-- Parameters. The heap takes the pager of lib/mem.c as a record, Pager, so that it can be reasoned
-- about for every pager that leaves the bytes of the heap alone. The bytes that port 0x60 returns
-- are a list. Linked lists take kmalloc and kfree as a record, Allocator, and ptbl_parse takes
-- list_add as an argument. The PCI bus and the disks take the ports as a record, Ports; the PCI
-- bus takes the tables of names, which come from a public list, as an argument. thr_new and
-- thr_init take kpsalloc and kpalloc of lib/mem.c, and the functions of lib/util/id.c, which does
-- not compile. The disks take addr_v2p and the list of partitions as arguments. The error strings
-- (heap_err, kb_err, mem_err, pci_err, ata_err) are not kept, but for the note that the keyboard's
-- buffer was full.
--
-- Not modelled: the part of ata_dma_lba28_read that waits for its semaphores, the functions that
-- only print; the boot code and what only wraps assembly; and id.c, tid.c, hal.c, ramdisk.c, vfs.c
-- and initrd.c, which are not part of the build.
pub mod Base
pub mod CString
pub mod Util
pub mod Heap
pub mod Paging
pub mod Screen
pub mod Keyboard
pub mod Ptbl
pub mod Tables
pub mod Threads
pub mod Printf
pub mod Io
pub mod Pci
pub mod Irq
pub mod Isr
pub mod Ata
