-- ===== src/Lib.antt =====
-- au_os, a small kernel for x86-64 in C. This library models the parts of the kernel that keep data
-- structures: the lists, the red-black trees, the boot allocator, the page allocator, the object
-- caches and the heap over them, the scheduler, mutexes and conditions, and the RAM file system;
-- and the C library of the kernel, with its character classes, its numbers as text and its
-- formatted output. Each C function is a definition of the same name where one is possible, by
-- explicit state passing: a function takes the state that it reads and gives the state that it
-- leaves.
--
-- The parts, from the bottom up. Paths are from the root of the repository.
--   Prelude       shared notation, lists with native lengths, words, and bit operations read bit by
--                 bit (Prelude/Bits).
--   LinkedList    list.c and list.h: list_add, list_del, list_splice and the rest over a store of
--                 next and prev fields. LinkedList/Chain says when a store holds a list, and
--                 LinkedList/Laws and LinkedList/Splice relate each operation to one on values. The
--                 other parts use lists as values.
--   Rbtree        rbtree.c and rbtree.h: trees over a store of nodes. The functions that the
--                 source has twice, with left and right exchanged, have a side as an argument:
--                 rotate is rb_rotate_left and rb_rotate_right, neighbour is rb_next and rb_prev.
--                 Rbtree/Shape says when a store holds a tree. Rbtree/Risen and Rbtree/Turned have
--                 a rotation link by link, Rbtree/Rotate as a change of the tree. Rbtree/Colour
--                 has the colours and the black heights, Rbtree/Recolour, Rbtree/Straight and
--                 Rbtree/Inner the three branches of rb_insert, Rbtree/Mended and Rbtree/Insert
--                 its loop, Rbtree/Restored the whole, Rbtree/Planted and Rbtree/Linked are about
--                 rb_link, and Rbtree/Added has both together. Rbtree/Sequence has the order of
--                 the nodes in both directions, along which Rbtree/Neighbour walks; Rbtree/Balance
--                 is about the depth. Rbtree/Erase is rb_erase and rb_erase_fix.
--   Balloc        balloc.c: the allocator at boot. insert_range is __balloc_add_range, whose BUG_ON for
--                 a node that is missing is in add_range; remove_range is __balloc_remove_range,
--                 alloc_range is __balloc_alloc. A red-black tree is read as the sequence of its nodes.
--                 Balloc/Place has the order of ranges, Balloc/Cover the addresses that they cover,
--                 Balloc/Search and Balloc/Carve the search and what is put back of a range, Balloc/Setup
--                 the table of the boot loader.
--   PageAlloc     memory.c: the buddy allocator. A zone is a record of its frames, the flags of its
--                 pages and a free list for each order. __page_alloc_zone is find_order, alloc_at and
--                 split; __page_free_zone is merge and put; __page_alloc_zone_free, which hands a
--                 range of memory to a zone, is free_blocks; zone_setup, zone_find, page_alloc and
--                 page_free search the zones. PageAlloc/Inv has the invariant of a zone,
--                 PageAlloc/Flags the bits of the flags, PageAlloc/Blocks the arithmetic of blocks.
--   Slab          alloc.c, its lower half: the layout of a pool (layout_setup is
--                 mem_cache_layout_setup), its bitmap, pool_create, pool_alloc and pool_free
--                 (mem_pool_create, mem_pool_alloc, mem_pool_free), and ffs. Slab/Slots reads a
--                 bitmap as a set of busy slots, Slab/Pools says when a pool is in order.
--   MemCache      alloc.c, its upper half: cache_alloc and cache_free are __mem_cache_alloc and
--                 __mem_cache_free, with their moves between the lists of free, partly used and busy
--                 pools; cache_shrink, cache_release; and in MemCache/Heap mem_alloc, mem_free and
--                 mem_realloc. MemCache/Inv has the invariant of a cache. The caches see the page
--                 allocator through an interface, PageSource, of two operations.
--   Threads       threads.c, threads.h and spinlock.c: the states of threads, the queue of ready
--                 threads, schedule_now (__schedule) and its callers, thread_activate and
--                 thread_exit. Threads/Inv and Threads/Reach have the invariant and the steps,
--                 Threads/Fair the turns that threads take.
--   Mutex         mutex.c, mutex.h, condition.c and condition.h: mutex_lock, mutex_unlock,
--                 condition_wait, condition_signal and condition_broadcast over the scheduler.
--                 Mutex/Exclusion runs them in any order and keeps the threads that are through
--                 mutex_lock, Mutex/Owned has the branches of the two calls, Mutex/Blocked and
--                 Mutex/Conditions say who is blocked. A call that blocks ends with the switch to another thread.
--   Ramfs         ramfs.c: the tree of entries. The search is ramfs_find, find_recursive
--                 (ramfs_find_recursive), find_with_name (fentry_list_find_with_name); creation is
--                 ramfs_create_file, fentry_create, add_child (fentry_list_add); Ramfs/Files has
--                 ramfs_mkdir, ramfs_open, ramfs_close, ramfs_read and ramfs_write. Ramfs/Inv has the
--                 invariant of the tree, Ramfs/Find the search, Ramfs/Grown and Ramfs/Create the growth
--                 of the tree, Ramfs/Open and Ramfs/Contents the files.
--   Ctype         ctype.c: the table of classes and its functions.
--   Stdlib        stdlib.c: strtoul, ulltoa and lltoa with their variants, which give `none` for a base
--                 outside 2 to 36. Stdlib/Numeral says what a numeral is.
--   Printf        print.c: decode_format, __vprintf as vprintf_with, over a sink that is serial_out or
--                 str_out; vprintf and vsnprintf. Printf/Pieces is about the formats, Printf/Buffer
--                 about the buffer of vsnprintf.
--   Text          string.c, and of initramfs.c the padding and the numbers of a header: str_compare,
--                 strlen, memset, digit_to_char, char_to_digit, atoi, pad4 and cpiotoi. memcpy is store_at of
--                 Printf. Text/Numerals is about atoi and cpiotoi, whose loops are one, sum_digits.
-- The Tests modules hold concrete runs.
--
-- Conventions. Numbers are naturals; where the C code computes on 32 or 64 bits and may wrap, the
-- remainder is written out, and where a statement rests on there being no wrap, its bound is a
-- hypothesis. BUG and BUG_ON, which stop the machine, give `none` or the outcome `bug`. An address
-- names a block of memory; physical and virtual addresses, which differ by a constant, are one.
--
-- Loops are structural where the C code counts, and otherwise recursion on fuel: ilog2 has 64
-- rounds, which suffice up to 2 ^ 64; the search for a byte and a bit in ffs has 8 each, as in the
-- source; splitting and merging blocks count the orders between the current one and the last;
-- free_blocks has the number of frames as fuel, of which each round uses one at least; the size of
-- a list has the length of the chain; pad4 has 4 rounds. The search of the RAM file system has as
-- many levels as there are entries, since a child is younger than its parent; ulltoa has 64 rounds,
-- enough for 64 bits from base 2 on; __vprintf has the length of the format, of which each round
-- takes a character at least. The loop of rb_insert goes up two levels in each round, so the size
-- of the tree is fuel enough, as it is for the walks of rb_next and rb_prev, which go one way. The
-- loop of rb_erase_fix gives `none` without fuel.
--
-- Not modelled, with the reasons. Locks of the allocators are left out: they disable interrupts
-- around an operation, so operations do not interleave. The contents of objects and pages are left
-- out: the allocators do not read them. The stacks of threads and the switch in switch.S are left
-- out: a switch is what the next thread does first. Port and console output, the descriptor tables,
-- system calls, the interrupt controller and the entry code access the machine only. Page tables
-- and the walk over the archive of the initial RAM disk have no model here. Of the RAM file system,
-- fentry_release, which nothing calls, and ramfs_readdir, which prints, are left out. The
-- directories 1 and 2 are separate programs.
pub mod Balloc
pub mod Ctype
pub mod LinkedList
pub mod MemCache
pub mod Mutex
pub mod PageAlloc
pub mod Prelude
pub mod Printf
pub mod Ramfs
pub mod Rbtree
pub mod Slab
pub mod Stdlib
pub mod Text
pub mod Threads
