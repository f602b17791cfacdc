-- ===== src/Lib.antt =====
-- The core of moon_in_water, the C library under moon_code: the ring buffer, the AVL tree, the
-- heap, the status words that count users, the pipe between two objects, the double lists, the
-- hash table, the thread pool, the single timer, and of the shared memory the tables of blocks,
-- the packets' lists of changes, the merge of a version and the data that two hosts exchange, as
-- functions and step relations with theorems about them.
--
-- How the parts interact in the program: objects are shared by reference counts; a status word
-- (moon_code/common/src/moon_common.h) lets users in until it is closed and then has the object
-- torn down by the last one. A pipe (moon_code/common/src/moon_pipe.c) joins two objects and tells
-- one when the other goes, with such a word of its own. The timer, the sessions and the addresses
-- of shared memory are kept in AVL trees (moon_code/common/src/moon_avltree.c). The thread pool
-- (moon_code/network/src/moon_pthread_pool.c) hands its tasks to the worker threads through a ring
-- (moon_code/ring_buffer/src/ring_buffer.c). The shared memory (moon_code/sync/src/moon_runtime.c)
-- keeps a table of its blocks by id and one by address; a change goes to the other side as lists
-- of deleted, written and new blocks in numbers of variable length, with pointers as ids with
-- offsets, and the other side merges it into a new version; each side knows the layout of the
-- types of the other (moon_code/sync/src/shell/append.c). Here each part is a module of its own;
-- the pool sees the ring only by what its calls return.
--
-- Files and code:
-- - Prelude: numbers of 32 bits with their wrap-around written out, integers, Boolean tests, lists
--   by index.
-- - Ring: moon_code/ring_buffer/src/ring_buffer.c. Ring holds the state, ring_new, ring_close and
--   the counts; Ring/Memory memcpy with its bounds; Ring/Time the timeval functions; Ring/Read and
--   Ring/Write one round of ring_read and ring_write under the mutex and the loops of rounds; the
--   other files below Ring are proofs. A wait is a value: a list of wakes says what the other
--   threads left, and a loop that has no wake left is still waiting.
-- - Avl: moon_code/common/src/moon_avltree.c. A node's parent pointers are the path that leads to
--   it (Trail), so that a climb is a recursion on the path; Avl/Rotate has avl_balance, Avl/Add
--   avl_search2, the ends and avl_add2, Avl/Del avl_del2, Avl/Pairs avl_search, avl_add and
--   avl_del, Avl/Locate avl_replace2, Avl/Walk the traversals. A result none is a read through a
--   null pointer, or a loop that stays where it is. The C structure embeds the node before the
--   data; here the node holds the data.
-- - Heap: moon_code/common/src/moon_max_min_heap.c. The buffer is a list of slots of one data
--   each; none is a memcpy outside it. Heap/Order has the order that heap_up restores, that with
--   the slot at ( ( index + 1 ) >> 2 ) - 1. The loops of heap_up and heap_down run on fuel, the
--   index plus one and the number of data plus one: the index of heap_up falls with each turn, and
--   that of heap_down grows and stays below the number of data.
-- - Useing: useing_ref_inc, useing_ref_dec and set_status_closed of
--   moon_code/common/src/moon_common.h; Useing/Threads lets any number of threads take turns at
--   one word.
-- - Pipe: the status word of moon_code/common/src/moon_pipe.c: pipe_useing_ref_inc,
--   pipe_useing_ref_dec, pipe_close and the ready bit of pipe_init_done; Pipe/Threads lets threads
--   take turns as before.
-- - Dlist: the double lists of moon_code/common/src/moon_common.h, dlist_insert, dlist_append,
--   dlist_del, dlist_cut and is_really_del, on a store that gives the links at each address;
--   Dlist/Chain says what a list in the store is.
-- - Pool: moon_code/network/src/moon_pthread_pool.c: put_task, the worker's loop and
--   process_pool_start, each section under the mutex and each call on the ring a step.
-- - Timer: moon_code/network/src/moon_timer.c, one timer: timer_new, timer_del, timer_set,
--   timer_stop, timer_restart and the steps of timer_task. Its place in the tree is a Boolean, and
--   a call of avl_del2 on a timer that is not there is recorded (the tree that this leaves is not
--   modelled).
-- - Hash: the hash table of moon_code/common/src/moon_common.h, hash_func, hash_search2 and
--   hash_table_search2. A bucket is a list of entries; the links of Dlist are not used here.
-- - Wire: the byte order of moon_code/common/src/moon_common.h, is_little and convert_uint16_t,
--   convert_uint32_t and convert_uint64_t. The order of the host is an argument, and memory is a
--   list of bytes; low_first, high_first, store and load say how a host lays a number out.
-- - Nums: the numbers of variable length of moon_code/sync/src/moon_runtime.c, convert_to_moon_num
--   and get_from_moon_num.
-- - Changes: the lists of blocks in a packet of the same file: packet_del_data, packet_new_data,
--   packet_write_data_id, packet_new_data_id and the four functions that unpack them. Whether
--   malloc has memory of a size is an argument; a write past what it gave is a result of its own,
--   and an entry is written as far as the code sets its ids.
-- - Pairs: the tables of blocks of the same file: qsort_addr_pair, sort_addr_id, search_addr_id,
--   get_virtual_address_info. The sort runs on fuel, the number of pairs, and each part that it
--   sorts next is shorter; the search runs on fuel, the number of pairs but the first, and its
--   interval shrinks with each turn.
-- - Commit: pac1_func, pac2_func and the first part of get_commit_packet in the same file, up to
--   the sorted lists. The blocks come as a list in the order of the traversal, since
--   avl_traver_first is declared nowhere; the counts are unbounded here and ints there.
-- - Versions: the middle of _create_new_version in the same file, from the unpacked lists to the
--   table of the new version by id. What version_surface_malloc, mem_block_surface_dump and
--   create_new_block answer is a parameter; the array is filled when the loops have succeeded, so
--   what an error leaves in it is not modelled.
-- - Points: points_to_id_offset and id_offset_to_points of the same file, on the tables of Pairs
--   and the tree of Avl.
-- - Structs: moon_code/sync/src/shell/append.c: get_target_offset, the transfer of a description,
--   and in Structs/Copy the copies of numbers between hosts.
--
-- A compare-and-swap turn may have read any old word before; the swap succeeds only on the word as
-- it is. Runs of such turns are shorter than 2^27 - 2, so that the count does not reach the sign
-- bit of the int, where the source reports an error and goes on. Memory that malloc or realloc
-- gives is an argument, and so is their failure where the source sees it.
--
-- Not modelled: the sessions, the DNS client, the sockets, the order of several timers, the
-- packets and their buffers, the rest of the runtime of the shared memory (its page faults,
-- signals and threads, the states of entities and versions, the md5 sums, the packets as a whole),
-- the walk of the copies over the fields of a type, the interface tables of
-- moon_code/common/src/moon_interface.h, the bit maps, the debug output, the generated sources
-- under moon_code/sync/src/shell/release, and the tests. The session buffers and packets
-- (moon_session_mem.c and moon_packet2.c in moon_code/network/src) do not compile as they stand.
pub mod Prelude
pub mod Ring
pub mod Avl
pub mod Useing
pub mod Pipe
pub mod Heap
pub mod Pool
pub mod Dlist
pub mod Timer
pub mod Hash
pub mod Wire
pub mod Nums
pub mod Changes
pub mod Pairs
pub mod Versions
pub mod Structs
pub mod Points
pub mod Commit
