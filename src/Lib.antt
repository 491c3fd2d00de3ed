-- ===== src/Lib.antt =====
-- The programs of CMU 18-613, bhxxzp/CMU_18613, that keep state of their own.
--
-- Jobs.antt and Jobs/ model the job list of the shell, tshlab-s20-bhxxzp/tsh_helper.c: one record
-- for the list, the next id, the signal mask and the effects on the outside, and one function per
-- routine, from check_blocked to list_jobs. Tsh.antt and Tsh/ model what uses it in
-- tshlab-s20-bhxxzp/tsh.c: sigchld_handler, sigint_handler and sigtstp_handler (one definition,
-- forward_handler), do_bgfg, and the loop that waits for the foreground job, with the signals that are
-- handled in each place where the code has them unblocked; Tsh/Eval models
-- builtin_command and eval on the side of the shell. What the kernel decides (which children changed
-- state, which signals arrive, what fork and open give) is an argument. Parse.antt and Parse/ model
-- parseline of tshlab-s20-bhxxzp/tsh_helper.c, which eval calls first.
--
-- Queue.antt and Queue/ model cprogramminglab-handout/queue.c over a memory of list elements and
-- strings; a read, write or free of memory that is not there is a fault.
--
-- Cache.antt and Cache/ model the object cache of the proxy, proxylab-s20-bhxxzp/cache.c: doubly linked
-- nodes between two sentinels, which stand for a list of objects with the latest used first.
--
-- Csim.antt and Csim/ model the trace loop of cachelab-s20-bhxxzp/csim.c: a row of lines, the hit, the
-- fill and the eviction, and the counters; an access fails where a shift of its address has no value in
-- C. Trans.antt and Trans/ model the transpositions of
-- cachelab-s20-bhxxzp/trans.c over elements of any type.
--
-- Malloc.antt and Malloc/ model malloclab-s20-bhxxzp/mm.c: Word the header words and list indices, Heap
-- the block layout and mem_sbrk of malloclab-s20-bhxxzp/memlib.c, SegList the free lists, Alloc
-- coalescing, splitting, malloc and free, Copy realloc and calloc with the bytes that they copy and
-- clear. Lists says when the links of the free lists stand for given lists of blocks; the theorems on
-- insert_block, delete_block, free, split_block and malloc are in Insert, Delete, Free, Split and
-- Serve, and Quiet and Way are about writes outside the listed blocks.
--
-- Bits.antt and Bits/ model four of the puzzles of datalab-s20-bhxxzp/bits.c on words: copyLSB,
-- integerLog2, floatIsEqual and floatScale4, the floats against the numbers that they stand for.
--
-- Fuel: parseline gives its loop a round for each character and one more, which parseline_lem shows to
-- be enough; reverse_loop gets the queue's size and free_loop one more, which q_reverse_lem and q_free_lem
-- show to be enough; the
-- loops of the cache take their fuel as an argument, and the theorems ask for more of it than there are
-- objects; walk and before of SegList get more rounds than the heap has room for blocks, which
-- find_fit_lem takes as the condition that no free list is longer. Numbers are native naturals; words of
-- 64 bits wrap where the code can overflow them. Counters of type int (the queue's size, the hits and
-- misses) and pids are taken without an upper bound.
--
-- Not modelled: the puzzles of bits.c that combine whole words bit by bit; and what is input and output,
-- or measures the programs from outside: the shell's child between fork and execve, the networking of
-- the proxy and of the tiny server, the locking of the cache, the test drivers and timers with the splay
-- tree and the checking malloc that they use, the debugging checks of the allocator, earlier copies of
-- the programs, and the textbook's library of system call wrappers.
pub mod Bits
pub mod Cache
pub mod Common
pub mod Csim
pub mod Jobs
pub mod Malloc
pub mod Parse
pub mod Queue
pub mod Trans
pub mod Tsh
