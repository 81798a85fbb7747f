-- ===== src/Lib.antt =====
-- DUMA is a malloc debugger: a library that replaces the C library's allocation functions. Each
-- buffer lies in pages of its own with an inaccessible page directly behind or before it, so that
-- an access beyond the buffer stops the program at once. Freed memory stays inaccessible, and what
-- lies between the buffer and its pages' ends, the no man's land, is filled and checked.
--
-- The modelled build is the Unix one: anonymous mappings, a pthread mutex, leak detection, the global
-- malloc and free, the table set up at the first call, and the report of leaks as a destructor, so
-- that nothing is registered with atexit. Code for Windows and the abandoned kernel variant in
-- Attic are not modelled. In the allocator an abort is a result with the addresses that its message
-- shows, the leak report is a list of items, and the banner is left out; how a message is printed is
-- in Print.
--
-- Parts, files and code:
-- - Prelude: lists, tests and integers over the native numbers. Bits and Words: bitwise and, words
--   of 64 bits with their wrap-around, rounding to a power of two.
-- - Layout: the address arithmetic of _duma_allocate (src/duma.c): default_alignment and
--   choose_alignment, the tests of a power of two, internal_size, and the buffer's place above
--   (place_above) or below (place_below) a dead page. Children prove the placement.
-- - Memory: bytes at addresses and the byte loops of duma_hlp.h and src/duma.c.
-- - Slots: struct _DUMA_Slot and its enumerations, slotForUserAddress, nearestSlotForUserAddress
--   (duma_hlp.h), and the best-fit search of _duma_allocate.
-- - Machine: the state of the process (_duma_s, _duma_g, the semaphore), a monad of runs that end in
--   a value, an abort, a wait or a lack of fuel; Machine.Env has what is not in the repository as
--   parameters: mmap, mprotect, munmap, the mutex, the page size, environ, atoi, atol;
--   Machine.Paging is paging.h and Machine.Lock is src/sem_inc.c, with threads that share the lock
--   in Machine.Lock.Threads. Machine.Sample is a small kernel that meets the laws of Machine.Env.
-- - Allocator: Slack is the no man's land of duma_hlp.h, Reduce is reduceProtectedMemory, Request to
--   Allocate are _duma_allocate in the order of the code (checks, lock, search, new memory, split and
--   placement), Deallocate is _duma_deallocate with duma_check and duma_checkAll, Grow is
--   allocateMoreSlots, Api has _duma_malloc and its kin, which take _duma_init as a parameter, and
--   Global has malloc and its kin. Live is the user's view of the table, the live buffers by their
--   slots, Fence is the address space below the table, the pages of the regions that a buffer, freed
--   memory and the table have open or closed, and Finish is about the end of every request.
-- - Start: _duma_init and duma_init, which call each other through malloc; Start.Table constructs
--   the table, Start.Getenv is duma_getenv and Start.Variables is duma_getenvvars.
-- - Operators: duma_new_operator and the operators new and delete of src/dumapp.cpp.
-- - Report: DUMA_newFrame, DUMA_delFrame and _duma_exit.
-- - Strings: the checked copies _duma_memcpy to _duma_strncat of src/duma.c; _duma_realloc copies
--   with the first of them.
-- - Print: src/print.c, from sprintAddr and DUMA_vsprintf to DUMA_Print and DUMA_Abort; Print.Output
--   has the destinations and Print.Aborting what each of them gets.
-- - Createconf: createconf.c, which writes duma_config.h with the page size and the least alignment.
--
-- The client functions call _duma_allocate and _duma_deallocate, which take the lock, unlock the
-- slot table's pages, search and change the table, ask for pages or give them back, and lock the
-- table again. A free slot, a slot in use and the two kinds of protected slots are the states of a
-- region.
--
-- Bounds and fuel: a size_t and an address are numbers below 2^64, and each sum of the code is taken
-- modulo 2^64. The loop that clears the lowest bit of a size has as many rounds as the size, which
-- Layout.Alignment shows to be enough; the copies with an index have one round more than bytes, which
-- Strings.Loop shows to be enough. The loop that gives protected memory back and tries again has two
-- rounds for each slot and one more, since a round that goes on shortens or empties a region, as
-- Allocator.Reduce.Steps shows. The depth to which _duma_init and malloc call each other is a fuel
-- as well, of which Start.Ready shows that the least is enough. The loop of duma_new_operator around the new handler, a
-- parameter, has a fuel, of which Operators.Rounds shows what is enough. The loop of strdup that counts the
-- bytes of a string has 2^64 rounds, after which its index would come round again. A table of slots
-- is a list, whose length is slotCount; addresses of file names are numbers.
pub mod Prelude
pub mod Bits
pub mod Words
pub mod Layout
pub mod Memory
pub mod Slots
pub mod Machine
pub mod Allocator
pub mod Operators
pub mod Createconf
pub mod Strings
pub mod Print
pub mod Start
pub mod Report
