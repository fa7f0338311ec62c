-- ===== src/Lib.antt =====
-- VMTree (src/vmtree.c): a B+-tree for flash memory that writes a changed page elsewhere and keeps a
-- small table of pages that moved, so that the parent of the page need not be written too.
--
-- The parts, bottom up, and the files that model them:
-- - Base: numbers, tests, arrays as functions (`Memory`), and lists read out of them.
-- - BitArr: src/bitarr.c. bitarrSet, bitarrGet.
-- - Storage: src/storage.h, with Mem, File and Flash for src/memStorage.c, src/fileStorage.c and
--   src/dfStorage.c. The storage of the page buffer is a record of functions (`Device`), as in C;
--   the C library's files and the driver of the chip are parameters with their documented laws.
-- - Buffer: src/dbbuffer.c. The page buffers, and the allocation of pages. It reads the tree's table
--   and root through a back pointer; here these are arguments. Child modules: Read and Write for
--   the agreement of buffers and storage, Returns for the return of readPage, Allocate for the pages
--   to write and the free space, Erase for the pages that erasing leaves alone.
-- - Mapping: the hash table of src/vmtree.c. Count has its invariant, Laws and Remove its lookups.
-- - Records, Node: the records, the page header of src/vmtree.h, and the edits of a page that
--   vmtreePutRecord makes. Search: vmtreeSearchNode. Leaf and Interior: insertion and split.
-- - Sort: src/in_memory_sort.c, the quicksort of the log buffer.
-- - Tree: src/vmtree.c. The state, vmtreeInit and getChildPageId; Mapped: vmtreeUpdatePointers,
--   vmtreeUpdatePrev, vmtreeFixMappings, vmtreeMovePage; Put: vmtreePutRecord and vmtreePut; Get:
--   vmtreeGet and vmtreeClearMappings; Iterator: vmtreeInitIterator and vmtreeNext; Batch:
--   vmtreePutBatch, the log buffer of vmtreePut, and vmtreeFlush. Shape says what a tree in the
--   storage is, and which records it has; Walk, Answers, Insert and Found have
--   the theorems on vmtreeGet and vmtreePutRecord that use it; Grow those on trees of several
--   levels, where Owned says which pages, pointers and headers belong to which node. Pointers,
--   Leaf, Lookup and Batch/One have further theorems.
-- - Nor: the pages of OVERWRITE in src/vmtree.c, with bitmaps: vmtreeSortBlockNorOverwrite and the
--   functions that set, search and fill a page, Interior for vmtreeInsertInterior and
--   vmtreeSearchNodeOverwrite, Interior/Split for the split of an interior page, Leaf for the
--   leaf, Put for vmtreePutNorOverwrite over the page buffers, and Batch for
--   vmtreePutNorOverwriteBatch and the log buffer, Get for vmtreeGet, and Print for what
--   vmtreePrint does to the tree. The other files have the theorems.
-- - Tests: the modules at concrete inputs.
--
-- State is passed explicitly: an operation takes the state and returns it with its result. A pointer
-- to a page buffer is the number of the buffer, so that the code's aliasing is kept. `false` and an
-- inner `none` stand for an error code; an outer `none` means that a loop ran out of its fuel.
-- Fuel: a binary search and a partition take one more than the length of the range, and the theorems
-- on them show that they return; dbbufferNextValidPage takes the number of pages and 2 more, one
-- round over the storage; the round robin of readPage takes twice the number of buffers
-- (Buffer/Returns). The walks over levels recur on the number of levels. dbbufferEnsureSpace and
-- vmtreeNext take a given fuel.
-- Integers wrap at their width where the code can reach it (`% 2 ^ 32`, `% 2 ^ 16`); a theorem that
-- needs less states it.
--
-- Not modelled: what the iterator, vmtreeMovePage and vmtreeInit do for OVERWRITE;
-- vmtreeInsertInteriorSorted, which nothing calls; dbbufferRecover, which reads through a FILE
-- pointer that is NULL; the text of printing and statistics, the board and test code, and lib/.
pub mod Base
pub mod BitArr
pub mod Mapping
pub mod Records
pub mod Sort
pub mod Node
pub mod Storage
pub mod Buffer
pub mod Tree
pub mod Nor
mod Tests
