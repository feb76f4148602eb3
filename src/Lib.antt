-- ===== src/Lib.antt =====
-- UFFS, a flash file system for NAND memories, written in C: a model of its core.
--
-- The program keeps files in the blocks of a NAND partition. Each page of a block has a spare area with
-- a tag (who owns the page, which page of the block it is, a time stamp of the block) and with codes that
-- detect and repair errors. When a partition is mounted the blocks are sorted into a tree of directory,
-- file and data nodes and into lists of erased, suspended and bad blocks. Nodes, objects and directory
-- handles come from fixed pools, tags that were read are kept in a cache of block information, blocks that
-- a flash operation found in need of care wait in a short list, and objects are handed out as
-- descriptors. Below, paths are from the repository's root.
--
-- Files and what they model:
-- - Crc: src/uffs_crc.c. The table is the source's; crc16update is uffs_crc16update on the list of
--   bytes it reads, and crc16sum is uffs_crc16sum. Crc/Serial and Crc/Reference define the bit-serial
--   division, Crc/Detect compares strings.
-- - Ecc: src/uffs_ecc.c. A byte buffer is the list of its bytes; ecc_make, ecc_correct, ecc_make8 and
--   ecc_correct8 are the public functions, ecc_make_chunk256 and ecc_correct_chunk256 the static ones.
--   A correction gives its return value (Fix) and the bytes as it leaves them. Ecc/Tables holds the
--   tables, Ecc/Linear and Ecc/Delta say how the parities and the codes change with the data, Ecc/Change
--   and Ecc/Chunk treat one chunk, Ecc/CodeBit errors in the code, Ecc/Whole data of any length, and
--   Ecc/Eight the code of a tag.
-- - Flash: the spare area of a page in src/uffs_flash.c, from the layout of InitSpareLayout to
--   uffs_FlashMakeSpare and uffs_FlashUnloadSpare. Flash/Place says where a layout puts a byte, Flash/Spare
--   is about any good layout, Flash/Layout about that of InitSpareLayout.
-- - TagStore: the eight bytes of a stored tag (struct uffs_TagStoreSt), with TagMakeEcc and TagEccCorrect.
--   The bit fields lie from the lowest bit on, as compilers for little-endian processors put them.
--   TagStore/Repair is about tag_ecc_correct.
-- - FlashPage: uffs_FlashWritePageCombine, uffs_FlashReadPage and uffs_FlashReadPageTag, on Flash, TagStore,
--   Ecc and the Pool of spare buffers. The driver is a parameter: functions on the state of a chip of any
--   type. FlashPage/ReadBack is about pages, FlashPage/TagBack about tags, and FlashPage/Written about the
--   write with its check (CONFIG_UFFS_PAGE_WRITE_VERIFY), for which the clone buffer is given as what it holds.
-- - Pool: src/uffs_pool.c. A pool is its record with the memory of its entries; addresses are numbers and
--   NULL is 0. Pool/Chain says what a good pool is, Pool/Init, Pool/Blocks, Pool/Walk and Pool/Search
--   treat the operations. uffs_Panic, which does not return, is the outcome `panics`.
-- - BadBlock: the pending list of src/uffs_badblock.c, with the results of flash operations. BadBlock/Lookup
--   reads it as a map of limited size.
-- - Tree: src/uffs_tree.c. A node is its index in the pool of nodes and its fields are functions of it.
--   Tree/Find is about walks, Tree/Hash and Tree/Break about the hash tables, Tree/Lists about the lists of blocks.
-- - BlockInfo: src/uffs_blockinfo.c, on the BadBlock component, which a failed read reports to.
--   The list of entries has no NULL tail; where the code writes through it, the result is `none`.
--   BlockInfo/Expired is about the count of expired pages, BlockInfo/Cache about the cache of entries.
-- - Buf: the page buffers of src/uffs_buf.c: their list, references and clones. A buffer is named by its
--   address, and the linked lists are lists of addresses. Buf/Memory is about the memory, Buf/Order about the
--   searches and the order, Buf/Clone about clones.
-- - DirtyBuf: the groups of dirty buffers of src/uffs_buf.c, new buffers, writing and reading, on Buf.
--   Writing a group to the flash is a parameter. DirtyBuf/Slots chooses groups, DirtyBuf/Marks says what
--   good dirty lists are, DirtyBuf/Change, DirtyBuf/Link and DirtyBuf/Write keep them good, DirtyBuf/Least
--   is about the page to write first and DirtyBuf/Content about the bytes.
-- - Flush: the copy of a block to an erased block in uffs_BufFlush_Exist_With_BlockRecover (src/uffs_buf.c), on
--   DirtyBuf and Public. copy_loop is its loop over the pages; the calls of the flash layer are a record of
--   functions on a state of the flash of any type, and the fields of a tag are cut to their bits. Flush/Laws says what these must do and what a round keeps,
--   Flush/Frame has lemmas on the buffers, Flush/Dirty, Flush/Cached, Flush/Cloned and Flush/Found are about
--   one round each, and Flush/Copy about the loop. Flush/Free is
--   uffs_BufFlush_Exist_With_Enough_FreePage; Flush/Room is about free pages and released buffers,
--   Flush/FreePages about
--   one write, Flush/FreeRound about one round and Flush/FreeFlush about the loop.
-- - Public: the time stamps and page searches of src/uffs_public.c, on BlockInfo. Public/Erased adds the
--   erased test, the first free page and the number of free pages, on which Public/Spares and Public/Free
--   are; Public/Pages and Public/Search are about the page searches; Public/Again and Public/Best are about a
--   block whose tags are all read.
-- - Fd: the descriptors of src/uffs_fd.c, on Pool.
-- - File: src/uffs_fs.c, the place of a file offset, uffs_ReadObject (read_object) and uffs_SeekObject
--   (seek_object), over calls for the buffers of pages. File/Place is about places, File/Slice about ranges of bytes, File/Page
--   about one round of the reading and File/Read about reading and
--   File/Seek about reading from a new position.
-- - MountTable: the mount entries of src/uffs_mtb.c; what a mount calls for the device is a parameter.
--   MountTable/Names is about mounting and unmounting, MountTable/Longest about the search for the mount point
--   of a path.
-- - Prelude and Bits hold what these share: tests, lists, stores, machine words, and the laws of the bit
--   operations.
--
-- Bounds and fuel. Unsigned values of C are natural numbers; where a result can leave its type the
-- remainder is written out (u8, u16, u32), and where it cannot, a hypothesis or an invariant bounds
-- it. The walk of a linked list gets one round for each buffer or node and one to see the end; a
-- good list is never longer, so that these walks end. A loop that runs over an array or a list
-- recurs on it. A long is that of a 32-bit processor. The loops of ecc_make and ecc_correct get as many rounds as there are bytes, and
-- each takes a byte at least. The flush to free pages gets one round for each page of the block, and
-- each round goes to a higher page. Reading gets one round for each byte that is asked for, and each round
-- reads a byte at least or ends. The search for a mount point gets one round more than the path has
-- characters, and each round goes back by one at least. The limits of the configuration are those of
-- include/uffs_config.h: four pending blocks, a signature shift of 6, blocks refreshed after a
-- repaired read.
--
-- Not modelled: the flash drivers and the handling of whole
-- blocks in src/uffs_flash.c (the cache of block information takes a read of a tag as an argument),
-- the length of the data of a block, the loading of buffers from the flash, the choice of a block for a flush and what follows the copy of a
-- block, the opening, creation, writing, truncation, deletion and renaming of objects in src/uffs_fs.c with the
-- searches of src/uffs_find.c, the set-up of devices (src/uffs_init.c, src/uffs_device.c),
-- the building of the tree from the flash and the recovery of blocks, which rest on those; locks and
-- messages, which leave the state alone; the ports and test programs.
pub mod BadBlock
pub mod Bits
pub mod BlockInfo
pub mod Buf
pub mod Crc
pub mod DirtyBuf
pub mod Ecc
pub mod Fd
pub mod File
pub mod Flash
pub mod FlashPage
pub mod Flush
pub mod MountTable
pub mod Pool
pub mod Prelude
pub mod Public
pub mod TagStore
pub mod Tree
