-- ===== src/Lib.antt =====
-- A model of chfs, the inode file system of this repository: a block device, a bitmap, a block
-- allocator, an inode manager, a super block, the text of directories, the file operations over
-- them, and the daemon that serves them through FUSE.
--
-- How a call is modelled. A command (Block) runs on the device and ends with a result (Result) and
-- the device as it then is, or with a fault. A fault is what a C++ program must not do: a failed
-- CHFS_ASSERT or CHFS_VERIFY, an exception that nothing catches, a division by zero, or an access
-- outside an array. The source's "if (res.is_err()) return res.unwrap_error()" and its "goto err_ret"
-- are the bind of the commands: what was written to the device before an error stays. The objects
-- that the source shares by pointers, the device apart, do not change after they are constructed
-- (the allocator, the inode manager), and are arguments.
--
-- The parts, and where they are:
--   Result         src/include/common/error_code.h and result.h: error codes, results.
--   Bitmap         src/include/common/bitmap.h: a bitmap over the bytes of a buffer, its assertions
--                  and its search by words included. Bits, Find and Count hold its lemmas.
--   Block          src/include/block/manager.h and src/block/manager.cc: the device as a function
--                  from byte offsets, and write_block, write_partial_block, read_block and
--                  zero_block. Block.Layout has the device as an array of blocks. Block.Iterator is
--                  BlockIterator, and Block.Walk has it at a block of its range. Block.File has the
--                  constructors over a file, and the file. Block.Reads, Block.Safe and Block.Within
--                  are three views of a command, each with rules for composed commands: that it
--                  keeps the device, that it keeps its geometry, and what it gives there.
--   Allocator      src/include/block/allocator.h and src/block/allocator.cc: the constructor,
--                  allocate, deallocate and free_block_cnt. Allocator.Layout has the set of the
--                  allocated blocks, which the other children state the operations against, and
--                  Allocator.Supply has sequences of allocations.
--   Fields         integers in a buffer of bytes, least byte first, as a little-endian machine keeps
--                  the packed structures of src/include/metadata.
--   Inode          src/include/metadata/inode.h: an inode as an object, and as the bytes of its
--                  block. Inode.Attributes has the attributes replaced in the bytes.
--   InodeManager   src/include/metadata/manager.h and src/metadata/manager.cc: the inode table and
--                  the inode bitmap. InodeManager.Table has the table as a map,
--                  InodeManager.Free has the set of the inodes in use, and Guards and Unusable
--                  have the numbers that are refused.
--   SuperBlock     src/include/metadata/superblock.h and src/metadata/superblock.cc.
--   Directory      src/include/filesystem/directory_op.h and src/filesystem/directory_op.cc: the
--                  text "name:inode/name:inode" of a directory; string_to_inode_id with what
--                  std::stringstream does on every text. Decimal, Tokens, RoundTrip, Lists and
--                  Remove hold its proofs.
--   FileOperation  src/include/filesystem/operations.h. FileOperation.Data is
--                  src/filesystem/data_op.cc (write_file, read_file, resize), FileOperation.Control
--                  is src/filesystem/control_op.cc (making, opening, remove_file), and
--                  FileOperation.Tree is the rest of src/filesystem/directory_op.cc (lookup,
--                  mk_helper, unlink). Reading, Refusing and Length hold proofs; RoundTrip, Rewriting,
--                  Sequence and Changing have a file as a sequence of bytes; Booting and Root have the
--                  file system that is new, with its root directory.
--   Daemon         daemons/single_node_fs/main.cc: Daemon.Handlers has the callbacks, each as a
--                  command that ends with the reply it gives; Daemon.Listing is DirectoryBuf;
--                  Daemon.Session has the table of the callbacks, the file system at the start, and
--                  the requests. Serving, Pages, Slices, Start and Refusing hold proofs.
--   Common         names of the libraries, tests on numbers, lists measured by native numbers,
--                  words and bits, searches. Tests holds concrete devices and runs.
--
-- Numbers. usize and u32 are taken modulo 2 ^ 32 and u64 modulo 2 ^ 64 where the source computes with
-- them and the bounds do not exclude a wrap-around.
--
-- Loops. A loop whose count is known takes it as the rounds left. The others have enough rounds:
-- twenty for the digits of a number below 2 ^ 64; one more than the text has bytes for the tokens of
-- a directory; one more than there are bitmap blocks for the loops over the inode bitmap; one for
-- each byte of a file for the loops that write and read it.
--
-- Parameters. `raw` is what a buffer from `new u8[n]` holds, `stale` and `unset` are what variables
-- hold that the source declares and does not set, `now` is what time(0) gives. One `stale` stands for
-- all the variables of one call of a directory operation, where each call of string_to_inode_id has
-- its own: this matters only for an entry whose number is no number.
--
-- libfuse. A reply is a value. fuse_add_direntry is a field of a record, with its documented behaviour
-- as laws: an entry is as long as the call says, and it is written where it fits. The loop over the
-- requests is libfuse's.
--
-- The system. open, ftruncate and mmap are a record too; that they succeed, and that ftruncate gives a
-- file the length asked for, is a hypothesis where it is used.
--
-- Not modelled: of the device, its destructor and the raw pointer to its bytes; of the daemon, the
-- callbacks that are not installed and only abort, the command line, mounting and the log, which are
-- input and output.
pub mod Common
pub mod Result
pub mod Bitmap
pub mod Block
pub mod Allocator
pub mod Fields
pub mod Inode
pub mod InodeManager
pub mod SuperBlock
pub mod Directory
pub mod FileOperation
pub mod Daemon
pub mod Tests
