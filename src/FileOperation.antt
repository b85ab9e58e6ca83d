-- ===== src/FileOperation.antt =====
-- src/include/filesystem/operations.h: the file operations. Their state is the inode manager's
-- and the allocator's, which stay as they are, and the device. Of the parameters, `raw` is what a
-- buffer from `new u8[block_size]` holds, and `now` is what the last time(0) of a call gives: the
-- times set before it are overwritten.
pub mod Data
pub mod Control
pub mod Tree
pub mod Reading
pub mod Refusing
pub mod RoundTrip
pub mod Rewriting
pub mod Sequence
pub mod Changing
pub mod Length
pub mod Staying
pub mod Booting
pub mod Root
use se3331_labs.Common.{ℕ}
use se3331_labs.InodeManager.{InodeManager}
use se3331_labs.Allocator.{BlockAllocator}

pub record FileOperation : Type 0 where
  pub inode_manager : InodeManager
  pub block_allocator : BlockAllocator
