-- ===== src/FileOperation/Staying.antt =====
-- The allocator and the inode manager on a device of the same geometry.
use se3331_labs.Block.{BlockManager}
use se3331_labs.Block.Safe.{Stays}
use se3331_labs.Allocator.{BlockAllocator}
use se3331_labs.Allocator.Layout.{IsAllocator}
use se3331_labs.InodeManager.{InodeManager}
use se3331_labs.InodeManager.Search.{IsInodes}

pub Stays-IsAllocator :
    (al : BlockAllocator) (bm after : BlockManager)
    → Stays bm after
    → IsAllocator al bm
    → IsAllocator al after
Stays-IsAllocator al bm after s a = record {
  device = s.device;
  some_blocks = a.some_blocks;
  some_bits = a.some_bits;
  last_fits = rw s.same_size a.last_fits;
  covers = rw (s.same_size, s.same_count) a.covers;
  within = rw s.same_count a.within;
}

pub Stays-IsInodes :
    (im : InodeManager) (bm after : BlockManager)
    → Stays bm after
    → IsInodes im bm
    → IsInodes im after
Stays-IsInodes im bm after s i = record {
  range = record { device = s.device; within = rw s.same_count i.range.within };
  covers = rw s.same_size i.covers;
  room = rw s.same_size i.room;
}
