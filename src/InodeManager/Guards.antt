-- ===== src/InodeManager/Guards.antt =====
-- The inode numbers that the inode manager refuses.
use se3331_labs.Common.{ℕ, ◌+◌, ◌-◌, ◌<◌, ◌≤◌, ◌≡◌, List, arith, leb, leb-true, true, u64, u64_mod}
use se3331_labs.Result.{ErrorType, err}
use se3331_labs.Block.{BlockManager, done}
use se3331_labs.InodeManager.{InodeManager, read_inode, free_inode}

-- `read_inode` and `free_inode` refuse every number from max_inode_supported - 1 on.
pub ids_refused :
    (raw : List ℕ) (im : InodeManager) (id : ℕ) (buffer : List ℕ) (bm : BlockManager)
    → 0 < im.max_inode_supported
    → im.max_inode_supported < u64_mod
    → im.max_inode_supported ≤ id + 1
    → (read_inode raw im id buffer bm ≡ done (err ErrorType.invalid_arg) bm)
      × (free_inode im id bm ≡ done (err ErrorType.invalid_arg) bm)
unfolding read_inode free_inode
ids_refused raw im id buffer bm some_ids small last =
    let e : u64 (im.max_inode_supported + u64_mod - 1) ≡ im.max_inode_supported - 1 = omega arith in
    let g : leb (u64 (im.max_inode_supported + u64_mod - 1)) id ≡ true = leb-true (omega arith) in
    (rw g, rw g)
