-- ===== src/Daemon/Refusing.antt =====
-- What the callbacks answer where the file operations refuse.
use se3331_labs.Common.{ℕ, ◌<◌, ◌≤◌, ◌+◌, ◌≡◌, List, replicate, u64_mod}
use se3331_labs.Result.{ok}
use se3331_labs.Block.{BlockManager, done, fault, ◌>>=◌, attempt, unwrapped}
use se3331_labs.Inode.{type_file, type_directory}
use se3331_labs.InodeManager
use se3331_labs.InodeManager.{read_inode}
use se3331_labs.InodeManager.Guards.{ids_refused}
use se3331_labs.Directory.{Bytes}
use se3331_labs.FileOperation.{FileOperation}
use se3331_labs.FileOperation.Data.{read_file, write_file_w_off}
use se3331_labs.FileOperation.Tree.{lookup}
use se3331_labs.FileOperation.Refusing.{mk_helper-lookup}
use se3331_labs.Daemon.{reply_err, fatal, enoent, eexist}
use se3331_labs.Daemon.Listing.{Fuse}
use se3331_labs.Daemon.Handlers.{
  with_stat, chfs_getattr, chfs_readdir, chfs_read, chfs_write, write_reply, made_reply,
  mknod_errno, mkdir_errno, chfs_mknod, chfs_mkdir,
}

-- A request for an inode number from max_inode_supported - 1 on: `getattr` answers ENOENT and `read`
-- answers -1, on an unchanged device, but `readdir` and `write` end the process. The number of inodes
-- is not 0 and fits a uint64_t.
pub unknown_ino :
    (fuse : Fuse) (stale now : ℕ) (raw : List ℕ) (fs : FileOperation) (ino size off : ℕ)
    (buf : Bytes) (bm : BlockManager)
    → 0 < fs.inode_manager.max_inode_supported
    → fs.inode_manager.max_inode_supported < u64_mod
    → fs.inode_manager.max_inode_supported ≤ ino + 1
    → (chfs_getattr raw fs ino bm ≡ done (ok (reply_err enoent)) bm)
      × (chfs_read raw fs ino size off bm ≡ done (ok (reply_err fatal)) bm)
      × (chfs_readdir fuse stale raw fs ino size off bm ≡ fault)
      × (chfs_write now raw fs ino buf size off bm ≡ fault)
unfolding chfs_getattr chfs_read chfs_readdir chfs_write with_stat write_reply
    InodeManager.get_type_attr InodeManager.get_type write_file_w_off read_file
unknown_ino fuse stale now raw fs ino size off buf bm some_ids small last =
    let r =
      (ids_refused raw fs.inode_manager ino (replicate bm.block_sz 0) bm some_ids small last).0 in
    (
      rw (attempt, ◌>>=◌, r),
      rw (attempt, ◌>>=◌, r),
      rw (unwrapped, ◌>>=◌, r),
      rw (attempt, ◌>>=◌, r),
    )

-- A name that the lookup finds is not made again: `mknod` and `mkdir` answer EEXIST, and the device
-- is unchanged.
pub made_twice :
    (stale now : ℕ) (raw : List ℕ) (fs : FileOperation) (parent found : ℕ) (name : Bytes)
    (bm after : BlockManager)
    → lookup stale raw fs parent name bm ≡ done (ok found) after
    → (chfs_mknod stale now raw fs parent name bm ≡ done (ok (reply_err eexist)) bm)
      × (chfs_mkdir stale now raw fs parent name bm ≡ done (ok (reply_err eexist)) bm)
unfolding chfs_mknod chfs_mkdir made_reply mknod_errno mkdir_errno
made_twice stale now raw fs parent found name bm after e =
    let f = mk_helper-lookup stale now raw fs parent found name type_file bm after e in
    let d = mk_helper-lookup stale now raw fs parent found name type_directory bm after e in
    (rw (attempt, ◌>>=◌, f), rw (attempt, ◌>>=◌, d))
