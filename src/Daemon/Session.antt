-- ===== src/Daemon/Session.antt =====
-- daemons/single_node_fs/main.cc: the daemon as a whole: the table of its callbacks, the file
-- system it starts with, and its requests.
use se3331_labs.Common.{ℕ, ◌/◌, none, some, List, ◌==◌}
use se3331_labs.Block.{Run, fault, Cmd, pure, ◌>>=◌, verify, unwrapped, create}
use se3331_labs.Inode.{type_directory}
use se3331_labs.Directory.{Bytes}
use se3331_labs.FileOperation.{FileOperation}
use se3331_labs.FileOperation.Data.{alloc_inode}
use se3331_labs.FileOperation.Control.{construct}
use se3331_labs.Daemon.{Reply, unimplemented}
use se3331_labs.Daemon.Listing.{Fuse}
use se3331_labs.Daemon.Handlers.{
  chfs_getattr, chfs_readdir, chfs_read, chfs_mknod, chfs_mkdir, chfs_unlink, chfs_setattr,
  chfs_open, chfs_write, chfs_lookup,
}

-- A request, by its callback. The callbacks of the last are not implemented.
pub data Request : Type 0 where
  open_file : (ino : ℕ) → Request
  getattr : (ino : ℕ) → Request
  readdir : (ino size off : ℕ) → Request
  read : (ino size off : ℕ) → Request
  readlink : (ino : ℕ) → Request
  mknod : (parent : ℕ) → (name : Bytes) → Request
  mkdir : (parent : ℕ) → (name : Bytes) → Request
  unlink : (parent : ℕ) → (name : Bytes) → Request
  rmdir : (parent : ℕ) → (name : Bytes) → Request
  symlink : (target : Bytes) → (parent : ℕ) → (name : Bytes) → Request
  rename : (parent : ℕ) → (name : Bytes) → (newparent : ℕ) → (newname : Bytes) → Request
  hard_link : (ino newparent : ℕ) → (newname : Bytes) → Request
  write : (ino : ℕ) → (buf : Bytes) → (size off : ℕ) → Request
  setattr : (ino st_size to_set : ℕ) → Request
  statfs : (ino : ℕ) → Request
  lookup : (parent : ℕ) → (name : Bytes) → Request

abbrev pub chfs_readlink : (ino : ℕ) → Cmd Reply
chfs_readlink ino = unimplemented

abbrev pub chfs_rmdir : (parent : ℕ) → (name : Bytes) → Cmd Reply
chfs_rmdir parent name = unimplemented

abbrev pub chfs_symlink : (target : Bytes) → (parent : ℕ) → (name : Bytes) → Cmd Reply
chfs_symlink target parent name = unimplemented

abbrev pub chfs_rename :
    (parent : ℕ) → (name : Bytes) → (newparent : ℕ) → (newname : Bytes) → Cmd Reply
chfs_rename parent name newparent newname = unimplemented

abbrev pub chfs_link : (ino newparent : ℕ) → (newname : Bytes) → Cmd Reply
chfs_link ino newparent newname = unimplemented

abbrev pub chfs_statfs : (ino : ℕ) → Cmd Reply
chfs_statfs ino = unimplemented

-- fuseserver_oper
unfoldable pub handle :
    Fuse → (stale now : ℕ) → (raw : List ℕ) → FileOperation → Request → Cmd Reply
handle fuse stale now raw fs (open_file ino) = chfs_open ino
handle fuse stale now raw fs (getattr ino) = chfs_getattr raw fs ino
handle fuse stale now raw fs (readdir ino size off) = chfs_readdir fuse stale raw fs ino size off
handle fuse stale now raw fs (read ino size off) = chfs_read raw fs ino size off
handle fuse stale now raw fs (readlink ino) = chfs_readlink ino
handle fuse stale now raw fs (mknod parent name) = chfs_mknod stale now raw fs parent name
handle fuse stale now raw fs (mkdir parent name) = chfs_mkdir stale now raw fs parent name
handle fuse stale now raw fs (unlink parent name) = chfs_unlink stale now raw fs parent name
handle fuse stale now raw fs (rmdir parent name) = chfs_rmdir parent name
handle fuse stale now raw fs (symlink target parent name) = chfs_symlink target parent name
handle fuse stale now raw fs (rename parent name newparent newname) =
    chfs_rename parent name newparent newname
handle fuse stale now raw fs (hard_link ino newparent newname) = chfs_link ino newparent newname
handle fuse stale now raw fs (write ino buf size off) = chfs_write now raw fs ino buf size off
handle fuse stale now raw fs (setattr ino st_size to_set) =
    chfs_setattr now raw fs ino st_size to_set
handle fuse stale now raw fs (statfs ino) = chfs_statfs ino
handle fuse stale now raw fs (lookup parent name) = chfs_lookup stale raw fs parent name

abbrev pub k_block_size : ℕ
k_block_size = 1024

abbrev pub k_disk_size : ℕ
k_disk_size = 16777216

abbrev pub k_max_inode_num : ℕ
k_max_inode_num = 1024

-- The part of `bootstrap_fuse` on the file system: a file system on an empty device, and the inode
-- of its root directory. Where it exits, it faults.
unfoldable pub prepare :
    (unset : ℕ × ℕ) → (now : ℕ) → (raw : List ℕ) → (max_inode_supported : ℕ) → Cmd FileOperation
prepare unset now raw max_inode_supported = do
  fs ← construct unset max_inode_supported
  root ← unwrapped (alloc_inode now raw fs type_directory)
  verify (root == 1) (pure fs)

unfoldable pub bootstrap :
    (unset : ℕ × ℕ) → (now : ℕ) → (raw : List ℕ) → (memory : ℕ → ℕ) → Run FileOperation
unfolding prepare
bootstrap unset now raw memory = elim (create (k_disk_size / k_block_size) k_block_size memory) [
  | none ↦ fault
  | some bm ↦ prepare unset now raw k_max_inode_num bm
]
