-- ===== src/Daemon.antt =====
-- daemons/single_node_fs/main.cc: what the callbacks of the daemon answer. libfuse hands a request
-- to a callback and takes its reply; of the C library's constants the error codes are names, and
-- the file types are those of Linux. A type such as off_t that has a sign is its 64 bits.
pub mod Listing
pub mod Handlers
pub mod Session
pub mod Pages
pub mod Slices
pub mod Start
pub mod Refusing
pub mod Serving
use se3331_labs.Common.{ℕ, ◌+◌, ◌^◌, ◌%◌, Bool, List, ltb, leb, ◌==◌, if◌then◌else◌, u64}
use se3331_labs.Block.{Cmd, fault, pure}
use se3331_labs.Inode.{InodeType, FileAttr, type_file, type_directory}

-- The codes of fuse_reply_err; `fatal` is -1, `success` is 0.
pub data Errno : Type 0 where
  success : Errno
  fatal : Errno
  enoent : Errno
  eexist : Errno
  enotdir : Errno
  enotempty : Errno
  enosys : Errno

-- struct stat, its fields that are set.
pub record Stat : Type 0 where
  pub st_mode : ℕ
  pub st_nlink : ℕ
  pub st_atime : ℕ
  pub st_mtime : ℕ
  pub st_ctime : ℕ
  pub st_size : ℕ

-- struct fuse_entry_param
pub record EntryParam : Type 0 where
  pub ino : ℕ
  pub generation : ℕ
  pub attr : Stat
  pub attr_timeout : ℕ
  pub entry_timeout : ℕ

-- The calls of libfuse that answer a request: fuse_reply_err, fuse_reply_attr, and so on.
pub data Reply : Type 0 where
  reply_err : Errno → Reply
  reply_attr : Stat → Reply
  reply_buf : List ℕ → Reply
  reply_entry : EntryParam → Reply
  reply_open : Reply
  reply_write : ℕ → Reply

-- UNIMPLEMENTED of logger.h: the process aborts.
abbrev pub unimplemented {ℓ} : {A : Type ℓ} → Cmd A
unimplemented bm = fault

-- `<=` of two int64_t.
unfoldable pub signed_leb : (a b : ℕ) → Bool
signed_leb a b = leb (u64 (a + 2 ^ 63)) (u64 (b + 2 ^ 63))

-- S_IFREG | 0666 and S_IFDIR | 0777
abbrev pub file_mode : ℕ
file_mode = 33206

abbrev pub directory_mode : ℕ
directory_mode = 16895

abbrev pub stat_of : FileAttr → (st_mode st_nlink : ℕ) → Stat
stat_of attr st_mode st_nlink = record {
  st_mode = st_mode;
  st_nlink = st_nlink;
  st_atime = attr.atime;
  st_mtime = attr.mtime;
  st_ctime = attr.ctime;
  st_size = attr.size;
}

unfoldable pub getattr_helper : InodeType → FileAttr → Cmd Stat
getattr_helper type attr =
    if type == type_file
    then pure (stat_of attr file_mode 1)
    else if type == type_directory
    then pure (stat_of attr directory_mode 2)
    else unimplemented
