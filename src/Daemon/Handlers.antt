-- ===== src/Daemon/Handlers.antt =====
-- daemons/single_node_fs/main.cc: the callbacks. Each ends with the reply it gives, or with a fault
-- where it throws or aborts. `stale`, `now` and `raw` are those of the file operations.
use se3331_labs.Common.{
  ℕ, ◌+◌, ◌-◌, Option, none, some, List, [], ◌==◌, if◌then◌else◌, u64, u64_mod,
}
use se3331_labs.Result.{ErrorType, Result, ok, err}
use se3331_labs.Block.{Cmd, pure, ◌>>=◌, attempt, unwrapped}
use se3331_labs.Inode.{InodeType, FileAttr, type_directory}
use se3331_labs.Directory.{Bytes, DirectoryEntry, find_entry}
use se3331_labs.FileOperation.{FileOperation}
use se3331_labs.FileOperation.Data.{
  get_type_attr, gettype, read_file_w_off, write_file_w_off, resize,
}
use se3331_labs.FileOperation.Control.{get_free_blocks_num}
use se3331_labs.FileOperation.Tree.{read_directory, mkfile, mkdir, unlink}
use se3331_labs.Daemon.{
  Errno, success, fatal, enoent, eexist, enotdir, enotempty, enosys, Stat, EntryParam, Reply,
  reply_err, reply_attr, reply_buf, reply_entry, reply_open, reply_write, unimplemented, signed_leb,
  getattr_helper,
}
use se3331_labs.Daemon.Listing.{Fuse, add_all, reply_buf_limited}

-- The attributes, or the reply to a request for an inode that has none.
unfoldable pub with_stat :
    (missing : Errno) → Result (InodeType × FileAttr) → (Stat → Cmd Reply) → Cmd Reply
with_stat missing (err e) answer = pure (reply_err missing)
with_stat missing (ok type_attr) answer = do st ← getattr_helper type_attr.0 type_attr.1; answer st

unfoldable pub chfs_getattr : (raw : List ℕ) → FileOperation → (ino : ℕ) → Cmd Reply
unfolding with_stat
chfs_getattr raw fs ino = do
  attr ← attempt (get_type_attr raw fs ino)
  with_stat enoent attr (λ st. pure (reply_attr st))

-- The part of `chfs_readdir` behind the guard on the type.
unfoldable pub list_reply : Fuse → (off size : ℕ) → Result (List DirectoryEntry) → Cmd Reply
list_reply fuse off size (err e) = pure (reply_err fatal)
list_reply fuse off size (ok list) = pure (reply_buf_limited (add_all fuse list []) off size)

unfoldable pub chfs_readdir :
    Fuse → (stale : ℕ) → (raw : List ℕ) → FileOperation → (ino size off : ℕ) → Cmd Reply
unfolding list_reply
chfs_readdir fuse stale raw fs ino size off = do
  type ← unwrapped (gettype raw fs ino)
  let list = (do res ← attempt (read_directory stale raw fs ino); list_reply fuse off size res)
  if type == type_directory then list else pure (reply_err enotdir)

-- read_size
unfoldable pub read_size_of : (st_size off size : ℕ) → ℕ
unfolding signed_leb
read_size_of st_size off size =
    if signed_leb (u64 (off + size)) st_size then size else u64 (st_size + u64_mod - off)

unfoldable pub data_reply : Result (List ℕ) → Cmd Reply
data_reply (err e) = pure (reply_err fatal)
data_reply (ok res_data) = pure (reply_buf res_data)

-- The part of `chfs_read` behind the attributes.
unfoldable pub read_from : (raw : List ℕ) → FileOperation → (ino size off : ℕ) → Stat → Cmd Reply
unfolding signed_leb data_reply
read_from raw fs ino size off st = if signed_leb st.st_size off then pure (reply_buf []) else do
  res ← attempt (read_file_w_off raw fs ino (read_size_of st.st_size off size) off)
  data_reply res

unfoldable pub chfs_read : (raw : List ℕ) → FileOperation → (ino size off : ℕ) → Cmd Reply
unfolding with_stat read_from
chfs_read raw fs ino size off = do
  attr_res ← attempt (get_type_attr raw fs ino)
  with_stat fatal attr_res (λ st. read_from raw fs ino size off st)

abbrev pub entry_param : (ino : ℕ) → Stat → EntryParam
entry_param ino st = record {
  ino = ino;
  generation = 0;
  attr = st;
  attr_timeout = 0;
  entry_timeout = 0;
}

-- The entry of an inode that was found or made.
unfoldable pub entry_reply : (raw : List ℕ) → FileOperation → (ino : ℕ) → Cmd Reply
unfolding with_stat
entry_reply raw fs ino = do
  attr_res ← attempt (get_type_attr raw fs ino)
  with_stat fatal attr_res (λ st. pure (reply_entry (entry_param ino st)))

unfoldable pub mknod_errno : ErrorType → Errno
mknod_errno ErrorType.already_exist = eexist
mknod_errno ErrorType.done = enoent
mknod_errno ErrorType.invalid_arg = enoent
mknod_errno ErrorType.out_of_resource = enoent
mknod_errno ErrorType.invalid = enoent
mknod_errno ErrorType.not_exist = enoent
mknod_errno ErrorType.not_empty = enoent

unfoldable pub mkdir_errno : ErrorType → Errno
mkdir_errno ErrorType.already_exist = eexist
mkdir_errno ErrorType.done = enosys
mkdir_errno ErrorType.invalid_arg = enosys
mkdir_errno ErrorType.out_of_resource = enosys
mkdir_errno ErrorType.invalid = enosys
mkdir_errno ErrorType.not_exist = enosys
mkdir_errno ErrorType.not_empty = enosys

unfoldable pub unlink_errno : ErrorType → Errno
unlink_errno ErrorType.not_exist = enoent
unlink_errno ErrorType.not_empty = enotempty
unlink_errno ErrorType.done = enosys
unlink_errno ErrorType.invalid_arg = enosys
unlink_errno ErrorType.out_of_resource = enosys
unlink_errno ErrorType.invalid = enosys
unlink_errno ErrorType.already_exist = enosys

-- The reply to a request that makes a file or a directory.
unfoldable pub made_reply :
    (ErrorType → Errno) → (raw : List ℕ) → FileOperation → Result ℕ → Cmd Reply
unfolding entry_reply
made_reply errno raw fs (ok ino) = entry_reply raw fs ino
made_reply errno raw fs (err e) = pure (reply_err (errno e))

unfoldable pub chfs_mknod :
    (stale now : ℕ) → (raw : List ℕ) → FileOperation → (parent : ℕ) → (name : Bytes) → Cmd Reply
unfolding made_reply
chfs_mknod stale now raw fs parent name = do
  res ← attempt (mkfile stale now raw fs parent name)
  made_reply mknod_errno raw fs res

unfoldable pub chfs_mkdir :
    (stale now : ℕ) → (raw : List ℕ) → FileOperation → (parent : ℕ) → (name : Bytes) → Cmd Reply
unfolding made_reply
chfs_mkdir stale now raw fs parent name = do
  res ← attempt (mkdir stale now raw fs parent name)
  made_reply mkdir_errno raw fs res

unfoldable pub unlink_reply : Result (Unit {0}) → Cmd Reply
unfolding unlink_errno
unlink_reply (ok x) = pure (reply_err success)
unlink_reply (err e) = pure (reply_err (unlink_errno e))

unfoldable pub chfs_unlink :
    (stale now : ℕ) → (raw : List ℕ) → FileOperation → (parent : ℕ) → (name : Bytes) → Cmd Reply
unfolding unlink_reply
chfs_unlink stale now raw fs parent name = do
  res ← attempt (unlink stale now raw fs parent name)
  unlink_reply res

unfoldable pub resized_reply :
    (raw : List ℕ) → FileOperation → (ino : ℕ) → Result FileAttr → Cmd Reply
unfolding with_stat
resized_reply raw fs ino (err e) = pure (reply_err enosys)
resized_reply raw fs ino (ok attr) = do
  attr_res ← attempt (get_type_attr raw fs ino)
  with_stat fatal attr_res (λ st. pure (reply_attr st))

-- `to_set` says which attributes the caller means, and is not looked at.
unfoldable pub chfs_setattr :
    (now : ℕ) → (raw : List ℕ) → FileOperation → (ino st_size to_set : ℕ) → Cmd Reply
unfolding resized_reply
chfs_setattr now raw fs ino st_size to_set = do
  res ← attempt (resize now raw fs ino st_size)
  resized_reply raw fs ino res

abbrev pub chfs_open : (ino : ℕ) → Cmd Reply
chfs_open ino = pure reply_open

-- The message of the first case prints the number of free blocks.
unfoldable pub write_reply : FileOperation → Result ℕ → Cmd Reply
write_reply fs (ok bytes_written) = pure (reply_write bytes_written)
write_reply fs (err ErrorType.out_of_resource) = do
  free ← unwrapped (get_free_blocks_num fs)
  pure (reply_err enosys)
write_reply fs (err ErrorType.done) = unimplemented
write_reply fs (err ErrorType.invalid_arg) = unimplemented
write_reply fs (err ErrorType.invalid) = unimplemented
write_reply fs (err ErrorType.not_exist) = unimplemented
write_reply fs (err ErrorType.already_exist) = unimplemented
write_reply fs (err ErrorType.not_empty) = unimplemented

unfoldable pub chfs_write :
    (now : ℕ)
    → (raw : List ℕ) → FileOperation
    → (ino : ℕ) → (buf : Bytes) → (size off : ℕ) → Cmd Reply
unfolding write_reply
chfs_write now raw fs ino buf size off = do
  res ← attempt (write_file_w_off now raw fs ino buf size off)
  write_reply fs res

unfoldable pub found_reply : (raw : List ℕ) → FileOperation → Option ℕ → Cmd Reply
unfolding entry_reply
found_reply raw fs none = pure (reply_err enoent)
found_reply raw fs (some id) = entry_reply raw fs id

unfoldable pub searched_reply :
    (raw : List ℕ) → FileOperation → (name : Bytes) → Result (List DirectoryEntry) → Cmd Reply
unfolding found_reply
searched_reply raw fs name (err e) = pure (reply_err fatal)
searched_reply raw fs name (ok list) = found_reply raw fs (find_entry name list)

unfoldable pub chfs_lookup :
    (stale : ℕ) → (raw : List ℕ) → FileOperation → (parent : ℕ) → (name : Bytes) → Cmd Reply
unfolding searched_reply
chfs_lookup stale raw fs parent name = do
  res ← attempt (read_directory stale raw fs parent)
  searched_reply raw fs name res
