-- ===== src/Daemon/Serving.antt =====
-- The callbacks that only read: each keeps the device, and answers.
use se3331_labs.Common.{
  ℕ, ◌≡◌, ◌⊎◌, inl, inr, refl, Option, none, some, Bool, true, false, List, [], ◌==◌, if◌then◌else◌,
  Bool-cases,
}
use se3331_labs.Result.{Result, ok, err}
use se3331_labs.Block.{
  BlockManager, Run, done, fault, Cmd, pure, ◌>>=◌, checked, attempt, unwrapped,
}
use se3331_labs.Block.Reads.{Reads, pure-Reads, checked-Reads, bind-Reads}
use se3331_labs.Inode
use se3331_labs.Inode.{InodeType, FileAttr, type_file, type_directory}
use se3331_labs.InodeManager
use se3331_labs.InodeManager.{read_inode}
use se3331_labs.Directory.{Bytes, DirectoryEntry, find_entry}
use se3331_labs.Allocator.{new_buffer}
use se3331_labs.FileOperation.{FileOperation}
use se3331_labs.FileOperation.Data.{read_file_w_off, get_type_attr, gettype}
use se3331_labs.FileOperation.Tree.{read_directory}
use se3331_labs.FileOperation.Reading.{
  new_buffer-Reads, read_inode-Reads, gettype-Reads, read_directory-Reads, read_file_w_off-Reads,
}
use se3331_labs.Daemon.{
  Errno, enoent, enotdir, Stat, stat_of, file_mode, directory_mode, Reply, reply_err, reply_buf,
  reply_entry, reply_open, signed_leb, fatal, reply_attr, getattr_helper,
}
use se3331_labs.Daemon.Session.{Request, handle}
use se3331_labs.Daemon.Listing.{Fuse, add_all, reply_buf_limited}
use se3331_labs.Daemon.Handlers.{
  read_size_of, data_reply, read_from, chfs_read, entry_param, entry_reply, found_reply,
  searched_reply, chfs_lookup, with_stat, chfs_getattr, list_reply, chfs_readdir,
}

-- A run from `bm` that faults, or ends with a reply on the same device.
abbrev pub AnswersThere : BlockManager → Run Reply → Type 0
AnswersThere bm run = (run ≡ fault) ⊎ ((reply : Reply) × (run ≡ done (ok reply) bm))

abbrev pub Serves : Cmd Reply → Type 0
Serves m = (bm : BlockManager) → AnswersThere bm (m bm)

pub pure-Serves : (reply : Reply) → Serves (pure reply)
pure-Serves reply bm = inr (reply, refl)

if-Serves : (b : Bool) (m n : Cmd Reply) → Serves m → Serves n → Serves (if b then m else n)
if-Serves true m n h k bm = h bm
if-Serves false m n h k bm = k bm

-- A command that reads, all of whose errors are answered.
attempt-Serves {ℓ} :
    {A : Type ℓ} (m : Cmd A) (k : Result A → Cmd Reply)
    → Reads m
    → ((r : Result A) → Serves (k r))
    → Serves (attempt m >>= k)
attempt-Serves m k h s bm = elim (h bm) [
  | inl e ↦ inl (rw (attempt, ◌>>=◌, e))
  | inr (r, e) ↦ rw (attempt, ◌>>=◌, e) (s r bm)
]

unwrapped_result {ℓ} :
    {A : Type ℓ} (m : Cmd A) (k : A → Cmd Reply) (bm : BlockManager) (r : Result A)
    → ((a : A) → Serves (k a))
    → m bm ≡ done r bm
    → AnswersThere bm ((unwrapped m >>= k) bm)
unwrapped_result m k bm (ok a) s e = rw (unwrapped, ◌>>=◌, e) (s a bm)
unwrapped_result m k bm (err x) s e = inl (rw (unwrapped, ◌>>=◌, e))

unwrapped-Serves {ℓ} :
    {A : Type ℓ} (m : Cmd A) (k : A → Cmd Reply)
    → Reads m
    → ((a : A) → Serves (k a))
    → Serves (unwrapped m >>= k)
unwrapped-Serves m k h s bm = elim (h bm) [
  | inl e ↦ inl (rw (unwrapped, ◌>>=◌, e))
  | inr (r, e) ↦ unwrapped_result m k bm r s e
]

helper-Serves :
    (type : InodeType) (attr : FileAttr) (k : Stat → Cmd Reply)
    → ((st : Stat) → Serves (k st))
    → Serves (getattr_helper type attr >>= k)
unfolding getattr_helper
helper-Serves type attr k s bm = elim (Bool-cases (type == type_file)) [
  | inl e ↦ rw (e, ◌>>=◌) (s (stat_of attr file_mode 1) bm)
  | inr e ↦ elim (Bool-cases (type == type_directory)) [
    | inl d ↦ rw (e, d, ◌>>=◌) (s (stat_of attr directory_mode 2) bm)
    | inr d ↦ inl (rw (e, d, ◌>>=◌))
  ]
]

pub with_stat-Serves :
    (missing : Errno) (attr : Result (InodeType × FileAttr)) (answer : Stat → Cmd Reply)
    → ((st : Stat) → Serves (answer st))
    → Serves (with_stat missing attr answer)
unfolding with_stat
with_stat-Serves missing (err e) answer s = pure-Serves (reply_err missing)
with_stat-Serves missing (ok type_attr) answer s = helper-Serves type_attr.0 type_attr.1 answer s

pub get_type_attr-Reads :
    (raw : List ℕ) (fs : FileOperation) (id : ℕ) → Reads (get_type_attr raw fs id)
unfolding InodeManager.get_type_attr
get_type_attr-Reads raw fs id = bind-Reads new_buffer _ new_buffer-Reads λ buffer.
    bind-Reads (read_inode raw fs.inode_manager id buffer) _
      (read_inode-Reads raw fs.inode_manager id buffer)
      λ r. bind-Reads (checked (Inode.get_type r.1)) _ (checked-Reads _) λ type.
        bind-Reads (checked (Inode.get_attr r.1)) _ (checked-Reads _)
          λ attr. pure-Reads (type, attr)

-- A reply that needs the attributes of an inode.
pub stat-Serves :
    (raw : List ℕ) (fs : FileOperation) (ino : ℕ) (missing : Errno) (answer : Stat → Cmd Reply)
    → ((st : Stat) → Serves (answer st))
    → Serves (do attr ← attempt (get_type_attr raw fs ino); with_stat missing attr answer)
stat-Serves raw fs ino missing answer s =
    attempt-Serves (get_type_attr raw fs ino) (λ attr. with_stat missing attr answer)
      (get_type_attr-Reads raw fs ino) λ attr. with_stat-Serves missing attr answer s

pub chfs_getattr-Serves :
    (raw : List ℕ) (fs : FileOperation) (ino : ℕ) → Serves (chfs_getattr raw fs ino)
unfolding chfs_getattr
chfs_getattr-Serves raw fs ino =
    stat-Serves raw fs ino enoent (λ st. pure (reply_attr st)) λ st. pure-Serves (reply_attr st)

list_reply-Serves :
    (fuse : Fuse) (off size : ℕ) (r : Result (List DirectoryEntry))
    → Serves (list_reply fuse off size r)
unfolding list_reply
list_reply-Serves fuse off size (err e) = pure-Serves (reply_err fatal)
list_reply-Serves fuse off size (ok list) =
    pure-Serves (reply_buf_limited (add_all fuse list []) off size)

pub chfs_readdir-Serves :
    (fuse : Fuse) (stale : ℕ) (raw : List ℕ) (fs : FileOperation) (ino size off : ℕ)
    → Serves (chfs_readdir fuse stale raw fs ino size off)
unfolding chfs_readdir
chfs_readdir-Serves fuse stale raw fs ino size off =
    unwrapped-Serves (gettype raw fs ino) _ (gettype-Reads raw fs ino) λ type.
      if-Serves (type == type_directory) _ (pure (reply_err enotdir))
        (attempt-Serves (read_directory stale raw fs ino) (λ res. list_reply fuse off size res)
          (read_directory-Reads stale raw fs ino) λ res. list_reply-Serves fuse off size res)
        (pure-Serves (reply_err enotdir))

data_reply-Serves : (r : Result (List ℕ)) → Serves (data_reply r)
unfolding data_reply
data_reply-Serves (ok res_data) = pure-Serves (reply_buf res_data)
data_reply-Serves (err e) = pure-Serves (reply_err fatal)

read_from-Serves :
    (raw : List ℕ) (fs : FileOperation) (ino size off : ℕ) (st : Stat)
    → Serves (read_from raw fs ino size off st)
unfolding read_from
read_from-Serves raw fs ino size off st =
    if-Serves (signed_leb st.st_size off) (pure (reply_buf [])) _ (pure-Serves (reply_buf [])) (
      attempt-Serves (read_file_w_off raw fs ino (read_size_of st.st_size off size) off)
        (λ res. data_reply res)
        (read_file_w_off-Reads raw fs ino (read_size_of st.st_size off size) off)
        λ res. data_reply-Serves res)

chfs_read-Serves :
    (raw : List ℕ) (fs : FileOperation) (ino size off : ℕ) → Serves (chfs_read raw fs ino size off)
unfolding chfs_read
chfs_read-Serves raw fs ino size off =
    stat-Serves raw fs ino fatal (λ st. read_from raw fs ino size off st)
      λ st. read_from-Serves raw fs ino size off st

entry_reply-Serves : (raw : List ℕ) (fs : FileOperation) (ino : ℕ) → Serves (entry_reply raw fs ino)
unfolding entry_reply
entry_reply-Serves raw fs ino =
    stat-Serves raw fs ino fatal (λ st. pure (reply_entry (entry_param ino st)))
      λ st. pure-Serves (reply_entry (entry_param ino st))

found_reply-Serves :
    (raw : List ℕ) (fs : FileOperation) (found : Option ℕ) → Serves (found_reply raw fs found)
unfolding found_reply
found_reply-Serves raw fs none = pure-Serves (reply_err enoent)
found_reply-Serves raw fs (some id) = entry_reply-Serves raw fs id

searched_reply-Serves :
    (raw : List ℕ) (fs : FileOperation) (name : Bytes) (r : Result (List DirectoryEntry))
    → Serves (searched_reply raw fs name r)
unfolding searched_reply
searched_reply-Serves raw fs name (err e) = pure-Serves (reply_err fatal)
searched_reply-Serves raw fs name (ok list) = found_reply-Serves raw fs (find_entry name list)

chfs_lookup-Serves :
    (stale : ℕ) (raw : List ℕ) (fs : FileOperation) (parent : ℕ) (name : Bytes)
    → Serves (chfs_lookup stale raw fs parent name)
unfolding chfs_lookup
chfs_lookup-Serves stale raw fs parent name =
    attempt-Serves (read_directory stale raw fs parent) (λ res. searched_reply raw fs name res)
      (read_directory-Reads stale raw fs parent) λ res. searched_reply-Serves raw fs name res

-- The requests that only read.
abbrev pub IsReading : Request → Type 0
IsReading (Request.open_file ino) = Unit
IsReading (Request.getattr ino) = Unit
IsReading (Request.readdir ino size off) = Unit
IsReading (Request.read ino size off) = Unit
IsReading (Request.lookup parent name) = Unit
IsReading (Request.readlink ino) = ⊥
IsReading (Request.mknod parent name) = ⊥
IsReading (Request.mkdir parent name) = ⊥
IsReading (Request.unlink parent name) = ⊥
IsReading (Request.rmdir parent name) = ⊥
IsReading (Request.symlink target parent name) = ⊥
IsReading (Request.rename parent name newparent newname) = ⊥
IsReading (Request.hard_link ino newparent newname) = ⊥
IsReading (Request.write ino buf size off) = ⊥
IsReading (Request.setattr ino st_size to_set) = ⊥
IsReading (Request.statfs ino) = ⊥

-- A request that only reads (open, getattr, readdir, read, lookup) never changes the device, whatever
-- the device holds and whatever the request asks for, and no error of the file system leaves it
-- without a reply: unless the process ends in it, it is answered, on the device it was made on.
pub handle-Serves :
    (fuse : Fuse) (stale now : ℕ) (raw : List ℕ) (fs : FileOperation) (request : Request)
    (bm : BlockManager)
    → IsReading request
    → AnswersThere bm (handle fuse stale now raw fs request bm)
unfolding handle
handle-Serves fuse stale now raw fs (Request.open_file ino) bm h = pure-Serves reply_open bm
handle-Serves fuse stale now raw fs (Request.getattr ino) bm h = chfs_getattr-Serves raw fs ino bm
handle-Serves fuse stale now raw fs (Request.readdir ino size off) bm h =
    chfs_readdir-Serves fuse stale raw fs ino size off bm
handle-Serves fuse stale now raw fs (Request.read ino size off) bm h =
    chfs_read-Serves raw fs ino size off bm
handle-Serves fuse stale now raw fs (Request.lookup parent name) bm h =
    chfs_lookup-Serves stale raw fs parent name bm
handle-Serves fuse stale now raw fs (Request.readlink ino) bm h = absurd h
handle-Serves fuse stale now raw fs (Request.mknod parent name) bm h = absurd h
handle-Serves fuse stale now raw fs (Request.mkdir parent name) bm h = absurd h
handle-Serves fuse stale now raw fs (Request.unlink parent name) bm h = absurd h
handle-Serves fuse stale now raw fs (Request.rmdir parent name) bm h = absurd h
handle-Serves fuse stale now raw fs (Request.symlink target parent name) bm h = absurd h
handle-Serves fuse stale now raw fs (Request.rename parent name newparent newname) bm h = absurd h
handle-Serves fuse stale now raw fs (Request.hard_link ino newparent newname) bm h = absurd h
handle-Serves fuse stale now raw fs (Request.write ino buf size off) bm h = absurd h
handle-Serves fuse stale now raw fs (Request.setattr ino st_size to_set) bm h = absurd h
handle-Serves fuse stale now raw fs (Request.statfs ino) bm h = absurd h
