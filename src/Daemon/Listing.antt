-- ===== src/Daemon/Listing.antt =====
-- daemons/single_node_fs/main.cc: DirectoryBuf, the bytes of a directory for readdir. How libfuse
-- writes an entry is a parameter.
use se3331_labs.Common.{
  ℕ, ◌+◌, ◌-◌, ◌≤◌, ◌≡◌, List, [], ◌∷◌, ◌++◌, ltb, ◌==◌, if◌then◌else◌, length, take, drop,
  replicate, min,
}
use se3331_labs.Directory.{Bytes, DirectoryEntry}
use se3331_labs.Daemon.{Reply, reply_buf}

-- fuse_add_direntry, as it is documented. The size of an entry, which its name decides, is what the
-- call without a buffer returns. The call with a buffer writes an entry of that size behind the first
-- `oldsize` bytes, where it fits; the bytes also depend on the inode and on the offset of the next
-- entry.
pub record Fuse : Type 0 where
  pub direntry_size : Bytes → ℕ
  pub direntry : Bytes → (ino off : ℕ) → Bytes
  pub fuse_add_direntry : (p : Bytes) → (oldsize : ℕ) → Bytes → (ino off : ℕ) → Bytes
  pub length-direntry :
      (name : Bytes) (ino off : ℕ) → length (direntry name ino off) ≡ direntry_size name
  pub direntry_written :
      (p : Bytes) (oldsize : ℕ) (name : Bytes) (ino off : ℕ)
      → oldsize + direntry_size name ≤ length p
      → fuse_add_direntry p oldsize name ino off
        ≡ take oldsize p ++ (direntry name ino off ++ drop (oldsize + direntry_size name) p)

-- c_str(): what follows a zero is not seen.
unfoldable pub c_str : Bytes → Bytes
c_str [] = []
c_str (c ∷ s) = let rest = c_str s in if c == 0 then [] else c ∷ rest

-- The buffer is its first `size` bytes.
unfoldable pub add : Fuse → (p : Bytes) → (name : Bytes) → (ino : ℕ) → Bytes
add fuse p name ino =
    let sz = fuse.direntry_size name in
    let grown = p ++ replicate sz 0 in
    fuse.fuse_add_direntry grown (length p) name ino (length p + sz)

-- The loop of `chfs_readdir`.
unfoldable pub add_all : Fuse → List DirectoryEntry → (p : Bytes) → Bytes
unfolding add c_str
add_all fuse [] p = p
add_all fuse (entry ∷ list) p = add_all fuse list (add fuse p (c_str entry.name) entry.id)

unfoldable pub reply_buf_limited : (p : Bytes) → (off maxsize : ℕ) → Reply
reply_buf_limited p off maxsize =
    if ltb off (length p)
    then reply_buf (take (min (length p - off) maxsize) (drop off p))
    else reply_buf []
