-- ===== src/Inode.antt =====
-- src/include/metadata/inode.h and src/metadata/inode.cc: the inode, as an object and as the bytes
-- of its block: type at 0, atime, mtime, ctime and size at 4, 12, 20 and 28, block_size at 36,
-- nblocks at 40, and the block ids from 44 on. Functions on an `Inode *` into a buffer take the
-- buffer; what lies outside it gives `none`.
pub mod Flush
pub mod Bytes
pub mod Iterator
pub mod Attributes
use se3331_labs.Common.{
  ℕ, zero, suc, ◌+◌, ◌-◌, ◌*◌, ◌/◌, Bool, Option, none, some, List, [], ◌∷◌, ◌++◌, ltb, leb, ◌==◌,
  if◌then◌else◌, length, drop, u32, u64, u32_mod,
}
use se3331_labs.Common.Checked.{◌>>=◌, verify}
use se3331_labs.Fields.{bytes_of, load, save}

-- enum class InodeType : u32. Any u32 can be read from a block.
abbrev pub InodeType : Type 0
InodeType = ℕ

abbrev pub type_unknown : InodeType
type_unknown = 0

abbrev pub type_file : InodeType
type_file = 1

abbrev pub type_directory : InodeType
type_directory = 2

abbrev pub invalid_block_id : ℕ
invalid_block_id = 0

pub record FileAttr : Type 0 where
  pub atime : ℕ
  pub mtime : ℕ
  pub ctime : ℕ
  pub size : ℕ

abbrev pub set_mtime : ℕ → FileAttr → FileAttr
set_mtime t attr = record attr { mtime = t }

abbrev pub set_all_time : ℕ → FileAttr → FileAttr
set_all_time t attr = record attr { atime = t; mtime = t; ctime = t }

pub record Inode : Type 0 where
  pub type : InodeType
  pub inner_attr : FileAttr
  pub block_size : ℕ
  pub nblocks : ℕ

abbrev pub sizeof_inode : ℕ
sizeof_inode = 44

-- Inode(InodeType type, usize block_size), at the time `now`.
unfoldable pub new_inode : (now : ℕ) → InodeType → (block_size : ℕ) → Option Inode
new_inode now type block_size = verify (ltb sizeof_inode block_size) (
    some (record {
      type = type;
      inner_attr = set_all_time now (record { atime = 0; mtime = 0; ctime = 0; size = 0 });
      block_size = block_size;
      nblocks = u32 ((block_size - sizeof_inode) / 8);
    }))

-- The bytes of the object.
unfoldable pub inode_bytes : Inode → List ℕ
inode_bytes inode =
    bytes_of 4 inode.type
    ++ (bytes_of 8 inode.inner_attr.atime
        ++ (bytes_of 8 inode.inner_attr.mtime
            ++ (bytes_of 8 inode.inner_attr.ctime
                ++ (bytes_of 8 inode.inner_attr.size
                    ++ (bytes_of 4 inode.block_size ++ bytes_of 4 inode.nblocks)))))

-- The loop of `flush_to_buffer`: rounds left, i, the buffer.
unfoldable pub clear_blocks : ℕ → ℕ → List ℕ → Option (List ℕ)
clear_blocks zero i buffer = some buffer
clear_blocks (suc n) i buffer = do
  cleared ← save 8 (sizeof_inode + i * 8) invalid_block_id buffer
  clear_blocks n (i + 1) cleared

unfoldable pub flush_to_buffer : Inode → List ℕ → Option (List ℕ)
unfolding clear_blocks inode_bytes
flush_to_buffer inode buffer =
    verify (leb sizeof_inode (length buffer))
      (clear_blocks inode.nblocks 0 (inode_bytes inode ++ drop sizeof_inode buffer))

unfoldable pub get_type : List ℕ → Option InodeType
get_type buffer = load 4 0 buffer

unfoldable pub get_attr : List ℕ → Option FileAttr
get_attr buffer = do
  a ← load 8 4 buffer
  m ← load 8 12 buffer
  c ← load 8 20 buffer
  s ← load 8 28 buffer
  some (record { atime = a; mtime = m; ctime = c; size = s })

unfoldable pub set_attr : FileAttr → List ℕ → Option (List ℕ)
set_attr attr buffer = do
  one ← save 8 4 attr.atime buffer
  two ← save 8 12 attr.mtime one
  three ← save 8 20 attr.ctime two
  save 8 28 attr.size three

unfoldable pub get_size : List ℕ → Option ℕ
get_size buffer = load 8 28 buffer

unfoldable pub get_block_size : List ℕ → Option ℕ
get_block_size buffer = load 4 36 buffer

unfoldable pub get_nblocks : List ℕ → Option ℕ
get_nblocks buffer = load 4 40 buffer

-- nblocks - 1, in uint32_t
unfoldable pub get_direct_block_num : List ℕ → Option ℕ
unfolding get_nblocks
get_direct_block_num buffer = do n ← get_nblocks buffer; some (u32 (n + u32_mod - 1))

unfoldable pub is_direct_block : List ℕ → ℕ → Option Bool
unfolding get_direct_block_num
is_direct_block buffer idx = do n ← get_direct_block_num buffer; some (ltb (u32 idx) n)

unfoldable pub max_file_sz_supported : List ℕ → Option ℕ
unfolding get_block_size get_direct_block_num
max_file_sz_supported buffer = do
  sz ← get_block_size buffer
  n ← get_direct_block_num buffer
  some (u64 (sz / 8 * sz + n * sz))

-- blocks[idx]
unfoldable pub block_at : List ℕ → ℕ → Option ℕ
block_at buffer idx = load 8 (sizeof_inode + idx * 8) buffer

unfoldable pub set_block_direct : List ℕ → (idx bid : ℕ) → Option (List ℕ)
set_block_direct buffer idx bid = save 8 (sizeof_inode + idx * 8) bid buffer

unfoldable pub get_indirect_block_id : List ℕ → Option ℕ
unfolding block_at get_direct_block_num
get_indirect_block_id buffer = do
  last ← get_direct_block_num buffer
  bid ← block_at buffer last
  verify (ltb 0 bid) (some bid)

unfoldable pub invalid_indirect_block_id : List ℕ → Option (List ℕ)
unfolding set_block_direct get_direct_block_num
invalid_indirect_block_id buffer = do
  last ← get_direct_block_num buffer
  set_block_direct buffer last invalid_block_id
