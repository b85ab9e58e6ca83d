-- ===== src/InodeManager.antt =====
-- src/include/metadata/manager.h and src/metadata/manager.cc: the inode manager. Block 0 is the
-- super block; the inode table lies in the blocks behind it, the inode bitmap behind the table.
-- `raw` is what a buffer from `new u8[block_size]` holds.
pub mod Table
pub mod Guards
pub mod Unusable
pub mod Zeroing
pub mod Free
pub mod Search
pub mod Taking
pub mod Allocate
pub mod Count
pub mod Safe
use se3331_labs.Common.{
  ℕ, zero, suc, ◌+◌, ◌-◌, ◌*◌, ◌/◌, ◌%◌, Option, none, some, List, ltb, leb, ◌==◌, if◌then◌else◌,
  u32, u64, u64_mod,
}
use se3331_labs.Result.{ErrorType, Result, ok, err}
use se3331_labs.Bitmap
use se3331_labs.Bitmap.{Bitmap}
use se3331_labs.Block.{
  Cmd, done, pure, fail, ◌>>=◌, ◌>>◌, checked, verify, attempt, unwrapped, block_size, read_block,
  write_block, write_partial_block, zero_block,
}
use se3331_labs.Block.Iterator
use se3331_labs.Block.Iterator.{BlockIterator}
use se3331_labs.Allocator.{total_bits_per_block, bitmap_over, new_buffer}
use se3331_labs.Fields.{bytes_of, load}
use se3331_labs.Inode.{InodeType, FileAttr, invalid_block_id, new_inode, flush_to_buffer}
use se3331_labs.Inode

pub record InodeManager : Type 0 where
  pub max_inode_supported : ℕ
  pub n_table_blocks : ℕ
  pub n_bitmap_blocks : ℕ

abbrev pub raw_to_logic : ℕ → ℕ
raw_to_logic i = u64 (i + 1)

abbrev pub logic_to_raw : ℕ → ℕ
logic_to_raw i = u64 (i + u64_mod - 1)

-- A division by zero is a fault.
unfoldable pub nonzero : ℕ → Cmd ℕ
nonzero n = verify (ltb 0 n) (pure n)

-- block_size() / sizeof(block_id_t), to divide by.
unfoldable pub inode_per_block : Cmd ℕ
unfolding nonzero
inode_per_block = do sz ← block_size; nonzero (sz / 8)

-- A call whose result is not looked at.
unfoldable pub ignored : Cmd (Unit {0}) → Cmd (Unit {0})
ignored m = do r ← attempt m; pure tt

-- `read_block` into a buffer, its result not looked at.
unfoldable pub kept : List ℕ → Result (List ℕ) → List ℕ
kept buffer (ok bytes) = bytes
kept buffer (err e) = buffer

unfoldable pub read_into : ℕ → List ℕ → Cmd (List ℕ)
unfolding kept
read_into block_id buffer = do r ← attempt (read_block block_id buffer); pure (kept buffer r)

-- The loops that zero the blocks: rounds left, and the block.
unfoldable pub zero_blocks : ℕ → ℕ → Cmd (Unit {0})
zero_blocks zero b = pure tt
zero_blocks (suc n) b = do ignored (zero_block b); zero_blocks n (b + 1)

-- ceil(n / d) as the source computes it.
abbrev pub blocks_for : (n d : ℕ) → ℕ
blocks_for n d = if ltb (u64 (n / d * d)) n then n / d + 1 else n / d

unfoldable pub construct : (max_inode_supported : ℕ) → Cmd InodeManager
unfolding zero_blocks
construct max_inode_supported = do
  bits ← total_bits_per_block
  inode_bits_per_block ← nonzero bits
  sz ← block_size
  let n_bitmap = blocks_for max_inode_supported inode_bits_per_block
  let max_inodes = u64 (n_bitmap * 8 * sz)
  per_block ← inode_per_block
  let n_table = blocks_for max_inodes per_block
  zero_blocks n_table 1
  zero_blocks n_bitmap (1 + n_table)
  pure (record {
    max_inode_supported = max_inodes;
    n_table_blocks = n_table;
    n_bitmap_blocks = n_bitmap;
  })

unfoldable pub create_from_block_manager : (max_inode_supported : ℕ) → Cmd InodeManager
create_from_block_manager max_inode_supported = do
  bits ← total_bits_per_block
  inode_bits_per_block ← nonzero bits
  let n_bitmap = max_inode_supported / inode_bits_per_block
  verify (u64 (n_bitmap * inode_bits_per_block) == max_inode_supported) (do
    per_block ← inode_per_block
    pure (record {
      max_inode_supported = max_inode_supported;
      n_table_blocks = blocks_for max_inode_supported per_block;
      n_bitmap_blocks = n_bitmap;
    }))

abbrev pub get_reserved_blocks : InodeManager → ℕ
get_reserved_blocks im = u32 (1 + im.n_table_blocks + im.n_bitmap_blocks)

unfoldable pub set_table : (idx bid : ℕ) → Cmd (Unit {0})
set_table idx bid = do
  per_block ← inode_per_block
  ignored (write_partial_block (1 + idx / per_block) (bytes_of 8 bid) (idx % per_block * 8) 8)

unfoldable pub get : (raw : List ℕ) → (id : ℕ) → Cmd ℕ
unfolding read_into
get raw id = do
  per_block ← inode_per_block
  buffer ← read_into (1 + logic_to_raw id / per_block) raw
  checked (load 8 (logic_to_raw id % per_block * 8) buffer)

-- Sets the bit that the search found and makes the inode, or goes on to the next block.
unfoldable pub take_inode :
    (now : ℕ)
    → (raw : List ℕ) → InodeType
    → (bid count : ℕ) → BlockIterator
    → Bitmap
    → Option ℕ
    → Cmd ℕ
    → Cmd ℕ
unfolding set_table
take_inode now raw type bid count iter bitmap none rest = rest
take_inode now raw type bid count iter bitmap (some free_idx) rest = do
  marked ← checked (Bitmap.set bitmap free_idx)
  changed ← Iterator.write_through iter marked.bytes
  Iterator.flush_cur_block changed
  sz ← block_size
  inode ← checked (new_inode now type sz)
  buffer ← checked (flush_to_buffer inode raw)
  ignored (write_block bid buffer)
  let inode_table_idx = u64 (count * sz * 8 + free_idx)
  set_table inode_table_idx bid
  pure (raw_to_logic inode_table_idx)

-- The loop of `allocate_inode`: rounds left, count, the iterator.
unfoldable pub allocate_loop :
    (now : ℕ) → (raw : List ℕ) → InodeType → (bid : ℕ) → ℕ → ℕ → BlockIterator → Cmd ℕ
unfolding take_inode
allocate_loop now raw type bid zero count iter = fail ErrorType.out_of_resource
allocate_loop now raw type bid (suc n) count iter = do
  more ← Iterator.has_next iter
  let rest = (do
    sz ← block_size
    stepped ← Iterator.next iter sz
    let (moved, res) = stepped
    unwrapped (done res)
    allocate_loop now raw type bid n (count + 1) moved)
  if more
      then (do
        data_ptr ← Iterator.unsafe_get_value_ptr iter
        bitmap ← bitmap_over data_ptr
        free_idx ← checked (Bitmap.find_first_free bitmap)
        take_inode now raw type bid count iter bitmap free_idx rest)
      else fail ErrorType.out_of_resource

-- Each round ends the loop or moves the iterator by a block, so one round more than there are
-- bitmap blocks is enough.
unfoldable pub allocate_inode :
    (now : ℕ) → (raw : List ℕ) → InodeManager → InodeType → (bid : ℕ) → Cmd ℕ
unfolding allocate_loop
allocate_inode now raw im type bid = do
  iter ← Iterator.create (1 + im.n_table_blocks) (1 + im.n_table_blocks + im.n_bitmap_blocks)
  allocate_loop now raw type bid (im.n_bitmap_blocks + 1) 0 iter

-- The loop of `free_inode_cnt`: rounds left, count, the iterator.
unfoldable pub count_loop : ℕ → ℕ → BlockIterator → Cmd ℕ
count_loop zero count iter = pure count
count_loop (suc n) count iter = do
  more ← Iterator.has_next iter
  let rest = (do
    data_ptr ← Iterator.unsafe_get_value_ptr iter
    bitmap ← bitmap_over data_ptr
    zeros ← checked (Bitmap.count_zeros bitmap)
    sz ← block_size
    stepped ← Iterator.next iter sz
    let (moved, res) = stepped
    done res
    count_loop n (u64 (count + zeros)) moved)
  if more then rest else pure count

unfoldable pub free_inode_cnt : InodeManager → Cmd ℕ
unfolding count_loop
free_inode_cnt im = do
  iter ← Iterator.create (1 + im.n_table_blocks) (1 + im.n_table_blocks + im.n_bitmap_blocks)
  count_loop (im.n_bitmap_blocks + 1) 0 iter

-- The block of the inode, and the buffer it is read into.
unfoldable pub read_inode : (raw : List ℕ) → InodeManager → (id : ℕ) → List ℕ → Cmd (ℕ × List ℕ)
unfolding get
read_inode raw im id buffer =
    if leb (u64 (im.max_inode_supported + u64_mod - 1)) id then fail ErrorType.invalid_arg else do
      block_id ← get raw id
      if block_id == invalid_block_id
          then fail ErrorType.invalid_arg
          else (do bytes ← read_block block_id buffer; pure (block_id, bytes))

unfoldable pub get_attr : (raw : List ℕ) → InodeManager → (id : ℕ) → Cmd FileAttr
unfolding read_inode
get_attr raw im id = do
  buffer ← new_buffer
  r ← read_inode raw im id buffer
  checked (Inode.get_attr r.1)

unfoldable pub get_type : (raw : List ℕ) → InodeManager → (id : ℕ) → Cmd InodeType
unfolding read_inode
get_type raw im id = do
  buffer ← new_buffer
  r ← read_inode raw im id buffer
  checked (Inode.get_type r.1)

unfoldable pub get_type_attr : (raw : List ℕ) → InodeManager → (id : ℕ) → Cmd (InodeType × FileAttr)
unfolding read_inode
get_type_attr raw im id = do
  buffer ← new_buffer
  r ← read_inode raw im id buffer
  type ← checked (Inode.get_type r.1)
  attr ← checked (Inode.get_attr r.1)
  pure (type, attr)

unfoldable pub free_inode : InodeManager → (id : ℕ) → Cmd (Unit {0})
unfolding set_table read_into
free_inode im id =
    if leb (u64 (im.max_inode_supported + u64_mod - 1)) id then fail ErrorType.invalid_arg else do
      set_table (logic_to_raw id) invalid_block_id
      bits ← total_bits_per_block
      bits_per_block ← nonzero bits
      let bitmap_block_id = 1 + im.n_table_blocks + logic_to_raw id / bits_per_block
      buffer ← new_buffer
      bytes ← read_into bitmap_block_id buffer
      bitmap ← bitmap_over bytes
      cleared ← checked (Bitmap.clear bitmap (logic_to_raw id % bits_per_block))
      ignored (write_block bitmap_block_id cleared.bytes)
