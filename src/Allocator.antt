-- ===== src/Allocator.antt =====
-- src/include/block/allocator.h and src/block/allocator.cc: the block allocator. Its bitmap lies
-- on the device, in `bitmap_block_cnt` blocks from `bitmap_block_id` on.
pub mod Layout
pub mod Ranges
pub mod Allocate
pub mod Zeroing
pub mod Marking
pub mod Construct
pub mod Deallocate
pub mod Free
pub mod Safe
pub mod Supply
use se3331_labs.Common.{
  ℕ, zero, suc, ◌+◌, ◌-◌, ◌*◌, ◌/◌, ◌%◌, Bool, true, false, Option, none, some, List, ltb, leb,
  ◌==◌, if◌then◌else◌, replicate, u32, u64,
}
use se3331_labs.Result.{ErrorType}
use se3331_labs.Bitmap
use se3331_labs.Bitmap.{Bitmap}
use se3331_labs.Block.{
  Cmd, pure, fail, ◌>>=◌, ◌>>◌, checked, verify, unwrapped, block_size, total_blocks, read_block,
  write_block, zero_block,
}

pub record BlockAllocator : Type 0 where
  pub bitmap_block_id : ℕ
  pub bitmap_block_cnt : ℕ
  pub last_block_num : ℕ

-- block_size() * KBitsPerByte
abbrev pub total_bits_per_block : Cmd ℕ
total_bits_per_block = do sz ← block_size; pure (u32 (sz * 8))

-- Bitmap(buffer.data(), bm->block_size())
abbrev pub bitmap_over : List ℕ → Cmd Bitmap
bitmap_over buffer = do sz ← block_size; pure (record { bytes = buffer; payload = sz })

-- std::vector<u8> buffer(bm->block_size())
abbrev pub new_buffer : Cmd (List ℕ)
new_buffer = do sz ← block_size; pure (replicate sz 0)

-- The loop that zeroes the bitmap blocks: rounds left, i.
unfoldable pub zero_loop : ℕ → ℕ → ℕ → Cmd (Unit {0})
zero_loop bitmap_block_id zero i = pure tt
zero_loop bitmap_block_id (suc n) i = do
  zero_block (i + bitmap_block_id)
  zero_loop bitmap_block_id n (i + 1)

-- The loop that marks the reserved blocks: rounds left, i, cur_block_id, the bitmap in the buffer.
unfoldable pub mark_loop : ℕ → ℕ → ℕ → ℕ → Bitmap → Cmd (Unit {0})
mark_loop bitmap_block_id zero i cur_block_id bitmap = write_block cur_block_id bitmap.bytes
mark_loop bitmap_block_id (suc n) i cur_block_id bitmap = do
  bits ← total_bits_per_block
  let block_id = i / bits + bitmap_block_id
  fresh ←
      (if block_id == cur_block_id
        then pure bitmap
        else do write_block cur_block_id bitmap.bytes; checked (Bitmap.zeroed bitmap))
  marked ← checked (Bitmap.set fresh (i % bits))
  mark_loop bitmap_block_id n (i + 1) block_id marked

unfoldable pub initialize : (bitmap_block_id total_bitmap_block : ℕ) → Cmd (Unit {0})
unfolding zero_loop mark_loop
initialize bitmap_block_id total_bitmap_block = do
  zero_loop bitmap_block_id total_bitmap_block 0
  buffer ← new_buffer
  bitmap ← bitmap_over buffer
  clean ← checked (Bitmap.zeroed bitmap)
  mark_loop bitmap_block_id (total_bitmap_block + bitmap_block_id) 0 bitmap_block_id clean

-- The fields that the constructor computes. A division by zero is a fault, as is a failed
-- CHFS_VERIFY.
unfoldable pub fields : (bitmap_block_id : ℕ) → Cmd BlockAllocator
fields bitmap_block_id = do
  bits ← total_bits_per_block
  blocks ← total_blocks
  let total_bitmap_block = (if blocks % bits == 0 then blocks / bits else blocks / bits + 1)
  let last_num = (if u64 (total_bitmap_block * bits) == blocks then bits else blocks % bits)
  verify (ltb 0 bits) (
      verify (ltb 0 total_bitmap_block) (
        verify (leb (total_bitmap_block + bitmap_block_id) blocks) (
          verify (leb last_num bits) (
            pure (record {
              bitmap_block_id = bitmap_block_id;
              bitmap_block_cnt = total_bitmap_block;
              last_block_num = last_num;
            })))))

unfoldable pub construct : (bitmap_block_id : ℕ) → (will_initialize : Bool) → Cmd BlockAllocator
unfolding fields initialize
construct bitmap_block_id will_initialize = do
  al ← fields bitmap_block_id
  if will_initialize then (do initialize bitmap_block_id al.bitmap_block_cnt; pure al) else pure al

-- The loop of `free_block_cnt`: rounds left, i, total_free_blocks.
unfoldable pub free_loop : BlockAllocator → ℕ → ℕ → ℕ → Cmd ℕ
free_loop al zero i total = pure total
free_loop al (suc n) i total = do
  buffer ← new_buffer
  bytes ← unwrapped (read_block (i + al.bitmap_block_id) buffer)
  bitmap ← bitmap_over bytes
  n_free ←
      (if i == al.bitmap_block_cnt - 1
        then checked (Bitmap.count_zeros_to_bound bitmap al.last_block_num)
        else checked (Bitmap.count_zeros bitmap))
  free_loop al n (i + 1) (u32 (total + n_free))

unfoldable pub free_block_cnt : BlockAllocator → Cmd ℕ
unfolding free_loop
free_block_cnt al = free_loop al al.bitmap_block_cnt 0 0

-- Marks the bit that the search found, or goes on to the next bitmap block.
unfoldable pub take_bit : BlockAllocator → ℕ → Bitmap → Option ℕ → Cmd ℕ → Cmd ℕ
take_bit al i bitmap none rest = rest
take_bit al i bitmap (some res) rest = do
  bits ← total_bits_per_block
  marked ← checked (Bitmap.set bitmap res)
  write_block (i + al.bitmap_block_id) marked.bytes
  pure (u32 (i * bits) + res)

-- The loop of `allocate`: rounds left, i.
unfoldable pub allocate_loop : BlockAllocator → ℕ → ℕ → Cmd ℕ
unfolding take_bit
allocate_loop al zero i = fail ErrorType.out_of_resource
allocate_loop al (suc n) i =
    let rest = allocate_loop al n (i + 1) in
    do
      buffer ← new_buffer
      bytes ← read_block (i + al.bitmap_block_id) buffer
      bitmap ← bitmap_over bytes
      res ←
          (if i == al.bitmap_block_cnt - 1
            then checked (Bitmap.find_first_free_w_bound bitmap al.last_block_num)
            else checked (Bitmap.find_first_free bitmap))
      take_bit al i bitmap res rest

unfoldable pub allocate : BlockAllocator → Cmd ℕ
unfolding allocate_loop
allocate al = allocate_loop al al.bitmap_block_cnt 0

-- The bit of an allocated block is cleared, and the bitmap block written back.
unfoldable pub release : ℕ → ℕ → Bitmap → Bool → Cmd (Unit {0})
release target idx bitmap false = fail ErrorType.invalid_arg
release target idx bitmap true = do
  cleared ← checked (Bitmap.clear bitmap idx)
  write_block target cleared.bytes

-- The part of `deallocate` behind its guard.
unfoldable pub deallocate_bit : BlockAllocator → ℕ → Cmd (Unit {0})
unfolding release
deallocate_bit al block_id = do
  bits ← total_bits_per_block
  let target = block_id / bits + al.bitmap_block_id
  buffer ← new_buffer
  bytes ← read_block target buffer
  bitmap ← bitmap_over bytes
  used ← checked (Bitmap.check bitmap (block_id % bits))
  release target (block_id % bits) bitmap used

unfoldable pub deallocate : BlockAllocator → ℕ → Cmd (Unit {0})
unfolding deallocate_bit
deallocate al block_id = do
  blocks ← total_blocks
  if leb blocks block_id then fail ErrorType.invalid_arg else deallocate_bit al block_id
