-- ===== src/Allocator/Safe.antt =====
-- Allocating keeps a device well-formed: its geometry, and that it holds bytes.
use se3331_labs.Common.{
  ℕ, zero, suc, ◌+◌, ◌-◌, ◌*◌, refl, inr, Option, none, some, List, ◌==◌, if◌then◌else◌, replicate,
  u32,
}
use se3331_labs.Result.{ErrorType, ok}
use se3331_labs.Bitmap
use se3331_labs.Bitmap.{Bitmap}
use se3331_labs.Bitmap.Bits.{AreBytes}
use se3331_labs.Block.{Cmd, ◌>>=◌, checked, block_size, read_block, write_block}
use se3331_labs.Block.Reads.{Reads, pure-Reads, bind-Reads, block_size-Reads}
use se3331_labs.Block.Safe.{
  Safe, Any, pure-Safe, fail-Safe, checked-Safe, if-Safe, bind-Safe, Reads-Safe, read_block-Safe,
  write_block-Safe,
}
use se3331_labs.Inode.Bytes.{of_any, HasBytes, set-HasBytes}
use se3331_labs.Allocator.{
  BlockAllocator, total_bits_per_block, bitmap_over, new_buffer, take_bit, allocate_loop, allocate,
}
use se3331_labs.Allocator.Zeroing.{zeros-AreBytes}

pub new_buffer-Reads : Reads new_buffer
new_buffer-Reads bm = inr (ok (replicate bm.block_sz 0), refl)

pub new_buffer-Safe : Safe AreBytes new_buffer
new_buffer-Safe =
    bind-Safe Any AreBytes block_size _ (Reads-Safe block_size block_size-Reads)
      λ sz t. pure-Safe AreBytes (replicate sz 0) (zeros-AreBytes sz)

pub total_bits_per_block-Safe : Safe Any total_bits_per_block
total_bits_per_block-Safe =
    bind-Safe Any Any block_size _ (Reads-Safe block_size block_size-Reads)
      λ sz t. pure-Safe Any (u32 (sz * 8)) tt

pub bitmap_over-Reads : (buffer : List ℕ) → Reads (bitmap_over buffer)
bitmap_over-Reads buffer =
    bind-Reads block_size _ block_size-Reads
      λ sz. pure-Reads (record { bytes = buffer; payload = sz })

pub bitmap_over-Safe : (buffer : List ℕ) → AreBytes buffer → Safe HasBytes (bitmap_over buffer)
bitmap_over-Safe buffer h =
    bind-Safe Any HasBytes block_size _ (Reads-Safe block_size block_size-Reads)
      λ sz t. pure-Safe HasBytes (record { bytes = buffer; payload = sz }) h

take_bit-Safe :
    (al : BlockAllocator) (i : ℕ) (bitmap : Bitmap) (res : Option ℕ) (rest : Cmd ℕ)
    → HasBytes bitmap
    → Safe Any rest
    → Safe Any (take_bit al i bitmap res rest)
unfolding take_bit
take_bit-Safe al i bitmap none rest h k = k
take_bit-Safe al i bitmap (some res) rest h k =
    bind-Safe Any Any total_bits_per_block _ total_bits_per_block-Safe λ bits t.
      bind-Safe HasBytes Any (checked (Bitmap.set bitmap res)) _
        (checked-Safe HasBytes _ (set-HasBytes bitmap res h))
        λ marked q.
          bind-Safe Any Any (write_block (i + al.bitmap_block_id) marked.bytes) _
            (write_block-Safe _ marked.bytes q) λ u s. pure-Safe Any (u32 (i * bits) + res) tt

abbrev search : BlockAllocator → (i : ℕ) → Bitmap → Cmd (Option ℕ)
search al i bitmap =
    if i == al.bitmap_block_cnt - 1
    then checked (Bitmap.find_first_free_w_bound bitmap al.last_block_num)
    else checked (Bitmap.find_first_free bitmap)

search-Safe : (al : BlockAllocator) (i : ℕ) (bitmap : Bitmap) → Safe Any (search al i bitmap)
search-Safe al i bitmap =
    if-Safe Any (i == al.bitmap_block_cnt - 1) _ _
      (checked-Safe Any (Bitmap.find_first_free_w_bound bitmap al.last_block_num) (of_any _))
      (checked-Safe Any (Bitmap.find_first_free bitmap) (of_any _))

-- A round of `allocate_loop`.
round-Safe :
    (al : BlockAllocator) (i : ℕ) (rest : Cmd ℕ)
    → Safe Any rest
    → Safe Any (do
      buffer ← new_buffer
      bytes ← read_block (i + al.bitmap_block_id) buffer
      bitmap ← bitmap_over bytes
      res ← search al i bitmap
      take_bit al i bitmap res rest)
round-Safe al i rest k = bind-Safe AreBytes Any new_buffer _ new_buffer-Safe λ buffer h.
    bind-Safe AreBytes Any (read_block (i + al.bitmap_block_id) buffer) _
      (read_block-Safe _ buffer h)
      λ bytes g. bind-Safe HasBytes Any (bitmap_over bytes) _ (bitmap_over-Safe bytes g) λ bitmap b.
        bind-Safe Any Any (search al i bitmap) _ (search-Safe al i bitmap)
          λ res t. take_bit-Safe al i bitmap res rest b k

allocate_loop-Safe : (al : BlockAllocator) (n i : ℕ) → Safe Any (allocate_loop al n i)
unfolding allocate_loop
allocate_loop-Safe al zero i = fail-Safe Any ErrorType.out_of_resource
allocate_loop-Safe al (suc n) i =
    round-Safe al i (allocate_loop al n (i + 1)) (allocate_loop-Safe al n (i + 1))

pub allocate-Safe : (al : BlockAllocator) → Safe Any (allocate al)
unfolding allocate
allocate-Safe al = allocate_loop-Safe al al.bitmap_block_cnt 0
