-- ===== src/Tests/Devices.antt =====
-- A device of eight blocks of two bytes. Its first block is the bitmap of an allocator that has
-- handed out the blocks 0, 1 and 2.
use se3331_labs.Common.{
  ◌≡◌, refl, ◌∙◌, true, some, tabulate, test_bit, first_clear, arith, ◌==◌, if◌then◌else◌,
}
use se3331_labs.Result.{ok}
use se3331_labs.Block.{BlockManager, done}
use se3331_labs.Block.Layout.{IsDevice, block}
use se3331_labs.Allocator.{BlockAllocator, allocate}
use se3331_labs.Allocator.Layout.{IsAllocator, is_allocated, marked}
use se3331_labs.Allocator.Allocate.{outcome, allocate-outcome}

abbrev pub eight_blocks : BlockManager
eight_blocks = record { block_sz = 2; block_cnt = 8; block_data = λ k. if k == 0 then 7 else 0 }

pub eight_blocks-IsDevice : IsDevice eight_blocks
eight_blocks-IsDevice = record {
  some_bytes = omega arith;
  small_blocks = omega arith;
  few_blocks = omega arith;
  bytes = λ k. ground arith;
}

abbrev pub first_block : BlockAllocator
first_block = record { bitmap_block_id = 0; bitmap_block_cnt = 1; last_block_num = 8 }

pub first_block-IsAllocator : IsAllocator first_block eight_blocks
first_block-IsAllocator = record {
  device = eight_blocks-IsDevice;
  some_blocks = omega arith;
  some_bits = omega arith;
  last_fits = omega arith;
  covers = omega arith;
  within = omega arith;
}

pub two_is_taken : is_allocated first_block eight_blocks 2 ≡ true
unfolding is_allocated block tabulate test_bit
two_is_taken = refl

next_is_three : first_clear 8 0 (is_allocated first_block eight_blocks) ≡ some 3
unfolding first_clear is_allocated block tabulate test_bit
next_is_three = refl

pub three_is_next :
    allocate first_block eight_blocks ≡ done (ok 3) (marked first_block eight_blocks 3)
unfolding outcome
three_is_next = allocate-outcome first_block eight_blocks first_block-IsAllocator ∙ rw next_is_three
