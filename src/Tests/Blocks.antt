-- ===== src/Tests/Blocks.antt =====
-- The bitmap, the device and the allocator at the device of eight blocks.
use se3331_labs.Common.{
  none, tabulate, length, List, ℕ, zero, suc, ◌<◌, ◌≡◌, refl, true, Option, some, [], ◌∷◌, arith,
  ◌==◌, if◌then◌else◌, get_or, test_bit,
}
use se3331_labs.Result.{ok}
use se3331_labs.Bitmap
use se3331_labs.Bitmap.{Bitmap, find_first_free_w_bound, check, count_ones, ones_loop}
use se3331_labs.Bitmap.Bits.{IsBitmap}
use se3331_labs.Bitmap.Find.{Answer, find_first_free_w_bound-Answer}
use se3331_labs.Block.{BlockManager, done, read_block, write_block}
use se3331_labs.Block.File.{
  File, Host, Succeeds, create_over_file, k_default_block_cnt, create_over_file-again,
}
use se3331_labs.Block.Layout.{block}
use se3331_labs.Block.ReadWrite.{read_block-write_block}
use se3331_labs.Allocator.{BlockAllocator, deallocate, free_block_cnt, construct}
use se3331_labs.Allocator.Layout.{is_allocated, marked}
use se3331_labs.Allocator.Allocate.{Allocates, allocate-Allocates}
use se3331_labs.Allocator.Construct.{Constructed, construct-Constructed}
use se3331_labs.Allocator.Deallocate.{Deallocates, deallocate-Deallocates, deallocate-allocate}
use se3331_labs.Allocator.Supply.{Taken, Supply, allocate-Supply}
use se3331_labs.Allocator.Free.{free_block_cnt-allocate, free_block_cnt-deallocate}
use se3331_labs.Tests.Devices.{
  eight_blocks, eight_blocks-IsDevice, first_block, first_block-IsAllocator, three_is_next,
  two_is_taken,
}

abbrev two_bytes : Bitmap
two_bytes = record { bytes = 255 ∷ 5 ∷ []; payload = 2 }

two_bytes-IsBitmap : IsBitmap two_bytes
two_bytes-IsBitmap = record { fits = omega arith; small = omega arith; bytes = small }
  where
    small : (k : ℕ) → get_or two_bytes.bytes k 0 < 256
    small zero = omega arith
    small (suc zero) = omega arith
    small (suc (suc k)) = omega arith

find_first_free_w_bound-Answer_example :
    (r : Option ℕ) × (find_first_free_w_bound two_bytes 12 ≡ some r) × Answer two_bytes 12 r
find_first_free_w_bound-Answer_example =
    find_first_free_w_bound-Answer two_bytes 12 two_bytes-IsBitmap (omega arith)

find_runs : find_first_free_w_bound two_bytes 12 ≡ some (some 9)
unfolding find_first_free_w_bound check test_bit
find_runs = refl

ones_runs : count_ones two_bytes ≡ some 10
unfolding count_ones ones_loop check test_bit
ones_runs = refl

allocate-Allocates_example : Allocates first_block eight_blocks
allocate-Allocates_example = allocate-Allocates first_block eight_blocks first_block-IsAllocator

deallocate-Deallocates_example : Deallocates first_block eight_blocks 2
deallocate-Deallocates_example =
    deallocate-Deallocates first_block eight_blocks 2 first_block-IsAllocator

deallocate-allocate_example :
    (end : BlockManager) × (deallocate first_block 3 (marked first_block eight_blocks 3)
      ≡ done (ok tt) end)
    × ((c : ℕ) → is_allocated first_block end c ≡ is_allocated first_block eight_blocks c)
deallocate-allocate_example =
    deallocate-allocate first_block eight_blocks (marked first_block eight_blocks 3) 3
      first_block-IsAllocator three_is_next

free_block_cnt-allocate_example :
    (n : ℕ) × (free_block_cnt first_block eight_blocks ≡ done (ok (suc n)) eight_blocks)
    × (free_block_cnt first_block (marked first_block eight_blocks 3)
        ≡ done (ok n) (marked first_block eight_blocks 3))
free_block_cnt-allocate_example =
    free_block_cnt-allocate first_block eight_blocks (marked first_block eight_blocks 3) 3
      first_block-IsAllocator three_is_next

free_block_cnt-deallocate_example :
    (n : ℕ) × (after : BlockManager) × (free_block_cnt first_block eight_blocks
      ≡ done (ok n) eight_blocks)
    × (deallocate first_block 2 eight_blocks ≡ done (ok tt) after)
    × (free_block_cnt first_block after ≡ done (ok (suc n)) after)
free_block_cnt-deallocate_example =
    free_block_cnt-deallocate first_block eight_blocks 2 first_block-IsAllocator (omega arith)
      two_is_taken

construct-Constructed_example :
    (al : BlockAllocator) × (after : BlockManager) × (construct 2 true eight_blocks
      ≡ done (ok al) after)
    × Constructed eight_blocks 2 al after
construct-Constructed_example =
    construct-Constructed eight_blocks 2 eight_blocks-IsDevice (omega arith) (omega arith)

read_block-write_block_example :
    (after : BlockManager) × (write_block 5 (1 ∷ 2 ∷ []) eight_blocks ≡ done (ok tt) after)
    × (read_block 4 (0 ∷ 0 ∷ []) after
        ≡ done (ok (if 5 == 4 then 1 ∷ 2 ∷ [] else block eight_blocks 4)) after)
    × (read_block 4 (0 ∷ 0 ∷ []) eight_blocks ≡ done (ok (block eight_blocks 4)) eight_blocks)
read_block-write_block_example =
    read_block-write_block eight_blocks 5 4 (1 ∷ 2 ∷ []) (0 ∷ 0 ∷ []) eight_blocks-IsDevice
      (omega arith) (omega arith) refl refl small
  where
    small : (k : ℕ) → get_or (1 ∷ 2 ∷ []) k 0 < 256
    small zero = omega arith
    small (suc zero) = omega arith
    small (suc (suc k)) = omega arith

five_free : free_block_cnt first_block eight_blocks ≡ done (ok 5) eight_blocks
unfolding free_block_cnt read_block tabulate Bitmap.count_zeros_to_bound check test_bit
five_free = refl

allocate-Supply_example :
    (ids : List ℕ) × (after : BlockManager) × Taken first_block eight_blocks ids after
    × (length ids ≡ 3)
    × Supply first_block eight_blocks ids after
allocate-Supply_example =
    allocate-Supply first_block eight_blocks 5 3 first_block-IsAllocator five_free (omega arith)

-- A system on which every call succeeds.
abbrev host : Host
host = record {
  opened = true;
  ftruncate = λ file len. some (record file { file_sz = len });
  mapped = true;
}

host-Succeeds : Succeeds host
host-Succeeds = record {
  opens = refl;
  truncates = λ file len. (record file { file_sz = len }, refl, refl);
  maps = refl;
}

abbrev empty_file : File
empty_file = record { file_sz = 0; bytes = λ k. 0 }

create_over_file-again_example :
    (bm : BlockManager) × (made : File) × (create_over_file host empty_file 8 ≡ some (bm, made))
    × (bm.block_cnt ≡ 8)
    × (made.file_sz ≡ 32768)
    × (create_over_file host made 8 ≡ (if 8 == k_default_block_cnt then some (bm, made) else none))
create_over_file-again_example =
    create_over_file-again host empty_file 8 8 host-Succeeds refl (omega arith) (omega arith)
