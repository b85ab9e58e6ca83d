-- ===== src/Tests/Files.antt =====
-- A device of eight blocks of 64 bytes that holds a file system: the super block, a block of the
-- inode table, one of the inode bitmap and one of the block bitmap, the inode of a directory with the
-- text "a:1", and that text. The directory's second block id, the indirect one, is `indirect`.
use se3331_labs.Common.{
  false, count_clear, zero, suc, ◌<◌, get_or, test_bit, set_bit, ℕ, ◌<◌, ◌≡◌, refl, List, [], ◌∷◌,
  some, arith, ◌==◌, if◌then◌else◌, replicate, tabulate,
}
use se3331_labs.Result.{ErrorType, ok, err}
use se3331_labs.Block.{
  write_block, store, splice, BlockManager, Run, done, fault, read_block, ◌>>=◌,
}
use se3331_labs.Block.Layout.{IsDevice, block}
use se3331_labs.Allocator.{allocate}
use se3331_labs.Bitmap
use se3331_labs.Bitmap.{find_first_free_w_bound, check}
use se3331_labs.Directory.{
  Bytes, parse_directory, string_to_inode_id, find_entry, cut_at, same_bytes,
}
use se3331_labs.Fields.{load, save, bytes_of}
use se3331_labs.Inode.{
  Inode, new_inode, flush_to_buffer, get_indirect_block_id, set_block_direct, max_file_sz_supported,
  set_attr, get_size, get_direct_block_num, is_direct_block, block_at, get_type, type_file,
  type_directory,
}
use se3331_labs.InodeManager
use se3331_labs.InodeManager.{
  free_inode_cnt, InodeManager, free_inode, InodeManager, read_inode, set_table, get, raw_to_logic,
  nonzero, inode_per_block, read_into,
}
use se3331_labs.InodeManager.Table.{IsIndex, get-set_table}
use se3331_labs.Inode.Flush.{Flushed, flush_to_buffer-Flushed}
use se3331_labs.InodeManager.{allocate_inode}
use se3331_labs.InodeManager.Free.{is_used, IsInode, Freed, free_inode-Freed}
use se3331_labs.InodeManager.Search.{IsInodes}
use se3331_labs.InodeManager.Allocate.{Allocates, IsCall, allocate_inode-Allocates}
use se3331_labs.InodeManager.Count.{free_inode_cnt-count_clear}
use se3331_labs.InodeManager.Unusable.{allocate_inode-refused}
use se3331_labs.SuperBlock.{SuperBlock, flush, create_from_existing}
use se3331_labs.SuperBlock.RoundTrip.{IsSuperBlock, create_from_existing-flush}
use se3331_labs.FileOperation.{FileOperation}
use se3331_labs.FileOperation.Data.{calculate_block_sz, gettype, read_file, write_file}
use se3331_labs.FileOperation.Control.{collect, remove_file}
use se3331_labs.FileOperation.Tree.{lookup}
use se3331_labs.FileOperation.Reading.{lookup-Reads}
use se3331_labs.Block.Reads.{Keeps}
use se3331_labs.FileOperation.Refusing.{remove_file-indirect}

abbrev pub byte_at : (indirect k : ℕ) → ℕ
byte_at indirect k =
    if k == 64
    then 4
    else if k == 192
    then (if indirect == 0 then 63 else 127)
    else if k == 256
    then 2
    else if k == 284
    then 3
    else if k == 292
    then 64
    else if k == 296
    then 2
    else if k == 300
    then 5
    else if k == 308
    then indirect
    else if k == 320
    then b'a'
    else if k == 321
    then b':'
    else if k == 322
    then b'1'
    else 0

abbrev pub one_directory : ℕ → BlockManager
one_directory indirect = record { block_sz = 64; block_cnt = 8; block_data = byte_at indirect }

pub one_directory-IsDevice : IsDevice (one_directory 0)
one_directory-IsDevice = record {
  some_bytes = omega arith;
  small_blocks = omega arith;
  few_blocks = omega arith;
  bytes = λ k. ground arith;
}

abbrev pub fs : FileOperation
fs = record {
  inode_manager = record { max_inode_supported = 512; n_table_blocks = 1; n_bitmap_blocks = 1 };
  block_allocator = record { bitmap_block_id = 3; bitmap_block_cnt = 1; last_block_num = 8 };
}

abbrev pub raw : List ℕ
raw = replicate 64 0

abbrev a_name : Bytes
a_name = b'a' ∷ []

abbrev b_name : Bytes
b_name = b'b' ∷ []

a_is_found : lookup 0 raw fs 1 a_name (one_directory 0) ≡ done (ok 1) (one_directory 0)
unfolding lookup read_file read_inode inode_per_block read_block load tabulate get_size
    get_direct_block_num is_direct_block block_at find_entry parse_directory cut_at same_bytes
    string_to_inode_id
a_is_found = refl

b_is_missing :
    lookup 0 raw fs 1 b_name (one_directory 0) ≡ done (err ErrorType.not_exist) (one_directory 0)
unfolding lookup read_file read_inode inode_per_block read_block load tabulate get_size
    get_direct_block_num is_direct_block block_at find_entry parse_directory cut_at same_bytes
b_is_missing = refl

-- Contents of two blocks: the second has to be allocated.
abbrev two_blocks : List ℕ
two_blocks = replicate 70 7

abbrev contents : Run (List ℕ) → List ℕ
contents (done (ok bytes) bm) = bytes
contents (done (err e) bm) = []
contents fault = []

write_runs :
    contents ((write_file 7 raw fs 1 two_blocks >>= λ _. read_file raw fs 1) (one_directory 0))
    ≡ two_blocks
unfolding write_file read_file read_inode inode_per_block read_block load tabulate get_size
    get_direct_block_num is_direct_block block_at max_file_sz_supported save bytes_of
    calculate_block_sz set_block_direct set_attr write_block store splice Bitmap.set allocate
    find_first_free_w_bound check test_bit set_bit get_indirect_block_id
write_runs = refl

lookup-Reads_example : Keeps (lookup 0 raw fs 1 a_name (one_directory 0)) (one_directory 0)
lookup-Reads_example = lookup-Reads 0 raw fs 1 a_name (one_directory 0)

one_is_directory : gettype raw fs 1 (one_directory 0) ≡ done (ok type_directory) (one_directory 0)
unfolding read_inode inode_per_block read_block load tabulate get_type InodeManager.get_type
one_is_directory = refl

abbrev inode_bytes_of : List ℕ
inode_bytes_of = block (one_directory 6) 4

indirect_inode :
    read_inode raw fs.inode_manager 1 raw (one_directory 6)
    ≡ done (ok (4, inode_bytes_of)) (one_directory 6)
unfolding read_inode inode_per_block read_block load tabulate block
indirect_inode = refl

one_direct : get_direct_block_num inode_bytes_of ≡ some 1
unfolding get_direct_block_num load tabulate block
one_direct = refl

direct_blocks : collect 1 0 44 inode_bytes_of [] ≡ some (5 ∷ [])
unfolding collect load tabulate block
direct_blocks = refl

indirect_id : block_at inode_bytes_of 1 ≡ some 6
unfolding block_at load tabulate block
indirect_id = refl

remove_file-indirect_example : remove_file raw fs 1 (one_directory 6) ≡ fault
remove_file-indirect_example =
    remove_file-indirect raw fs 1 4 1 6 inode_bytes_of (5 ∷ []) (one_directory 6) (omega arith)
      indirect_inode one_direct direct_blocks indirect_id (omega arith)

one_directory-IsIndex : (idx : ℕ) → idx < 8 → IsIndex (one_directory 0) idx
one_directory-IsIndex idx h = record {
  device = one_directory-IsDevice;
  room = omega arith;
  within = omega arith;
  small = omega arith;
}

get-set_table_example :
    (before : ℕ) × (after : BlockManager) × (get raw (raw_to_logic 0) (one_directory 0)
      ≡ done (ok before) (one_directory 0))
    × (set_table 3 6 (one_directory 0) ≡ done (ok tt) after)
    × (get raw (raw_to_logic 0) after ≡ done (ok (if 3 == 0 then 6 else before)) after)
get-set_table_example =
    get-set_table (one_directory 0) 3 0 6 raw (one_directory-IsIndex 3 (omega arith))
      (one_directory-IsIndex 0 (omega arith)) (omega arith) refl

abbrev a_super_block : SuperBlock
a_super_block = record {
  block_size = 64;
  nblocks = 8;
  ninodes = 512;
  file_system_size = 12345;
  padding = 99;
}

a_super_block-IsSuperBlock : IsSuperBlock a_super_block
a_super_block-IsSuperBlock = record {
  block_size = omega arith;
  padding = omega arith;
  nblocks = omega arith;
  ninodes = omega arith;
  file_system_size = omega arith;
}

create_from_existing-flush_example :
    (after : BlockManager) × (flush a_super_block 0 (one_directory 0) ≡ done (ok tt) after)
    × (create_from_existing 0 after ≡ done (ok a_super_block) after)
create_from_existing-flush_example =
    create_from_existing-flush (one_directory 0) 0 a_super_block one_directory-IsDevice
      (omega arith) (omega arith) a_super_block-IsSuperBlock

three-IsInode : IsInode fs.inode_manager (one_directory 0) 3
three-IsInode = record {
  index = one_directory-IsIndex 3 (omega arith);
  accepted = omega arith;
  few = omega arith;
  in_table = omega arith;
  in_bitmap = omega arith;
}

free_inode-Freed_example :
    (after : BlockManager) × (free_inode fs.inode_manager (raw_to_logic 3) (one_directory 0)
      ≡ done (ok tt) after)
    × Freed raw fs.inode_manager (one_directory 0) 3 after
free_inode-Freed_example =
    free_inode-Freed raw fs.inode_manager (one_directory 0) 3 three-IsInode refl

zeros-bytes : (n k : ℕ) → get_or (replicate n 0) k 0 < 256
zeros-bytes zero k = omega arith
zeros-bytes (suc n) zero = omega arith
zeros-bytes (suc n) (suc k) = zeros-bytes n k

flush_to_buffer-Flushed_example :
    (inode : Inode) × (out : List ℕ) × (new_inode 7 type_file 64 ≡ some inode)
    × (flush_to_buffer inode raw ≡ some out)
    × Flushed type_file 64 out
flush_to_buffer-Flushed_example =
    flush_to_buffer-Flushed 7 type_file 64 raw (omega arith) (omega arith) (omega arith) refl
      (zeros-bytes 64)

-- A device of 72 blocks with an empty inode table of 64 blocks and an empty inode bitmap of one.
abbrev no_inodes : BlockManager
no_inodes = record { block_sz = 64; block_cnt = 72; block_data = λ k. 0 }

abbrev few_inodes : InodeManager
few_inodes = record { max_inode_supported = 512; n_table_blocks = 64; n_bitmap_blocks = 1 }

few_inodes-IsInodes : IsInodes few_inodes no_inodes
few_inodes-IsInodes = record {
  range = record {
    device = record {
      some_bytes = omega arith;
      small_blocks = omega arith;
      few_blocks = omega arith;
      bytes = λ k. omega arith;
    };
    within = omega arith;
  };
  covers = omega arith;
  room = omega arith;
}

file_at_70-IsCall : IsCall few_inodes no_inodes type_file raw 70
file_at_70-IsCall = record {
  small_type = omega arith;
  whole = refl;
  bytes = zeros-bytes 64;
  apart = omega arith;
  on_device = omega arith;
}

allocate_inode-Allocates_example : Allocates 7 raw few_inodes type_file 70 no_inodes
allocate_inode-Allocates_example =
    allocate_inode-Allocates 7 raw few_inodes type_file 70 no_inodes few_inodes-IsInodes
      file_at_70-IsCall

free_inode_cnt-count_clear_example :
    free_inode_cnt few_inodes no_inodes
    ≡ done (ok (count_clear 512 0 (is_used few_inodes no_inodes))) no_inodes
free_inode_cnt-count_clear_example =
    free_inode_cnt-count_clear few_inodes no_inodes few_inodes-IsInodes

-- Of two inodes the first is not in use.
abbrev two_inodes : InodeManager
two_inodes = record { max_inode_supported = 2; n_table_blocks = 64; n_bitmap_blocks = 1 }

two_inodes-IsInodes : IsInodes two_inodes no_inodes
two_inodes-IsInodes = record {
  range = few_inodes-IsInodes.range;
  covers = omega arith;
  room = omega arith;
}

first_is_free : is_used two_inodes no_inodes 0 ≡ false
unfolding is_used block tabulate test_bit
first_is_free = refl

allocate_inode-refused_example :
    (id : ℕ) × (after : BlockManager) × (allocate_inode 7 raw two_inodes type_file 70 no_inodes
      ≡ done (ok id) after)
    × (get raw id after ≡ done (ok 70) after)
    × (read_inode raw two_inodes id raw after ≡ done (err ErrorType.invalid_arg) after)
    × (free_inode two_inodes id after ≡ done (err ErrorType.invalid_arg) after)
allocate_inode-refused_example =
    allocate_inode-refused 7 type_file 70 0 raw raw two_inodes no_inodes two_inodes-IsInodes
      (record {
        small_type = omega arith;
        whole = refl;
        bytes = zeros-bytes 64;
        apart = omega arith;
        on_device = omega arith;
      })
      (omega arith) (omega arith) (omega arith) (omega arith) (λ c l. absurd (omega arith))
      first_is_free
