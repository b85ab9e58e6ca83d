-- ===== src/SuperBlock.antt =====
-- src/include/metadata/superblock.h and src/metadata/superblock.cc: the super block. Its fields
-- lie at 0, 8, 16 and 24 of the block, with four bytes of padding behind the first.
pub mod RoundTrip
use se3331_labs.Common.{ℕ, ◌+◌, Option, none, some, List, ◌++◌, leb, if◌then◌else◌, length}
use se3331_labs.Block.{
  Cmd, pure, ◌>>=◌, checked, verify, block_size, total_blocks, read_block, write_partial_block,
}
use se3331_labs.Allocator.{new_buffer}
use se3331_labs.Fields.{bytes_of, load}

pub record SuperBlock : Type 0 where
  pub block_size : ℕ
  pub nblocks : ℕ
  pub ninodes : ℕ
  pub file_system_size : ℕ
  pub padding : ℕ

abbrev pub sizeof_super_block : ℕ
sizeof_super_block = 32

-- SuperBlock(bm, ninodes). The constructor sets neither file_system_size nor the padding: they
-- are what `unset` holds.
unfoldable pub construct : (unset : ℕ × ℕ) → (ninodes : ℕ) → Cmd SuperBlock
construct unset ninodes = do
  sz ← block_size
  blocks ← total_blocks
  verify (leb sizeof_super_block sz) (
      pure (record {
        block_size = sz;
        nblocks = blocks;
        ninodes = ninodes;
        file_system_size = unset.0;
        padding = unset.1;
      }))

-- The bytes of the structure.
unfoldable pub super_block_bytes : SuperBlock → List ℕ
super_block_bytes sb =
    bytes_of 4 sb.block_size
    ++ (bytes_of 4 sb.padding
        ++ (bytes_of 8 sb.nblocks ++ (bytes_of 8 sb.ninodes ++ bytes_of 8 sb.file_system_size)))

unfoldable pub flush : SuperBlock → (id : ℕ) → Cmd (Unit {0})
flush sb id = write_partial_block id (super_block_bytes sb) 0 sizeof_super_block

-- memcpy of the first bytes of a buffer over the structure.
unfoldable pub super_block_of : List ℕ → Cmd SuperBlock
super_block_of buffer = do
  sz ← checked (load 4 0 buffer)
  pad ← checked (load 4 4 buffer)
  blocks ← checked (load 8 8 buffer)
  inodes ← checked (load 8 16 buffer)
  size ← checked (load 8 24 buffer)
  pure (record {
    block_size = sz;
    nblocks = blocks;
    ninodes = inodes;
    file_system_size = size;
    padding = pad;
  })

unfoldable pub create_from_existing : (id : ℕ) → Cmd SuperBlock
unfolding super_block_of
create_from_existing id = do buffer ← new_buffer; bytes ← read_block id buffer; super_block_of bytes
