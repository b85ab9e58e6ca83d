-- ===== src/FileOperation/Control.antt =====
-- src/filesystem/control_op.cc: making the file system on a device, and removing a file.
use se3331_labs.Common.{
  ℕ, zero, suc, ◌+◌, ◌*◌, ◌/◌, Option, none, some, List, [], ◌∷◌, ◌++◌, ◌==◌, if◌then◌else◌, true,
  false,
}
use se3331_labs.Block.{Cmd, pure, ◌>>=◌, ◌>>◌, checked, unwrapped, block_size, read_block}
use se3331_labs.Allocator
use se3331_labs.Allocator.{new_buffer, deallocate, free_block_cnt}
use se3331_labs.Fields.{load}
use se3331_labs.Inode
use se3331_labs.Inode.{invalid_block_id}
use se3331_labs.InodeManager
use se3331_labs.InodeManager.{get_reserved_blocks}
use se3331_labs.SuperBlock
use se3331_labs.FileOperation.{FileOperation}

-- `unset` is what the super block's fields hold that its constructor does not set.
unfoldable pub construct : (unset : ℕ × ℕ) → (max_inode_supported : ℕ) → Cmd FileOperation
construct unset max_inode_supported = do
  im ← InodeManager.construct max_inode_supported
  al ← Allocator.construct (get_reserved_blocks im) true
  sb ← SuperBlock.construct unset im.max_inode_supported
  unwrapped (SuperBlock.flush sb 0)
  pure (record { inode_manager = im; block_allocator = al })

unfoldable pub create_from_raw : Cmd FileOperation
create_from_raw = do
  sb ← SuperBlock.create_from_existing 0
  im ← InodeManager.create_from_block_manager sb.ninodes
  al ← Allocator.construct (get_reserved_blocks im) false
  pure (record { inode_manager = im; block_allocator = al })

abbrev pub get_free_inode_num : FileOperation → Cmd ℕ
get_free_inode_num fs = InodeManager.free_inode_cnt fs.inode_manager

abbrev pub get_free_blocks_num : FileOperation → Cmd ℕ
get_free_blocks_num fs = free_block_cnt fs.block_allocator

-- The block ids from `i` on, up to the first that is invalid: rounds left, the bytes, where the
-- ids start in them.
unfoldable pub collect : ℕ → ℕ → (start : ℕ) → List ℕ → List ℕ → Option (List ℕ)
collect zero i start bytes free_set = some free_set
collect (suc n) i start bytes free_set = elim (load 8 (start + i * 8) bytes) [
  | none ↦ none
  | some bid ↦
      let rest = collect n (i + 1) start bytes (free_set ++ bid ∷ []) in
      if bid == invalid_block_id then some free_set else rest
]

-- The blocks that the indirect block lists. Its buffer is a vector of no bytes.
unfoldable pub collect_indirect : (bid : ℕ) → List ℕ → Cmd (List ℕ)
unfolding collect
collect_indirect bid free_set = if bid == invalid_block_id then pure free_set else do
  bytes ← read_block bid []
  sz ← block_size
  checked (collect (sz / 8) 0 0 bytes free_set)

unfoldable pub deallocate_all : FileOperation → List ℕ → Cmd (Unit {0})
deallocate_all fs [] = pure tt
deallocate_all fs (bid ∷ free_set) = do
  deallocate fs.block_allocator bid
  deallocate_all fs free_set

unfoldable pub remove_file : (raw : List ℕ) → FileOperation → (id : ℕ) → Cmd (Unit {0})
unfolding collect collect_indirect deallocate_all
remove_file raw fs id = do
  buffer ← new_buffer
  r ← InodeManager.read_inode raw fs.inode_manager id buffer
  let (block_id, inode) = r
  direct ← checked (Inode.get_direct_block_num inode)
  free_set ← checked (collect direct 0 44 inode [])
  indirect ← checked (Inode.block_at inode direct)
  all_blocks ← collect_indirect indirect free_set
  InodeManager.free_inode fs.inode_manager id
  deallocate_all fs (all_blocks ++ block_id ∷ [])
