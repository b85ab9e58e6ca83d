-- ===== src/FileOperation/Reading.antt =====
-- The operations that only read keep the device.
use se3331_labs.Common.{
  ℕ, zero, suc, ◌+◌, ◌-◌, ◌/◌, inr, refl, Option, none, some, List, [], ◌++◌, ltb, leb, ◌==◌,
  if◌then◌else◌, length, u64_mod, u64, take, drop, replicate,
}
use se3331_labs.Result.{ErrorType, ok}
use se3331_labs.Block.{pure, checked, attempt, read_block, block_size}
use se3331_labs.Directory.{Bytes, find_entry, parse_directory}
use se3331_labs.Allocator.{new_buffer}
use se3331_labs.Inode
use se3331_labs.Inode.{FileAttr, InodeType, invalid_block_id}
use se3331_labs.InodeManager
use se3331_labs.InodeManager.{
  InodeManager, read_inode, get, read_into, kept, inode_per_block, nonzero,
}
use se3331_labs.FileOperation.{FileOperation}
use se3331_labs.FileOperation.Data.{
  Held, read_file, read_file_w_off, read_loop, locate, loaded, indirect_at, gettype,
}
use se3331_labs.FileOperation.Tree.{read_directory, or_missing, lookup}
use se3331_labs.Block.Reads.{
  Reads, pure-Reads, fail-Reads, checked-Reads, verify-Reads, if-Reads, attempt-Reads, bind-Reads,
  block_size-Reads, read_block-Reads,
}

pub new_buffer-Reads : Reads new_buffer
new_buffer-Reads bm = inr (ok (replicate bm.block_sz 0), refl)

nonzero-Reads : (n : ℕ) → Reads (nonzero n)
unfolding nonzero
nonzero-Reads n = verify-Reads (ltb 0 n) (pure n) (pure-Reads n)

per_block-Reads : Reads inode_per_block
unfolding inode_per_block
per_block-Reads =
    bind-Reads block_size (λ sz. nonzero (sz / 8)) block_size-Reads λ sz. nonzero-Reads (sz / 8)

read_into-Reads : (id : ℕ) (buffer : List ℕ) → Reads (read_into id buffer)
unfolding read_into
read_into-Reads id buffer =
    bind-Reads (attempt (read_block id buffer)) _ (attempt-Reads _ (read_block-Reads id buffer))
      λ r. pure-Reads (kept buffer r)

get-Reads : (raw : List ℕ) (id : ℕ) → Reads (get raw id)
unfolding get
get-Reads raw id =
    bind-Reads inode_per_block _ per_block-Reads
      λ per. bind-Reads (read_into _ raw) _ (read_into-Reads _ raw) λ buffer. checked-Reads _

pub read_inode-Reads :
    (raw : List ℕ) (im : InodeManager) (id : ℕ) (buffer : List ℕ)
    → Reads (read_inode raw im id buffer)
unfolding read_inode
read_inode-Reads raw im id buffer =
    if-Reads (leb (u64 (im.max_inode_supported + u64_mod - 1)) id) _ _
      (fail-Reads ErrorType.invalid_arg)
      (bind-Reads (get raw id) _ (get-Reads raw id) λ block_id.
        if-Reads (block_id == invalid_block_id) _ _ (fail-Reads ErrorType.invalid_arg) (
          bind-Reads (read_block block_id buffer) _ (read_block-Reads block_id buffer)
            λ bytes. pure-Reads (block_id, bytes)))

pub gettype-Reads : (raw : List ℕ) (fs : FileOperation) (id : ℕ) → Reads (gettype raw fs id)
unfolding InodeManager.get_type
gettype-Reads raw fs id = bind-Reads new_buffer _ new_buffer-Reads λ buffer.
    bind-Reads (read_inode raw fs.inode_manager id buffer) _
      (read_inode-Reads raw fs.inode_manager id buffer) λ r. checked-Reads (Inode.get_type r.1)

loaded-Reads : (h : Held) → Reads (loaded h)
unfolding loaded
loaded-Reads h =
    if-Reads (length h.indirect_block == 0) _ _
      (bind-Reads new_buffer _ new_buffer-Reads λ buffer.
        bind-Reads (checked (Inode.get_indirect_block_id h.inode)) _ (checked-Reads _) λ id.
          bind-Reads (read_block id buffer) _ (read_block-Reads id buffer)
            λ bytes. pure-Reads (record h { indirect_block = bytes }))
      (pure-Reads h)

pub locate-Reads : (idx below : ℕ) (h : Held) → Reads (locate idx below h)
unfolding locate
locate-Reads idx below h =
    bind-Reads (checked (Inode.is_direct_block h.inode idx)) _ (checked-Reads _) λ direct.
      if-Reads direct _ _
        (bind-Reads (checked (Inode.block_at h.inode idx)) _ (checked-Reads _)
          λ bid. pure-Reads (bid, h))
        (bind-Reads (loaded h) _ (loaded-Reads h) λ read.
          bind-Reads (indirect_at read below) _ (checked-Reads _) λ bid. pure-Reads (bid, read))

read_loop-Reads :
    (file_sz n read_sz : ℕ) (content : List ℕ) (h : Held)
    → Reads (read_loop file_sz n read_sz content h)
unfolding read_loop
read_loop-Reads file_sz zero read_sz content h = pure-Reads content
read_loop-Reads file_sz (suc n) read_sz content h =
    if-Reads (ltb read_sz file_sz) _ _
      (bind-Reads block_size _ block_size-Reads λ block_sz.
        bind-Reads (nonzero block_sz) _ (nonzero-Reads block_sz) λ per.
          bind-Reads (checked (Inode.get_direct_block_num h.inode)) _ (checked-Reads _) λ inlined.
            bind-Reads (locate _ _ h) _ (locate-Reads _ _ h) λ located.
              bind-Reads new_buffer _ new_buffer-Reads λ buffer.
                bind-Reads (read_block located.0 buffer) _ (read_block-Reads located.0 buffer)
                  λ bytes.
                    read_loop-Reads file_sz n
                      (read_sz + (if ltb per (file_sz - read_sz) then per else file_sz - read_sz))
                      (content
                        ++ take (if ltb per (file_sz - read_sz) then per else file_sz - read_sz)
                            bytes)
                      located.1)
      (pure-Reads content)

pub read_file-Reads : (raw : List ℕ) (fs : FileOperation) (id : ℕ) → Reads (read_file raw fs id)
unfolding read_file
read_file-Reads raw fs id = bind-Reads new_buffer _ new_buffer-Reads λ buffer.
    bind-Reads (read_inode raw fs.inode_manager id buffer) _
      (read_inode-Reads raw fs.inode_manager id buffer)
      λ r. bind-Reads (checked (Inode.get_size r.1)) _ (checked-Reads _) λ file_sz.
        read_loop-Reads file_sz file_sz 0 [] (record { inode = r.1; indirect_block = [] })

pub read_file_w_off-Reads :
    (raw : List ℕ) (fs : FileOperation) (id sz offset : ℕ)
    → Reads (read_file_w_off raw fs id sz offset)
unfolding read_file_w_off
read_file_w_off-Reads raw fs id sz offset =
    bind-Reads (read_file raw fs id) _ (read_file-Reads raw fs id) λ content.
      verify-Reads (leb (offset + sz) (length content)) (pure (take sz (drop offset content)))
        (pure-Reads (take sz (drop offset content)))

pub read_directory-Reads :
    (stale : ℕ) (raw : List ℕ) (fs : FileOperation) (id : ℕ)
    → Reads (read_directory stale raw fs id)
unfolding read_directory
read_directory-Reads stale raw fs id =
    bind-Reads (read_file raw fs id) _ (read_file-Reads raw fs id)
      λ buf. pure-Reads (parse_directory stale buf)

or_missing-Reads : (found : Option ℕ) → Reads (or_missing found)
or_missing-Reads none = fail-Reads ErrorType.not_exist
or_missing-Reads (some id) = pure-Reads id

-- `lookup` never changes the device, however it ends: if it ends at all, with a result or an error,
-- the device is the one it was called on.
pub lookup-Reads :
    (stale : ℕ) (raw : List ℕ) (fs : FileOperation) (id : ℕ) (name : Bytes)
    → Reads (lookup stale raw fs id name)
unfolding lookup
lookup-Reads stale raw fs id name =
    bind-Reads (read_directory stale raw fs id) _ (read_directory-Reads stale raw fs id)
      λ list. or_missing-Reads (find_entry name list)
