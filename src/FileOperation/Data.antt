-- ===== src/FileOperation/Data.antt =====
-- src/filesystem/data_op.cc: the contents of files.
use se3331_labs.Common.{
  ℕ, zero, suc, ◌+◌, ◌-◌, ◌*◌, ◌/◌, ◌%◌, ◌&&◌, List, [], ◌∷◌, ◌++◌, ltb, leb, ◌==◌, if◌then◌else◌,
  length, take, drop, replicate, u32, u64, u32_mod, u64_mod,
}
use se3331_labs.Result.{ErrorType}
use se3331_labs.Block.{
  Cmd, pure, fail, ◌>>=◌, ◌>>◌, checked, verify, unwrapped, block_size, read_block, write_block,
}
use se3331_labs.Allocator.{new_buffer, allocate, deallocate}
use se3331_labs.Fields.{load, save}
use se3331_labs.Inode
use se3331_labs.Inode.{InodeType, FileAttr, invalid_block_id, set_all_time}
use se3331_labs.InodeManager
use se3331_labs.InodeManager.{nonzero}
use se3331_labs.FileOperation.{FileOperation}

unfoldable pub alloc_inode : (now : ℕ) → (raw : List ℕ) → FileOperation → InodeType → Cmd ℕ
alloc_inode now raw fs type = do
  block_id ← unwrapped (allocate fs.block_allocator)
  InodeManager.allocate_inode now raw fs.inode_manager type block_id

abbrev pub getattr : (raw : List ℕ) → FileOperation → (id : ℕ) → Cmd FileAttr
getattr raw fs id = InodeManager.get_attr raw fs.inode_manager id

abbrev pub gettype : (raw : List ℕ) → FileOperation → (id : ℕ) → Cmd InodeType
gettype raw fs id = InodeManager.get_type raw fs.inode_manager id

abbrev pub get_type_attr : (raw : List ℕ) → FileOperation → (id : ℕ) → Cmd (InodeType × FileAttr)
get_type_attr raw fs id = InodeManager.get_type_attr raw fs.inode_manager id

unfoldable pub calculate_block_sz : (file_sz block_sz : ℕ) → ℕ
calculate_block_sz file_sz block_sz =
    if file_sz % block_sz == 0 then file_sz / block_sz else file_sz / block_sz + 1

-- What a call holds of a file: the inode block, and the indirect block, empty until it is read.
pub record Held : Type 0 where
  pub inode : List ℕ
  pub indirect_block : List ℕ

-- if (indirect_block.size() == 0) { resize, and read the indirect block }
unfoldable pub loaded : Held → Cmd Held
loaded h =
    if length h.indirect_block == 0
    then (do
      buffer ← new_buffer
      id ← checked (Inode.get_indirect_block_id h.inode)
      bytes ← read_block id buffer
      pure (record h { indirect_block = bytes }))
    else pure h

-- indirect_block_p[i]
abbrev pub indirect_at : Held → ℕ → Cmd ℕ
indirect_at h i = checked (load 8 (i * 8) h.indirect_block)

abbrev pub set_indirect : Held → (i bid : ℕ) → Cmd Held
set_indirect h i bid = do
  bytes ← checked (save 8 (i * 8) bid h.indirect_block)
  pure (record h { indirect_block = bytes })

abbrev pub set_direct : Held → (idx bid : ℕ) → Cmd Held
set_direct h idx bid = do
  bytes ← checked (Inode.set_block_direct h.inode idx bid)
  pure (record h { inode = bytes })

-- `get_or_insert_indirect_block` of the inode.
unfoldable pub get_or_insert_indirect_block : FileOperation → Held → Cmd Held
get_or_insert_indirect_block fs h = do
  last ← checked (Inode.get_direct_block_num h.inode)
  bid ← checked (Inode.block_at h.inode last)
  if bid == invalid_block_id
      then (do fresh ← allocate fs.block_allocator; set_direct h last fresh)
      else pure h

-- One round of the loop that allocates blocks.
unfoldable pub grow_one : FileOperation → (inlined idx : ℕ) → Held → Cmd Held
unfolding loaded get_or_insert_indirect_block
grow_one fs inlined idx h = do
  block_id ← allocate fs.block_allocator
  direct ← checked (Inode.is_direct_block h.inode idx)
  if direct then set_direct h idx block_id else (do
    inserted ← get_or_insert_indirect_block fs h
    read ← loaded inserted
    set_indirect read (u32 (idx + u32_mod - inlined)) block_id)

-- Rounds left, idx.
unfoldable pub grow_loop : FileOperation → (inlined : ℕ) → ℕ → (idx : ℕ) → Held → Cmd Held
unfolding grow_one
grow_loop fs inlined zero idx h = pure h
grow_loop fs inlined (suc n) idx h = do
  grown ← grow_one fs inlined idx h
  grow_loop fs inlined n (idx + 1) grown

-- One round of the loop that frees blocks.
unfoldable pub shrink_one : FileOperation → (inlined idx : ℕ) → Held → Cmd Held
unfolding loaded
shrink_one fs inlined idx h = do
  direct ← checked (Inode.is_direct_block h.inode idx)
  if direct
      then (do
        bid ← checked (Inode.block_at h.inode idx)
        deallocate fs.block_allocator bid
        set_direct h idx invalid_block_id)
      else (do
        read ← loaded h
        bid ← indirect_at read (u32 (idx + u32_mod - inlined))
        deallocate fs.block_allocator bid
        set_indirect read (u32 (idx + u32_mod - inlined)) invalid_block_id)

unfoldable pub shrink_loop : FileOperation → (inlined : ℕ) → ℕ → (idx : ℕ) → Held → Cmd Held
unfolding shrink_one
shrink_loop fs inlined zero idx h = pure h
shrink_loop fs inlined (suc n) idx h = do
  shrunk ← shrink_one fs inlined idx h
  shrink_loop fs inlined n (idx + 1) shrunk

-- The indirect block itself, when no block is indirect any more.
unfoldable pub drop_indirect : FileOperation → (inlined old new : ℕ) → Held → Cmd Held
drop_indirect fs inlined old new h =
    if ltb inlined old && leb new inlined
    then (do
      bid ← checked (Inode.get_indirect_block_id h.inode)
      deallocate fs.block_allocator bid
      bytes ← checked (Inode.invalid_indirect_block_id h.inode)
      pure (record { inode = bytes; indirect_block = [] }))
    else pure h

-- The number of blocks becomes `new`.
unfoldable pub resize_blocks : FileOperation → (inlined old new : ℕ) → Held → Cmd Held
unfolding grow_loop shrink_loop drop_indirect
resize_blocks fs inlined old new h =
    if ltb old new then grow_loop fs inlined (new - old) old h else do
      shrunk ← shrink_loop fs inlined (old - new) new h
      drop_indirect fs inlined old new shrunk

-- The block of a file with the index `idx`; `below` is the index into the indirect block.
unfoldable pub locate : (idx below : ℕ) → Held → Cmd (ℕ × Held)
unfolding loaded
locate idx below h = do
  direct ← checked (Inode.is_direct_block h.inode idx)
  if direct
      then (do bid ← checked (Inode.block_at h.inode idx); pure (bid, h))
      else (do read ← loaded h; bid ← indirect_at read below; pure (bid, read))

-- The loop that writes the contents: rounds left, block_idx, what is still to be written. Each
-- round writes a block of it, so a round for each byte is enough.
unfoldable pub write_loop : (inlined : ℕ) → ℕ → (block_idx : ℕ) → List ℕ → Held → Cmd Held
unfolding locate
write_loop inlined zero block_idx rest h = pure h
write_loop inlined (suc n) block_idx [] h = pure h
write_loop inlined (suc n) block_idx (byte ∷ rest) h = do
  sz ← block_size
  located ← locate block_idx (u32 (block_idx + u32_mod - inlined)) h
  let chunk = take sz (byte ∷ rest)
  write_block located.0 (chunk ++ replicate (sz - length chunk) 0)
  write_loop inlined n (block_idx + 1) (drop sz (byte ∷ rest)) located.1

-- `write_indirect_block` of the inode.
abbrev pub write_indirect_block : (inode buffer : List ℕ) → Cmd (Unit {0})
write_indirect_block inode buffer = do
  last ← checked (Inode.get_direct_block_num inode)
  bid ← checked (Inode.block_at inode last)
  if bid == invalid_block_id then fail ErrorType.invalid_arg else write_block bid buffer

-- The inode and the indirect block are written back.
unfoldable pub finish : (now size block_id : ℕ) → Held → Cmd (Unit {0})
finish now size block_id h = do
  bytes ← checked (
      Inode.set_attr (set_all_time now (record { atime = 0; mtime = 0; ctime = 0; size = size }))
        h.inode)
  write_block block_id bytes
  if length h.indirect_block == 0 then pure tt else write_indirect_block bytes h.indirect_block

-- The part of `write_file` behind its guard.
unfoldable pub write_contents :
    (now : ℕ)
    → FileOperation
    → (block_id inlined size : ℕ) → (content : List ℕ) → Held
    → Cmd (Unit {0})
unfolding resize_blocks write_loop finish
write_contents now fs block_id inlined size content h = do
  block_sz ← block_size
  per ← nonzero block_sz
  let old = u32 (calculate_block_sz size per)
  let new = u32 (calculate_block_sz (length content) per)
  resized ← resize_blocks fs inlined old new h
  written ← write_loop inlined (length content) 0 content resized
  finish now (length content) block_id written

unfoldable pub write_file :
    (now : ℕ) → (raw : List ℕ) → FileOperation → (id : ℕ) → (content : List ℕ) → Cmd (Unit {0})
unfolding write_contents
write_file now raw fs id content = do
  buffer ← new_buffer
  r ← InodeManager.read_inode raw fs.inode_manager id buffer
  let (block_id, inode) = r
  inlined ← checked (Inode.get_direct_block_num inode)
  most ← checked (Inode.max_file_sz_supported inode)
  if ltb most (length content) then fail ErrorType.out_of_resource else (do
    size ← checked (Inode.get_size inode)
    write_contents now fs block_id inlined size content
        (record { inode = inode; indirect_block = [] }))

-- The loop of `read_file`: rounds left, read_sz, content. Each round reads a byte at least.
unfoldable pub read_loop : (file_sz : ℕ) → ℕ → (read_sz : ℕ) → List ℕ → Held → Cmd (List ℕ)
unfolding locate
read_loop file_sz zero read_sz content h = pure content
read_loop file_sz (suc n) read_sz content h =
    let more = (do
      block_sz ← block_size
      per ← nonzero block_sz
      let sz = (if ltb per (file_sz - read_sz) then per else file_sz - read_sz)
      inlined ← checked (Inode.get_direct_block_num h.inode)
      located ← locate (read_sz / per) (u64 (read_sz / per + u64_mod - inlined)) h
      buffer ← new_buffer
      bytes ← read_block located.0 buffer
      read_loop file_sz n (read_sz + sz) (content ++ take sz bytes) located.1) in
    if ltb read_sz file_sz then more else pure content

unfoldable pub read_file : (raw : List ℕ) → FileOperation → (id : ℕ) → Cmd (List ℕ)
unfolding read_loop
read_file raw fs id = do
  buffer ← new_buffer
  r ← InodeManager.read_inode raw fs.inode_manager id buffer
  file_sz ← checked (Inode.get_size r.1)
  read_loop file_sz file_sz 0 [] (record { inode = r.1; indirect_block = [] })

-- vector::resize
unfoldable pub resized_to : ℕ → List ℕ → List ℕ
resized_to n content = take n content ++ replicate (n - length content) 0

-- `data` holds `sz` bytes. memcpy past the end of the contents, which the wrap-around of
-- `offset + sz` allows, is a fault.
unfoldable pub write_file_w_off :
    (now : ℕ)
    → (raw : List ℕ) → FileOperation
    → (id : ℕ) → (data_bytes : List ℕ) → (sz offset : ℕ) → Cmd ℕ
unfolding read_file write_file resized_to
write_file_w_off now raw fs id data_bytes sz offset = do
  old ← read_file raw fs id
  let content =
      (if ltb (length old) (u64 (offset + sz)) then resized_to (u64 (offset + sz)) old else old)
  verify (leb sz (length data_bytes) && leb (offset + sz) (length content)) (do
    write_file now raw fs id
        (take offset content ++ (take sz data_bytes ++ drop (offset + sz) content))
    pure sz)

-- A range past the end of the contents is a fault.
unfoldable pub read_file_w_off : (raw : List ℕ) → FileOperation → (id sz offset : ℕ) → Cmd (List ℕ)
unfolding read_file
read_file_w_off raw fs id sz offset = do
  content ← read_file raw fs id
  verify (leb (offset + sz) (length content)) (pure (take sz (drop offset content)))

unfoldable pub resize : (now : ℕ) → (raw : List ℕ) → FileOperation → (id sz : ℕ) → Cmd FileAttr
unfolding read_file write_file resized_to
resize now raw fs id sz = do
  attr ← getattr raw fs id
  content ← read_file raw fs id
  (if length content == sz then pure tt else write_file now raw fs id (resized_to sz content))
  pure (record attr { size = sz })
