-- ===== src/SuperBlock/RoundTrip.antt =====
-- The super block on the device.
use se3331_labs.Common.{
  ℕ, ◌+◌, ◌-◌, ◌<◌, ◌≤◌, ◌≡◌, ◌≢◌, refl, ◌∙◌, List, some, arith, length, ◌++◌, append_assoc, drop,
  replicate, length-replicate, u32_mod, u64_mod, get_or, list_ext, length-append, length-drop,
}
use native.Mathlib.Decide.{dec_lt}
use se3331_labs.Result.{ok}
use se3331_labs.Block.{BlockManager, done, ◌>>=◌}
use se3331_labs.Block.Layout.{
  IsDevice, block, written, length-block, get_or-block-written, block-written_ne,
}
use se3331_labs.Block.ReadWrite.{read_block_lem, write_partial_block_lem, written-IsDevice}
use se3331_labs.Fields.{bytes_of, load}
use se3331_labs.Fields.RoundTrip.{
  load-front, load_behind, length-bytes_of, get_or-append_front, get_or-append_back, get_or-drop,
  append-bytes, bytes_of-bytes,
}
use se3331_labs.SuperBlock.{
  SuperBlock, sizeof_super_block, super_block_bytes, flush, super_block_of, create_from_existing,
}

-- The fields have their types.
pub record IsSuperBlock (sb : SuperBlock) : Type 0 where
  pub block_size : sb.block_size < u32_mod
  pub padding : sb.padding < u32_mod
  pub nblocks : sb.nblocks < u64_mod
  pub ninodes : sb.ninodes < u64_mod
  pub file_system_size : sb.file_system_size < u64_mod

length-super_block_bytes : (sb : SuperBlock) → length (super_block_bytes sb) ≡ 32
unfolding super_block_bytes bytes_of
length-super_block_bytes sb = refl

module _ (sb : SuperBlock) (rest : List ℕ) where
  abbrev size_on : List ℕ
  size_on = bytes_of 8 sb.file_system_size ++ rest

  abbrev inodes_on : List ℕ
  inodes_on = bytes_of 8 sb.ninodes ++ size_on

  abbrev blocks_on : List ℕ
  blocks_on = bytes_of 8 sb.nblocks ++ inodes_on

  abbrev padding_on : List ℕ
  padding_on = bytes_of 4 sb.padding ++ blocks_on

  flat : super_block_bytes sb ++ rest ≡ bytes_of 4 sb.block_size ++ padding_on
  unfolding super_block_bytes
  flat = simp append_assoc

  super_block_of_lem :
      (bm : BlockManager)
      → IsSuperBlock sb
      → super_block_of (super_block_bytes sb ++ rest) bm ≡ done (ok sb) bm
  unfolding super_block_of
  super_block_of_lem bm v =
      let a = length-bytes_of 4 sb.block_size in
      let b = length-bytes_of 4 sb.padding in
      let c = length-bytes_of 8 sb.nblocks in
      let d = length-bytes_of 8 sb.ninodes in
      let one : load 4 0 (bytes_of 4 sb.block_size ++ padding_on) ≡ some sb.block_size =
        load-front 4 sb.block_size padding_on (omega (arith, v.block_size)) in
      let two : load 4 4 (bytes_of 4 sb.block_size ++ padding_on) ≡ some sb.padding =
        load_behind 4 4 0 (bytes_of 4 sb.block_size) padding_on a
        ∙ load-front 4 sb.padding blocks_on (omega (arith, v.padding)) in
      let three : load 8 8 (bytes_of 4 sb.block_size ++ padding_on) ≡ some sb.nblocks =
        load_behind 8 4 4 (bytes_of 4 sb.block_size) padding_on a
        ∙ load_behind 8 4 0 (bytes_of 4 sb.padding) blocks_on b
        ∙ load-front 8 sb.nblocks inodes_on (omega (arith, v.nblocks)) in
      let four : load 8 16 (bytes_of 4 sb.block_size ++ padding_on) ≡ some sb.ninodes =
        load_behind 8 4 12 (bytes_of 4 sb.block_size) padding_on a
        ∙ load_behind 8 4 8 (bytes_of 4 sb.padding) blocks_on b
        ∙ load_behind 8 8 0 (bytes_of 8 sb.nblocks) inodes_on c
        ∙ load-front 8 sb.ninodes size_on (omega (arith, v.ninodes)) in
      let five : load 8 24 (bytes_of 4 sb.block_size ++ padding_on) ≡ some sb.file_system_size =
        load_behind 8 4 20 (bytes_of 4 sb.block_size) padding_on a
        ∙ load_behind 8 4 16 (bytes_of 4 sb.padding) blocks_on b
        ∙ load_behind 8 8 8 (bytes_of 8 sb.nblocks) inodes_on c
        ∙ load_behind 8 8 0 (bytes_of 8 sb.ninodes) size_on d
        ∙ load-front 8 sb.file_system_size rest (omega (arith, v.file_system_size)) in
      rw flat (rw (one, two, three, four, five))

-- A block whose first bytes were replaced.
block_front :
    (bm : BlockManager) (id : ℕ) (xs : List ℕ)
    → length xs ≤ bm.block_sz
    → block (written bm id 0 xs) id ≡ xs ++ drop (length xs) (block bm id)
block_front bm id xs h =
    list_ext _ _ 0
      (omega (
        arith,
        length-block (written bm id 0 xs) id,
        length-append xs (drop (length xs) (block bm id)),
        length-drop (length xs) (block bm id),
        length-block bm id,
      ))
      λ k q.
        let q' : k < bm.block_sz = omega (arith, length-block (written bm id 0 xs) id) in
        get_or-block-written bm id 0 xs (omega arith) k q' ∙ elim (dec_lt k (length xs)) [
          | yes l ↦ ground (arith, get_or-append_front xs (drop (length xs) (block bm id)) k l)
          | no l ↦
              let e : length xs + (k - length xs) ≡ k = omega arith in
              ground (
                arith,
                rw e at (get_or-append_back xs (drop (length xs) (block bm id)) (k - length xs)),
                rw e at (get_or-drop (length xs) (block bm id) (k - length xs)),
              )
        ]

super_block_bytes-bytes : (sb : SuperBlock) (k : ℕ) → get_or (super_block_bytes sb) k 0 < 256
unfolding super_block_bytes
super_block_bytes-bytes sb k =
    append-bytes (bytes_of 4 sb.block_size) _ (bytes_of-bytes 4 sb.block_size)
      (append-bytes (bytes_of 4 sb.padding) _ (bytes_of-bytes 4 sb.padding) (
        append-bytes (bytes_of 8 sb.nblocks) _ (bytes_of-bytes 8 sb.nblocks) (
          append-bytes (bytes_of 8 sb.ninodes) _ (bytes_of-bytes 8 sb.ninodes)
            (bytes_of-bytes 8 sb.file_system_size))))
      k

-- The device after a super block is written.
abbrev pub flushed : BlockManager → (id : ℕ) → SuperBlock → BlockManager
flushed bm id sb = written bm id 0 (super_block_bytes sb)

module _ (bm : BlockManager) (id : ℕ) (sb : SuperBlock) (v : IsDevice bm) (h : id < bm.block_cnt)
    (room : sizeof_super_block ≤ bm.block_sz) where
  pub flush_lem : flush sb id bm ≡ done (ok tt) (flushed bm id sb)
  unfolding flush
  flush_lem =
      let n = length-super_block_bytes sb in
      rw n at (write_partial_block_lem bm id v h (super_block_bytes sb) 0 (omega arith))

  pub flushed-IsDevice : IsDevice (flushed bm id sb)
  flushed-IsDevice = written-IsDevice bm id 0 (super_block_bytes sb) v (super_block_bytes-bytes sb)

  pub block-flushed : (j : ℕ) → id ≢ j → block (flushed bm id sb) j ≡ block bm j
  block-flushed j ne =
      let n = length-super_block_bytes sb in
      block-written_ne bm id 0 (super_block_bytes sb) (omega arith) j ne

-- A super block whose fields fit their types is read back, every field and the padding, from the
-- block of a well-formed device that it was flushed to, if a block has the 32 bytes of the structure;
-- neither call faults.
pub create_from_existing-flush :
    (bm : BlockManager) (id : ℕ) (sb : SuperBlock)
    → IsDevice bm
    → id < bm.block_cnt
    → sizeof_super_block ≤ bm.block_sz
    → IsSuperBlock sb
    → (after : BlockManager) × (flush sb id bm ≡ done (ok tt) after)
      × (create_from_existing id after ≡ done (ok sb) after)
unfolding create_from_existing
create_from_existing-flush bm id sb v h room w =
    let n = length-super_block_bytes sb in
    let still = flushed-IsDevice bm id sb v h room in
    (
      written bm id 0 (super_block_bytes sb),
      flush_lem bm id sb v h room,
      rw
          (
            read_block_lem (written bm id 0 (super_block_bytes sb)) id still h
                (replicate bm.block_sz 0) (length-replicate bm.block_sz 0),
            ◌>>=◌,
          )
          (rw (block_front bm id (super_block_bytes sb) (omega arith)) (
            super_block_of_lem sb (drop (length (super_block_bytes sb)) (block bm id))
              (written bm id 0 (super_block_bytes sb)) w)),
    )
