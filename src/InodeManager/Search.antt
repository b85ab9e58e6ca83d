-- ===== src/InodeManager/Search.antt =====
-- The search of the inode bitmap, block by block, as a search of the set of the inodes in use.
use se3331_labs.Common.{
  ℕ, ◌+◌, ◌-◌, ◌*◌, ◌/◌, ◌<◌, ◌≤◌, ◌≡◌, ◌∙◌, Option, arith, length, length-set, u32_mod, u64_mod,
  first_clear, first_clear-add, first_clear-shift, or_else, plus,
}
use native.Mathlib.Nat.{div-lt_iff_lt-mul}
use se3331_labs.Common.Numbers.{index_div, index_mod}
use se3331_labs.Bitmap.{Bitmap}
use se3331_labs.Bitmap.Bits.{bit, IsBitmap, set_bits, set_bits-AreBytes}
use se3331_labs.Block.{BlockManager}
use se3331_labs.Block.Layout.{IsDevice, block, written, length-block, block-bytes}
use se3331_labs.Block.ReadWrite.{written-IsDevice}
use se3331_labs.Block.Walk.{IsRange}
use se3331_labs.InodeManager.{InodeManager}
use se3331_labs.InodeManager.Free.{is_used}

-- The bitmap lies on the device, with a block behind it, and the table has an entry for each of its
-- bits. A block has room for an inode.
pub record IsInodes (im : InodeManager) (bm : BlockManager) : Type 0 where
  pub range : IsRange bm (1 + im.n_table_blocks) im.n_bitmap_blocks
  pub covers : im.n_bitmap_blocks * (bm.block_sz * 8) ≤ im.n_table_blocks * (bm.block_sz / 8)
  pub room : 44 < bm.block_sz

module _ (im : InodeManager) (bm : BlockManager) (v : IsInodes im bm) where
  abbrev pub bits_at : ℕ → Bitmap
  bits_at i = record { bytes = block bm (1 + im.n_table_blocks + i); payload = bm.block_sz }

  pub bits_at-IsBitmap : (i : ℕ) → IsBitmap (bits_at i)
  bits_at-IsBitmap i = record {
    fits = omega (arith, length-block bm (1 + im.n_table_blocks + i));
    small = v.range.device.small_blocks;
    bytes = block-bytes bm (1 + im.n_table_blocks + i) v.range.device;
  }

  -- The device with the bit set.
  abbrev pub taken : (i r : ℕ) → BlockManager
  taken i r = written bm (1 + im.n_table_blocks + i) 0 (set_bits (bits_at i) r)

  pub length-taken_bits : (i r : ℕ) → length (set_bits (bits_at i) r) ≡ bm.block_sz
  length-taken_bits i r = length-set _ _ _ ∙ length-block bm (1 + im.n_table_blocks + i)

  pub taken-IsDevice : (i r : ℕ) → r < bm.block_sz * 8 → IsDevice (taken i r)
  taken-IsDevice i r h =
      written-IsDevice bm _ 0 _ v.range.device
        (set_bits-AreBytes (bits_at i) r (bits_at-IsBitmap i) h)

  pub few_inodes : im.n_bitmap_blocks * (bm.block_sz * 8) < u64_mod
  few_inodes =
      let w = v.range.within in
      let c = v.range.device.few_blocks in
      let s = v.range.device.small_blocks in
      let g : im.n_bitmap_blocks * (bm.block_sz * 8) ≤ u32_mod * (bm.block_sz * 8) = grind arith in
      omega arith

  -- An index of the bitmap is one of the table.
  pub table_index :
      (idx : ℕ)
      → idx < im.n_bitmap_blocks * (bm.block_sz * 8)
      → idx / (bm.block_sz / 8) < im.n_table_blocks
  table_index idx h =
      let c = v.covers in let r = v.room in (div-lt_iff_lt-mul (omega arith)).1 (omega arith)

  pub table_block :
      (idx : ℕ)
      → idx < im.n_bitmap_blocks * (bm.block_sz * 8)
      → 1 + idx / (bm.block_sz / 8) < bm.block_cnt
  table_block idx h = let w = v.range.within in omega (arith, table_index idx h)

  -- What is still to be searched from bitmap block `i` on, and what is found in one.
  abbrev pub search_from : ℕ → Option ℕ
  search_from i =
      first_clear ((im.n_bitmap_blocks - i) * (bm.block_sz * 8)) (i * (bm.block_sz * 8))
        (is_used im bm)

  abbrev pub found : ℕ → Option ℕ
  found i = first_clear (bm.block_sz * 8) 0 (bit (block bm (1 + im.n_table_blocks + i)))

  pub is_used-block :
      (i j : ℕ)
      → j < bm.block_sz * 8
      → is_used im bm (i * (bm.block_sz * 8) + j) ≡ bit (block bm (1 + im.n_table_blocks + i)) j
  unfolding is_used
  is_used-block i j h = rw (index_div i j (bm.block_sz * 8) h, index_mod i j (bm.block_sz * 8) h)

  pub search_from-step :
      (i : ℕ)
      → i < im.n_bitmap_blocks
      → search_from i ≡ or_else (plus (i * (bm.block_sz * 8)) (found i)) (search_from (i + 1))
  search_from-step i h =
      let split : (im.n_bitmap_blocks - i) * (bm.block_sz * 8)
          ≡ bm.block_sz * 8 + (im.n_bitmap_blocks - (i + 1)) * (bm.block_sz * 8) =
        split_rest i h in
      let shift =
        first_clear-shift (bm.block_sz * 8) (i * (bm.block_sz * 8)) 0 (i * (bm.block_sz * 8))
          (is_used im bm) (bit (block bm (1 + im.n_table_blocks + i))) (omega arith)
          (λ j q. is_used-block i j (omega arith)) in
      rw (split, ← shift)
        (first_clear-add (bm.block_sz * 8) _ (i * (bm.block_sz * 8)) ((i + 1) * (bm.block_sz * 8))
          (is_used im bm) (omega arith))
    where
      split_rest :
          (i : ℕ)
          → i < im.n_bitmap_blocks
          → (im.n_bitmap_blocks - i) * (bm.block_sz * 8)
            ≡ bm.block_sz * 8 + (im.n_bitmap_blocks - (i + 1)) * (bm.block_sz * 8)
      split_rest i h =
          let e : im.n_bitmap_blocks - i ≡ im.n_bitmap_blocks - (i + 1) + 1 = omega arith in
          rw e (omega arith)
