-- ===== src/Allocator/Ranges.antt =====
-- The bitmap blocks as consecutive ranges of the blocks that they number.
use se3331_labs.Common.{
  ℕ, ◌+◌, ◌-◌, ◌*◌, ◌/◌, ◌<◌, ◌≤◌, ◌≡◌, ◌≢◌, ◌⊎◌, ap, true, false, arith, ◌==◌, if◌then◌else◌,
}
use native.Mathlib.Decide.{ℕ_discrete}
use native.Mathlib.Nat.{div-lt_iff_lt-mul}
use se3331_labs.Common.Numbers.{index_div, index_mod}
use se3331_labs.Bitmap.Bits.{bit}
use se3331_labs.Block.{BlockManager}
use se3331_labs.Block.Layout.{block}
use se3331_labs.Allocator.{BlockAllocator}
use se3331_labs.Allocator.Layout.{IsAllocator, is_allocated}

module _ (al : BlockAllocator) (bm : BlockManager) (v : IsAllocator al bm) where
  -- The number of bits that count in bitmap block `i`.
  abbrev pub valid_bits : ℕ → ℕ
  valid_bits i = if i == al.bitmap_block_cnt - 1 then al.last_block_num else bm.block_sz * 8

  full_block :
      (i : ℕ)
      → i < al.bitmap_block_cnt - 1
      → (i + 1) * (bm.block_sz * 8) ≤ (al.bitmap_block_cnt - 1) * (bm.block_sz * 8)
  full_block i h = grind arith

  -- Bitmap block `i` numbers the blocks from `i * (block_sz * 8)` on.
  pub valid_bits-split :
      (i : ℕ)
      → i < al.bitmap_block_cnt
      → (valid_bits i ≤ bm.block_sz * 8)
        × (bm.block_cnt - i * (bm.block_sz * 8)
            ≡ valid_bits i + (bm.block_cnt - (i + 1) * (bm.block_sz * 8)))
        × (i * (bm.block_sz * 8) + valid_bits i ≤ bm.block_cnt)
  valid_bits-split i h = elim (ℕ_discrete i (al.bitmap_block_cnt - 1)) [
    | yes e ↦
        let c = v.covers in
        let f = v.last_fits in
        let t : (i == al.bitmap_block_cnt - 1) ≡ true = ground arith in
        let p : i * (bm.block_sz * 8) ≡ (al.bitmap_block_cnt - 1) * (bm.block_sz * 8) =
          ap (λ (t : ℕ). t * (bm.block_sz * 8)) e in
        rw t (omega arith)
    | no e ↦
        let c = v.covers in
        let t : (i == al.bitmap_block_cnt - 1) ≡ false = ground arith in
        let p = full_block i (omega arith) in rw t (omega arith)
  ]

  pub is_allocated-block :
      (i r : ℕ)
      → r < bm.block_sz * 8
      → is_allocated al bm (i * (bm.block_sz * 8) + r) ≡ bit (block bm (i + al.bitmap_block_id)) r
  unfolding is_allocated
  is_allocated-block i r h =
      rw (index_div i r (bm.block_sz * 8) h, index_mod i r (bm.block_sz * 8) h)

  pub last_end :
      al.bitmap_block_cnt * (bm.block_sz * 8)
      ≡ (al.bitmap_block_cnt - 1) * (bm.block_sz * 8) + bm.block_sz * 8
  last_end =
      let c = v.some_blocks in
      let p : al.bitmap_block_cnt ≡ al.bitmap_block_cnt - 1 + 1 = omega arith in
      omega (arith, ap (λ (t : ℕ). t * (bm.block_sz * 8)) p)

  -- The bit of a block lies in one of the bitmap blocks.
  pub bitmap_index : (b : ℕ) → b < bm.block_cnt → b / (bm.block_sz * 8) < al.bitmap_block_cnt
  bitmap_index b h =
      let c = v.covers in
      let f = v.last_fits in
      let p = v.device.some_bytes in
      (div-lt_iff_lt-mul {k = bm.block_sz * 8} (omega arith)).1 (omega (arith, last_end))

  pub bitmap_apart :
      (b : ℕ)
      → b < bm.block_cnt
      → (j : ℕ) → (j < al.bitmap_block_id) ⊎ (al.bitmap_block_id + al.bitmap_block_cnt ≤ j)
      → b / (bm.block_sz * 8) + al.bitmap_block_id ≢ j
  bitmap_apart b h j o = let i = bitmap_index b h in omega arith

  pub device_block : (i : ℕ) → i < al.bitmap_block_cnt → i + al.bitmap_block_id < bm.block_cnt
  device_block i h = let w = v.within in omega arith
