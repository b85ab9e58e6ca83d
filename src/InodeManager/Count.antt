-- ===== src/InodeManager/Count.antt =====
-- `free_inode_cnt` against the set of the inodes in use.
use se3331_labs.Common.{
  ℕ, zero, suc, ◌+◌, ◌-◌, ◌*◌, ◌<◌, ◌≡◌, ap, ◌∙◌, arith, true, false, ltb, lt→ltb, ltb-false, u64,
  u64_mod, count_clear, count_clear-add, count_clear-shift, count_clear-le,
}
use se3331_labs.Result.{ok}
use se3331_labs.Bitmap.Bits.{bit}
use se3331_labs.Bitmap.Count.{count_zeros-count_clear}
use se3331_labs.Block.{BlockManager, done, ◌>>=◌}
use se3331_labs.Block.Layout.{block}
use se3331_labs.Block.Walk.{at_block, create_lem, has_next_lem, next_lem, value_lem}
use se3331_labs.InodeManager.{InodeManager, count_loop, free_inode_cnt}
use se3331_labs.InodeManager.Free.{is_used}
use se3331_labs.InodeManager.Search.{IsInodes, bits_at, bits_at-IsBitmap, few_inodes, is_used-block}

module _ (im : InodeManager) (bm : BlockManager) (v : IsInodes im bm) where
  abbrev rest_bits : ℕ → ℕ
  rest_bits i = (im.n_bitmap_blocks - i) * (bm.block_sz * 8)

  rest_bits-step :
      (i : ℕ) → i < im.n_bitmap_blocks → rest_bits i ≡ bm.block_sz * 8 + rest_bits (i + 1)
  rest_bits-step i h =
      let e : im.n_bitmap_blocks - i ≡ im.n_bitmap_blocks - (i + 1) + 1 = omega arith in
      rw e (omega arith)

  -- The clear bits of a block and of the blocks behind it.
  count-step :
      (i : ℕ)
      → i < im.n_bitmap_blocks
      → count_clear (rest_bits i) (i * (bm.block_sz * 8)) (is_used im bm)
        ≡ count_clear (bm.block_sz * 8) 0 (bit (block bm (1 + im.n_table_blocks + i)))
          + count_clear (rest_bits (i + 1)) ((i + 1) * (bm.block_sz * 8)) (is_used im bm)
  count-step i h =
      let shift =
        count_clear-shift (bm.block_sz * 8) (i * (bm.block_sz * 8)) 0 (i * (bm.block_sz * 8))
          (is_used im bm) (bit (block bm (1 + im.n_table_blocks + i))) (omega arith)
          (λ j q. is_used-block im bm v i j (omega arith)) in
      rw (rest_bits-step i h, ← shift)
        (count_clear-add (bm.block_sz * 8) (rest_bits (i + 1)) (i * (bm.block_sz * 8))
          ((i + 1) * (bm.block_sz * 8)) (is_used im bm) (omega arith))

  count_loop_lem :
      (k i total : ℕ)
      → i + k ≡ im.n_bitmap_blocks
      → total + rest_bits i < u64_mod
      → count_loop (suc k) total (at_block bm (1 + im.n_table_blocks) im.n_bitmap_blocks i) bm
        ≡ done (ok (total + count_clear (rest_bits i) (i * (bm.block_sz * 8)) (is_used im bm))) bm
  unfolding count_loop
  count_loop_lem zero i total e small =
      let f : ltb i im.n_bitmap_blocks ≡ false = ltb-false (omega arith) in
      let z : rest_bits i ≡ 0 =
        (let d : im.n_bitmap_blocks - i ≡ 0 = omega arith in rw d (omega arith)) in
      rw (has_next_lem bm (1 + im.n_table_blocks) im.n_bitmap_blocks v.range i (omega arith), ◌>>=◌)
        (rw (f, z) (unfold count_clear in ap (λ (t : ℕ). done (ok t) bm) (omega arith)))
  count_loop_lem (suc k) i total e small =
      let t : ltb i im.n_bitmap_blocks ≡ true = lt→ltb i im.n_bitmap_blocks (omega arith) in
      let here = count_clear (bm.block_sz * 8) 0 (bit (block bm (1 + im.n_table_blocks + i))) in
      let most = count_clear-le (bm.block_sz * 8) 0 (bit (block bm (1 + im.n_table_blocks + i))) in
      let step = rest_bits-step i (omega arith) in
      let w : u64 (total + here) ≡ total + here = omega (arith, most, step) in
      rw (has_next_lem bm (1 + im.n_table_blocks) im.n_bitmap_blocks v.range i (omega arith), ◌>>=◌)
        (rw (t, value_lem bm (1 + im.n_table_blocks) im.n_bitmap_blocks v.range i, ◌>>=◌)
          (rw
            (
              count_zeros-count_clear (bits_at im bm v i) (bits_at-IsBitmap im bm v i),
              count-step i (omega arith),
            )
            (rw
              (
                ◌>>=◌,
                next_lem bm (1 + im.n_table_blocks) im.n_bitmap_blocks v.range i (omega arith),
              )
              (rw w (
                count_loop_lem k (i + 1) (total + here) (omega arith) (omega (arith, most, step))
                ∙ ap (λ (t : ℕ). done (ok t) bm) (omega arith))))))

-- On a well-formed device with room for the inode table and the inode bitmap, `free_inode_cnt` does
-- not fault or fail, its loop has rounds enough, and it returns the number of the inodes that are not
-- in use, on an unchanged device.
pub free_inode_cnt-count_clear :
    (im : InodeManager) (bm : BlockManager)
    → IsInodes im bm
    → free_inode_cnt im bm
      ≡ done (ok (count_clear (im.n_bitmap_blocks * (bm.block_sz * 8)) 0 (is_used im bm))) bm
unfolding free_inode_cnt
free_inode_cnt-count_clear im bm v =
    let a : im.n_bitmap_blocks - 0 ≡ im.n_bitmap_blocks = omega arith in
    let z : 0 * (bm.block_sz * 8) ≡ 0 = omega arith in
    let n : im.n_bitmap_blocks + 1 ≡ suc im.n_bitmap_blocks = omega arith in
    let few : 0 + rest_bits im bm v 0 < u64_mod = rw a (omega (arith, few_inodes im bm v)) in
    rw (create_lem bm (1 + im.n_table_blocks) im.n_bitmap_blocks v.range, ◌>>=◌)
      (rw n (
        count_loop_lem im bm v im.n_bitmap_blocks 0 0 (omega arith) few
        ∙ rw (a, z) (ap (λ (t : ℕ). done (ok t) bm) (omega arith))))
