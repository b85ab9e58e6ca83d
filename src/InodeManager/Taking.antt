-- ===== src/InodeManager/Taking.antt =====
-- The loop of `allocate_inode`, and the device that it leaves.
use se3331_labs.Common.{
  ℕ, zero, suc, ◌+◌, ◌-◌, ◌*◌, ◌/◌, ◌%◌, ◌<◌, ◌≤◌, ◌≡◌, refl, true, false, List, Option, none, some,
  arith, ltb, lt→ltb, ltb-false, u64, first_clear, first_clear-Least, or_else, plus,
}
use se3331_labs.Common.Numbers.{index_div, index_mod}
use se3331_labs.Result.{ErrorType, ok, err}
use se3331_labs.Bitmap.Bits.{bit, set_bits, set_lem}
use se3331_labs.Bitmap.Find.{find_first_free-first_clear}
use se3331_labs.Block.{BlockManager, Run, Cmd, done, ◌>>=◌, ◌>>◌, write_block}
use se3331_labs.Block.Layout.{block, written}
use se3331_labs.Block.ReadWrite.{write_block_lem, written-IsDevice}
use se3331_labs.Block.Walk.{
  at_block, create_lem, has_next_lem, next_lem, value_lem, write_through_lem, flush_cur_block_lem,
}
use se3331_labs.Inode.{Inode, new_inode, flush_to_buffer}
use se3331_labs.Inode.Flush.{Flushed}
use se3331_labs.InodeManager.{InodeManager, take_inode, allocate_loop, allocate_inode, raw_to_logic}
use se3331_labs.InodeManager.Table.{IsIndex, entered, ignored_lem, set_table_lem}
use se3331_labs.InodeManager.Free.{is_used}
use se3331_labs.InodeManager.Search.{
  IsInodes, bits_at, bits_at-IsBitmap, taken, length-taken_bits, taken-IsDevice, few_inodes,
  table_block, search_from, found, search_from-step,
}

-- The image of the new inode, as the code makes it.
pub record IsImage (now type size : ℕ) (raw out : List ℕ) : Type 0 where
  pub inode : Inode
  pub made : new_inode now type size ≡ some inode
  pub flushed : flush_to_buffer inode raw ≡ some out
  pub fields : Flushed type size out

module _ (now type bid : ℕ) (raw out : List ℕ) (im : InodeManager) (bm : BlockManager)
    (v : IsInodes im bm) (q : IsImage now type bm.block_sz raw out) (on : bid < bm.block_cnt) where
  abbrev pub image_on : (i r : ℕ) → BlockManager
  image_on i r = written (taken im bm v i r) bid 0 out

  pub image_on-IsIndex :
      (i r : ℕ)
      → i < im.n_bitmap_blocks
      → r < bm.block_sz * 8
      → IsIndex (image_on i r) (i * (bm.block_sz * 8) + r)
  image_on-IsIndex i r hi hr =
      let g : (i + 1) * (bm.block_sz * 8) ≤ im.n_bitmap_blocks * (bm.block_sz * 8) = grind arith in
      let room = v.room in
      let few = few_inodes im bm v in
      let below : i * (bm.block_sz * 8) + r < im.n_bitmap_blocks * (bm.block_sz * 8) =
        omega arith in
      record {
        device =
            written-IsDevice (taken im bm v i r) bid 0 out (taken-IsDevice im bm v i r hr)
              q.fields.bytes;
        room = omega arith;
        within = table_block im bm v _ below;
        small = omega (arith, few);
      }

  take_inode_lem :
      (i r : ℕ) (rest : Cmd ℕ)
      → i < im.n_bitmap_blocks
      → r < bm.block_sz * 8
      → take_inode now raw type bid i
          (at_block bm (1 + im.n_table_blocks) im.n_bitmap_blocks i)
          (bits_at im bm v i)
          (some r)
          rest
          bm
        ≡ done
            (ok (raw_to_logic (i * (bm.block_sz * 8) + r)))
            (entered (image_on i r) (i * (bm.block_sz * 8) + r) bid)
  unfolding take_inode
  take_inode_lem i r rest hi hr =
      let w = v.range.within in
      let x = image_on-IsIndex i r hi hr in
      let small = x.small in
      let a : u64 (i * bm.block_sz * 8 + r) ≡ i * (bm.block_sz * 8) + r = omega arith in
      rw (set_lem (bits_at im bm v i) r (bits_at-IsBitmap im bm v i) hr) (
        rw
          (
            write_through_lem bm (1 + im.n_table_blocks) im.n_bitmap_blocks v.range i
                (set_bits (bits_at im bm v i) r),
            ◌>>=◌,
          )
          (rw
            (
              ◌>>◌,
              ◌>>=◌,
              flush_cur_block_lem bm (1 + im.n_table_blocks) im.n_bitmap_blocks v.range i
                  (set_bits (bits_at im bm v i) r) hi,
              write_block_lem bm (1 + im.n_table_blocks + i) v.range.device (omega arith)
                  (set_bits (bits_at im bm v i) r) (length-taken_bits im bm v i r),
            )
            (rw (q.made, q.flushed)
              (rw
                (
                  ignored_lem (write_block bid out) (taken im bm v i r) (image_on i r) (
                      write_block_lem (taken im bm v i r) bid (taken-IsDevice im bm v i r hr) on out
                        q.fields.same_length),
                  ◌>>=◌,
                )
                (rw a
                  (rw (set_table_lem (image_on i r) (i * (bm.block_sz * 8) + r) x bid, ◌>>=◌)))))))

  -- How the search ends, by the inode that is to be handed out.
  abbrev pub outcome : Option ℕ → Run ℕ
  outcome none = done (err ErrorType.out_of_resource) bm
  outcome (some idx) =
      done (ok (raw_to_logic idx))
        (entered (image_on (idx / (bm.block_sz * 8)) (idx % (bm.block_sz * 8))) idx bid)

  take_inode-outcome :
      (i : ℕ) (rest : Cmd ℕ) (r : Option ℕ)
      → i < im.n_bitmap_blocks
      → found im bm v i ≡ r
      → rest bm ≡ outcome (search_from im bm v (i + 1))
      → take_inode now raw type bid i
          (at_block bm (1 + im.n_table_blocks) im.n_bitmap_blocks i)
          (bits_at im bm v i)
          r
          rest
          bm
        ≡ outcome (or_else (plus (i * (bm.block_sz * 8)) r) (search_from im bm v (i + 1)))
  take_inode-outcome i rest none h e ih = unfold take_inode in ih
  take_inode-outcome i rest (some r) h e ih =
      let (lo, hi, clear, before) =
        first_clear-Least (bm.block_sz * 8) 0 (bit (block bm (1 + im.n_table_blocks + i))) r e in
      rw
        (
          index_div i r (bm.block_sz * 8) (omega arith),
          index_mod i r (bm.block_sz * 8) (omega arith),
        )
        (take_inode_lem i r rest h (omega arith))

  allocate_loop-outcome :
      (k i : ℕ)
      → i + k ≡ im.n_bitmap_blocks
      → allocate_loop now raw type bid
          (suc k)
          i
          (at_block bm (1 + im.n_table_blocks) im.n_bitmap_blocks i)
          bm
        ≡ outcome (search_from im bm v i)
  unfolding allocate_loop
  allocate_loop-outcome zero i e =
      let f : ltb i im.n_bitmap_blocks ≡ false = ltb-false (omega arith) in
      let z : (im.n_bitmap_blocks - i) * (bm.block_sz * 8) ≡ 0 =
        (let d : im.n_bitmap_blocks - i ≡ 0 = omega arith in rw d (omega arith)) in
      rw (has_next_lem bm (1 + im.n_table_blocks) im.n_bitmap_blocks v.range i (omega arith), ◌>>=◌)
        (rw (f, z) (unfold first_clear in refl))
  allocate_loop-outcome (suc k) i e =
      let t : ltb i im.n_bitmap_blocks ≡ true = lt→ltb i im.n_bitmap_blocks (omega arith) in
      let ih = allocate_loop-outcome k (i + 1) (omega arith) in
      rw (has_next_lem bm (1 + im.n_table_blocks) im.n_bitmap_blocks v.range i (omega arith), ◌>>=◌)
        (rw (t, value_lem bm (1 + im.n_table_blocks) im.n_bitmap_blocks v.range i, ◌>>=◌)
          (rw
            (
              find_first_free-first_clear (bits_at im bm v i) (bits_at-IsBitmap im bm v i),
              search_from-step im bm v i (omega arith),
            )
            (take_inode-outcome i _ (found im bm v i) (omega arith) refl (
              rw
                (
                  ◌>>=◌,
                  next_lem bm (1 + im.n_table_blocks) im.n_bitmap_blocks v.range i (omega arith),
                )
                ih))))

  pub allocate_inode-outcome :
      allocate_inode now raw im type bid bm
      ≡ outcome (first_clear (im.n_bitmap_blocks * (bm.block_sz * 8)) 0 (is_used im bm))
  unfolding allocate_inode
  allocate_inode-outcome =
      let a : im.n_bitmap_blocks - 0 ≡ im.n_bitmap_blocks = omega arith in
      let z : 0 * (bm.block_sz * 8) ≡ 0 = omega arith in
      let n : im.n_bitmap_blocks + 1 ≡ suc im.n_bitmap_blocks = omega arith in
      rw (create_lem bm (1 + im.n_table_blocks) im.n_bitmap_blocks v.range, ◌>>=◌)
        (rw n (rw (a, z) at (allocate_loop-outcome im.n_bitmap_blocks 0 (omega arith))))
