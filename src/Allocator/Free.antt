-- ===== src/Allocator/Free.antt =====
-- `free_block_cnt` against its specification: the number of blocks that are not allocated.
use se3331_labs.Common.{
  ℕ, zero, suc, ◌+◌, ◌-◌, ◌*◌, ◌<◌, ◌≡◌, inl, inr, refl, ap, ◌∙◌, true, false, arith, ◌==◌,
  if◌then◌else◌, length-replicate, replicate, u32, u32_mod, Bool-cases, count_clear,
  count_clear-add, count_clear-shift, count_clear_set, count_clear-le,
}
use se3331_labs.Result.{ok}
use se3331_labs.Bitmap
use se3331_labs.Bitmap.Bits.{bit}
use se3331_labs.Bitmap.Count.{count_zeros_to_bound-count_clear, count_zeros-count_clear}
use se3331_labs.Block.{BlockManager, done, ◌>>=◌, checked, unwrapped}
use se3331_labs.Block.Layout.{block}
use se3331_labs.Block.ReadWrite.{read_block_lem}
use se3331_labs.Allocator.{BlockAllocator, free_loop, free_block_cnt, allocate, deallocate}
use se3331_labs.Allocator.Layout.{
  IsAllocator, bitmap_of, is_allocated, bitmap_of-IsBitmap, unmarked, is_allocated-unmarked,
  unmarked-IsAllocator,
}
use se3331_labs.Allocator.Ranges.{
  valid_bits, valid_bits-split, is_allocated-block, device_block, last_end,
}
use se3331_labs.Allocator.Allocate.{Allocation, Allocation-allocate}
use se3331_labs.Allocator.Deallocate.{deallocate_lem}

module _ (al : BlockAllocator) (bm : BlockManager) (v : IsAllocator al bm) where
  -- The free blocks from bitmap block `i` on.
  abbrev free_from : ℕ → ℕ
  free_from i =
      count_clear (bm.block_cnt - i * (bm.block_sz * 8)) (i * (bm.block_sz * 8))
        (is_allocated al bm)

  abbrev free_in : ℕ → ℕ
  free_in i = count_clear (valid_bits al bm v i) 0 (bit (block bm (i + al.bitmap_block_id)))

  free_from-step : (i : ℕ) → i < al.bitmap_block_cnt → free_from i ≡ free_in i + free_from (i + 1)
  free_from-step i h =
      let (fits, split, within) = valid_bits-split al bm v i h in
      let shift =
        count_clear-shift (valid_bits al bm v i) (i * (bm.block_sz * 8)) 0 (i * (bm.block_sz * 8))
          (is_allocated al bm) (bit (block bm (i + al.bitmap_block_id))) (omega arith)
          (λ j q. is_allocated-block al bm v i j (omega arith)) in
      rw (split, ← shift)
        (count_clear-add (valid_bits al bm v i) _ (i * (bm.block_sz * 8)) _ (is_allocated al bm)
            refl
          ∙ ap
              (λ (t : ℕ).
                count_clear (valid_bits al bm v i) (i * (bm.block_sz * 8)) (is_allocated al bm) + t)
              (rest (bm.block_cnt - (i + 1) * (bm.block_sz * 8)) refl))
    where
      rest :
          (k : ℕ)
          → bm.block_cnt - (i + 1) * (bm.block_sz * 8) ≡ k
          → count_clear k (i * (bm.block_sz * 8) + valid_bits al bm v i) (is_allocated al bm)
            ≡ count_clear k ((i + 1) * (bm.block_sz * 8)) (is_allocated al bm)
      rest zero e = unfold count_clear in refl
      rest (suc k) e =
          let (fits, split, within) = valid_bits-split al bm v i h in
          ap (λ (t : ℕ). count_clear (suc k) t (is_allocated al bm)) (omega arith)

  count_block :
      (i : ℕ)
      → (if i == al.bitmap_block_cnt - 1
            then checked (Bitmap.count_zeros_to_bound (bitmap_of al bm i) al.last_block_num)
            else checked (Bitmap.count_zeros (bitmap_of al bm i)))
          bm
        ≡ done (ok (free_in i)) bm
  count_block i = elim (Bool-cases (i == al.bitmap_block_cnt - 1)) [
    | inl e ↦ rw (
      e,
      count_zeros_to_bound-count_clear (bitmap_of al bm i) (bitmap_of-IsBitmap al bm v i)
          al.last_block_num v.last_fits,
    )
    | inr e ↦ rw (e, count_zeros-count_clear (bitmap_of al bm i) (bitmap_of-IsBitmap al bm v i))
  ]

  free_loop_lem :
      (n i total : ℕ)
      → i + n ≡ al.bitmap_block_cnt
      → total + free_from i < u32_mod
      → free_loop al n i total bm ≡ done (ok (total + free_from i)) bm
  unfolding free_loop
  free_loop_lem zero i total h t =
      let e : i ≡ al.bitmap_block_cnt = omega arith in
      let c = v.covers in
      let f = v.last_fits in
      let k : bm.block_cnt - i * (bm.block_sz * 8) ≡ 0 =
        omega (arith, ap (λ (t : ℕ). t * (bm.block_sz * 8)) e, last_end al bm v) in
      rw k (unfold count_clear in ap (λ (n : ℕ). done (ok n) bm) (omega arith))
  free_loop_lem (suc n) i total h t =
      let step = free_from-step i (omega arith) in
      let w : u32 (total + free_in i) ≡ total + free_in i = omega arith in
      rw
        (
          read_block_lem bm (i + al.bitmap_block_id) v.device (device_block al bm v i (omega arith))
              (replicate bm.block_sz 0) (length-replicate bm.block_sz 0),
          ◌>>=◌,
          unwrapped,
        )
        (rw (count_block i, ◌>>=◌)
          (rw w (
            free_loop_lem n (i + 1) (total + free_in i) (omega arith) (omega arith)
            ∙ ap (λ (n : ℕ). done (ok n) bm) (omega arith))))

  -- On a well-formed device `free_block_cnt` returns the number of blocks that are not allocated.
  pub free_block_cnt-count_clear :
      free_block_cnt al bm ≡ done (ok (count_clear bm.block_cnt 0 (is_allocated al bm))) bm
  unfolding free_block_cnt
  free_block_cnt-count_clear =
      let e : bm.block_cnt - 0 * (bm.block_sz * 8) ≡ bm.block_cnt = omega arith in
      let z : 0 * (bm.block_sz * 8) ≡ 0 = omega arith in
      let few = v.device.few_blocks in
      let le = count_clear-le bm.block_cnt 0 (is_allocated al bm) in
      let u : 0 + count_clear bm.block_cnt 0 (is_allocated al bm)
          ≡ count_clear bm.block_cnt 0 (is_allocated al bm) =
        omega arith in
      rw (e, z, u) at
        (free_loop_lem al.bitmap_block_cnt 0 0 (omega arith) (rw (e, z) (omega arith)))

-- A successful `allocate` takes exactly one block from the count of free blocks, which was
-- positive.
pub free_block_cnt-allocate :
    (al : BlockAllocator) (bm after : BlockManager) (b : ℕ)
    → IsAllocator al bm
    → allocate al bm ≡ done (ok b) after
    → (n : ℕ) × (free_block_cnt al bm ≡ done (ok (suc n)) bm)
      × (free_block_cnt al after ≡ done (ok n) after)
free_block_cnt-allocate al bm after b v e = (
  count_clear bm.block_cnt 0 (is_allocated al after),
  free_block_cnt-count_clear al bm v ∙ ap (λ (n : ℕ). done (ok n) bm) one,
  free_block_cnt-count_clear al after a.still
      ∙ ap (λ (n : ℕ). done (ok (count_clear n 0 (is_allocated al after))) after) a.same_size,
)
  where
    a : Allocation al bm b after
    a = Allocation-allocate al bm after b v e

    one :
        count_clear bm.block_cnt 0 (is_allocated al bm)
        ≡ suc (count_clear bm.block_cnt 0 (is_allocated al after))
    one =
        (count_clear_set bm.block_cnt 0 b (is_allocated al bm) (is_allocated al after) (omega arith)
          (omega (arith, a.in_range)) a.was_free (ground (arith, a.marks b))
          (λ j ne. ground (arith, a.marks j)))

-- A successful `deallocate` adds exactly one block to the count of free blocks.
pub free_block_cnt-deallocate :
    (al : BlockAllocator) (bm : BlockManager) (b : ℕ)
    → IsAllocator al bm
    → b < bm.block_cnt
    → is_allocated al bm b ≡ true
    → (n : ℕ) × (after : BlockManager) × (free_block_cnt al bm ≡ done (ok n) bm)
      × (deallocate al b bm ≡ done (ok tt) after)
      × (free_block_cnt al after ≡ done (ok (suc n)) after)
free_block_cnt-deallocate al bm b v h used = (
  count_clear bm.block_cnt 0 (is_allocated al bm),
  unmarked al bm b,
  free_block_cnt-count_clear al bm v,
  deallocate_lem al bm b v h ∙ rw used,
  free_block_cnt-count_clear al (unmarked al bm b) (unmarked-IsAllocator al bm b v)
      ∙ ap (λ (n : ℕ). done (ok n) (unmarked al bm b)) one,
)
  where
    marks :
        (c : ℕ)
        → is_allocated al (unmarked al bm b) c ≡ (if b == c then false else is_allocated al bm c)
    marks = is_allocated-unmarked al bm b v

    one :
        count_clear bm.block_cnt 0 (is_allocated al (unmarked al bm b))
        ≡ suc (count_clear bm.block_cnt 0 (is_allocated al bm))
    one =
        count_clear_set bm.block_cnt 0 b (is_allocated al (unmarked al bm b)) (is_allocated al bm)
          (omega arith) (omega arith) (ground (arith, marks b)) used
          (λ j ne. ground (arith, marks j))
