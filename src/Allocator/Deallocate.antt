-- ===== src/Allocator/Deallocate.antt =====
-- `deallocate` against its specification, and after `allocate`.
use se3331_labs.Common.{
  ℕ, ◌+◌, ◌*◌, ◌/◌, ◌%◌, ◌<◌, ◌≤◌, ◌≡◌, ◌⊎◌, inl, inr, refl, ◌∙◌, true, false, arith, leb, ◌==◌,
  if◌then◌else◌, length-replicate, replicate, u32, Bool-cases,
}
use native.Mathlib.Decide.{dec_lt, ℕ_discrete}
use se3331_labs.Result.{ErrorType, ok, err}
use se3331_labs.Bitmap.Bits.{check-bit, clear_lem, clear_bits}
use se3331_labs.Block.{BlockManager, done, ◌>>=◌}
use se3331_labs.Block.Layout.{block}
use se3331_labs.Block.ReadWrite.{read_block_lem, write_block_lem}
use se3331_labs.Allocator.{BlockAllocator, release, deallocate_bit, deallocate, allocate}
use se3331_labs.Allocator.Layout.{
  IsAllocator, bitmap_of, is_allocated, bitmap_of-IsBitmap, unmarked, some_index, length-clear_bits,
  is_allocated-unmarked, block-unmarked, unmarked-IsAllocator,
}
use se3331_labs.Allocator.Ranges.{device_block, bitmap_index, bitmap_apart}
use se3331_labs.Allocator.Allocate.{Allocation, Allocation-allocate}

module _ (al : BlockAllocator) (bm : BlockManager) (b : ℕ) (v : IsAllocator al bm)
    (h : b < bm.block_cnt) where
  target : b / (bm.block_sz * 8) + al.bitmap_block_id < bm.block_cnt
  target = device_block al bm v _ (bitmap_index al bm v b h)

  release-unmarked :
      release
        (b / (bm.block_sz * 8) + al.bitmap_block_id)
        (b % (bm.block_sz * 8))
        (bitmap_of al bm (b / (bm.block_sz * 8)))
        true
        bm
      ≡ done (ok tt) (unmarked al bm b)
  unfolding release
  release-unmarked =
      rw
        (clear_lem (bitmap_of al bm (b / (bm.block_sz * 8))) (b % (bm.block_sz * 8))
          (bitmap_of-IsBitmap al bm v _) (some_index al bm b v))
        (write_block_lem bm _ v.device target
          (clear_bits (bitmap_of al bm (b / (bm.block_sz * 8))) (b % (bm.block_sz * 8)))
          (length-clear_bits al bm b v))

  deallocate_bit_lem : deallocate_bit al b bm ≡ (
      if is_allocated al bm b
      then done (ok tt) (unmarked al bm b)
      else done (err ErrorType.invalid_arg) bm)
  unfolding deallocate_bit is_allocated
  deallocate_bit_lem =
      let small = v.device.small_blocks in
      let w : u32 (bm.block_sz * 8) ≡ bm.block_sz * 8 = omega arith in
      rw w (
        rw
          (
            read_block_lem bm _ v.device target (replicate bm.block_sz 0)
                (length-replicate bm.block_sz 0),
            ◌>>=◌,
          )
          (rw
            (
              check-bit (bitmap_of al bm (b / (bm.block_sz * 8))) (b % (bm.block_sz * 8))
                  (bitmap_of-IsBitmap al bm v _) (some_index al bm b v),
              ◌>>=◌,
            )
            (elim (Bool-cases (is_allocated al bm b)) [
              | inl used ↦ rw used release-unmarked
              | inr free ↦ rw free (unfold release in refl)
            ])))

  pub deallocate_lem : deallocate al b bm ≡ (
      if is_allocated al bm b
      then done (ok tt) (unmarked al bm b)
      else done (err ErrorType.invalid_arg) bm)
  unfolding deallocate
  deallocate_lem = let g : leb bm.block_cnt b ≡ false = ground arith in rw g deallocate_bit_lem

pub deallocate_beyond :
    (al : BlockAllocator) (bm : BlockManager) (b : ℕ)
    → bm.block_cnt ≤ b
    → deallocate al b bm ≡ done (err ErrorType.invalid_arg) bm
unfolding deallocate
deallocate_beyond al bm b h = let g : leb bm.block_cnt b ≡ true = ground arith in rw g

-- Block `b` is not allocated any more; nothing else changed.
pub record Deallocation (al : BlockAllocator) (bm : BlockManager) (b : ℕ) (after : BlockManager)
    : Type 0 where
  pub marks : (c : ℕ) → is_allocated al after c ≡ (if b == c then false else is_allocated al bm c)
  pub others :
      (j : ℕ)
      → (j < al.bitmap_block_id) ⊎ (al.bitmap_block_id + al.bitmap_block_cnt ≤ j)
      → block after j ≡ block bm j
  pub still : IsAllocator al after

abbrev pub Deallocates : BlockAllocator → BlockManager → ℕ → Type 0
Deallocates al bm b =
    (((bm.block_cnt ≤ b) ⊎ (is_allocated al bm b ≡ false))
      × (deallocate al b bm ≡ done (err ErrorType.invalid_arg) bm))
    ⊎ ((after : BlockManager) × (b < bm.block_cnt)
        × (is_allocated al bm b ≡ true)
        × (deallocate al b bm ≡ done (ok tt) after)
        × Deallocation al bm b after)

-- On a well-formed device `deallocate` does not fault. A block beyond the device, or one that is
-- not allocated, gives INVALID_ARG and an unchanged device. Any other block is marked as free;
-- no other mark and no block outside the bitmap changes, and the device stays well-formed.
pub deallocate-Deallocates :
    (al : BlockAllocator) (bm : BlockManager) (b : ℕ) → IsAllocator al bm → Deallocates al bm b
deallocate-Deallocates al bm b v = elim (dec_lt b bm.block_cnt) [
  | no far ↦ inl (inl (omega arith), deallocate_beyond al bm b (omega arith))
  | yes h ↦ elim (Bool-cases (is_allocated al bm b)) [
    | inr free ↦ inl (inr free, deallocate_lem al bm b v h ∙ rw free)
    | inl used ↦ inr (
      unmarked al bm b,
      h,
      used,
      deallocate_lem al bm b v h ∙ rw used,
      record {
        marks = is_allocated-unmarked al bm b v;
        others = λ j o. block-unmarked al bm b v j (bitmap_apart al bm v b h j o);
        still = unmarked-IsAllocator al bm b v;
      },
    )
  ]
]

-- A block that `allocate` returned can be deallocated: the call succeeds, and the marks of all
-- blocks are those from before the allocation.
pub deallocate-allocate :
    (al : BlockAllocator) (bm after : BlockManager) (b : ℕ)
    → IsAllocator al bm
    → allocate al bm ≡ done (ok b) after
    → (end : BlockManager) × (deallocate al b after ≡ done (ok tt) end)
      × ((c : ℕ) → is_allocated al end c ≡ is_allocated al bm c)
deallocate-allocate al bm after b v e = undone (Allocation-allocate al bm after b v e)
  where
    undone :
        Allocation al bm b after
        → (end : BlockManager) × (deallocate al b after ≡ done (ok tt) end)
          × ((c : ℕ) → is_allocated al end c ≡ is_allocated al bm c)
    undone a =
        let taken : is_allocated al after b ≡ true = ground (arith, a.marks b) in
        let size = a.same_size in
        (
          unmarked al after b,
          deallocate_lem al after b a.still (omega (arith, a.in_range)) ∙ rw taken,
          λ c. is_allocated-unmarked al after b a.still c ∙ back c,
        )
      where
        back : (c : ℕ) → (if b == c then false else is_allocated al after c) ≡ is_allocated al bm c
        back c = elim (ℕ_discrete b c) [
          | yes p ↦ rw (← p) (ground (arith, a.was_free))
          | no p ↦ ground (arith, a.marks c)
        ]
