-- ===== src/Allocator/Allocate.antt =====
-- `allocate` against its specification: the least block that is not allocated.
use se3331_labs.Common.{
  ℕ, zero, suc, ◌+◌, ◌-◌, ◌*◌, ◌<◌, ◌≤◌, ◌≡◌, ◌⊎◌, inl, inr, refl, ap, ◌∙◌, true, false, Option,
  none, some, arith, ◌==◌, if◌then◌else◌, length-set, length-replicate, replicate, u32, Bool-cases,
  first_clear, first_clear-add, first_clear-shift, first_clear-none, first_clear-Least, or_else,
  plus,
}
use mathlib.Core.Path.{subst₂}
use se3331_labs.Common.Numbers.{index_div, index_mod}
use se3331_labs.Result.{ErrorType, ok, err}
use se3331_labs.Bitmap
use se3331_labs.Bitmap.{Bitmap}
use se3331_labs.Bitmap.Bits.{bit, set_lem, set_bits}
use se3331_labs.Bitmap.Find.{find-first_clear, find_first_free-first_clear}
use se3331_labs.Block.{BlockManager, Run, done, Cmd, ◌>>=◌, ◌>>◌, checked}
use se3331_labs.Block.Layout.{block, length-block}
use se3331_labs.Block.ReadWrite.{read_block_lem, write_block_lem}
use se3331_labs.Allocator.{BlockAllocator, take_bit, allocate_loop, allocate}
use se3331_labs.Allocator.Layout.{
  IsAllocator, bitmap_of, is_allocated, bitmap_of-IsBitmap, marked, is_allocated-marked,
  block-marked, marked-IsAllocator,
}
use se3331_labs.Allocator.Ranges.{
  valid_bits, valid_bits-split, is_allocated-block, bitmap_apart, device_block, last_end,
}

-- How `allocate` ends, by the block that is to be handed out.
unfoldable pub outcome : BlockAllocator → BlockManager → Option ℕ → Run ℕ
outcome al bm none = done (err ErrorType.out_of_resource) bm
outcome al bm (some b) = done (ok b) (marked al bm b)

module _ (al : BlockAllocator) (bm : BlockManager) (v : IsAllocator al bm) where
  take_bit-outcome :
      (i r : ℕ) (rest : Cmd ℕ)
      → i < al.bitmap_block_cnt
      → r < bm.block_sz * 8
      → i * (bm.block_sz * 8) + r < bm.block_cnt
      → take_bit al i (bitmap_of al bm i) (some r) rest bm
        ≡ outcome al bm (some (i * (bm.block_sz * 8) + r))
  unfolding take_bit outcome
  take_bit-outcome i r rest hi hr hb =
      let small = v.device.small_blocks in
      let few = v.device.few_blocks in
      let w : u32 (bm.block_sz * 8) ≡ bm.block_sz * 8 = omega arith in
      let p : u32 (i * (bm.block_sz * 8)) ≡ i * (bm.block_sz * 8) = omega arith in
      let q = index_div i r (bm.block_sz * 8) hr in
      let m = index_mod i r (bm.block_sz * 8) hr in
      rw (set_lem (bitmap_of al bm i) r (bitmap_of-IsBitmap al bm v i) hr) (
        rw (w, p, q, m)
          (rw (
            write_block_lem bm (i + al.bitmap_block_id) v.device (device_block al bm v i hi)
                (set_bits (bitmap_of al bm i) r)
                (length-set (block bm (i + al.bitmap_block_id)) _ _
                  ∙ length-block bm (i + al.bitmap_block_id)),
            ◌>>=◌,
            ◌>>◌,
          )))

  -- What is still to be searched from bitmap block `i` on.
  abbrev search_from : ℕ → Option ℕ
  search_from i =
      first_clear (bm.block_cnt - i * (bm.block_sz * 8)) (i * (bm.block_sz * 8))
        (is_allocated al bm)

  abbrev found : ℕ → Option ℕ
  found i = first_clear (valid_bits al bm v i) 0 (bit (block bm (i + al.bitmap_block_id)))

  search_from-step :
      (i : ℕ)
      → i < al.bitmap_block_cnt
      → search_from i ≡ or_else (plus (i * (bm.block_sz * 8)) (found i)) (search_from (i + 1))
  search_from-step i h =
      let (fits, split, within) = valid_bits-split al bm v i h in
      let shift =
        first_clear-shift (valid_bits al bm v i) (i * (bm.block_sz * 8)) 0 (i * (bm.block_sz * 8))
          (is_allocated al bm) (bit (block bm (i + al.bitmap_block_id))) (omega arith)
          (λ j q. is_allocated-block al bm v i j (omega arith)) in
      rw (split, ← shift)
        (first_clear-add (valid_bits al bm v i) _ (i * (bm.block_sz * 8)) _ (is_allocated al bm)
            refl
          ∙ ap
              (or_else
                (first_clear (valid_bits al bm v i) (i * (bm.block_sz * 8)) (is_allocated al bm)))
              (rest (bm.block_cnt - (i + 1) * (bm.block_sz * 8)) refl))
    where
      rest :
          (k : ℕ)
          → bm.block_cnt - (i + 1) * (bm.block_sz * 8) ≡ k
          → first_clear k (i * (bm.block_sz * 8) + valid_bits al bm v i) (is_allocated al bm)
            ≡ first_clear k ((i + 1) * (bm.block_sz * 8)) (is_allocated al bm)
      rest zero e = unfold first_clear in refl
      rest (suc k) e =
          let (fits, split, within) = valid_bits-split al bm v i h in
          ap (λ (t : ℕ). first_clear (suc k) t (is_allocated al bm)) (omega arith)

  find_block :
      (i : ℕ)
      → (if i == al.bitmap_block_cnt - 1
            then checked (Bitmap.find_first_free_w_bound (bitmap_of al bm i) al.last_block_num)
            else checked (Bitmap.find_first_free (bitmap_of al bm i)))
          bm
        ≡ done (ok (found i)) bm
  find_block i = elim (Bool-cases (i == al.bitmap_block_cnt - 1)) [
    | inl e ↦ rw (
      e,
      find-first_clear (bitmap_of al bm i) (bitmap_of-IsBitmap al bm v i) al.last_block_num
          v.last_fits,
    )
    | inr e ↦ rw (e, find_first_free-first_clear (bitmap_of al bm i) (bitmap_of-IsBitmap al bm v i))
  ]

  take_bit-found :
      (i : ℕ) (rest : Cmd ℕ) (r : Option ℕ)
      → i < al.bitmap_block_cnt
      → found i ≡ r
      → rest bm ≡ outcome al bm (search_from (i + 1))
      → take_bit al i (bitmap_of al bm i) r rest bm
        ≡ outcome al bm (or_else (plus (i * (bm.block_sz * 8)) r) (search_from (i + 1)))
  take_bit-found i rest none h e ih = unfold take_bit in ih
  take_bit-found i rest (some r) h e ih =
      let (fits, split, within) = valid_bits-split al bm v i h in
      let (lo, hi, clear, before) =
        first_clear-Least (valid_bits al bm v i) 0 (bit (block bm (i + al.bitmap_block_id))) r e in
      take_bit-outcome i r rest h (omega arith) (omega arith)

  allocate_loop-outcome :
      (n i : ℕ)
      → i + n ≡ al.bitmap_block_cnt
      → allocate_loop al n i bm ≡ outcome al bm (search_from i)
  unfolding allocate_loop
  allocate_loop-outcome zero i h =
      let e : i ≡ al.bitmap_block_cnt = omega arith in
      let c = v.covers in
      let f = v.last_fits in
      let k : bm.block_cnt - i * (bm.block_sz * 8) ≡ 0 =
        omega (arith, ap (λ (t : ℕ). t * (bm.block_sz * 8)) e, last_end al bm v) in
      rw k (unfold first_clear outcome in refl)
  allocate_loop-outcome (suc n) i h =
      let small = v.device.small_blocks in
      let (fits, split, within) = valid_bits-split al bm v i (omega arith) in
      let ih = allocate_loop-outcome n (i + 1) (omega arith) in
      rw
        (
          read_block_lem bm (i + al.bitmap_block_id) v.device (device_block al bm v i (omega arith))
              (replicate bm.block_sz 0) (length-replicate bm.block_sz 0),
          ◌>>=◌,
        )
        (rw (find_block i, ◌>>=◌)
          (rw (search_from-step i (omega arith))
            (take_bit-found i (allocate_loop al n (i + 1)) (found i) (omega arith) refl ih)))

  pub allocate-outcome :
      allocate al bm ≡ outcome al bm (first_clear bm.block_cnt 0 (is_allocated al bm))
  unfolding allocate
  allocate-outcome =
      let e : bm.block_cnt - 0 * (bm.block_sz * 8) ≡ bm.block_cnt = omega arith in
      let z : 0 * (bm.block_sz * 8) ≡ 0 = omega arith in
      rw (e, z) at (allocate_loop-outcome al.bitmap_block_cnt 0 (omega arith))

-- Block `b` was the least that was not allocated, and now it is allocated; nothing else changed,
-- neither in the bitmap nor in the blocks outside it.
pub record Allocation (al : BlockAllocator) (bm : BlockManager) (b : ℕ) (after : BlockManager)
    : Type 0 where
  pub in_range : b < bm.block_cnt
  pub was_free : is_allocated al bm b ≡ false
  pub least : (c : ℕ) → c < b → is_allocated al bm c ≡ true
  pub marks : (c : ℕ) → is_allocated al after c ≡ (if b == c then true else is_allocated al bm c)
  pub same_size : after.block_cnt ≡ bm.block_cnt
  pub others :
      (j : ℕ)
      → (j < al.bitmap_block_id) ⊎ (al.bitmap_block_id + al.bitmap_block_cnt ≤ j)
      → block after j ≡ block bm j
  pub still : IsAllocator al after

-- How `allocate` ends on a device: with an error if every block is taken, or with a block.
abbrev pub Allocates : BlockAllocator → BlockManager → Type 0
Allocates al bm =
    ((allocate al bm ≡ done (err ErrorType.out_of_resource) bm)
      × ((c : ℕ) → c < bm.block_cnt → is_allocated al bm c ≡ true))
    ⊎ ((b : ℕ) × (after : BlockManager) × (allocate al bm ≡ done (ok b) after)
        × Allocation al bm b after)

-- On a well-formed device `allocate` does not fault. Either every block is allocated, and it ends
-- with OUT_OF_RESOURCE and an unchanged device; or it returns the least block that is not
-- allocated, marks it as allocated, and changes no other mark and no block outside the bitmap; the
-- device is well-formed afterwards.
pub allocate-Allocates :
    (al : BlockAllocator) (bm : BlockManager) → IsAllocator al bm → Allocates al bm
allocate-Allocates al bm v = by_search (first_clear bm.block_cnt 0 (is_allocated al bm)) refl
  where
    by_search :
        (r : Option ℕ) → first_clear bm.block_cnt 0 (is_allocated al bm) ≡ r → Allocates al bm
    by_search none e = inl (
      allocate-outcome al bm v ∙ rw e (unfold outcome in refl),
      λ c h. first_clear-none bm.block_cnt 0 (is_allocated al bm) e c (omega arith) (omega arith),
    )
    by_search (some b) e =
        let (lo, hi, clear, before) = first_clear-Least bm.block_cnt 0 (is_allocated al bm) b e in
        inr (
          b,
          marked al bm b,
          allocate-outcome al bm v ∙ rw e (unfold outcome in refl),
          record {
            in_range = omega arith;
            was_free = clear;
            least = λ c h. before c (omega arith) h;
            marks = is_allocated-marked al bm b v;
            same_size = refl;
            others = λ j o. block-marked al bm b v j (bitmap_apart al bm v b (omega arith) j o);
            still = marked-IsAllocator al bm b v;
          },
        )

pub Allocation-allocate :
    (al : BlockAllocator) (bm after : BlockManager) (b : ℕ)
    → IsAllocator al bm
    → allocate al bm ≡ done (ok b) after
    → Allocation al bm b after
Allocation-allocate al bm after b v e = elim (allocate-Allocates al bm v) [
  | inl (full, _) ↦ cc
  | inr (b', after', e', a) ↦
      let p : b' ≡ b = cc in
      let q : after' ≡ after = cc in subst₂ (λ x y. Allocation al bm x y) p q a
]
