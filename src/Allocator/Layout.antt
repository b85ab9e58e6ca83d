-- ===== src/Allocator/Layout.antt =====
-- The abstract view of an allocator: which blocks its bitmap marks as allocated.
use se3331_labs.Common.{
  ℕ, ◌+◌, ◌-◌, ◌*◌, ◌/◌, ◌%◌, ◌<◌, ◌≤◌, ◌≡◌, ◌≢◌, ap, ◌∙◌, Bool, true, false, List, arith, ◌==◌,
  if◌then◌else◌, length, length-set,
}
use native.Mathlib.Decide.{ℕ_discrete}
use native.Mathlib.Nat.{mod-lt}
use se3331_labs.Common.Numbers.{same_index}
use se3331_labs.Bitmap.{Bitmap}
use se3331_labs.Bitmap.Bits.{
  bit, IsBitmap, set_bits, clear_bits, bit-set_bits, bit-clear_bits, set_bits-AreBytes,
  clear_bits-AreBytes,
}
use se3331_labs.Block.{BlockManager}
use se3331_labs.Block.Layout.{
  IsDevice, block, written, length-block, block-bytes, block-written, block-written_ne,
}
use se3331_labs.Block.ReadWrite.{written-IsDevice}
use se3331_labs.Allocator.{BlockAllocator}

-- The device is well-formed, the bitmap lies within it, and its bits number the blocks.
pub record IsAllocator (al : BlockAllocator) (bm : BlockManager) : Type 0 where
  pub device : IsDevice bm
  pub some_blocks : 0 < al.bitmap_block_cnt
  pub some_bits : 0 < al.last_block_num
  pub last_fits : al.last_block_num ≤ bm.block_sz * 8
  pub covers : (al.bitmap_block_cnt - 1) * (bm.block_sz * 8) + al.last_block_num ≡ bm.block_cnt
  pub within : al.bitmap_block_id + al.bitmap_block_cnt ≤ bm.block_cnt

-- Bitmap block `i`.
abbrev pub bitmap_of : BlockAllocator → BlockManager → ℕ → Bitmap
bitmap_of al bm i = record { bytes = block bm (i + al.bitmap_block_id); payload = bm.block_sz }

unfoldable pub is_allocated : BlockAllocator → BlockManager → ℕ → Bool
is_allocated al bm b =
    bit (block bm (b / (bm.block_sz * 8) + al.bitmap_block_id)) (b % (bm.block_sz * 8))

module _ (al : BlockAllocator) (bm : BlockManager) (v : IsAllocator al bm) where
  pub bitmap_of-IsBitmap : (i : ℕ) → IsBitmap (bitmap_of al bm i)
  bitmap_of-IsBitmap i = record {
    fits = omega (arith, length-block bm (i + al.bitmap_block_id));
    small = v.device.small_blocks;
    bytes = block-bytes bm (i + al.bitmap_block_id) v.device;
  }

module _ (al : BlockAllocator) (bm : BlockManager) (b : ℕ) where
  -- The device with the bit of block `b` set, or cleared.
  abbrev pub marked : BlockManager
  marked =
      let i = b / (bm.block_sz * 8) in
      written bm (i + al.bitmap_block_id) 0 (set_bits (bitmap_of al bm i) (b % (bm.block_sz * 8)))

  abbrev pub unmarked : BlockManager
  unmarked =
      let i = b / (bm.block_sz * 8) in
      written bm (i + al.bitmap_block_id) 0 (clear_bits (bitmap_of al bm i) (b % (bm.block_sz * 8)))

-- After a bitmap block is rewritten, its bits are the new ones, and the others are as they were.
pub is_allocated-written :
    (al : BlockAllocator) (bm : BlockManager) (i c : ℕ) (xs : List ℕ)
    → length xs ≡ bm.block_sz
    → is_allocated al (written bm (i + al.bitmap_block_id) 0 xs) c ≡ (
        if i == c / (bm.block_sz * 8) then bit xs (c % (bm.block_sz * 8)) else is_allocated al bm c)
unfolding is_allocated
is_allocated-written al bm i c xs e = elim (ℕ_discrete i (c / (bm.block_sz * 8))) [
  | yes q ↦
      let t : (i == c / (bm.block_sz * 8)) ≡ true = ground arith in
      rw (t, ← q, block-written bm (i + al.bitmap_block_id) xs e)
  | no q ↦
      let t : (i == c / (bm.block_sz * 8)) ≡ false = ground arith in
      rw (
        t,
        block-written_ne bm (i + al.bitmap_block_id) 0 xs (omega arith)
            (c / (bm.block_sz * 8) + al.bitmap_block_id) (omega arith),
      )
]

one_bit :
    (al : BlockAllocator) (bm : BlockManager) (b c : ℕ) (val : Bool)
    → (if b / (bm.block_sz * 8) == c / (bm.block_sz * 8)
        then (if b % (bm.block_sz * 8) == c % (bm.block_sz * 8)
            then val
            else bit
                (block bm (b / (bm.block_sz * 8) + al.bitmap_block_id))
                (c % (bm.block_sz * 8)))
        else is_allocated al bm c)
      ≡ (if b == c then val else is_allocated al bm c)
unfolding is_allocated
one_bit al bm b c val = elim (ℕ_discrete (b / (bm.block_sz * 8)) (c / (bm.block_sz * 8))) [
  | yes q ↦
      let t : (b / (bm.block_sz * 8) == c / (bm.block_sz * 8)) ≡ true = ground arith in
      rw (t, q) (ground (arith, same_index b c (bm.block_sz * 8) q))
  | no q ↦
      let t : (b / (bm.block_sz * 8) == c / (bm.block_sz * 8)) ≡ false = ground arith in
      let u : (b == c) ≡ false = differ q in rw (t, u)
]
  where
    differ : b / (bm.block_sz * 8) ≢ c / (bm.block_sz * 8) → (b == c) ≡ false
    differ q = elim (ℕ_discrete b c) [
      | yes e ↦ absurd (q (ap (λ (t : ℕ). t / (bm.block_sz * 8)) e))
      | no e ↦ ground arith
    ]

module _ (al : BlockAllocator) (bm : BlockManager) (b : ℕ) (v : IsAllocator al bm) where
  pub some_index : b % (bm.block_sz * 8) < bm.block_sz * 8
  some_index = let p = v.device.some_bytes in mod-lt b (omega arith)

  pub length-set_bits :
      length (set_bits (bitmap_of al bm (b / (bm.block_sz * 8))) (b % (bm.block_sz * 8)))
      ≡ bm.block_sz
  length-set_bits = length-set _ _ _ ∙ length-block bm _

  pub length-clear_bits :
      length (clear_bits (bitmap_of al bm (b / (bm.block_sz * 8))) (b % (bm.block_sz * 8)))
      ≡ bm.block_sz
  length-clear_bits = length-set _ _ _ ∙ length-block bm _

  -- Setting or clearing the bit of a block changes that bit alone.
  pub is_allocated-marked :
      (c : ℕ) → is_allocated al (marked al bm b) c ≡ (if b == c then true else is_allocated al bm c)
  is_allocated-marked c =
      is_allocated-written al bm (b / (bm.block_sz * 8)) c _ length-set_bits
      ∙ rw
          (bit-set_bits (bitmap_of al bm (b / (bm.block_sz * 8))) (b % (bm.block_sz * 8))
            (bitmap_of-IsBitmap al bm v _) some_index (c % (bm.block_sz * 8)))
          (one_bit al bm b c true)

  pub is_allocated-unmarked :
      (c : ℕ)
      → is_allocated al (unmarked al bm b) c ≡ (if b == c then false else is_allocated al bm c)
  is_allocated-unmarked c =
      is_allocated-written al bm (b / (bm.block_sz * 8)) c _ length-clear_bits
      ∙ rw
          (bit-clear_bits (bitmap_of al bm (b / (bm.block_sz * 8))) (b % (bm.block_sz * 8))
            (bitmap_of-IsBitmap al bm v _) some_index (c % (bm.block_sz * 8)))
          (one_bit al bm b c false)

  -- Every block outside the bitmap keeps its contents.
  pub block-marked :
      (j : ℕ)
      → b / (bm.block_sz * 8) + al.bitmap_block_id ≢ j
      → block (marked al bm b) j ≡ block bm j
  block-marked j ne = block-written_ne bm _ 0 _ (omega (arith, length-set_bits)) j ne

  pub block-unmarked :
      (j : ℕ)
      → b / (bm.block_sz * 8) + al.bitmap_block_id ≢ j
      → block (unmarked al bm b) j ≡ block bm j
  block-unmarked j ne = block-written_ne bm _ 0 _ (omega (arith, length-clear_bits)) j ne

  keeps :
      (id offset : ℕ) (xs : List ℕ)
      → IsDevice (written bm id offset xs)
      → IsAllocator al (written bm id offset xs)
  keeps id offset xs d = record {
    device = d;
    some_blocks = v.some_blocks;
    some_bits = v.some_bits;
    last_fits = v.last_fits;
    covers = v.covers;
    within = v.within;
  }

  pub marked-IsAllocator : IsAllocator al (marked al bm b)
  marked-IsAllocator = keeps _ _ _ (
      written-IsDevice bm _ 0 _ v.device
        (set_bits-AreBytes _ _ (bitmap_of-IsBitmap al bm v _) some_index))

  pub unmarked-IsAllocator : IsAllocator al (unmarked al bm b)
  unmarked-IsAllocator = keeps _ _ _ (
      written-IsDevice bm _ 0 _ v.device
        (clear_bits-AreBytes _ _ (bitmap_of-IsBitmap al bm v _) some_index))
