-- ===== src/Allocator/Zeroing.antt =====
-- The loop of the constructor that clears the bitmap blocks.
use se3331_labs.Common.{
  ℕ, zero, suc, ◌+◌, ◌*◌, ◌/◌, ◌%◌, ◌<◌, ◌≤◌, ◌≡◌, ◌⊎◌, refl, ◌∙◌, Bool, true, false, List, arith,
  ◌==◌, length, length-replicate, replicate, test_bit-zero, get_or-replicate,
}
use native.Mathlib.Decide.{ℕ_discrete}
use native.Mathlib.Nat.{mod-lt, div-lt_iff_lt-mul}
use se3331_labs.Result.{ok}
use se3331_labs.Bitmap.Bits.{bit, AreBytes}
use se3331_labs.Block.{BlockManager, done, ◌>>=◌, ◌>>◌, splice}
use se3331_labs.Block.Layout.{IsDevice, block, written, block-written_ne}
use se3331_labs.Block.ReadWrite.{zero_block_lem, written-IsDevice}
use se3331_labs.Allocator.{BlockAllocator, zero_loop}
use se3331_labs.Allocator.Layout.{is_allocated, is_allocated-written}

pub bit-replicate : (n i : ℕ) → i < n * 8 → bit (replicate n 0) i ≡ false
bit-replicate n i h =
    rw (get_or-replicate {A = ℕ} n (i / 8) 0 0 (omega arith)) (test_bit-zero (i % 8) (omega arith))

pub zeros-AreBytes : (n : ℕ) → AreBytes (replicate n 0)
zeros-AreBytes zero k = omega arith
zeros-AreBytes (suc n) zero = omega arith
zeros-AreBytes (suc n) (suc k) = zeros-AreBytes n k

-- The device with other contents.
abbrev pub with_data : BlockManager → (ℕ → ℕ) → BlockManager
with_data bm f = record bm { block_data = f }

module _ (al : BlockAllocator) (bm : BlockManager) where
  -- Blocks outside the bitmap are those of `f`, and the device is well-formed.
  pub record Kept (f g : ℕ → ℕ) : Type 0 where
    pub device : IsDevice (with_data bm g)
    pub others :
        (j : ℕ)
        → (j < al.bitmap_block_id) ⊎ (al.bitmap_block_id + al.bitmap_block_cnt ≤ j)
        → block (with_data bm g) j ≡ block (with_data bm f) j

  abbrev pub Marks : (ℕ → ℕ) → (ℕ → Bool) → Type 0
  Marks g p =
      (x : ℕ)
      → x < al.bitmap_block_cnt * (bm.block_sz * 8)
      → is_allocated al (with_data bm g) x ≡ p x

  pub Kept-written :
      (f g : ℕ → ℕ) (i : ℕ) (xs : List ℕ)
      → Kept f g
      → i < al.bitmap_block_cnt
      → length xs ≡ bm.block_sz
      → AreBytes xs
      → Kept f (splice g ((i + al.bitmap_block_id) * bm.block_sz + 0) xs)
  Kept-written f g i xs k h e small = record {
    device = written-IsDevice (with_data bm g) (i + al.bitmap_block_id) 0 xs k.device small;
    others = λ j o.
        block-written_ne (with_data bm g) (i + al.bitmap_block_id) 0 xs (omega arith) j
          (omega arith)
        ∙ k.others j o;
  }

  zero_step :
      (i x : ℕ) (g : ℕ → ℕ)
      → 0 < bm.block_sz
      → ((y : ℕ) → y < i * (bm.block_sz * 8) → is_allocated al (with_data bm g) y ≡ false)
      → x < (i + 1) * (bm.block_sz * 8)
      → is_allocated al
          (written (with_data bm g) (i + al.bitmap_block_id) 0 (replicate bm.block_sz 0))
          x
        ≡ false
  zero_step i x g pos z l =
      is_allocated-written al (with_data bm g) i x (replicate bm.block_sz 0)
        (length-replicate bm.block_sz 0)
      ∙ elim (ℕ_discrete i (x / (bm.block_sz * 8))) [
        | yes q ↦
            let t : (i == x / (bm.block_sz * 8)) ≡ true = ground arith in
            rw t (bit-replicate bm.block_sz (x % (bm.block_sz * 8)) (mod-lt x (omega arith)))
        | no q ↦
            let t : (i == x / (bm.block_sz * 8)) ≡ false = ground arith in
            let d =
              (div-lt_iff_lt-mul {k = bm.block_sz * 8} {x = x} {y = i + 1} (omega arith)).1 l in
            rw t (z x ((div-lt_iff_lt-mul (omega arith)).0 (omega arith)))
      ]

  module _ (within : al.bitmap_block_id + al.bitmap_block_cnt ≤ bm.block_cnt) where
    pub zero_loop_lem :
        (n i : ℕ) (f g : ℕ → ℕ)
        → i + n ≡ al.bitmap_block_cnt
        → Kept f g
        → ((x : ℕ) → x < i * (bm.block_sz * 8) → is_allocated al (with_data bm g) x ≡ false)
        → (h : ℕ → ℕ) × (zero_loop al.bitmap_block_id n i (with_data bm g)
            ≡ done (ok tt) (with_data bm h))
          × Kept f h
          × Marks h (λ _. false)
    unfolding zero_loop
    zero_loop_lem zero i f g e k z =
        let e' : i ≡ al.bitmap_block_cnt = omega arith in (g, refl, k, λ x l. z x (rw e' l))
    zero_loop_lem (suc n) i f g e k z =
        let rounds : i + 1 + n ≡ al.bitmap_block_cnt = omega arith in
        let inside : i < al.bitmap_block_cnt = omega arith in
        let zeros = replicate bm.block_sz 0 in
        let len = length-replicate {A = ℕ} bm.block_sz 0 in
        let g' = splice g ((i + al.bitmap_block_id) * bm.block_sz + 0) zeros in
        let (h, run, kept, marks) =
          zero_loop_lem n (i + 1) f g' rounds
            (Kept-written f g i zeros k inside len (zeros-AreBytes bm.block_sz))
            (λ x l. zero_step i x g k.device.some_bytes z l) in
        (
          h,
          rw
              (
                zero_block_lem (with_data bm g) (i + al.bitmap_block_id) k.device (omega arith),
                ◌>>=◌,
                ◌>>◌,
              )
              run,
          kept,
          marks,
        )
