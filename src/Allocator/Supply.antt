-- ===== src/Allocator/Supply.antt =====
-- Sequences of allocations: as many succeed as there are free blocks, and no block is given twice.
use se3331_labs.Common.{
  ℕ, zero, suc, ◌+◌, ◌<◌, ◌≤◌, ◌≡◌, ◌∙◌, refl, inl, inr, arith, Bool, true, false, List, [], ◌∷◌,
  ◌==◌, if◌then◌else◌, length, count_clear, count_clear_set,
}
use se3331_labs.Result.{ok}
use se3331_labs.Block.{BlockManager, done}
use se3331_labs.Allocator.{BlockAllocator, allocate, free_block_cnt}
use se3331_labs.Allocator.Layout.{IsAllocator, is_allocated}
use se3331_labs.Allocator.Allocate.{Allocation, allocate-Allocates}
use se3331_labs.Allocator.Free.{free_block_cnt-count_clear}

-- The devices that successful allocations reach, with the blocks that they gave, the last one first.
pub data Taken (al : BlockAllocator) (bm : BlockManager) : List ℕ → BlockManager → Type 0 where
  start : Taken al bm [] bm
  take :
      {ids : List ℕ} {mid after : BlockManager} {b : ℕ}
      → Taken al bm ids mid
      → allocate al mid ≡ done (ok b) after
      → Taken al bm (b ∷ ids) after

abbrev pub member : ℕ → List ℕ → Bool
member c [] = false
member c (x ∷ xs) = if x == c then true else member c xs

abbrev pub Distinct : List ℕ → Type 0
Distinct [] = Unit
Distinct (x ∷ xs) = (member x xs ≡ false) × Distinct xs

-- The blocks given are distinct and were free, they are what is allocated in addition, and each
-- took one from the number of free blocks.
pub record Supply (al : BlockAllocator) (bm : BlockManager) (ids : List ℕ) (after : BlockManager)
    : Type 0 where
  pub still : IsAllocator al after
  pub same_count : after.block_cnt ≡ bm.block_cnt
  pub distinct : Distinct ids
  pub were_free : (c : ℕ) → member c ids ≡ true → is_allocated al bm c ≡ false
  pub marks :
      (c : ℕ) → is_allocated al after c ≡ (if member c ids then true else is_allocated al bm c)
  pub free :
      length ids + count_clear bm.block_cnt 0 (is_allocated al after)
      ≡ count_clear bm.block_cnt 0 (is_allocated al bm)

Supply-take :
    (al : BlockAllocator) (bm mid after : BlockManager) (ids : List ℕ) (b : ℕ)
    → Supply al bm ids mid
    → Allocation al mid b after
    → Supply al bm (b ∷ ids) after
Supply-take al bm mid after ids b s a =
    let new = unseen (member b ids) refl in
    record {
      still = a.still;
      same_count = a.same_size ∙ s.same_count;
      distinct = (new.0, s.distinct);
      were_free = λ c m. ground (arith, s.were_free c, new.1);
      marks = λ c. ground (arith, a.marks c, s.marks c);
      free =
          let size = s.same_count in
          let one =
            count_clear_set bm.block_cnt 0 b (is_allocated al mid) (is_allocated al after)
              (omega arith) (omega (arith, a.in_range)) a.was_free (ground (arith, a.marks b))
              (λ j ne. ground (arith, a.marks j)) in
          omega (arith, one, s.free);
    }
  where
    unseen :
        (seen : Bool)
        → member b ids ≡ seen
        → (member b ids ≡ false) × (is_allocated al bm b ≡ false)
    unseen seen e = let m = s.marks b in let f = a.was_free in ground arith

no_free :
    (n i : ℕ) (p : ℕ → Bool) → ((j : ℕ) → i ≤ j → j < i + n → p j ≡ true) → count_clear n i p ≡ 0
unfolding count_clear
no_free zero i p h = refl
no_free (suc n) i p h =
    let here = h i (omega arith) (omega arith) in
    rw here (omega (arith, no_free n (i + 1) p (λ j q r. h j (omega arith) (omega arith))))

-- On a well-formed device with `k` free blocks, `n` allocations one after another all succeed, for
-- every `n` up to `k`. The blocks they give are distinct and were free, exactly they are allocated in
-- addition, and the device is well-formed.
pub allocate-Supply :
    (al : BlockAllocator) (bm : BlockManager) (k n : ℕ)
    → IsAllocator al bm
    → free_block_cnt al bm ≡ done (ok k) bm
    → n ≤ k
    → (ids : List ℕ) × (after : BlockManager) × Taken al bm ids after
      × (length ids ≡ n)
      × Supply al bm ids after
allocate-Supply al bm k zero v e h = (
  [],
  bm,
  start,
  refl,
  record {
    still = v;
    same_count = refl;
    distinct = tt;
    were_free = λ c m. absurd cc;
    marks = λ c. refl;
    free = omega arith;
  },
)
allocate-Supply al bm k (suc n) v e h =
    let (ids, mid, t, len, s) = allocate-Supply al bm k n v e (omega arith) in
    let total : count_clear bm.block_cnt 0 (is_allocated al bm) ≡ k =
      let counted = free_block_cnt-count_clear al bm v in cc in
    let free = s.free in
    elim (allocate-Allocates al mid s.still) [
      | inl (_, full) ↦
          let none =
            no_free bm.block_cnt 0 (is_allocated al mid)
              (λ j q r. full j (omega (arith, s.same_count))) in
          absurd (omega arith)
      | inr (b, after, run, a) ↦
          (b ∷ ids, after, take t run, omega arith, Supply-take al bm mid after ids b s a)
    ]
