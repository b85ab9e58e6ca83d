-- ===== src/Block/ReadWrite.antt =====
-- What the commands of the device do: each as an equation on well-formed devices.
use se3331_labs.Common.{
  ℕ, ◌+◌, ◌-◌, ◌*◌, ◌<◌, ◌≤◌, ◌≡◌, refl, ap, ◌∙◌, List, arith, ◌==◌, if◌then◌else◌, length, get_or,
  replicate, length-replicate, append-nil, take_all, drop_all, leb-true,
}
use native.Mathlib.Decide.{ℕ_discrete}
use se3331_labs.Result.{ok}
use se3331_labs.Block.{
  BlockManager, done, storage_bytes, splice, store, write_block, write_partial_block, read_block,
  zero_block,
}
use se3331_labs.Block.Layout.{
  IsDevice, block, written, block_fits, offset_of-eq, block-written, block-written_ne,
}

store_lem :
    (bm : BlockManager) (start : ℕ) (xs : List ℕ)
    → start + length xs ≤ storage_bytes bm
    → store start xs bm ≡ done (ok tt) (record bm { block_data = splice bm.block_data start xs })
unfolding store
store_lem bm start xs h = rw (leb-true h)

module _ (bm : BlockManager) (id : ℕ) (v : IsDevice bm) (h : id < bm.block_cnt) where
  pub read_block_lem :
      (buffer : List ℕ)
      → length buffer ≡ bm.block_sz
      → read_block id buffer bm ≡ done (ok (block bm id)) bm
  unfolding read_block block
  read_block_lem buffer e = rw (
    offset_of-eq bm id v h,
    drop_all bm.block_sz buffer e,
    append-nil,
    leb-true (block_fits bm id h),
    leb-true {a = bm.block_sz} {b = length buffer} (omega arith),
  )

  pub write_partial_block_lem :
      (xs : List ℕ) (offset : ℕ)
      → offset + length xs ≤ bm.block_sz
      → write_partial_block id xs offset (length xs) bm ≡ done (ok tt) (written bm id offset xs)
  unfolding write_partial_block
  write_partial_block_lem xs offset e =
      rw
        (
          offset_of-eq bm id v h,
          take_all (length xs) xs refl,
          leb-true {a = length xs} {b = length xs} (omega arith),
        )
        (store_lem bm (id * bm.block_sz + offset) xs (omega (arith, block_fits bm id h)))

  start : id * bm.block_sz + 0 ≡ id * bm.block_sz
  start = omega arith

  pub write_block_lem :
      (xs : List ℕ)
      → length xs ≡ bm.block_sz
      → write_block id xs bm ≡ done (ok tt) (written bm id 0 xs)
  unfolding write_block
  write_block_lem xs e =
      rw
        (
          start,
          offset_of-eq bm id v h,
          take_all bm.block_sz xs e,
          leb-true {a = bm.block_sz} {b = length xs} (omega arith),
        )
        (store_lem bm (id * bm.block_sz) xs (omega (arith, block_fits bm id h)))

  pub zero_block_lem : zero_block id bm ≡ done (ok tt) (written bm id 0 (replicate bm.block_sz 0))
  unfolding zero_block
  zero_block_lem =
      rw (start, offset_of-eq bm id v h)
        (store_lem bm (id * bm.block_sz) (replicate bm.block_sz 0)
          (omega (arith, block_fits bm id h, length-replicate {A = ℕ} bm.block_sz 0)))

-- Writes keep a device well-formed.
pub written-IsDevice :
    (bm : BlockManager) (id offset : ℕ) (xs : List ℕ)
    → IsDevice bm
    → ((k : ℕ) → get_or xs k 0 < 256)
    → IsDevice (written bm id offset xs)
unfolding splice
written-IsDevice bm id offset xs v small = record {
  some_bytes = v.some_bytes;
  small_blocks = v.small_blocks;
  few_blocks = v.few_blocks;
  bytes = λ k. ground (arith, v.bytes k, small (k - (id * bm.block_sz + offset)));
}

-- Reading any block of a well-formed device after a whole block of bytes was written to one of its
-- blocks gives the bytes written where the two are the same block, and otherwise what a read gave
-- before; neither command faults.
pub read_block-write_block :
    (bm : BlockManager) (id j : ℕ) (xs buffer : List ℕ)
    → IsDevice bm
    → id < bm.block_cnt
    → j < bm.block_cnt
    → length xs ≡ bm.block_sz
    → length buffer ≡ bm.block_sz
    → ((k : ℕ) → get_or xs k 0 < 256)
    → (after : BlockManager) × (write_block id xs bm ≡ done (ok tt) after)
      × (read_block j buffer after ≡ done (ok (if id == j then xs else block bm j)) after)
      × (read_block j buffer bm ≡ done (ok (block bm j)) bm)
read_block-write_block bm id j xs buffer v hi hj e f small = (
  written bm id 0 xs,
  write_block_lem bm id v hi xs e,
  read_block_lem (written bm id 0 xs) j (written-IsDevice bm id 0 xs v small) hj buffer f
      ∙ ap (λ c. done (ok c) (written bm id 0 xs)) same,
  read_block_lem bm j v hj buffer f,
)
  where
    same : block (written bm id 0 xs) j ≡ (if id == j then xs else block bm j)
    same = elim (ℕ_discrete id j) [
      | yes q ↦ rw (← q) (block-written bm id xs e ∙ ground arith)
      | no q ↦ block-written_ne bm id 0 xs (omega arith) j q ∙ ground arith
    ]
