-- ===== src/InodeManager/Zeroing.antt =====
-- The constructor of the inode manager: it zeroes the inode table and the inode bitmap.
use se3331_labs.Common.{
  ℕ, zero, suc, ◌+◌, ◌*◌, ◌/◌, ◌<◌, ◌≤◌, ◌≡◌, ◌⊎◌, ◌∙◌, refl, ap, inl, arith, true, List, ltb,
  lt→ltb, replicate, length-replicate, u32, u64, u64_mod,
}
use native.Mathlib.Decide.{ℕ_discrete, dec_lt}
use se3331_labs.Result.{ok}
use se3331_labs.Block.{BlockManager, done, ◌>>=◌, ◌>>◌, verify, zero_block}
use se3331_labs.Block.Layout.{IsDevice, block, written, block-written, block-written_ne}
use se3331_labs.Block.ReadWrite.{zero_block_lem, written-IsDevice}
use se3331_labs.Block.Safe.{Stays, Stays-refl, Stays-trans}
use se3331_labs.Allocator.Zeroing.{zeros-AreBytes}
use se3331_labs.InodeManager.{
  InodeManager, zero_blocks, blocks_for, construct, nonzero, inode_per_block,
}
use se3331_labs.InodeManager.Table.{ignored_lem}

-- The blocks from `b` on, `n` of them, are zero, and the others are as they were.
pub record Zeroed (bm : BlockManager) (b n : ℕ) (after : BlockManager) : Type 0 where
  pub stays : Stays bm after
  pub zeros : (j : ℕ) → b ≤ j → j < b + n → block after j ≡ replicate bm.block_sz 0
  pub others : (j : ℕ) → (j < b) ⊎ (b + n ≤ j) → block after j ≡ block bm j

zero_blocks_lem :
    (n b : ℕ) (bm : BlockManager)
    → IsDevice bm
    → b + n ≤ bm.block_cnt
    → (after : BlockManager) × (zero_blocks n b bm ≡ done (ok tt) after) × Zeroed bm b n after
unfolding zero_blocks
zero_blocks_lem zero b bm v h = (
  bm,
  refl,
  record { stays = Stays-refl bm v; zeros = λ j p q. absurd (omega arith); others = λ j o. refl },
)
zero_blocks_lem (suc n) b bm v h =
    let z : List ℕ = replicate bm.block_sz 0 in
    let len = length-replicate {A = ℕ} bm.block_sz 0 in
    let mid : BlockManager = written bm b 0 z in
    let w : IsDevice mid = written-IsDevice bm b 0 z v (zeros-AreBytes bm.block_sz) in
    let run = ignored_lem (zero_block b) bm mid (zero_block_lem bm b v (omega arith)) in
    let (after, rest, zs) = zero_blocks_lem n (b + 1) mid w (omega arith) in
    (
      after,
      rw (run, ◌>>=◌, ◌>>◌) rest,
      record {
        stays = Stays-trans (record { same_size = refl; same_count = refl; device = w }) zs.stays;
        zeros = λ j p q. elim (ℕ_discrete b j) [
          | yes e ↦ rw (← e) (zs.others b (inl (omega arith)) ∙ block-written bm b z len)
          | no e ↦ zs.zeros j (omega arith) (omega arith)
        ];
        others = λ j o.
            zs.others j (ground (arith, o))
            ∙ block-written_ne bm b 0 z (omega (arith, len)) j (ground (arith, o));
      },
    )

module _ (max : ℕ) (bm : BlockManager) where
  abbrev n_bitmap : ℕ
  n_bitmap = blocks_for max (u32 (bm.block_sz * 8))

  abbrev max_inodes : ℕ
  max_inodes = u64 (n_bitmap * 8 * bm.block_sz)

  -- The inode manager that the constructor gives.
  unfoldable pub manager_of : InodeManager
  manager_of = record {
    max_inode_supported = max_inodes;
    n_table_blocks = blocks_for max_inodes (bm.block_sz / 8);
    n_bitmap_blocks = n_bitmap;
  }

pub small_manager :
    (max : ℕ) (bm : BlockManager) → (manager_of max bm).max_inode_supported < u64_mod
unfolding manager_of
small_manager max bm = omega arith

pub construct_lem :
    (max : ℕ) (bm : BlockManager)
    → IsDevice bm
    → 8 ≤ bm.block_sz
    → 1 + (manager_of max bm).n_table_blocks + (manager_of max bm).n_bitmap_blocks ≤ bm.block_cnt
    → (after : BlockManager) × (construct max bm ≡ done (ok (manager_of max bm)) after)
      × Zeroed bm 1 ((manager_of max bm).n_table_blocks + (manager_of max bm).n_bitmap_blocks) after
unfolding construct nonzero inode_per_block manager_of
construct_lem max bm v h fits =
    let im = manager_of max bm in
    let s = v.small_blocks in
    let p : ltb 0 (u32 (bm.block_sz * 8)) ≡ true = lt→ltb 0 _ (omega arith) in
    let q : ltb 0 (bm.block_sz / 8) ≡ true = lt→ltb 0 _ (omega arith) in
    let (mid, one, zs) = zero_blocks_lem im.n_table_blocks 1 bm v (omega arith) in
    let (after, two, ys) =
      zero_blocks_lem im.n_bitmap_blocks (1 + im.n_table_blocks) mid zs.stays.device
        (omega (arith, zs.stays.same_count)) in
    (
      after,
      rw (p, ◌>>=◌, verify) (rw (q, ◌>>=◌, verify) (rw (one, ◌>>=◌, ◌>>◌) (rw (two, ◌>>=◌, ◌>>◌)))),
      record {
        stays = Stays-trans zs.stays ys.stays;
        zeros = λ j p q. elim (dec_lt j (1 + im.n_table_blocks)) [
          | yes l ↦ ys.others j (inl l) ∙ zs.zeros j p l
          | no l ↦
              ys.zeros j (omega arith) (omega arith)
              ∙ ap (λ (t : ℕ). replicate t 0) zs.stays.same_size
        ];
        others = λ j o. ys.others j (ground (arith, o)) ∙ zs.others j (ground (arith, o));
      },
    )
