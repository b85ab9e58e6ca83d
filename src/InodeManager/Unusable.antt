-- ===== src/InodeManager/Unusable.antt =====
-- The inode numbers that `allocate_inode` gives and the inode manager refuses.
use se3331_labs.Common.{
  ℕ, ◌+◌, ◌*◌, ◌<◌, ◌≤◌, ◌≡◌, inl, inr, true, false, List, arith, u64_mod, sym, ◌∙◌,
}
use native.Mathlib.Decide.{dec_lt}
use se3331_labs.Result.{ErrorType, ok, err}
use se3331_labs.Block.{BlockManager, done}
use se3331_labs.InodeManager.{
  InodeManager, allocate_inode, read_inode, free_inode, raw_to_logic, get,
}
use se3331_labs.InodeManager.Free.{is_used}
use se3331_labs.InodeManager.Search.{IsInodes}
use se3331_labs.InodeManager.Allocate.{IsCall, allocate_inode-Allocates}
use se3331_labs.InodeManager.Guards.{ids_refused}

-- If of the inodes just the last one or the last two of max_inode_supported are not in use, then
-- `allocate_inode` succeeds, under the conditions of its specification, and enters the block in the
-- table, but the number it returns is refused by `read_inode` and by `free_inode` from then on: the
-- inode can be neither used nor given back.
pub allocate_inode-refused :
    (now type bid idx : ℕ) (raw buffer : List ℕ) (im : InodeManager) (bm : BlockManager)
    → IsInodes im bm
    → IsCall im bm type raw bid
    → im.max_inode_supported < u64_mod
    → idx < im.max_inode_supported
    → im.max_inode_supported ≤ idx + 2
    → idx < im.n_bitmap_blocks * (bm.block_sz * 8)
    → ((c : ℕ) → c < idx → is_used im bm c ≡ true)
    → is_used im bm idx ≡ false
    → (id : ℕ) × (after : BlockManager) × (allocate_inode now raw im type bid bm
        ≡ done (ok id) after)
      × (get raw id after ≡ done (ok bid) after)
      × (read_inode raw im id buffer after ≡ done (err ErrorType.invalid_arg) after)
      × (free_inode im id after ≡ done (err ErrorType.invalid_arg) after)
allocate_inode-refused now type bid idx raw buffer im bm v c small l last on below free =
    elim (allocate_inode-Allocates now raw im type bid bm v c) [
      | inl (run, full) ↦ absurd (clash idx (full idx on) free)
      | inr (k, after, run, a) ↦
          let e : k ≡ idx = least k (a.was_free) (a.least) in
          let (r, f) =
            ids_refused raw im (raw_to_logic k) buffer after (omega arith) small (omega arith) in
          (raw_to_logic k, after, run, a.in_table, r, f)
    ]
  where
    clash : (c : ℕ) → is_used im bm c ≡ true → is_used im bm c ≡ false → ⊥
    clash c p q = let d : true ≡ false = sym p ∙ q in cc

    least : (k : ℕ) → is_used im bm k ≡ false → ((c : ℕ) → c < k → is_used im bm c ≡ true) → k ≡ idx
    least k was_free before = elim (dec_lt k idx) [
      | yes h ↦ absurd (clash k (below k h) was_free)
      | no h ↦ elim (dec_lt idx k) [
        | yes g ↦ absurd (clash idx (before idx g) free)
        | no g ↦ omega arith
      ]
    ]
