-- ===== src/Inode/Attributes.antt =====
-- src/include/metadata/inode.h: the attributes of an inode, set in the bytes of its block.
use se3331_labs.Common.{
  ℕ, ◌+◌, ◌*◌, ◌<◌, ◌≤◌, ◌≡◌, refl, ◌∙◌, arith, List, some, length, get_or, u64_mod,
}
use se3331_labs.Common.Checked.{◌>>=◌}
use se3331_labs.Fields.Saving.{save-Saved, load-Saved, load-behind}
use se3331_labs.Inode.{
  FileAttr, set_attr, get_size, get_nblocks, get_direct_block_num, is_direct_block, block_at,
}

-- `out` is the inode with other attributes.
pub record AttrSet (attr : FileAttr) (inode out : List ℕ) : Type 0 where
  pub same_length : length out ≡ length inode
  pub size : get_size out ≡ some attr.size
  pub behind : (k : ℕ) → 36 ≤ k → get_or out k 0 ≡ get_or inode k 0
  pub bytes : ((k : ℕ) → get_or inode k 0 < 256) → (k : ℕ) → get_or out k 0 < 256

pub set_attr-AttrSet :
    (attr : FileAttr) (inode : List ℕ)
    → 36 ≤ length inode
    → attr.size < u64_mod
    → (out : List ℕ) × (set_attr attr inode ≡ some out) × AttrSet attr inode out
unfolding set_attr get_size
set_attr-AttrSet attr inode fits small =
    let (one, e, s) = save-Saved 8 4 attr.atime inode (omega arith) in
    let l = s.same_length in
    let (two, f, t) = save-Saved 8 12 attr.mtime one (omega arith) in
    let m = t.same_length in
    let (three, g, u) = save-Saved 8 20 attr.ctime two (omega arith) in
    let n = u.same_length in
    let (out, h, v) = save-Saved 8 28 attr.size three (omega arith) in
    let o = v.same_length in
    (
      out,
      rw (e, ◌>>=◌, f, g) h,
      record {
        same_length = omega arith;
        size = load-Saved 8 28 attr.size three out v (omega arith) (omega arith);
        behind = λ k p.
            v.behind k (omega arith)
            ∙ u.behind k (omega arith)
            ∙ t.behind k (omega arith)
            ∙ s.behind k (omega arith);
        bytes = λ b. v.bytes (u.bytes (t.bytes (s.bytes b)));
      },
    )

module _ (attr : FileAttr) (inode out : List ℕ) (a : AttrSet attr inode out) where
  pub block_at-AttrSet : (idx : ℕ) → block_at out idx ≡ block_at inode idx
  unfolding block_at
  block_at-AttrSet idx =
      load-behind 36 8 (44 + idx * 8) inode out a.same_length a.behind (omega arith)

  pub get_direct_block_num-AttrSet : get_direct_block_num out ≡ get_direct_block_num inode
  unfolding get_direct_block_num get_nblocks
  get_direct_block_num-AttrSet =
      rw (load-behind 36 4 40 inode out a.same_length a.behind (omega arith)) refl

  pub is_direct_block-AttrSet : (idx : ℕ) → is_direct_block out idx ≡ is_direct_block inode idx
  unfolding is_direct_block
  is_direct_block-AttrSet idx = rw get_direct_block_num-AttrSet refl
