-- ===== src/FileOperation/Root.antt =====
-- The root directory of a new file system.
use native.Mathlib.Nat.{mod-lt, div-eq_of_lt}
use se3331_labs.Common.{
  ℕ, zero, suc, Bool, ◌+◌, ◌-◌, ◌*◌, ◌/◌, ◌%◌, ◌<◌, ◌≤◌, ◌≡◌, ◌∙◌, refl, inl, inr, arith, true,
  false, some, List, [], leb, ◌==◌, eq_false, replicate, length, length-replicate, u64, u64_mod,
}
use se3331_labs.Result.{ok}
use se3331_labs.Bitmap.Bits.{AreBytes}
use se3331_labs.Block.{BlockManager, done, ◌>>=◌, unwrapped}
use se3331_labs.Block.Layout.{IsDevice, block}
use se3331_labs.Block.ReadWrite.{read_block_lem}
use se3331_labs.Block.Safe.{Stays, Stays-trans, Safe-Stays, Any}
use se3331_labs.Allocator.{allocate}
use se3331_labs.Allocator.Layout.{IsAllocator}
use se3331_labs.Allocator.Zeroing.{bit-replicate}
use se3331_labs.Allocator.Allocate.{Allocation, allocate-Allocates}
use se3331_labs.Allocator.Safe.{allocate-Safe}
use se3331_labs.Inode.{type_directory, get_size, get_type}
use se3331_labs.InodeManager
use se3331_labs.InodeManager.{InodeManager, allocate_inode, get, read_inode, raw_to_logic}
use se3331_labs.InodeManager.Search.{IsInodes}
use se3331_labs.InodeManager.Free.{is_used}
use se3331_labs.InodeManager.Allocate.{allocate_inode-Allocates}
use se3331_labs.InodeManager.Allocate
use se3331_labs.InodeManager.Safe.{allocate_inode-Safe}
use se3331_labs.FileOperation.{FileOperation}
use se3331_labs.FileOperation.Data.{alloc_inode, gettype, read_file, read_loop}
use se3331_labs.FileOperation.Staying.{Stays-IsAllocator, Stays-IsInodes}
use se3331_labs.FileOperation.Booting.{New}

-- Inode 1 is an empty directory.
pub record Root (raw : List ℕ) (fs : FileOperation) (bm : BlockManager) : Type 0 where
  pub allocator : IsAllocator fs.block_allocator bm
  pub inodes : IsInodes fs.inode_manager bm
  pub directory : gettype raw fs 1 bm ≡ done (ok type_directory) bm
  pub empty : read_file raw fs 1 bm ≡ done (ok []) bm

module _ (raw : List ℕ) (fs : FileOperation) (free : ℕ) (bm : BlockManager)
    (n : New fs free bm) where
  new_block :
      (b : ℕ) × (mid : BlockManager) × (allocate fs.block_allocator bm ≡ done (ok b) mid)
      × Allocation fs.block_allocator bm b mid
      × (free ≤ b)
  new_block = elim (allocate-Allocates fs.block_allocator bm n.allocator) [
    | inl (e, full) ↦
        let t = full free n.room in let u = n.marks free n.room in absurd (ground arith)
    | inr (b, mid, e, a) ↦
        let t = a.was_free in let u = n.marks b a.in_range in (b, mid, e, a, ground arith)
  ]

  -- No inode is in use after the block is taken.
  unused :
      (mid : BlockManager) (b : ℕ)
      → Allocation fs.block_allocator bm b mid
      → Stays bm mid
      → is_used fs.inode_manager mid 0 ≡ false
  unfolding is_used
  unused mid b a s =
      let some = n.some_inodes in
      let at = n.bitmap in
      let pos = s.device.some_bytes in
      let z : 0 / (mid.block_sz * 8) ≡ 0 = div-eq_of_lt (omega arith) in
      let same : block mid (1 + fs.inode_manager.n_table_blocks + 0) ≡ replicate bm.block_sz 0 =
        a.others _ (inl (omega arith)) ∙ n.unused _ (omega arith) (omega arith) in
      let size = s.same_size in
      let below : 0 % (mid.block_sz * 8) < mid.block_sz * 8 = mod-lt 0 (omega arith) in
      rw (z, same) (bit-replicate bm.block_sz (0 % (mid.block_sz * 8)) (omega arith))

  module _ (now : ℕ) (whole : length raw ≡ bm.block_sz) (bytes : AreBytes raw) where
    -- The block that is taken becomes inode 1.
    new_inode :
        (b : ℕ) (mid : BlockManager)
        → Allocation fs.block_allocator bm b mid
        → free ≤ b
        → Stays bm mid
        → (after : BlockManager) × (allocate_inode now raw fs.inode_manager type_directory b mid
            ≡ done (ok 1) after)
          × InodeManager.Allocate.Allocation raw type_directory b fs.inode_manager mid 0 after
    new_inode b mid a above s =
        let im = fs.inode_manager in
        let inodes = Stays-IsInodes im bm mid s n.inodes in
        let some = n.some_inodes in
        let at = n.bitmap in
        let low = n.above in
        let in_range = a.in_range in
        let size = s.same_size in
        let count = s.same_count in
        let pos = s.device.some_bytes in
        let clear = unused mid b a s in
        let bits : 0 < im.n_bitmap_blocks * (mid.block_sz * 8) = grind arith in
        elim (allocate_inode-Allocates now raw im type_directory b mid inodes (record {
          small_type = omega arith;
          whole = omega arith;
          bytes = bytes;
          apart = omega arith;
          on_device = omega arith;
        })) [
          | inl (e, full) ↦ absurd (not_both (full 0 bits) clear)
          | inr (idx, after, e, i) ↦ first idx after e i clear
        ]
      where
        not_both : {x : Bool} → x ≡ true → x ≡ false → ⊥
        not_both p q = cc

        first :
            (idx : ℕ) (after : BlockManager)
            → allocate_inode now raw fs.inode_manager type_directory b mid
              ≡ done (ok (raw_to_logic idx)) after
            → InodeManager.Allocate.Allocation raw type_directory b fs.inode_manager mid idx after
            → is_used fs.inode_manager mid 0 ≡ false
            → (after : BlockManager) × (allocate_inode now raw fs.inode_manager type_directory b mid
                ≡ done (ok 1) after)
              × InodeManager.Allocate.Allocation raw type_directory b fs.inode_manager mid 0 after
        first zero after e i clear = (after, e, i)
        first (suc idx) after e i clear = absurd (not_both (i.least 0 (omega arith)) clear)

-- Reading an inode that the table enters.
module _ (raw : List ℕ) (im : InodeManager) (id b : ℕ) (bm : BlockManager) (v : IsDevice bm)
    (accepted : id + 1 < im.max_inode_supported) (small : im.max_inode_supported < u64_mod)
    (some_block : 0 < b) (on_device : b < bm.block_cnt)
    (entered : get raw id bm ≡ done (ok b) bm) where
  pub read_inode_lem :
      (buffer : List ℕ)
      → length buffer ≡ bm.block_sz
      → read_inode raw im id buffer bm ≡ done (ok (b, block bm b)) bm
  unfolding read_inode
  read_inode_lem buffer len =
      let g : leb (u64 (im.max_inode_supported + u64_mod - 1)) id ≡ false =
        let e : u64 (im.max_inode_supported + u64_mod - 1) ≡ im.max_inode_supported - 1 =
          omega arith in
        rw e (ground arith) in
      let z : (b == 0) ≡ false = eq_false (omega arith) in
      rw g (rw (entered, ◌>>=◌) (rw z (rw (read_block_lem bm b v on_device buffer len, ◌>>=◌))))

empty_file :
    (raw : List ℕ) (fs : FileOperation) (id b : ℕ) (inode : List ℕ) (bm : BlockManager)
    → read_inode raw fs.inode_manager id (replicate bm.block_sz 0) bm ≡ done (ok (b, inode)) bm
    → get_size inode ≡ some 0
    → read_file raw fs id bm ≡ done (ok []) bm
unfolding read_file read_loop
empty_file raw fs id b inode bm r s = rw (◌>>=◌, r, s) refl

of_type :
    (raw : List ℕ) (fs : FileOperation) (id b type : ℕ) (inode : List ℕ) (bm : BlockManager)
    → read_inode raw fs.inode_manager id (replicate bm.block_sz 0) bm ≡ done (ok (b, inode)) bm
    → get_type inode ≡ some type
    → gettype raw fs id bm ≡ done (ok type) bm
unfolding InodeManager.get_type
of_type raw fs id b type inode bm r t = rw (◌>>=◌, r, t) refl

alloc_run :
    (now : ℕ) (raw : List ℕ) (fs : FileOperation) (type b id : ℕ) (bm mid after : BlockManager)
    → allocate fs.block_allocator bm ≡ done (ok b) mid
    → allocate_inode now raw fs.inode_manager type b mid ≡ done (ok id) after
    → alloc_inode now raw fs type bm ≡ done (ok id) after
unfolding alloc_inode
alloc_run now raw fs type b id bm mid after e f = rw (unwrapped, ◌>>=◌, e) f

pub alloc_inode-Root :
    (now : ℕ) (raw : List ℕ) (fs : FileOperation) (free : ℕ) (bm : BlockManager)
    → New fs free bm
    → length raw ≡ bm.block_sz
    → AreBytes raw
    → (after : BlockManager) × (alloc_inode now raw fs type_directory bm ≡ done (ok 1) after)
      × Root raw fs after
alloc_inode-Root now raw fs free bm n whole bytes =
    let (b, mid, e, a, above) = new_block raw fs free bm n in
    let v = n.allocator.device in
    let s = Safe-Stays Any _ bm mid (ok b) (allocate-Safe fs.block_allocator) v e in
    let (after, f, i) = new_inode raw fs free bm n now whole bytes b mid a above s in
    let t =
      Safe-Stays Any _ mid after (ok 1)
        (allocate_inode-Safe now raw fs.inode_manager type_directory b bytes) s.device f in
    (
      after,
      alloc_run now raw fs type_directory b 1 bm mid after e f,
      root_of raw fs free b bm mid after n a above s t i,
    )
  where
    root_of :
        (raw : List ℕ) (fs : FileOperation) (free b : ℕ) (bm mid after : BlockManager)
        → New fs free bm
        → Allocation fs.block_allocator bm b mid
        → free ≤ b
        → Stays bm mid
        → Stays mid after
        → InodeManager.Allocate.Allocation raw type_directory b fs.inode_manager mid 0 after
        → Root raw fs after
    root_of raw fs free b bm mid after n a above s t i =
        let low = n.above in
        let at = n.bitmap in
        let in_range = a.in_range in
        let numbers = n.numbers in
        let read =
          read_inode_lem raw fs.inode_manager 1 b after t.device (omega arith) n.small_numbers
            (omega arith) (omega (arith, s.same_count, t.same_count)) i.in_table
            (replicate after.block_sz 0) (length-replicate after.block_sz 0) in
        record {
          allocator = Stays-IsAllocator fs.block_allocator bm after (Stays-trans s t) n.allocator;
          inodes = Stays-IsInodes fs.inode_manager bm after (Stays-trans s t) n.inodes;
          directory = of_type raw fs 1 b type_directory (block after b) after read i.image.kind;
          empty = empty_file raw fs 1 b (block after b) after read i.image.empty_file;
        }
