-- ===== src/FileOperation/Booting.antt =====
-- A new file system, and its root directory.
use se3331_labs.Common.{
  ℕ, ◌+◌, ◌*◌, ◌/◌, ◌%◌, ◌<◌, ◌≤◌, ◌≡◌, ◌∙◌, refl, sym, ap, inl, arith, true, ltb, replicate,
  u64_mod, leb-true,
}
use se3331_labs.Result.{ok}
use se3331_labs.Bitmap.Bits.{bit}
use se3331_labs.Block.{BlockManager, done, ◌>>=◌, ◌>>◌, unwrapped, verify}
use se3331_labs.Block.Layout.{block}
use se3331_labs.Block.Safe.{Stays, Stays-trans}
use se3331_labs.Allocator.{BlockAllocator, allocate}
use se3331_labs.Allocator
use se3331_labs.Allocator.Layout.{IsAllocator, is_allocated}
use se3331_labs.Allocator.Construct.{Constructed, bitmap_blocks, allocator_at, construct_at}
use se3331_labs.InodeManager
use se3331_labs.InodeManager.{InodeManager, allocate_inode, get_reserved_blocks}
use se3331_labs.InodeManager.Zeroing.{Zeroed, manager_of, construct_lem, small_manager}
use se3331_labs.InodeManager.Search.{IsInodes}
use se3331_labs.SuperBlock
use se3331_labs.SuperBlock.{SuperBlock}
use se3331_labs.SuperBlock.RoundTrip.{flushed, flush_lem, flushed-IsDevice, block-flushed}
use se3331_labs.FileOperation.{FileOperation}
use se3331_labs.FileOperation.Control.{construct}
use se3331_labs.FileOperation.Staying.{Stays-IsAllocator, Stays-IsInodes}

-- The device has room for the inode table, the inode bitmap, the block bitmap, and a block behind
-- them; there is an inode bitmap.
pub record HasRoom (max : ℕ) (bm : BlockManager) : Type 0 where
  pub inodes : IsInodes (manager_of max bm) bm
  pub some_inodes : 0 < (manager_of max bm).n_bitmap_blocks
  pub numbers : 2 < (manager_of max bm).max_inode_supported
  pub behind :
      bitmap_blocks bm
        + (1 + (manager_of max bm).n_table_blocks + (manager_of max bm).n_bitmap_blocks)
      < bm.block_cnt

-- A file system that is new: the blocks below its first free one are allocated, no other is, and no
-- inode is in use.
pub record New (fs : FileOperation) (free : ℕ) (bm : BlockManager) : Type 0 where
  pub allocator : IsAllocator fs.block_allocator bm
  pub inodes : IsInodes fs.inode_manager bm
  pub room : free < bm.block_cnt
  pub marks : (b : ℕ) → b < bm.block_cnt → is_allocated fs.block_allocator bm b ≡ ltb b free
  pub bitmap :
      fs.block_allocator.bitmap_block_id
      ≡ 1 + fs.inode_manager.n_table_blocks + fs.inode_manager.n_bitmap_blocks
  pub above : fs.block_allocator.bitmap_block_id ≤ free
  pub some_inodes : 0 < fs.inode_manager.n_bitmap_blocks
  pub numbers : 2 < fs.inode_manager.max_inode_supported
  pub small_numbers : fs.inode_manager.max_inode_supported < u64_mod
  pub unused :
      (j : ℕ)
      → 1 ≤ j
      → j < fs.block_allocator.bitmap_block_id
      → block bm j ≡ replicate bm.block_sz 0

abbrev reserved_of : InodeManager → ℕ
reserved_of im = 1 + im.n_table_blocks + im.n_bitmap_blocks

-- The device after the inode manager and the allocator are made.
module _ (unset : ℕ × ℕ) (bm one two : BlockManager) (im : InodeManager) (i : IsInodes im bm)
    (some_inodes : 0 < im.n_bitmap_blocks) (numbers : 2 < im.max_inode_supported)
    (small : im.max_inode_supported < u64_mod)
    (z : Zeroed bm 1 (im.n_table_blocks + im.n_bitmap_blocks) one)
    (behind : bitmap_blocks one + reserved_of im < one.block_cnt)
    (c : Constructed one (reserved_of im) (allocator_at one (reserved_of im)) two) where
  abbrev al : BlockAllocator
  al = allocator_at one (reserved_of im)

  abbrev sb : SuperBlock
  sb = record {
    block_size = two.block_sz;
    nblocks = two.block_cnt;
    ninodes = im.max_inode_supported;
    file_system_size = unset.0;
    padding = unset.1;
  }

  abbrev three : BlockManager
  three = flushed two 0 sb

  size : two.block_sz ≡ bm.block_sz
  size = c.same_blocks ∙ z.stays.same_size

  count : two.block_cnt ≡ bm.block_cnt
  count = c.size ∙ z.stays.same_count

  first : 0 < two.block_cnt
  first = let e = c.size in omega arith

  fits : SuperBlock.sizeof_super_block ≤ two.block_sz
  fits = let r = i.room in omega (arith, size)

  last : Stays two three
  last = record {
    same_size = refl;
    same_count = refl;
    device = flushed-IsDevice two 0 sb c.valid.device first fits;
  }

  all : Stays bm three
  all = Stays-trans (record { same_size = size; same_count = count; device = c.valid.device }) last

  run3 : SuperBlock.flush sb 0 two ≡ done (ok tt) three
  run3 = flush_lem two 0 sb c.valid.device first fits

  same_block : (j : ℕ) → 1 ≤ j → block three j ≡ block two j
  same_block j p = block-flushed two 0 sb c.valid.device first fits j (omega arith)

  same_marks : (b : ℕ) → is_allocated al three b ≡ is_allocated al two b
  unfolding is_allocated
  same_marks b =
      ap (λ t. bit t (b % (two.block_sz * 8)))
        (same_block (b / (two.block_sz * 8) + reserved_of im) (omega arith))

  three-New :
      New
        (record { inode_manager = im; block_allocator = al })
        (al.bitmap_block_cnt + reserved_of im)
        three
  three-New = record {
    allocator = Stays-IsAllocator al two three last c.valid;
    inodes = Stays-IsInodes im bm three all i;
    room = rw c.size behind;
    marks = λ b l. same_marks b ∙ c.marks b (rw c.size at l);
    bitmap = refl;
    above = omega arith;
    some_inodes = some_inodes;
    numbers = numbers;
    small_numbers = small;
    unused = λ j p q.
        same_block j p
        ∙ (c.others j (inl q)
            ∙ (z.zeros j p (omega arith) ∙ ap (λ (t : ℕ). replicate t 0) (sym size)));
  }

made_run :
    (unset : ℕ × ℕ) (max : ℕ) (bm one two : BlockManager) (im : InodeManager) (al : BlockAllocator)
    (end : BlockManager)
    → get_reserved_blocks im ≡ reserved_of im
    → InodeManager.construct max bm ≡ done (ok im) one
    → Allocator.construct (reserved_of im) true one ≡ done (ok al) two
    → SuperBlock.sizeof_super_block ≤ two.block_sz
    → SuperBlock.flush
        (record {
          block_size = two.block_sz;
          nblocks = two.block_cnt;
          ninodes = im.max_inode_supported;
          file_system_size = unset.0;
          padding = unset.1;
        })
        0
        two
      ≡ done (ok tt) end
    → construct unset max bm ≡ done (ok (record { inode_manager = im; block_allocator = al })) end
unfolding construct SuperBlock.construct
made_run unset max bm one two im al end id run1 run2 room run3 =
    rw (run1, ◌>>=◌, id)
      (rw (run2, ◌>>=◌)
        (rw (leb-true {a = SuperBlock.sizeof_super_block} {b = two.block_sz} room, ◌>>=◌, verify)
          (rw (run3, unwrapped, ◌>>=◌, ◌>>◌) refl)))

pub construct-New :
    (unset : ℕ × ℕ) (max : ℕ) (bm : BlockManager)
    → HasRoom max bm
    → (fs : FileOperation) × (free : ℕ) × (after : BlockManager) × (construct unset max bm
        ≡ done (ok fs) after)
      × New fs free after
      × Stays bm after
      × (fs.inode_manager ≡ manager_of max bm)
construct-New unset max bm h =
    let im = manager_of max bm in
    let v = h.inodes.range.device in
    let room = h.inodes.room in
    let (one, run1, z) = construct_lem max bm v (omega arith) (omega (arith, h.behind)) in
    let few = v.few_blocks in
    let small = small_manager max bm in
    let id : get_reserved_blocks im ≡ reserved_of im = omega (arith, h.behind) in
    let behind : bitmap_blocks one + reserved_of im < one.block_cnt =
      rw (z.stays.same_count, z.stays.same_size) h.behind in
    let (two, run2, c) =
      construct_at one (reserved_of im) z.stays.device (omega arith) (omega arith) in
    (
      record { inode_manager = im; block_allocator = allocator_at one (reserved_of im) },
      bitmap_blocks one + reserved_of im,
      three unset bm one two im h.inodes h.some_inodes h.numbers small z behind c,
      made_run unset max bm one two im (allocator_at one (reserved_of im)) _ id run1 run2
          (fits unset bm one two im h.inodes h.some_inodes h.numbers small z behind c)
          (run3 unset bm one two im h.inodes h.some_inodes h.numbers small z behind c),
      three-New unset bm one two im h.inodes h.some_inodes h.numbers small z behind c,
      all unset bm one two im h.inodes h.some_inodes h.numbers small z behind c,
      refl,
    )
