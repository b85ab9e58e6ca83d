-- ===== src/FileOperation/Rewriting.antt =====
-- src/filesystem/data_op.cc: a file that is written over, in as many blocks as it has, and read.
use mathlib.Core.Path.{subst}
use se3331_labs.Common.{
  ℕ, ◌+◌, ◌-◌, ◌*◌, ◌/◌, ◌%◌, ◌<◌, ◌≤◌, ◌≡◌, ◌≢◌, refl, sym, ap, ◌∙◌, arith, false, some, List, [],
  ltb, leb, ◌&&◌, length, replicate, length-replicate, ltb-false, lt→ltb, eq_false, u32, u64,
  u64_mod,
}
use se3331_labs.Result.{ok}
use se3331_labs.Bitmap.Bits.{AreBytes}
use se3331_labs.Block.{BlockManager, done, ◌>>=◌}
use se3331_labs.Block.Layout.{
  IsDevice, block, length-block, block-bytes, written, block-written, block-written_ne,
}
use se3331_labs.Block.ReadWrite.{read_block_lem, write_block_lem, written-IsDevice}
use se3331_labs.Fields.{load}
use se3331_labs.Inode
use se3331_labs.Inode.{FileAttr, set_all_time}
use se3331_labs.Inode.Attributes.{
  AttrSet, set_attr-AttrSet, block_at-AttrSet, get_direct_block_num-AttrSet,
  is_direct_block-AttrSet,
}
use se3331_labs.InodeManager.{read_inode, raw_to_logic, nonzero}
use se3331_labs.InodeManager.Table.{IsIndex, entry_of, get_lem}
use se3331_labs.FileOperation.{FileOperation}
use se3331_labs.FileOperation.Data.{
  Held, resize_blocks, shrink_loop, drop_indirect, write_loop, finish, write_contents, write_file,
  read_file, calculate_block_sz,
}
use se3331_labs.FileOperation.RoundTrip.{
  DirectBlocks, Laid, Holds, Holds-kept, write_loop-Laid, read_loop_held,
}

-- The block of the inode table that holds the entry with the index `idx`.
abbrev pub table_block : BlockManager → ℕ → ℕ
table_block bm idx = 1 + idx / (bm.block_sz / 8)

-- On a well-formed device the inode table has the block `block_id` for the index.
pub record HasInode (fs : FileOperation) (idx block_id : ℕ) (bm : BlockManager) : Type 0 where
  pub accepted :
      leb (u64 (fs.inode_manager.max_inode_supported + u64_mod - 1)) (raw_to_logic idx) ≡ false
  pub index : IsIndex bm idx
  pub entry : entry_of bm idx ≡ some block_id
  pub valid : block_id ≢ 0
  pub inside : block_id < bm.block_cnt

-- A file whose blocks are direct, and are neither its inode's nor its entry's block.
pub record HasFile (fs : FileOperation) (idx block_id size inlined count : ℕ) (blocks : ℕ → ℕ)
    (bm : BlockManager) : Type 0 where
  pub has_inode : HasInode fs idx block_id bm
  pub room : 36 ≤ bm.block_sz
  pub its_size : Inode.get_size (block bm block_id) ≡ some size
  pub direct :
      DirectBlocks
        (record { inode = block bm block_id; indirect_block = [] })
        inlined
        bm.block_cnt
        count
        blocks
  pub not_inode : (i : ℕ) → i < count → block_id ≢ blocks i
  pub not_entry : (i : ℕ) → i < count → table_block bm idx ≢ blocks i
  pub apart : block_id ≢ table_block bm idx

pub read_inode_lem :
    (raw buffer : List ℕ) (fs : FileOperation) (idx block_id : ℕ) (bm : BlockManager)
    → HasInode fs idx block_id bm
    → length raw ≡ bm.block_sz
    → length buffer ≡ bm.block_sz
    → read_inode raw fs.inode_manager (raw_to_logic idx) buffer bm
      ≡ done (ok (block_id, block bm block_id)) bm
unfolding read_inode
read_inode_lem raw buffer fs idx block_id bm f r b =
    rw
      (
        f.accepted,
        ◌>>=◌,
        get_lem bm idx f.index raw r,
        f.entry,
        eq_false {a = block_id} {b = 0} f.valid,
        read_block_lem bm block_id f.index.device f.inside buffer b,
      )
      refl

-- Where the entry's block stays as it is, the inode stays where it is.
pub HasInode-kept :
    (fs : FileOperation) (idx block_id : ℕ) (bm after : BlockManager)
    → HasInode fs idx block_id bm
    → IsDevice after
    → after.block_sz ≡ bm.block_sz
    → after.block_cnt ≡ bm.block_cnt
    → block after (table_block bm idx) ≡ block bm (table_block bm idx)
    → HasInode fs idx block_id after
unfolding entry_of
HasInode-kept fs idx block_id bm after f v s c k = record {
  accepted = f.accepted;
  index = record {
    device = v;
    room = let r = f.index.room in omega arith;
    within = rw (s, c) f.index.within;
    small = f.index.small;
  };
  entry =
      ap (λ (n : ℕ). load 8 (idx % (n / 8) * 8) (block after (1 + idx / (n / 8)))) s
      ∙ ap (load 8 (idx % (bm.block_sz / 8) * 8)) k
      ∙ f.entry;
  valid = f.valid;
  inside = let i = f.inside in omega arith;
}

DirectBlocks-AttrSet :
    (attr : FileAttr) (inode out : List ℕ) (inlined cnt count : ℕ) (blocks : ℕ → ℕ)
    → AttrSet attr inode out
    → DirectBlocks (record { inode = inode; indirect_block = [] }) inlined cnt count blocks
    → DirectBlocks (record { inode = out; indirect_block = [] }) inlined cnt count blocks
DirectBlocks-AttrSet attr inode out inlined cnt count blocks a d = record {
  number = get_direct_block_num-AttrSet attr inode out a ∙ d.number;
  are_direct = λ i l. is_direct_block-AttrSet attr inode out a i ∙ d.are_direct i l;
  ids = λ i l. block_at-AttrSet attr inode out a i ∙ d.ids i l;
  inside = d.inside;
  apart = d.apart;
}

-- No block is allocated or freed.
resize_same :
    (fs : FileOperation) (inlined n : ℕ) (h : Held) (bm : BlockManager)
    → resize_blocks fs inlined n n h bm ≡ done (ok h) bm
unfolding resize_blocks shrink_loop drop_indirect
resize_same fs inlined n h bm =
    let off : (ltb inlined n && leb n inlined) ≡ false = ground arith in
    let none_left : n - n ≡ 0 = omega arith in
    rw (ltb-false {a = n} {b = n} (omega arith), ◌>>=◌, none_left, off) refl

finish_lem :
    (now size block_id : ℕ) (inode : List ℕ) (bm : BlockManager)
    → IsDevice bm
    → block_id < bm.block_cnt
    → length inode ≡ bm.block_sz
    → 36 ≤ bm.block_sz
    → size < u64_mod
    → (out : List ℕ) × AttrSet
        (set_all_time now (record { atime = 0; mtime = 0; ctime = 0; size = size }))
        inode
        out
      × (finish now size block_id (record { inode = inode; indirect_block = [] }) bm
          ≡ done (ok tt) (written bm block_id 0 out))
unfolding finish
finish_lem now size block_id inode bm v i n r s =
    let (out, e, a) =
      set_attr-AttrSet (set_all_time now (record { atime = 0; mtime = 0; ctime = 0; size = size }))
        inode (omega arith) s in
    (out, a, rw (e, ◌>>=◌, write_block_lem bm block_id v i out (a.same_length ∙ n)) refl)

-- The end of `write_file`: the inode's block is written behind the file's blocks.
pub record Finished (fs : FileOperation) (idx block_id inlined count : ℕ) (blocks : ℕ → ℕ)
    (content : List ℕ) (bm after : BlockManager) : Type 0 where
  pub inode : HasInode fs idx block_id after
  pub direct :
      DirectBlocks
        (record { inode = block after block_id; indirect_block = [] })
        inlined
        bm.block_cnt
        count
        blocks
  pub size : Inode.get_size (block after block_id) ≡ some (length content)
  pub same_sz : after.block_sz ≡ bm.block_sz
  pub same_cnt : after.block_cnt ≡ bm.block_cnt
  pub holds : Holds bm.block_sz after blocks (length content) 0 content

module _ (fs : FileOperation) (idx block_id size inlined count : ℕ) (blocks : ℕ → ℕ)
    (bm : BlockManager) (f : HasFile fs idx block_id size inlined count blocks bm)
    (content : List ℕ) (fits : length content ≤ count * bm.block_sz) where
  abbrev held : Held
  held = record { inode = block bm block_id; indirect_block = [] }

  written-Finished :
      (attr : FileAttr) (out : List ℕ) (mid : BlockManager)
      → Laid bm blocks count (length content) 0 content mid
      → AttrSet attr (block bm block_id) out
      → attr.size ≡ length content
      → Finished fs idx block_id inlined count blocks content bm (written mid block_id 0 out)
  written-Finished attr out mid l a z = record {
    inode =
        HasInode-kept fs idx block_id bm (written mid block_id 0 out) f.has_inode
          (written-IsDevice mid block_id 0 out l.device
            (a.bytes (block-bytes bm block_id f.has_inode.index.device)))
          l.same_sz l.same_cnt
          (other (table_block bm idx) f.apart
            ∙ l.kept (table_block bm idx) (λ i p q. f.not_entry i q));
    direct =
        subst
          (λ ys.
            DirectBlocks (record { inode = ys; indirect_block = [] }) inlined bm.block_cnt count
              blocks)
          (sym same)
          (DirectBlocks-AttrSet attr (block bm block_id) out inlined bm.block_cnt count blocks a
            f.direct);
    size = ap Inode.get_size same ∙ a.size ∙ ap some z;
    same_sz = l.same_sz;
    same_cnt = l.same_cnt;
    holds =
        Holds-kept count bm.block_sz mid (written mid block_id 0 out) blocks (length content) 0
          content (λ i q. other (blocks i) (f.not_inode i q)) (omega arith) l.holds;
  }
    where
      full : length out ≡ mid.block_sz
      full = a.same_length ∙ length-block bm block_id ∙ sym l.same_sz

      other : (b : ℕ) → block_id ≢ b → block (written mid block_id 0 out) b ≡ block mid b
      other b n = block-written_ne mid block_id 0 out (omega (arith, full)) b n

      same : block (written mid block_id 0 out) block_id ≡ out
      same = block-written mid block_id out full

  -- The steps of `write_contents`, where the number of blocks stays.
  chain_lem :
      (now old new : ℕ)
      → old ≡ new
      → (mid last : BlockManager)
      → write_loop inlined (length content) 0 content held bm ≡ done (ok held) mid
      → finish now (length content) block_id held mid ≡ done (ok tt) last
      → (resize_blocks fs inlined old new held >>= λ resized.
            write_loop inlined (length content) 0 content resized >>= λ all.
            finish now (length content) block_id all)
          bm
        ≡ done (ok tt) last
  chain_lem now old new e mid last run fin =
      let same = ap (λ (n : ℕ). resize_blocks fs inlined n new held bm) e in
      rw (◌>>=◌, same ∙ resize_same fs inlined new held bm, run) fin

  pub read_file-Finished :
      (raw : List ℕ) (after : BlockManager)
      → Finished fs idx block_id inlined count blocks content bm after
      → length raw ≡ bm.block_sz
      → read_file raw fs (raw_to_logic idx) after ≡ done (ok content) after
  unfolding read_file
  read_file-Finished raw after g r =
      rw
        (
          ◌>>=◌,
          read_inode_lem raw (replicate after.block_sz 0) fs idx block_id after g.inode
              (r ∙ sym g.same_sz) (length-replicate {A = ℕ} after.block_sz 0),
          g.size,
        )
        (read_loop_held (record { inode = block after block_id; indirect_block = [] }) inlined count
          blocks content bm after g.direct fits g.inode.index.device g.same_sz g.same_cnt g.holds)

  pub write_file-Finished :
      (now most : ℕ) (raw : List ℕ)
      → AreBytes content
      → length content < u64_mod
      → Inode.max_file_sz_supported (block bm block_id) ≡ some most
      → length content ≤ most
      → calculate_block_sz size bm.block_sz ≡ calculate_block_sz (length content) bm.block_sz
      → length raw ≡ bm.block_sz
      → (after : BlockManager) × (write_file now raw fs (raw_to_logic idx) content bm
          ≡ done (ok tt) after)
        × Finished fs idx block_id inlined count blocks content bm after
  unfolding write_file write_contents nonzero
  write_file-Finished now most raw b s m l c r =
      let (mid, run, laid) =
        write_loop-Laid held inlined count blocks (length content) 0 content bm
          f.has_inode.index.device f.direct b (omega arith) (omega arith) in
      let (out, a, done_) =
        finish_lem now (length content) block_id (block bm block_id) mid laid.device
          (rw laid.same_cnt f.has_inode.inside) (length-block bm block_id ∙ sym laid.same_sz)
          (rw laid.same_sz f.room) s in
      (
        written mid block_id 0 out,
        rw
            (
              ◌>>=◌,
              read_inode_lem raw (replicate bm.block_sz 0) fs idx block_id bm f.has_inode r
                  (length-replicate {A = ℕ} bm.block_sz 0),
              f.direct.number,
              m,
              ltb-false {a = most} {b = length content} l,
              f.its_size,
              lt→ltb 0 bm.block_sz f.has_inode.index.device.some_bytes,
            )
            (chain_lem now (u32 (calculate_block_sz size bm.block_sz))
              (u32 (calculate_block_sz (length content) bm.block_sz)) (ap u32 c) mid
              (written mid block_id 0 out) run done_),
        written-Finished _ out mid laid a refl,
      )
