-- ===== src/FileOperation/Sequence.antt =====
-- src/filesystem/data_op.cc: a file as a sequence of bytes, which `read_file` gives and which
-- `write_file`, `write_file_w_off` and `resize` replace where as many blocks are needed.
use mathlib.Core.Path.{subst}
use se3331_labs.Common.{
  ℕ, ◌+◌, ◌*◌, ◌<◌, ◌≤◌, ◌≡◌, refl, sym, ◌∙◌, arith, List, [], some, ◌≢◌, ◌/◌, length, u64_mod,
}
use se3331_labs.Result.{ok}
use se3331_labs.Bitmap.Bits.{AreBytes}
use se3331_labs.Block.{BlockManager, done}
use se3331_labs.Block.Layout.{block}
use se3331_labs.Inode
use se3331_labs.InodeManager.{raw_to_logic}
use se3331_labs.FileOperation.{FileOperation}
use se3331_labs.FileOperation.Data.{read_file, write_file, calculate_block_sz}
use se3331_labs.FileOperation.RoundTrip.{DirectBlocks, Holds}
use se3331_labs.FileOperation.Rewriting.{HasFile, Finished, read_file-Finished, write_file-Finished}

-- On the device the file has the contents `content`, in its direct blocks.
pub record Contains (fs : FileOperation) (idx block_id inlined count : ℕ) (blocks : ℕ → ℕ)
    (content : List ℕ) (bm : BlockManager) : Type 0 where
  pub has_file : HasFile fs idx block_id (length content) inlined count blocks bm
  pub holds : Holds bm.block_sz bm blocks (length content) 0 content
  pub fits : length content ≤ count * bm.block_sz

-- Contents that can replace others of the length `size`: bytes, in as many blocks, of a length that
-- the inode supports.
pub record Replaces (block_id count size : ℕ) (content : List ℕ) (bm : BlockManager) : Type 0 where
  pub are_bytes : AreBytes content
  pub small : length content < u64_mod
  pub most : ℕ
  pub supported : Inode.max_file_sz_supported (block bm block_id) ≡ some most
  pub below : length content ≤ most
  pub same_blocks :
      calculate_block_sz size bm.block_sz ≡ calculate_block_sz (length content) bm.block_sz
  pub room : length content ≤ count * bm.block_sz

module _ (fs : FileOperation) (idx block_id inlined count : ℕ) (blocks : ℕ → ℕ) where
  Finished-Contains :
      (size : ℕ) (content : List ℕ) (bm after : BlockManager)
      → HasFile fs idx block_id size inlined count blocks bm
      → length content ≤ count * bm.block_sz
      → Finished fs idx block_id inlined count blocks content bm after
      → Contains fs idx block_id inlined count blocks content after
  Finished-Contains size content bm after f l g = record {
    has_file = record {
      has_inode = g.inode;
      room = let r = f.room in let s = g.same_sz in omega arith;
      its_size = g.size;
      direct =
          subst
            (λ (n : ℕ).
              DirectBlocks (record { inode = block after block_id; indirect_block = [] }) inlined n
                count blocks)
            (sym g.same_cnt) g.direct;
      not_inode = f.not_inode;
      not_entry =
          λ i q. subst (λ (s : ℕ). 1 + idx / (s / 8) ≢ blocks i) (sym g.same_sz) (f.not_entry i q);
      apart = subst (λ (s : ℕ). block_id ≢ 1 + idx / (s / 8)) (sym g.same_sz) f.apart;
    };
    holds =
        subst (λ (s : ℕ). Holds s after blocks (length content) 0 content) (sym g.same_sz) g.holds;
    fits = subst (λ (s : ℕ). length content ≤ count * s) (sym g.same_sz) l;
  }

  Contains-Finished :
      (content : List ℕ) (bm : BlockManager)
      → Contains fs idx block_id inlined count blocks content bm
      → Finished fs idx block_id inlined count blocks content bm bm
  Contains-Finished content bm c = record {
    inode = c.has_file.has_inode;
    direct = c.has_file.direct;
    size = c.has_file.its_size;
    same_sz = refl;
    same_cnt = refl;
    holds = c.holds;
  }

  pub read_file-Contains :
      (raw content : List ℕ) (bm : BlockManager)
      → Contains fs idx block_id inlined count blocks content bm
      → length raw ≡ bm.block_sz
      → read_file raw fs (raw_to_logic idx) bm ≡ done (ok content) bm
  read_file-Contains raw content bm c r =
      read_file-Finished fs idx block_id (length content) inlined count blocks bm c.has_file content
        c.fits raw bm (Contains-Finished content bm c) r

  pub write_file-Contains :
      (now size : ℕ) (raw content : List ℕ) (bm : BlockManager)
      → HasFile fs idx block_id size inlined count blocks bm
      → Replaces block_id count size content bm
      → length raw ≡ bm.block_sz
      → (after : BlockManager) × (write_file now raw fs (raw_to_logic idx) content bm
          ≡ done (ok tt) after)
        × Contains fs idx block_id inlined count blocks content after
  write_file-Contains now size raw content bm f p r =
      let (after, run, g) =
        write_file-Finished fs idx block_id size inlined count blocks bm f content p.room now p.most
          raw p.are_bytes p.small p.supported p.below p.same_blocks r in
      (after, run, Finished-Contains size content bm after f p.room g)

  -- A file whose blocks are direct is written over with bytes of any length that needs as many
  -- blocks, and is read: both succeed, whatever their buffers hold, and the bytes written are read.
  pub read_file-write_file :
      (now size : ℕ) (raw again content : List ℕ) (bm : BlockManager)
      → HasFile fs idx block_id size inlined count blocks bm
      → Replaces block_id count size content bm
      → length raw ≡ bm.block_sz
      → length again ≡ bm.block_sz
      → (after : BlockManager) × (write_file now raw fs (raw_to_logic idx) content bm
          ≡ done (ok tt) after)
        × (read_file again fs (raw_to_logic idx) after ≡ done (ok content) after)
        × Contains fs idx block_id inlined count blocks content after
  read_file-write_file now size raw again content bm f p r a =
      let (after, run, g) =
        write_file-Finished fs idx block_id size inlined count blocks bm f content p.room now p.most
          raw p.are_bytes p.small p.supported p.below p.same_blocks r in
      let c = Finished-Contains size content bm after f p.room g in
      (after, run, read_file-Contains again content after c (a ∙ sym g.same_sz), c)
