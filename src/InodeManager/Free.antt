-- ===== src/InodeManager/Free.antt =====
-- `free_inode` against the inode table and the set of the inodes in use.
use se3331_labs.Common.{
  ℕ, ◌+◌, ◌-◌, ◌*◌, ◌/◌, ◌%◌, ◌<◌, ◌≡◌, ◌≢◌, sym, ap, ◌∙◌, Bool, true, false, List, arith, eq_false,
  eq_refl, leb, ltb, ◌==◌, if◌then◌else◌, length, length-set, length-replicate, replicate, u32, u64,
  u64_mod,
}
use native.Mathlib.Decide.{ℕ_discrete}
use native.Mathlib.Nat.{mod-lt}
use se3331_labs.Common.Numbers.{same_index}
use se3331_labs.Result.{ErrorType, ok, err}
use se3331_labs.Bitmap.{Bitmap}
use se3331_labs.Bitmap.Bits.{
  bit, IsBitmap, clear_bits, clear_lem, bit-clear_bits, clear_bits-AreBytes,
}
use se3331_labs.Block.{BlockManager, done, ◌>>=◌, ◌>>◌, checked, write_block}
use se3331_labs.Block.Layout.{
  IsDevice, block, written, length-block, block-bytes, block-written, block-written_ne,
}
use se3331_labs.Block.ReadWrite.{read_block_lem, write_block_lem, written-IsDevice}
use se3331_labs.Fields.{bytes_of, load}
use se3331_labs.Fields.RoundTrip.{length-bytes_of}
use se3331_labs.InodeManager.{
  InodeManager, read_inode, free_inode, get, read_into, kept, nonzero, raw_to_logic, logic_to_raw,
}
use se3331_labs.InodeManager.Table.{
  IsIndex, entry_of, entered, ignored_lem, slot_fits, set_table_lem, get_lem, IsIndex-entered,
  entry_of-entered, entry_of-entered_ne, entry_total,
}

-- Whether the inode bitmap marks the inode of an index as in use.
unfoldable pub is_used : InodeManager → BlockManager → ℕ → Bool
is_used im bm idx =
    bit (block bm (1 + im.n_table_blocks + idx / (bm.block_sz * 8))) (idx % (bm.block_sz * 8))

-- The table and the bitmap have room for the index, in blocks of the device; the table lies before
-- the bitmap; and the inode's number is not refused.
pub record IsInode (im : InodeManager) (bm : BlockManager) (idx : ℕ) : Type 0 where
  pub index : IsIndex bm idx
  pub accepted : idx + 2 < im.max_inode_supported
  pub few : im.max_inode_supported < u64_mod
  pub in_table : idx / (bm.block_sz / 8) < im.n_table_blocks
  pub in_bitmap : 1 + im.n_table_blocks + idx / (bm.block_sz * 8) < bm.block_cnt

-- The block of the bitmap that holds the bit, after the entry of the table is cleared.
abbrev bits_of : InodeManager → BlockManager → ℕ → Bitmap
bits_of im bm idx = record {
  bytes = block (entered bm idx 0) (1 + im.n_table_blocks + idx / (bm.block_sz * 8));
  payload = bm.block_sz;
}

abbrev freed : InodeManager → BlockManager → ℕ → BlockManager
freed im bm idx =
    written (entered bm idx 0) (1 + im.n_table_blocks + idx / (bm.block_sz * 8)) 0
      (clear_bits (bits_of im bm idx) (idx % (bm.block_sz * 8)))

module _ (im : InodeManager) (bm : BlockManager) (idx : ℕ) (v : IsInode im bm idx) where
  cleared : IsIndex (entered bm idx 0) idx
  cleared = IsIndex-entered bm idx 0 idx v.index

  bits_of-IsBitmap : IsBitmap (bits_of im bm idx)
  bits_of-IsBitmap = record {
    fits =
        omega (
          arith,
          length-block (entered bm idx 0) (1 + im.n_table_blocks + idx / (bm.block_sz * 8)),
        );
    small = v.index.device.small_blocks;
    bytes =
        block-bytes (entered bm idx 0) (1 + im.n_table_blocks + idx / (bm.block_sz * 8))
          cleared.device;
  }

  bit_fits : idx % (bm.block_sz * 8) < bm.block_sz * 8
  bit_fits = let p = v.index.device.some_bytes in mod-lt idx (omega arith)

  length-freed_bits :
      length (clear_bits (bits_of im bm idx) (idx % (bm.block_sz * 8))) ≡ bm.block_sz
  length-freed_bits = length-set _ _ _ ∙ length-block (entered bm idx 0) _

  freed-IsDevice : IsDevice (freed im bm idx)
  freed-IsDevice =
      written-IsDevice (entered bm idx 0) _ 0 _ cleared.device (
        clear_bits-AreBytes (bits_of im bm idx) (idx % (bm.block_sz * 8)) bits_of-IsBitmap bit_fits)

  IsIndex-freed : (other : ℕ) → IsIndex bm other → IsIndex (freed im bm idx) other
  IsIndex-freed other w = record {
    device = freed-IsDevice;
    room = w.room;
    within = w.within;
    small = w.small;
  }

  accepted_guard : leb (u64 (im.max_inode_supported + u64_mod - 1)) (raw_to_logic idx) ≡ false
  accepted_guard = let a = v.accepted in let f = v.few in let s = v.index.small in ground arith

  nonzero_lem :
      nonzero (bm.block_sz * 8) (entered bm idx 0) ≡ done (ok (bm.block_sz * 8)) (entered bm idx 0)
  unfolding nonzero
  nonzero_lem =
      let p = v.index.device.some_bytes in
      let e : ltb 0 (bm.block_sz * 8) ≡ true = ground arith in rw e

  free_inode_lem : free_inode im (raw_to_logic idx) bm ≡ done (ok tt) (freed im bm idx)
  unfolding free_inode read_into kept
  free_inode_lem =
      let small = v.index.device.small_blocks in
      let s = v.index.small in
      let z : logic_to_raw (raw_to_logic idx) ≡ idx = omega arith in
      let w : u32 (bm.block_sz * 8) ≡ bm.block_sz * 8 = omega arith in
      rw (accepted_guard, z)
        (rw (set_table_lem bm idx v.index 0, ◌>>=◌, ◌>>◌)
          (rw (w, nonzero_lem, ◌>>=◌)
            (rw
              (
                read_block_lem (entered bm idx 0) (1 + im.n_table_blocks + idx / (bm.block_sz * 8))
                    cleared.device v.in_bitmap (replicate bm.block_sz 0)
                    (length-replicate bm.block_sz 0),
                ◌>>=◌,
              )
              (rw
                (
                  clear_lem (bits_of im bm idx) (idx % (bm.block_sz * 8)) bits_of-IsBitmap bit_fits,
                  ◌>>=◌,
                )
                (ignored_lem
                  (write_block (1 + im.n_table_blocks + idx / (bm.block_sz * 8))
                    (clear_bits (bits_of im bm idx) (idx % (bm.block_sz * 8))))
                  (entered bm idx 0) _
                  (write_block_lem (entered bm idx 0)
                    (1 + im.n_table_blocks + idx / (bm.block_sz * 8)) cleared.device v.in_bitmap _
                    length-freed_bits))))))

  -- The entries of the table do not lie in the bitmap.
  entry_of-freed :
      (other : ℕ)
      → IsIndex bm other
      → other / (bm.block_sz / 8) < im.n_table_blocks
      → entry_of (freed im bm idx) other ≡ entry_of (entered bm idx 0) other
  unfolding entry_of
  entry_of-freed other w t = ap (load 8 (other % (bm.block_sz / 8) * 8)) (
      block-written_ne (entered bm idx 0) (1 + im.n_table_blocks + idx / (bm.block_sz * 8)) 0 _
        (omega (arith, length-freed_bits)) (1 + other / (bm.block_sz / 8)) (omega arith))

  block-entered : (j : ℕ) → im.n_table_blocks < j → block (entered bm idx 0) j ≡ block bm j
  block-entered j h =
      let t = v.in_table in
      block-written_ne bm (1 + idx / (bm.block_sz / 8)) (idx % (bm.block_sz / 8) * 8) (bytes_of 8 0)
        (omega (arith, length-bytes_of 8 0, slot_fits bm idx v.index)) j (omega arith)

  one_index :
      (c : ℕ)
      → idx / (bm.block_sz * 8) ≡ c / (bm.block_sz * 8)
      → (idx % (bm.block_sz * 8) == c % (bm.block_sz * 8)) ≡ (idx == c)
  one_index c p = elim (ℕ_discrete idx c) [
    | yes q ↦ rw q (eq_refl (c % (bm.block_sz * 8)) ∙ sym (eq_refl c))
    | no q ↦ eq_false (λ r. q (same_index idx c (bm.block_sz * 8) p r)) ∙ sym (eq_false q)
  ]

  is_used-freed :
      (c : ℕ) → is_used im (freed im bm idx) c ≡ (if idx == c then false else is_used im bm c)
  unfolding is_used
  is_used-freed c =
      elim (ℕ_discrete (1 + im.n_table_blocks + idx / (bm.block_sz * 8))
        (1 + im.n_table_blocks + c / (bm.block_sz * 8))) [
          | no apart ↦
              let ne : idx ≢ c =
                λ q. apart (ap (λ (t : ℕ). 1 + im.n_table_blocks + t / (bm.block_sz * 8)) q) in
              let there =
                block-written_ne (entered bm idx 0)
                  (1 + im.n_table_blocks + idx / (bm.block_sz * 8)) 0
                  (clear_bits (bits_of im bm idx) (idx % (bm.block_sz * 8)))
                  (omega (arith, length-freed_bits)) (1 + im.n_table_blocks + c / (bm.block_sz * 8))
                  apart in
              rw (
                eq_false ne,
                there,
                block-entered (1 + im.n_table_blocks + c / (bm.block_sz * 8)) (omega arith),
              )
          | yes same ↦ rw (← same) (
              rw
                (block-written (entered bm idx 0) (1 + im.n_table_blocks + idx / (bm.block_sz * 8))
                  _ length-freed_bits)
                (bit-clear_bits (bits_of im bm idx) (idx % (bm.block_sz * 8)) bits_of-IsBitmap
                    bit_fits (c % (bm.block_sz * 8))
                  ∙ rw (
                    block-entered (1 + im.n_table_blocks + idx / (bm.block_sz * 8)) (omega arith),
                    one_index c (omega arith),
                  )))
        ]

  -- The inode is not found any more.
  read_inode-freed :
      (raw buffer : List ℕ)
      → length raw ≡ bm.block_sz
      → read_inode raw im (raw_to_logic idx) buffer (freed im bm idx)
        ≡ done (err ErrorType.invalid_arg) (freed im bm idx)
  unfolding read_inode
  read_inode-freed raw buffer e = rw accepted_guard (
      rw (
        get_lem (freed im bm idx) idx (IsIndex-freed idx v.index) raw e,
        ◌>>=◌,
        entry_of-freed idx v.index v.in_table,
        entry_of-entered bm idx 0 v.index (omega arith),
      ))

  get-freed :
      (raw : List ℕ) (other : ℕ)
      → length raw ≡ bm.block_sz
      → IsIndex bm other
      → other / (bm.block_sz / 8) < im.n_table_blocks
      → idx ≢ other
      → get raw (raw_to_logic other) (freed im bm idx)
        ≡ checked (entry_of bm other) (freed im bm idx)
  get-freed raw other e w t ne = rw (
    get_lem (freed im bm idx) other (IsIndex-freed other w) raw e,
    entry_of-freed other w t,
    entry_of-entered_ne bm idx 0 other v.index w ne,
  )

-- What `free_inode` of the inode with index `idx` does, from the device `bm` to `after`.
pub record Freed (raw : List ℕ) (im : InodeManager) (bm : BlockManager) (idx : ℕ)
    (after : BlockManager) : Type 0 where
  pub gone :
      (buffer : List ℕ)
      → read_inode raw im (raw_to_logic idx) buffer after ≡ done (err ErrorType.invalid_arg) after
  pub bits : (c : ℕ) → is_used im after c ≡ (if idx == c then false else is_used im bm c)
  pub others :
      (other : ℕ)
      → IsIndex bm other
      → other / (bm.block_sz / 8) < im.n_table_blocks
      → idx ≢ other
      → (bid : ℕ) × (get raw (raw_to_logic other) bm ≡ done (ok bid) bm)
        × (get raw (raw_to_logic other) after ≡ done (ok bid) after)
  pub still : IsDevice after

-- `free_inode` of an inode number that it accepts, with its entry and its bit on the device, does not
-- fault. Afterwards the number is refused by `read_inode` with INVALID_ARG, the inode bitmap marks it
-- as free and no other inode differently, and the table still has the block of every other inode.
pub free_inode-Freed :
    (raw : List ℕ) (im : InodeManager) (bm : BlockManager) (idx : ℕ)
    → IsInode im bm idx
    → length raw ≡ bm.block_sz
    → (after : BlockManager) × (free_inode im (raw_to_logic idx) bm ≡ done (ok tt) after)
      × Freed raw im bm idx after
free_inode-Freed raw im bm idx v e = (
  freed im bm idx,
  free_inode_lem im bm idx v,
  record {
    gone = λ buffer. read_inode-freed im bm idx v raw buffer e;
    bits = is_used-freed im bm idx v;
    others = λ other w t ne.
        let (bid, found) = entry_total bm other w in
        (
          bid,
          get_lem bm other w raw e ∙ rw found,
          get-freed im bm idx v raw other e w t ne ∙ rw found,
        );
    still = freed-IsDevice im bm idx v;
  },
)
