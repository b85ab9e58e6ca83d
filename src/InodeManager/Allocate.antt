-- ===== src/InodeManager/Allocate.antt =====
-- `allocate_inode` against its specification: the least inode that is not in use.
use se3331_labs.Common.{
  ℕ, ◌+◌, ◌*◌, ◌/◌, ◌%◌, ◌<◌, ◌≤◌, ◌≡◌, ◌≢◌, ◌⊎◌, inl, inr, refl, sym, ap, ◌∙◌, true, false, List,
  Option, none, some, arith, eq_false, eq_refl, ◌==◌, if◌then◌else◌, length, get_or, u32_mod,
  u64_mod, first_clear, first_clear-none, first_clear-Least,
}
use native.Mathlib.Nat.{div-lt_iff_lt-mul, mod-lt, div-add-mod}
use native.Mathlib.Decide.{ℕ_discrete}
use se3331_labs.Common.Numbers.{same_index}
use se3331_labs.Result.{ErrorType, ok, err}
use se3331_labs.Bitmap.Bits.{set_bits, bit-set_bits}
use se3331_labs.Block.{BlockManager, done}
use se3331_labs.Block.Layout.{block, block-written, block-written_ne}
use se3331_labs.Fields.{bytes_of}
use se3331_labs.Fields.RoundTrip.{length-bytes_of}
use se3331_labs.Inode.Flush.{Flushed, flush_to_buffer-Flushed}
use se3331_labs.InodeManager.{InodeManager, allocate_inode, raw_to_logic, get}
use se3331_labs.InodeManager.Table.{
  IsIndex, entered, slot_fits, get_lem, IsIndex-entered, entry_of-entered,
}
use se3331_labs.InodeManager.Free.{is_used}
use se3331_labs.InodeManager.Search.{
  IsInodes, bits_at, bits_at-IsBitmap, taken, length-taken_bits, table_index,
}
use se3331_labs.InodeManager.Taking.{IsImage, image_on, image_on-IsIndex, allocate_inode-outcome}

module _ (now type bid : ℕ) (raw out : List ℕ) (im : InodeManager) (bm : BlockManager)
    (v : IsInodes im bm) (q : IsImage now type bm.block_sz raw out) (on : bid < bm.block_cnt)
    (apart : 1 + im.n_table_blocks + im.n_bitmap_blocks ≤ bid) (idx : ℕ)
    (below : idx < im.n_bitmap_blocks * (bm.block_sz * 8)) where
  abbrev bit_block : ℕ
  bit_block = idx / (bm.block_sz * 8)

  abbrev bit_place : ℕ
  bit_place = idx % (bm.block_sz * 8)

  abbrev imaged : BlockManager
  imaged = image_on now type bid raw out im bm v q on bit_block bit_place

  block_below :
      (c : ℕ)
      → c < im.n_bitmap_blocks * (bm.block_sz * 8)
      → c / (bm.block_sz * 8) < im.n_bitmap_blocks
  block_below c h = let r = v.room in (div-lt_iff_lt-mul (omega arith)).1 (omega arith)

  place_below : bit_place < bm.block_sz * 8
  place_below = let r = v.room in mod-lt idx (omega arith)

  image-IsIndex : IsIndex imaged idx
  image-IsIndex = rw (join idx) at (
      image_on-IsIndex now type bid raw out im bm v q on bit_block bit_place (block_below idx below)
        place_below)
    where
      join : (c : ℕ) → c / (bm.block_sz * 8) * (bm.block_sz * 8) + c % (bm.block_sz * 8) ≡ c
      join c = omega (arith, div-add-mod c (bm.block_sz * 8))

  abbrev after : BlockManager
  after = entered imaged idx bid

  length-image : length out ≡ bm.block_sz
  length-image = q.fields.same_length

  -- The write of the entry leaves the blocks that are not in the table.
  block-after : (j : ℕ) → im.n_table_blocks < j → block after j ≡ block imaged j
  block-after j h =
      block-written_ne imaged (1 + idx / (bm.block_sz / 8)) (idx % (bm.block_sz / 8) * 8)
        (bytes_of 8 bid) (omega (arith, length-bytes_of 8 bid, slot_fits imaged idx image-IsIndex))
        j (omega (arith, table_index im bm v idx below))

  bitmap-after :
      (c : ℕ)
      → c < im.n_bitmap_blocks * (bm.block_sz * 8)
      → block after (1 + im.n_table_blocks + c / (bm.block_sz * 8))
        ≡ block (taken im bm v bit_block bit_place) (1 + im.n_table_blocks + c / (bm.block_sz * 8))
  bitmap-after c h =
      block-after (1 + im.n_table_blocks + c / (bm.block_sz * 8)) (omega arith)
      ∙ block-written_ne (taken im bm v bit_block bit_place) bid 0 out (omega (arith, length-image))
          (1 + im.n_table_blocks + c / (bm.block_sz * 8)) (omega (arith, block_below c h))

  one_index :
      (c : ℕ)
      → bit_block ≡ c / (bm.block_sz * 8)
      → (bit_place == c % (bm.block_sz * 8)) ≡ (idx == c)
  one_index c p = elim (ℕ_discrete idx c) [
    | yes e ↦ rw e (eq_refl (c % (bm.block_sz * 8)) ∙ sym (eq_refl c))
    | no e ↦ eq_false (λ r. e (same_index idx c (bm.block_sz * 8) p r)) ∙ sym (eq_false e)
  ]

  is_used-after :
      (c : ℕ)
      → c < im.n_bitmap_blocks * (bm.block_sz * 8)
      → is_used im after c ≡ (if idx == c then true else is_used im bm c)
  unfolding is_used
  is_used-after c h = rw (bitmap-after c h) (elim (ℕ_discrete bit_block (c / (bm.block_sz * 8))) [
    | yes same ↦ rw (← same) (
        rw
          (block-written bm (1 + im.n_table_blocks + bit_block)
            (set_bits (bits_at im bm v bit_block) bit_place)
            (length-taken_bits im bm v bit_block bit_place))
          (bit-set_bits (bits_at im bm v bit_block) bit_place (bits_at-IsBitmap im bm v bit_block)
              place_below (c % (bm.block_sz * 8))
            ∙ rw (one_index c same)))
    | no apart_c ↦
        let ne : idx ≢ c = λ e. apart_c (ap (λ (t : ℕ). t / (bm.block_sz * 8)) e) in
        let there =
          block-written_ne bm (1 + im.n_table_blocks + bit_block) 0
            (set_bits (bits_at im bm v bit_block) bit_place)
            (omega (arith, length-taken_bits im bm v bit_block bit_place))
            (1 + im.n_table_blocks + c / (bm.block_sz * 8)) (omega arith) in
        rw (eq_false ne, there)
  ])

  image-after : block after bid ≡ out
  image-after =
      block-after bid (omega arith)
      ∙ block-written (taken im bm v bit_block bit_place) bid out length-image

  get-after :
      length raw ≡ bm.block_sz
      → bid < u64_mod
      → get raw (raw_to_logic idx) after ≡ done (ok bid) after
  get-after e small =
      get_lem after idx (IsIndex-entered imaged idx bid idx image-IsIndex) raw e
      ∙ rw (entry_of-entered imaged idx bid image-IsIndex small)

-- Inode `idx`, whose block is `bid`, was the least that was not in use, and now it is in use, in the
-- table, and an empty file of the type in its block.
pub record Allocation (raw : List ℕ) (type bid : ℕ) (im : InodeManager) (bm : BlockManager)
    (idx : ℕ) (after : BlockManager) : Type 0 where
  pub in_range : idx < im.n_bitmap_blocks * (bm.block_sz * 8)
  pub was_free : is_used im bm idx ≡ false
  pub least : (c : ℕ) → c < idx → is_used im bm c ≡ true
  pub marks :
      (c : ℕ)
      → c < im.n_bitmap_blocks * (bm.block_sz * 8)
      → is_used im after c ≡ (if idx == c then true else is_used im bm c)
  pub in_table : get raw (raw_to_logic idx) after ≡ done (ok bid) after
  pub image : Flushed type bm.block_sz (block after bid)

-- What a call is given: the type of the inode, a buffer of bytes from `new`, and a block behind those
-- of the table and the bitmap.
pub record IsCall (im : InodeManager) (bm : BlockManager) (type : ℕ) (raw : List ℕ) (bid : ℕ)
    : Type 0 where
  pub small_type : type < u32_mod
  pub whole : length raw ≡ bm.block_sz
  pub bytes : (k : ℕ) → get_or raw k 0 < 256
  pub apart : 1 + im.n_table_blocks + im.n_bitmap_blocks ≤ bid
  pub on_device : bid < bm.block_cnt

abbrev pub Allocates : (now : ℕ) → List ℕ → InodeManager → (type bid : ℕ) → BlockManager → Type 0
Allocates now raw im type bid bm =
    ((allocate_inode now raw im type bid bm ≡ done (err ErrorType.out_of_resource) bm)
      × ((c : ℕ) → c < im.n_bitmap_blocks * (bm.block_sz * 8) → is_used im bm c ≡ true))
    ⊎ ((idx : ℕ) × (after : BlockManager) × (allocate_inode now raw im type bid bm
          ≡ done (ok (raw_to_logic idx)) after)
        × Allocation raw type bid im bm idx after)

-- `allocate_inode` with a type that fits a uint32_t, a block behind the inode table and the inode
-- bitmap, and any bytes in the buffer from `new`, on a well-formed device on which table and bitmap
-- have room, does not fault, and its loop has rounds enough. Either every inode is in
-- use, and it ends with OUT_OF_RESOURCE and an unchanged device; or it returns the number of the least
-- inode not in use, marks it and no other, enters the block in the table, and the block then holds an
-- empty file of the type.
pub allocate_inode-Allocates :
    (now : ℕ) (raw : List ℕ) (im : InodeManager) (type bid : ℕ) (bm : BlockManager)
    → IsInodes im bm
    → IsCall im bm type raw bid
    → Allocates now raw im type bid bm
allocate_inode-Allocates now raw im type bid bm v c =
    let s = v.range.device.small_blocks in
    let (inode, out, made, flushed, fields) =
      flush_to_buffer-Flushed now type bm.block_sz raw v.room (omega arith) c.small_type c.whole
        c.bytes in
    by_search out (record { inode = inode; made = made; flushed = flushed; fields = fields })
      (first_clear (im.n_bitmap_blocks * (bm.block_sz * 8)) 0 (is_used im bm)) refl
  where
    by_search :
        (out : List ℕ)
        → IsImage now type bm.block_sz raw out
        → (r : Option ℕ)
        → first_clear (im.n_bitmap_blocks * (bm.block_sz * 8)) 0 (is_used im bm) ≡ r
        → Allocates now raw im type bid bm
    by_search out q none e = inl (
      allocate_inode-outcome now type bid raw out im bm v q c.on_device ∙ rw e,
      λ d h.
          first_clear-none (im.n_bitmap_blocks * (bm.block_sz * 8)) 0 (is_used im bm) e d
            (omega arith) (omega arith),
    )
    by_search out q (some idx) e =
        let (lo, hi, clear, before) =
          first_clear-Least (im.n_bitmap_blocks * (bm.block_sz * 8)) 0 (is_used im bm) idx e in
        let few = v.range.device.few_blocks in
        let on = c.on_device in
        let below : idx < im.n_bitmap_blocks * (bm.block_sz * 8) = omega arith in
        inr (
          idx,
          after now type bid raw out im bm v q c.on_device c.apart idx below,
          allocate_inode-outcome now type bid raw out im bm v q c.on_device ∙ rw e,
          record {
            in_range = below;
            was_free = clear;
            least = λ d h. before d (omega arith) h;
            marks = is_used-after now type bid raw out im bm v q c.on_device c.apart idx below;
            in_table =
                get-after now type bid raw out im bm v q c.on_device c.apart idx below c.whole
                  (omega arith);
            image =
                rw (image-after now type bid raw out im bm v q c.on_device c.apart idx below)
                  q.fields;
          },
        )
