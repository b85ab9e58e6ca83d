-- ===== src/Allocator/Construct.antt =====
-- What the constructor leaves on the device.
use se3331_labs.Common.{
  ℕ, zero, suc, ◌+◌, ◌-◌, ◌*◌, ◌/◌, ◌%◌, ◌<◌, ◌≤◌, ◌≡◌, ◌≢◌, ◌⊎◌, inl, refl, ap, ◌∙◌, true, false,
  arith, ltb, leb, ◌==◌, if◌then◌else◌, length-replicate, replicate, u32, u64, eq_false, lt→ltb,
  leb-true,
}
use native.Mathlib.Decide.{ℕ_discrete}
use native.Mathlib.Nat.{mod-lt, div-add-mod', div-eq_of_lt}
use se3331_labs.Result.{ok}
use se3331_labs.Block.{BlockManager, done, ◌>>=◌, ◌>>◌}
use se3331_labs.Block.Layout.{IsDevice, block}
use se3331_labs.Allocator.{BlockAllocator, initialize, fields, construct}
use se3331_labs.Allocator.Layout.{IsAllocator, is_allocated, is_allocated-written}
use se3331_labs.Allocator.Zeroing.{
  with_data, Kept, Marks, zero_loop_lem, bit-replicate, zeros-AreBytes,
}
use se3331_labs.Allocator.Marking.{Marking, mark_loop_lem, zeroed_lem}

-- The number of bitmap blocks, and of the bits that count in the last one.
abbrev pub bitmap_blocks : BlockManager → ℕ
bitmap_blocks bm =
    if bm.block_cnt % (bm.block_sz * 8) == 0
    then bm.block_cnt / (bm.block_sz * 8)
    else bm.block_cnt / (bm.block_sz * 8) + 1

abbrev pub last_bits : BlockManager → ℕ
last_bits bm =
    if bm.block_cnt % (bm.block_sz * 8) == 0
    then bm.block_sz * 8
    else bm.block_cnt % (bm.block_sz * 8)

abbrev pub allocator_at : BlockManager → ℕ → BlockAllocator
allocator_at bm id = record {
  bitmap_block_id = id;
  bitmap_block_cnt = bitmap_blocks bm;
  last_block_num = last_bits bm;
}

-- The bits of the bitmap number the blocks.
record Layout (bm : BlockManager) : Type 0 where
  some_blocks : 0 < bitmap_blocks bm
  some_bits : 0 < last_bits bm
  last_fits : last_bits bm ≤ bm.block_sz * 8
  covers : (bitmap_blocks bm - 1) * (bm.block_sz * 8) + last_bits bm ≡ bm.block_cnt
  enough : bm.block_cnt ≤ bitmap_blocks bm * (bm.block_sz * 8)

layout : (bm : BlockManager) → IsDevice bm → 0 < bm.block_cnt → Layout bm
layout bm v h = elim (ℕ_discrete (bm.block_cnt % bits) 0) [
  | yes z ↦
      let t : (bm.block_cnt % bits == 0) ≡ true = ground arith in
      let n : q * bits ≡ bm.block_cnt = omega (arith, whole) in
      let one : 0 < q = pos q n in
      let p : q ≡ q - 1 + 1 = omega arith in
      let m : q * bits ≡ (q - 1) * bits + bits = omega (arith, ap (λ (t : ℕ). t * bits) p) in
      record {
        some_blocks = rw t one;
        some_bits = rw t full;
        last_fits = rw t (omega arith);
        covers = rw t (omega arith);
        enough = rw t (omega arith);
      }
  | no z ↦
      let t : (bm.block_cnt % bits == 0) ≡ false = ground arith in
      let s : q + 1 - 1 ≡ q = omega arith in
      let r = mod-lt bm.block_cnt full in
      record {
        some_blocks = rw t (omega arith);
        some_bits = rw t (omega arith);
        last_fits = rw t (omega arith);
        covers = rw (t, s) whole;
        enough = rw t (omega (arith, whole));
      }
]
  where
    bits : ℕ
    bits = bm.block_sz * 8

    q : ℕ
    q = bm.block_cnt / bits

    full : 0 < bits
    full = let p = v.some_bytes in omega arith

    whole : q * bits + bm.block_cnt % bits ≡ bm.block_cnt
    whole = div-add-mod' bm.block_cnt bits

    pos : (k : ℕ) → k * bits ≡ bm.block_cnt → 0 < k
    pos zero e = absurd (omega arith)
    pos (suc k) e = omega arith

module _ (bm : BlockManager) (id : ℕ) (v : IsDevice bm) (pos : 0 < bm.block_cnt)
    (within : bitmap_blocks bm + id ≤ bm.block_cnt) where
  abbrev al : BlockAllocator
  al = allocator_at bm id

  fields_lem : fields id bm ≡ done (ok al) bm
  unfolding fields
  fields_lem =
      let l = layout bm v pos in
      let some_bits = l.some_bits in
      let fits = l.last_fits in
      let small = v.small_blocks in
      let w : u32 (bm.block_sz * 8) ≡ bm.block_sz * 8 = omega arith in
      let bits : ltb 0 (bm.block_sz * 8) ≡ true = lt→ltb _ _ (omega arith) in
      let some_blocks : ltb 0 (bitmap_blocks bm) ≡ true = lt→ltb _ _ l.some_blocks in
      let room : leb (bitmap_blocks bm + id) bm.block_cnt ≡ true = leb-true within in
      let last_ok : leb (last_bits bm) (bm.block_sz * 8) ≡ true = leb-true fits in
      rw (w, last, bits, some_blocks, room, last_ok)
    where
      last :
          (if u64 (bitmap_blocks bm * (bm.block_sz * 8)) == bm.block_cnt
            then bm.block_sz * 8
            else bm.block_cnt % (bm.block_sz * 8))
          ≡ last_bits bm
      last =
          let small = v.small_blocks in
          let few = v.few_blocks in
          let some = v.some_bytes in
          let whole = div-add-mod' bm.block_cnt (bm.block_sz * 8) in
          let below = mod-lt bm.block_cnt {m = bm.block_sz * 8} (omega arith) in
          elim (ℕ_discrete (bm.block_cnt % (bm.block_sz * 8)) 0) [
            | yes z ↦
                let t : (bm.block_cnt % (bm.block_sz * 8) == 0) ≡ true = ground arith in
                let n : u64 (bm.block_cnt / (bm.block_sz * 8) * (bm.block_sz * 8)) ≡ bm.block_cnt =
                  omega arith in
                let e : (bm.block_cnt == bm.block_cnt) ≡ true = ground arith in rw (t, n, e)
            | no z ↦
                let t : (bm.block_cnt % (bm.block_sz * 8) == 0) ≡ false = ground arith in
                let n : u64 ((bm.block_cnt / (bm.block_sz * 8) + 1) * (bm.block_sz * 8))
                    ≢ bm.block_cnt =
                  omega arith in
                let e : (u64 ((bm.block_cnt / (bm.block_sz * 8) + 1) * (bm.block_sz * 8))
                      == bm.block_cnt)
                    ≡ false =
                  eq_false n in
                rw (t, e)
          ]

  allocator : IsAllocator al bm
  allocator =
      let l = layout bm v pos in
      record {
        device = v;
        some_blocks = l.some_blocks;
        some_bits = l.some_bits;
        last_fits = l.last_fits;
        covers = l.covers;
        within = omega arith;
      }

-- What a new allocator is, and what it leaves on the device.
pub record Constructed (bm : BlockManager) (id : ℕ) (al : BlockAllocator) (after : BlockManager)
    : Type 0 where
  pub at : al.bitmap_block_id ≡ id
  pub valid : IsAllocator al after
  pub size : after.block_cnt ≡ bm.block_cnt
  pub same_blocks : after.block_sz ≡ bm.block_sz
  pub marks :
      (b : ℕ) → b < bm.block_cnt → is_allocated al after b ≡ ltb b (al.bitmap_block_cnt + id)
  pub others :
      (j : ℕ)
      → (j < al.bitmap_block_id) ⊎ (al.bitmap_block_id + al.bitmap_block_cnt ≤ j)
      → block after j ≡ block bm j
  pub reopened : construct id false after ≡ done (ok al) after

module _ (bm : BlockManager) (id : ℕ) (v : IsDevice bm) (pos : 0 < bm.block_cnt)
    (within : bitmap_blocks bm + id ≤ bm.block_cnt) where
  abbrev new : BlockAllocator
  new = allocator_at bm id

  inside : id + new.bitmap_block_cnt ≤ bm.block_cnt
  inside = omega arith

  first-Marking :
      (g : ℕ → ℕ)
      → Kept new bm bm.block_data g
      → Marks new bm g (λ _. false)
      → Marking new bm inside bm.block_data 0 0 (replicate bm.block_sz 0) g
  first-Marking g k z = record {
    kept = k;
    in_bitmap = (layout bm v pos).some_blocks;
    size = length-replicate {A = ℕ} bm.block_sz 0;
    bytes = zeros-AreBytes bm.block_sz;
    marks = λ x l.
        is_allocated-written new (with_data bm g) 0 x (replicate bm.block_sz 0)
          (length-replicate {A = ℕ} bm.block_sz 0)
        ∙ ground (
          arith,
          z x l,
          bit-replicate bm.block_sz (x % (bm.block_sz * 8)) (mod-lt x (omega arith)),
        );
  }

  initialize_lem :
      (h : ℕ → ℕ) × (initialize id new.bitmap_block_cnt bm ≡ done (ok tt) (with_data bm h))
      × Kept new bm bm.block_data h
      × Marks new bm h (λ x. ltb x (new.bitmap_block_cnt + id))
  unfolding initialize
  initialize_lem =
      let p = v.some_bytes in
      let (g, cleared, kept, none_marked) =
        zero_loop_lem new bm inside new.bitmap_block_cnt 0 bm.block_data bm.block_data (omega arith)
          (record { device = v; others = λ j o. refl }) (λ x l. absurd (omega arith)) in
      let (h, run, kept', marks) =
        mark_loop_lem new bm inside (new.bitmap_block_cnt + id) 0 0 bm.block_data g
          (replicate bm.block_sz 0) (first-Marking g kept none_marked)
          (inl (div-eq_of_lt (omega arith))) (omega (arith, (layout bm v pos).enough)) in
      let z : 0 + id ≡ id = omega arith in
      let z' : 0 + (new.bitmap_block_cnt + id) ≡ new.bitmap_block_cnt + id = omega arith in
      (
        h,
        rw
            (
              cleared,
              zeroed_lem new bm inside (replicate bm.block_sz 0)
                  (length-replicate {A = ℕ} bm.block_sz 0),
              ◌>>=◌,
              ◌>>◌,
            )
            (rw z at run),
        kept',
        rw z' at marks,
      )

  constructed :
      (h : ℕ → ℕ)
      → Kept new bm bm.block_data h
      → Marks new bm h (λ x. ltb x (new.bitmap_block_cnt + id))
      → Constructed bm id new (with_data bm h)
  constructed h k m = record {
    at = refl;
    valid = allocator (with_data bm h) id k.device pos within;
    size = refl;
    same_blocks = refl;
    marks = λ b l. m b (omega (arith, (layout bm v pos).enough));
    others = k.others;
    reopened = unfold construct in rw (fields_lem (with_data bm h) id k.device pos within, ◌>>=◌);
  }

pub construct_at :
    (bm : BlockManager) (id : ℕ)
    → IsDevice bm
    → 0 < bm.block_cnt
    → bitmap_blocks bm + id ≤ bm.block_cnt
    → (after : BlockManager) × (construct id true bm ≡ done (ok (allocator_at bm id)) after)
      × Constructed bm id (allocator_at bm id) after
construct_at bm id v pos within =
    let (h, run, kept, marks) = initialize_lem bm id v pos within in
    (
      with_data bm h,
      unfold construct in rw (fields_lem bm id v pos within, ◌>>=◌) (rw (run, ◌>>=◌, ◌>>◌)),
      constructed bm id v pos within h kept marks,
    )

-- Over a well-formed device with at least one block, and with room for the bitmap at the block
-- asked for, the constructor does not fault. The allocator is well-formed on the device that it
-- leaves, and there exactly the blocks below the end of the bitmap are allocated: the reserved ones
-- before it, and its own. No block outside the bitmap changes. A second constructor that does not
-- initialize gives the same allocator and leaves the device as it is.
pub construct-Constructed :
    (bm : BlockManager) (id : ℕ)
    → IsDevice bm
    → 0 < bm.block_cnt
    → bitmap_blocks bm + id ≤ bm.block_cnt
    → (al : BlockAllocator) × (after : BlockManager) × (construct id true bm ≡ done (ok al) after)
      × Constructed bm id al after
construct-Constructed bm id v pos within =
    let (after, run, c) = construct_at bm id v pos within in (allocator_at bm id, after, run, c)
