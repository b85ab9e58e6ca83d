-- ===== src/Allocator/Marking.antt =====
-- The loop of the constructor that marks the reserved blocks, by way of a buffer.
use se3331_labs.Common.{
  ℕ, zero, suc, ◌+◌, ◌*◌, ◌/◌, ◌%◌, ◌<◌, ◌≤◌, ◌≡◌, ◌⊎◌, inl, inr, sym, ◌∙◌, true, false, some, List,
  arith, ltb, ◌==◌, length, length-set, length-replicate, replicate, append-nil, u32, drop_all,
  leb-true, ltb-false,
}
use native.Mathlib.Decide.{ℕ_discrete}
use native.Mathlib.Nat.{mod-lt, div-lt_iff_lt-mul}
use se3331_labs.Common.Numbers.{same_index, le_of_index, next_index}
use se3331_labs.Result.{ok}
use se3331_labs.Bitmap
use se3331_labs.Bitmap.{Bitmap}
use se3331_labs.Bitmap.Bits.{AreBytes, IsBitmap, set_lem, set_bits, bit-set_bits, set_bits-AreBytes}
use se3331_labs.Block.{BlockManager, done, ◌>>=◌, ◌>>◌, splice}
use se3331_labs.Block.Layout.{written}
use se3331_labs.Block.ReadWrite.{write_block_lem}
use se3331_labs.Allocator.{BlockAllocator, mark_loop}
use se3331_labs.Allocator.Layout.{is_allocated, is_allocated-written}
use se3331_labs.Allocator.Zeroing.{
  with_data, Kept, Marks, Kept-written, bit-replicate, zeros-AreBytes,
}

module _ (al : BlockAllocator) (bm : BlockManager)
    (within : al.bitmap_block_id + al.bitmap_block_cnt ≤ bm.block_cnt) where
  -- If the buffer were written back now, the marks would be exactly those below `i`.
  pub record Marking (f : ℕ → ℕ) (i c : ℕ) (buffer : List ℕ) (g : ℕ → ℕ) : Type 0 where
    pub kept : Kept al bm f g
    pub in_bitmap : c < al.bitmap_block_cnt
    pub size : length buffer ≡ bm.block_sz
    pub bytes : AreBytes buffer
    pub marks :
        Marks al bm (splice g ((c + al.bitmap_block_id) * bm.block_sz + 0) buffer) (λ x. ltb x i)

  buffer-IsBitmap :
      (f g : ℕ → ℕ) (i c : ℕ) (buffer : List ℕ)
      → Marking f i c buffer g
      → IsBitmap (record { bytes = buffer; payload = bm.block_sz })
  buffer-IsBitmap f g i c buffer m = record {
    fits = omega (arith, m.size);
    small = m.kept.device.small_blocks;
    bytes = m.bytes;
  }

  set_step :
      (f g : ℕ → ℕ) (i c : ℕ) (buffer : List ℕ) (x : ℕ)
      → Marking f i c buffer g
      → i / (bm.block_sz * 8) ≡ c
      → x < al.bitmap_block_cnt * (bm.block_sz * 8)
      → is_allocated al
          (written
            (with_data bm g)
            (c + al.bitmap_block_id)
            0
            (set_bits (record { bytes = buffer; payload = bm.block_sz }) (i % (bm.block_sz * 8))))
          x
        ≡ ltb x (i + 1)
  set_step f g i c buffer x m e l =
      let v = buffer-IsBitmap f g i c buffer m in
      let pos = m.kept.device.some_bytes in
      let b : Bitmap = record { bytes = buffer; payload = bm.block_sz } in
      let idx = mod-lt i {m = bm.block_sz * 8} (omega arith) in
      let old = sym (is_allocated-written al (with_data bm g) c x buffer m.size) ∙ m.marks x l in
      is_allocated-written al (with_data bm g) c x (set_bits b (i % (bm.block_sz * 8)))
        (length-set buffer _ _ ∙ m.size)
      ∙ rw (bit-set_bits b (i % (bm.block_sz * 8)) v idx (x % (bm.block_sz * 8)))
          (elim (ℕ_discrete x i) [
            | yes p ↦ rw (p, e) (ground arith)
            | no p ↦ ground (arith, old, same_index i x (bm.block_sz * 8))
          ])

  next_step :
      (f g : ℕ → ℕ) (i c : ℕ) (buffer : List ℕ) (x : ℕ)
      → Marking f i c buffer g
      → i / (bm.block_sz * 8) ≡ c + 1
      → i % (bm.block_sz * 8) ≡ 0
      → x < al.bitmap_block_cnt * (bm.block_sz * 8)
      → is_allocated al
          (written
            (with_data bm (splice g ((c + al.bitmap_block_id) * bm.block_sz + 0) buffer))
            (c + 1 + al.bitmap_block_id)
            0
            (replicate bm.block_sz 0))
          x
        ≡ ltb x i
  next_step f g i c buffer x m e z l =
      let pos = m.kept.device.some_bytes in
      is_allocated-written al
        (with_data bm (splice g ((c + al.bitmap_block_id) * bm.block_sz + 0) buffer)) (c + 1) x
        (replicate bm.block_sz 0) (length-replicate {A = ℕ} bm.block_sz 0)
      ∙ elim (ℕ_discrete (c + 1) (x / (bm.block_sz * 8))) [
        | yes q ↦
            let t : (c + 1 == x / (bm.block_sz * 8)) ≡ true = ground arith in
            let beyond : ltb x i ≡ false =
              ltb-false (le_of_index i x (bm.block_sz * 8) (e ∙ q) z) in
            rw (t, beyond)
              (bit-replicate bm.block_sz (x % (bm.block_sz * 8)) (mod-lt x (omega arith)))
        | no q ↦
            let t : (c + 1 == x / (bm.block_sz * 8)) ≡ false = ground arith in rw t (m.marks x l)
      ]

  -- One more bit in the buffer.
  Marking-set :
      (f g : ℕ → ℕ) (i c : ℕ) (buffer : List ℕ)
      → Marking f i c buffer g
      → i / (bm.block_sz * 8) ≡ c
      → Marking f
          (i + 1)
          c
          (set_bits (record { bytes = buffer; payload = bm.block_sz }) (i % (bm.block_sz * 8)))
          g
  Marking-set f g i c buffer m e =
      let b = buffer-IsBitmap f g i c buffer m in
      let pos = m.kept.device.some_bytes in
      let idx = mod-lt i {m = bm.block_sz * 8} (omega arith) in
      record {
        kept = m.kept;
        in_bitmap = m.in_bitmap;
        size = length-set buffer _ _ ∙ m.size;
        bytes = set_bits-AreBytes _ _ b idx;
        marks = λ x l. set_step f g i c buffer x m e l;
      }

  -- The buffer is written back, and a clear one is begun.
  Marking-next :
      (f g : ℕ → ℕ) (i c : ℕ) (buffer : List ℕ)
      → Marking f i c buffer g
      → i / (bm.block_sz * 8) ≡ c + 1
      → i % (bm.block_sz * 8) ≡ 0
      → c + 1 < al.bitmap_block_cnt
      → Marking f i
          (c + 1)
          (replicate bm.block_sz 0)
          (splice g ((c + al.bitmap_block_id) * bm.block_sz + 0) buffer)
  Marking-next f g i c buffer m e z l = record {
    kept = Kept-written al bm f g c buffer m.kept m.in_bitmap m.size m.bytes;
    in_bitmap = l;
    size = length-replicate {A = ℕ} bm.block_sz 0;
    bytes = zeros-AreBytes bm.block_sz;
    marks = λ x q. next_step f g i c buffer x m e z q;
  }

  -- The bitmap over a buffer.
  abbrev pub over : List ℕ → Bitmap
  over buffer = record { bytes = buffer; payload = bm.block_sz }

  pub zeroed_lem :
      (xs : List ℕ)
      → length xs ≡ bm.block_sz
      → Bitmap.zeroed (over xs) ≡ some (over (replicate bm.block_sz 0))
  unfolding Bitmap.zeroed
  zeroed_lem xs e = rw (
    leb-true {a = bm.block_sz} {b = length xs} (omega arith),
    drop_all bm.block_sz xs e,
    append-nil,
  )

  step_same :
      (n i c : ℕ) (f g : ℕ → ℕ) (buffer : List ℕ)
      → Marking f i c buffer g
      → i / (bm.block_sz * 8) ≡ c
      → mark_loop al.bitmap_block_id
          (suc n)
          i
          (c + al.bitmap_block_id)
          (over buffer)
          (with_data bm g)
        ≡ mark_loop al.bitmap_block_id n
            (i + 1)
            (c + al.bitmap_block_id)
            (over (set_bits (over buffer) (i % (bm.block_sz * 8))))
            (with_data bm g)
  unfolding mark_loop
  step_same n i c f g buffer m e =
      let small = m.kept.device.small_blocks in
      let pos = m.kept.device.some_bytes in
      let w : u32 (bm.block_sz * 8) ≡ bm.block_sz * 8 = omega arith in
      let t : (c + al.bitmap_block_id == c + al.bitmap_block_id) ≡ true = ground arith in
      rw (w, e, t)
        (rw (
          set_lem (over buffer) (i % (bm.block_sz * 8)) (buffer-IsBitmap f g i c buffer m)
            (mod-lt i (omega arith))))

  step_next :
      (n i c : ℕ) (f g : ℕ → ℕ) (buffer : List ℕ)
      → Marking f i c buffer g
      → i / (bm.block_sz * 8) ≡ c + 1
      → i % (bm.block_sz * 8) ≡ 0
      → c + 1 < al.bitmap_block_cnt
      → mark_loop al.bitmap_block_id
          (suc n)
          i
          (c + al.bitmap_block_id)
          (over buffer)
          (with_data bm g)
        ≡ mark_loop al.bitmap_block_id n
            (i + 1)
            (c + 1 + al.bitmap_block_id)
            (over (set_bits (over (replicate bm.block_sz 0)) (i % (bm.block_sz * 8))))
            (with_data bm (splice g ((c + al.bitmap_block_id) * bm.block_sz + 0) buffer))
  unfolding mark_loop
  step_next n i c f g buffer m e z q =
      let small = m.kept.device.small_blocks in
      let pos = m.kept.device.some_bytes in
      let after = Marking-next f g i c buffer m e z q in
      let w : u32 (bm.block_sz * 8) ≡ bm.block_sz * 8 = omega arith in
      let t : (c + 1 + al.bitmap_block_id == c + al.bitmap_block_id) ≡ false = ground arith in
      rw (w, e, t)
        (rw
          (
            write_block_lem (with_data bm g) (c + al.bitmap_block_id) m.kept.device
                (omega (arith, m.in_bitmap)) buffer m.size,
            zeroed_lem buffer m.size,
            ◌>>=◌,
            ◌>>◌,
          )
          (rw (
            set_lem (over (replicate bm.block_sz 0)) (i % (bm.block_sz * 8))
              (buffer-IsBitmap f _ i (c + 1) (replicate bm.block_sz 0) after)
              (mod-lt i (omega arith)))))

  -- Where bit `i` goes: into the buffer, or into the first place of the next one.
  abbrev pub Position : ℕ → ℕ → Type 0
  Position i c =
      (i / (bm.block_sz * 8) ≡ c) ⊎ ((i / (bm.block_sz * 8) ≡ c + 1) × (i % (bm.block_sz * 8) ≡ 0))

  pub mark_loop_lem :
      (n i c : ℕ) (f g : ℕ → ℕ) (buffer : List ℕ)
      → Marking f i c buffer g
      → Position i c
      → i + n ≤ al.bitmap_block_cnt * (bm.block_sz * 8)
      → (h : ℕ → ℕ) × (mark_loop al.bitmap_block_id n i
            (c + al.bitmap_block_id)
            (over buffer)
            (with_data bm g)
          ≡ done (ok tt) (with_data bm h))
        × Kept al bm f h
        × Marks al bm h (λ x. ltb x (i + n))
  mark_loop_lem zero i c f g buffer m w l =
      let z : i + 0 ≡ i = omega arith in
      (
        splice g ((c + al.bitmap_block_id) * bm.block_sz + 0) buffer,
        unfold mark_loop in
            write_block_lem (with_data bm g) (c + al.bitmap_block_id) m.kept.device
              (omega (arith, m.in_bitmap)) buffer m.size,
        Kept-written al bm f g c buffer m.kept m.in_bitmap m.size m.bytes,
        rw z m.marks,
      )
  mark_loop_lem (suc n) i c f g buffer m (inl e) l =
      let pos = m.kept.device.some_bytes in
      let s : i + suc n ≡ i + 1 + n = omega arith in
      let (h, run, kept, marks) =
        mark_loop_lem n (i + 1) c f g _ (Marking-set f g i c buffer m e)
          (next_index i c (bm.block_sz * 8) (omega arith) e) (omega arith) in
      (h, step_same n i c f g buffer m e ∙ run, kept, rw s marks)
  mark_loop_lem (suc n) i c f g buffer m (inr (e, z)) l =
      let pos = m.kept.device.some_bytes in
      let s : i + suc n ≡ i + 1 + n = omega arith in
      let q : c + 1 < al.bitmap_block_cnt = rw e at (
        (div-lt_iff_lt-mul {k = bm.block_sz * 8} {x = i} {y = al.bitmap_block_cnt} (omega arith)).1
          (omega arith)) in
      let after = Marking-next f g i c buffer m e z q in
      let (h, run, kept, marks) =
        mark_loop_lem n (i + 1) (c + 1) f _ _
          (Marking-set f _ i (c + 1) (replicate bm.block_sz 0) after e)
          (next_index i (c + 1) (bm.block_sz * 8) (omega arith) e) (omega arith) in
      (h, step_next n i c f g buffer m e z q ∙ run, kept, rw s marks)
