-- ===== src/Block/Walk.antt =====
-- The iterator at the start of a block of its range.
use se3331_labs.Common.{
  ℕ, ◌+◌, ◌-◌, ◌*◌, ◌/◌, ◌%◌, ◌<◌, ◌≤◌, ◌≡◌, sym, ap, ◌∙◌, Bool, List, arith, ltb, lt→ltb,
  ltb-false, eq_false, if◌then◌else◌, replicate, length-replicate, u64, u64_mod, u32_mod,
}
use native.Mathlib.Decide.{dec_lt}
use se3331_labs.Common.Numbers.{index_div, index_mod}
use se3331_labs.Result.{ok}
use se3331_labs.Block.{BlockManager, done, ◌>>=◌, attempt, write_block}
use se3331_labs.Block.Layout.{IsDevice, block, length-block}
use se3331_labs.Block.ReadWrite.{read_block_lem}
use se3331_labs.Block.Iterator.{
  BlockIterator, create, next, refreshed, has_next, flush_cur_block, unsafe_get_value_ptr,
  write_through,
}

-- A range of `n` blocks from `first` on, with a block behind it on the device.
pub record IsRange (bm : BlockManager) (first n : ℕ) : Type 0 where
  pub device : IsDevice bm
  pub within : first + n < bm.block_cnt

-- The iterator at block `i` of the range.
abbrev pub at_block : BlockManager → (first n i : ℕ) → BlockIterator
at_block bm first n i = record {
  cur_block_off = i * bm.block_sz;
  start_block_id = first;
  end_block_id = first + n;
  buffer = block bm (first + i);
}

module _ (bm : BlockManager) (first n : ℕ) (v : IsRange bm first n) where
  index : (i : ℕ) → i * bm.block_sz / bm.block_sz ≡ i
  index i =
      let p = v.device.some_bytes in
      let e : i * bm.block_sz + 0 ≡ i * bm.block_sz = omega arith in
      rw e at (index_div i 0 bm.block_sz p)

  offset : (i : ℕ) → i * bm.block_sz % bm.block_sz ≡ 0
  offset i =
      let p = v.device.some_bytes in
      let e : i * bm.block_sz + 0 ≡ i * bm.block_sz = omega arith in
      rw e at (index_mod i 0 bm.block_sz p)

  bounded : (i : ℕ) → i ≤ n + 1 → i * bm.block_sz < u64_mod
  bounded i h =
      let s = v.device.small_blocks in
      let c = v.device.few_blocks in
      let w = v.within in
      let g : i * bm.block_sz ≤ u32_mod * bm.block_sz = grind arith in omega arith

  pub create_lem : create first (first + n) bm ≡ done (ok (at_block bm first n 0)) bm
  unfolding create
  create_lem =
      let w = v.within in
      let c = v.device.few_blocks in
      let z : 0 / bm.block_sz ≡ 0 = omega arith in
      let t : u64 (0 + first) ≡ first + 0 = omega arith in
      let o : 0 * bm.block_sz ≡ 0 = omega arith in
      rw (z, t)
        (rw
          (
            read_block_lem bm (first + 0) v.device (omega arith) (replicate bm.block_sz 0)
                (length-replicate bm.block_sz 0),
            ◌>>=◌,
          )
          (rw o))

  less : (i : ℕ) → i < n → i * bm.block_sz < n * bm.block_sz
  less i h =
      let p = v.device.some_bytes in
      let g : (i + 1) * bm.block_sz ≤ n * bm.block_sz = grind arith in omega arith

  all_done : (i : ℕ) → i ≤ n → ¬ (i < n) → i ≡ n
  all_done i h q = omega arith

  pub has_next_lem : (i : ℕ) → i ≤ n → has_next (at_block bm first n i) bm ≡ done (ok (ltb i n)) bm
  unfolding has_next
  has_next_lem i h =
      let w = v.within in
      let c = v.device.few_blocks in
      let d : u64 (first + n + u64_mod - first) ≡ n = omega arith in
      let m : u64 (n * bm.block_sz) ≡ n * bm.block_sz = omega (arith, bounded n (omega arith)) in
      rw (d, m)
        (ap (λ (b : Bool). done (ok b) bm)
          (elim (dec_lt i n) [
            | yes q ↦
                lt→ltb (i * bm.block_sz) (n * bm.block_sz) (omega (arith, less i q))
                ∙ sym (lt→ltb i n q)
            | no q ↦
                ltb-false {a = i * bm.block_sz} {b = n * bm.block_sz}
                  (omega (arith, ap (λ (t : ℕ). t * bm.block_sz) (all_done i h q)))
                ∙ sym (ltb-false {a = i} {b = n} (omega arith))
          ]))

  pub next_lem :
      (i : ℕ)
      → i < n
      → next (at_block bm first n i) bm.block_sz bm
        ≡ done (ok (at_block bm first n (i + 1), ok tt)) bm
  unfolding next refreshed
  next_lem i h =
      let w = v.within in
      let c = v.device.few_blocks in
      let e : u64 (i * bm.block_sz + bm.block_sz) ≡ (i + 1) * bm.block_sz =
        omega (arith, bounded (i + 1) (omega arith)) in
      let t : u64 (first + (i + 1)) ≡ first + (i + 1) = omega arith in
      rw (e, index i, index (i + 1), t)
        (rw
          (
            eq_false {a = i + 1} {b = i} (λ q. omega arith),
            ltb-false {a = first + n} {b = first + (i + 1)} (omega arith),
          )
          (rw (
            attempt,
            ◌>>=◌,
            if◌then◌else◌,
            read_block_lem bm (first + (i + 1)) v.device (omega arith) (block bm (first + i))
                (length-block bm (first + i)),
          )))

  pub value_lem :
      (i : ℕ)
      → unsafe_get_value_ptr (at_block bm first n i) bm ≡ done (ok (block bm (first + i))) bm
  unfolding unsafe_get_value_ptr
  value_lem i = rw (offset i)

  pub write_through_lem :
      (i : ℕ) (bytes : List ℕ)
      → write_through (at_block bm first n i) bytes bm
        ≡ done (ok (record (at_block bm first n i) { buffer = bytes })) bm
  unfolding write_through
  write_through_lem i bytes = rw (offset i)

  pub flush_cur_block_lem :
      (i : ℕ) (bytes : List ℕ)
      → i < n
      → flush_cur_block (record (at_block bm first n i) { buffer = bytes }) bm
        ≡ write_block (first + i) bytes bm
  unfolding flush_cur_block
  flush_cur_block_lem i bytes h =
      let w = v.within in
      let c = v.device.few_blocks in
      let t : u64 (first + i) ≡ first + i = omega arith in rw (index i, t)
