-- ===== src/Block/Layout.antt =====
-- The device as an array of blocks: well-formed devices, the contents of a block, and a device
-- with one block replaced.
use se3331_labs.Common.{
  ℕ, ◌+◌, ◌-◌, ◌*◌, ◌<◌, ◌≤◌, ◌≡◌, ◌≢◌, ◌⊎◌, sym, ap, ◌∙◌, inl, inr, ◌&&◌, List, arith, ltb, leb,
  if◌then◌else◌, length, get_or, tabulate, length-tabulate, get_or-tabulate, list_ext,
  get_or_beyond, u32_mod,
}
use native.Mathlib.Decide.{dec_lt}
use se3331_labs.Block.{BlockManager, storage_bytes, offset_of, splice}

pub record IsDevice (bm : BlockManager) : Type 0 where
  pub some_bytes : 0 < bm.block_sz
  pub small_blocks : bm.block_sz * 8 < u32_mod
  pub few_blocks : bm.block_cnt < u32_mod
  pub bytes : (k : ℕ) → bm.block_data k < 256

-- The contents of a block.
unfoldable pub block : BlockManager → ℕ → List ℕ
block bm id = tabulate bm.block_sz (id * bm.block_sz) bm.block_data

-- The device after the bytes `xs` are written from byte `offset` of a block on.
abbrev pub written : BlockManager → ℕ → ℕ → List ℕ → BlockManager
written bm id offset xs = record bm {
  block_data = splice bm.block_data (id * bm.block_sz + offset) xs;
}

pub length-block : (bm : BlockManager) (id : ℕ) → length (block bm id) ≡ bm.block_sz
unfolding block
length-block bm id = length-tabulate bm.block_sz _ _

pub get_or-block :
    (bm : BlockManager) (id k : ℕ)
    → k < bm.block_sz
    → get_or (block bm id) k 0 ≡ bm.block_data (id * bm.block_sz + k)
unfolding block
get_or-block bm id k h = get_or-tabulate bm.block_sz _ k _ 0 h

pub block-bytes :
    (bm : BlockManager) (id : ℕ) → IsDevice bm → (k : ℕ) → get_or (block bm id) k 0 < 256
block-bytes bm id v k = elim (dec_lt k bm.block_sz) [
  | yes q ↦ rw (get_or-block bm id k q) (v.bytes _)
  | no q ↦ rw (get_or_beyond (block bm id) k 0 (omega (arith, length-block bm id))) (omega arith)
]

-- A block of the device lies within it.
pub block_fits :
    (bm : BlockManager) (id : ℕ)
    → id < bm.block_cnt
    → id * bm.block_sz + bm.block_sz ≤ storage_bytes bm
block_fits bm id h = grind arith

pub offset_of-eq :
    (bm : BlockManager) (id : ℕ)
    → IsDevice bm
    → id < bm.block_cnt
    → offset_of bm id ≡ id * bm.block_sz
offset_of-eq bm id v h =
    let s = v.small_blocks in
    let c = v.few_blocks in
    let f = block_fits bm id h in
    let g : bm.block_cnt * bm.block_sz ≤ u32_mod * bm.block_sz = grind arith in omega arith

block_before : (a b s : ℕ) → a < b → a * s + s ≤ b * s
block_before a b s h = grind arith

-- Blocks do not overlap.
pub blocks_apart : (a b s : ℕ) → a ≢ b → (a * s + s ≤ b * s) ⊎ (b * s + s ≤ a * s)
blocks_apart a b s h = elim (dec_lt a b) [
  | yes l ↦ inl (block_before a b s l)
  | no l ↦ inr (block_before b a s (omega arith))
]

module _ (bm : BlockManager) (id offset : ℕ) (xs : List ℕ)
    (h : offset + length xs ≤ bm.block_sz) where
  -- A write into one block is not seen in another.
  pub block-written_ne : (j : ℕ) → id ≢ j → block (written bm id offset xs) j ≡ block bm j
  unfolding splice
  block-written_ne j ne =
      list_ext _ _ 0 (length-block (written bm id offset xs) j ∙ sym (length-block bm j)) λ k q.
        let q' : k < bm.block_sz = omega (arith, length-block (written bm id offset xs) j) in
        rw (get_or-block (written bm id offset xs) j k q', get_or-block bm j k q')
          (ground (arith, blocks_apart id j bm.block_sz ne))

  -- Within the block, the bytes written are seen, and the others are as they were.
  pub get_or-block-written :
      (k : ℕ)
      → k < bm.block_sz
      → get_or (block (written bm id offset xs) id) k 0 ≡ (
          if leb offset k && ltb k (offset + length xs)
          then get_or xs (k - offset) 0
          else get_or (block bm id) k 0)
  unfolding splice
  get_or-block-written k q =
      let e : id * bm.block_sz + k - (id * bm.block_sz + offset) ≡ k - offset = omega arith in
      rw (get_or-block (written bm id offset xs) id k q, get_or-block bm id k q)
        (ground (arith, ap (λ t. get_or xs t 0) e))

pub block-written :
    (bm : BlockManager) (id : ℕ) (xs : List ℕ)
    → length xs ≡ bm.block_sz
    → block (written bm id 0 xs) id ≡ xs
block-written bm id xs e = list_ext _ _ 0 (length-block (written bm id 0 xs) id ∙ sym e) λ k q.
    let q' : k < bm.block_sz = omega (arith, length-block (written bm id 0 xs) id) in
    get_or-block-written bm id 0 xs (omega arith) k q' ∙ ground arith
