-- ===== src/FileOperation/RoundTrip.antt =====
-- src/filesystem/data_op.cc: the loops that write and read a file's contents, over direct blocks.
use se3331_labs.Common.{
  ℕ, zero, suc, ◌+◌, ◌-◌, ◌*◌, ◌/◌, ◌<◌, ◌≤◌, ◌≡◌, ◌≢◌, refl, sym, ap, ◌∙◌, arith, true, some, List,
  [], ◌∷◌, ◌++◌, ltb, if◌then◌else◌, length, take, drop, replicate, length-append, length-take,
  length-drop, length-replicate, append_assoc, append-nil, ltb-false, lt→ltb, u32, u32_mod,
}
use mathlib.Core.Path.{subst}
use se3331_labs.Common.Numbers.{index_div}
use se3331_labs.Result.{ok}
use se3331_labs.Bitmap.Bits.{AreBytes}
use se3331_labs.Fields.RoundTrip.{append-bytes, take-bytes, drop-bytes}
use se3331_labs.Block.{BlockManager, done, ◌>>=◌}
use se3331_labs.Block.Layout.{IsDevice, block, written, block-written, block-written_ne}
use se3331_labs.Block.ReadWrite.{read_block_lem, write_block_lem, written-IsDevice}
use se3331_labs.Allocator.Zeroing.{zeros-AreBytes}
use se3331_labs.Inode
use se3331_labs.InodeManager.{nonzero}
use se3331_labs.FileOperation.Data.{Held, locate, write_loop, read_loop}

-- The first `count` blocks of the file are direct, distinct blocks of a device of `cnt` blocks.
pub record DirectBlocks (h : Held) (inlined cnt count : ℕ) (blocks : ℕ → ℕ) : Type 0 where
  pub number : Inode.get_direct_block_num h.inode ≡ some inlined
  pub are_direct : (i : ℕ) → i < count → Inode.is_direct_block h.inode i ≡ some true
  pub ids : (i : ℕ) → i < count → Inode.block_at h.inode i ≡ some (blocks i)
  pub inside : (i : ℕ) → i < count → blocks i < cnt
  pub apart : (i j : ℕ) → i < j → j < count → blocks i ≢ blocks j

-- A block's share of what is to be written, filled up with zeros.
abbrev pub padded : (sz : ℕ) → List ℕ → List ℕ
padded sz xs = take sz xs ++ replicate (sz - length (take sz xs)) 0

-- The blocks of `sz` bytes from the index `idx` on hold `rest`: rounds left.
unfoldable pub Holds : (sz : ℕ) → BlockManager → (blocks : ℕ → ℕ) → ℕ → (idx : ℕ) → List ℕ → Type 0
Holds sz bm blocks zero idx rest = Unit
Holds sz bm blocks (suc n) idx [] = Unit
Holds sz bm blocks (suc n) idx (byte ∷ rest) =
    (block bm (blocks idx) ≡ padded sz (byte ∷ rest))
    × Holds sz bm blocks n (idx + 1) (drop sz (byte ∷ rest))

-- What writing `rest` to the blocks from `idx` on makes of a device.
pub record Laid (bm : BlockManager) (blocks : ℕ → ℕ) (count n idx : ℕ) (rest : List ℕ)
    (after : BlockManager) : Type 0 where
  pub device : IsDevice after
  pub same_sz : after.block_sz ≡ bm.block_sz
  pub same_cnt : after.block_cnt ≡ bm.block_cnt
  pub kept : (b : ℕ) → ((i : ℕ) → idx ≤ i → i < count → b ≢ blocks i) → block after b ≡ block bm b
  pub holds : Holds bm.block_sz after blocks n idx rest

length-padded : (sz : ℕ) (xs : List ℕ) → length (padded sz xs) ≡ sz
length-padded sz xs = omega (
  arith,
  length-append (take sz xs) (replicate (sz - length (take sz xs)) 0),
  length-take sz xs,
  length-replicate {A = ℕ} (sz - length (take sz xs)) 0,
)

take-append : (n : ℕ) (xs ys : List ℕ) → length xs ≡ n → take n (xs ++ ys) ≡ xs
take-append zero [] ys e = refl
take-append zero (x ∷ xs) ys e = absurd (omega arith)
take-append (suc n) [] ys e = absurd (omega arith)
take-append (suc n) (x ∷ xs) ys e = rw (take-append n xs ys (omega arith))

append-take-drop : (n : ℕ) (xs : List ℕ) → take n xs ++ drop n xs ≡ xs
append-take-drop zero xs = refl
append-take-drop (suc n) [] = refl
append-take-drop (suc n) (x ∷ xs) = rw (append-take-drop n xs)

index_below : (i c s r : ℕ) → 0 < r → i * s + r ≤ c * s → i < c
index_below i c s r p l = grind arith

rest_fits : (i c s r : ℕ) → 0 < r → i * s + r ≤ c * s → (i + 1) * s + (r - s) ≤ c * s
rest_fits i c s r p l = grind (arith, index_below i c s r p l)

padded-AreBytes : (sz n : ℕ) (xs : List ℕ) → AreBytes xs → AreBytes (take sz xs ++ replicate n 0)
padded-AreBytes sz n xs h = append-bytes (take sz xs) _ (take-bytes sz xs h) (zeros-AreBytes n)

module _ (h : Held) (inlined count : ℕ) (blocks : ℕ → ℕ) where
  locate_lem :
      (bm : BlockManager) (idx below : ℕ)
      → DirectBlocks h inlined bm.block_cnt count blocks
      → idx < count
      → locate idx below h bm ≡ done (ok (blocks idx, h)) bm
  unfolding locate
  locate_lem bm idx below d l = rw (◌>>=◌, d.are_direct idx l, d.ids idx l)

  -- One block is written, and then the others.
  Laid-step :
      (n idx byte : ℕ) (rest : List ℕ) (bm after : BlockManager)
      → DirectBlocks h inlined bm.block_cnt count blocks
      → idx < count
      → Laid
          (written bm (blocks idx) 0 (padded bm.block_sz (byte ∷ rest)))
          blocks
          count
          n
          (idx + 1)
          (drop bm.block_sz (byte ∷ rest))
          after
      → Laid bm blocks count (suc n) idx (byte ∷ rest) after
  unfolding Holds
  Laid-step n idx byte rest bm after d l r = record {
    device = r.device;
    same_sz = r.same_sz;
    same_cnt = r.same_cnt;
    kept = λ b k.
        r.kept b (λ i p q. k i (omega arith) q)
        ∙ block-written_ne bm (blocks idx) 0 out (omega (arith, full)) b
            (λ e. k idx (omega arith) l (sym e));
    holds = (
      r.kept (blocks idx) (λ i p q. d.apart idx i (omega arith) q)
          ∙ block-written bm (blocks idx) out full,
      r.holds,
    );
  }
    where
      out : List ℕ
      out = padded bm.block_sz (byte ∷ rest)

      full : length (padded bm.block_sz (byte ∷ rest)) ≡ bm.block_sz
      full = length-padded bm.block_sz (byte ∷ rest)

  pub write_loop-Laid :
      (n idx : ℕ) (rest : List ℕ) (bm : BlockManager)
      → IsDevice bm
      → DirectBlocks h inlined bm.block_cnt count blocks
      → AreBytes rest
      → length rest ≤ n
      → idx * bm.block_sz + length rest ≤ count * bm.block_sz
      → (after : BlockManager) × (write_loop inlined n idx rest h bm ≡ done (ok h) after)
        × Laid bm blocks count n idx rest after
  unfolding write_loop Holds
  write_loop-Laid zero idx rest bm v d b f l = (
    bm,
    refl,
    record { device = v; same_sz = refl; same_cnt = refl; kept = λ b k. refl; holds = tt },
  )
  write_loop-Laid (suc n) idx [] bm v d b f l = (
    bm,
    refl,
    record { device = v; same_sz = refl; same_cnt = refl; kept = λ b k. refl; holds = tt },
  )
  write_loop-Laid (suc n) idx (byte ∷ rest) bm v d b f l =
      let full = length-padded bm.block_sz (byte ∷ rest) in
      let below : idx < count =
        index_below idx count bm.block_sz (length (byte ∷ rest)) (omega arith) l in
      let bytes = padded-AreBytes bm.block_sz _ (byte ∷ rest) b in
      let (after, run, laid) =
        write_loop-Laid n (idx + 1) (drop bm.block_sz (byte ∷ rest))
          (written bm (blocks idx) 0 (padded bm.block_sz (byte ∷ rest)))
          (written-IsDevice bm (blocks idx) 0 (padded bm.block_sz (byte ∷ rest)) v bytes) d
          (drop-bytes bm.block_sz (byte ∷ rest) b)
          (omega (arith, length-drop bm.block_sz (byte ∷ rest), v.some_bytes))
          (rw (length-drop bm.block_sz (byte ∷ rest))
            (rest_fits idx count bm.block_sz (length (byte ∷ rest)) (omega arith) l)) in
      (
        after,
        rw
            (
              ◌>>=◌,
              locate_lem bm idx (u32 (idx + u32_mod - inlined)) d below,
              write_block_lem bm (blocks idx) v (d.inside idx below)
                  (padded bm.block_sz (byte ∷ rest)) full,
            )
            run,
        Laid-step n idx byte rest bm after d below laid,
      )

abbrev piece : (per left : ℕ) → ℕ
piece per left = if ltb per left then per else left

-- Of a filled up block, what is left of the file is taken, or the whole block.
take-padded : (sz : ℕ) (xs : List ℕ) → take (piece sz (length xs)) (padded sz xs) ≡ take sz xs
take-padded sz xs =
    ap (λ t. take t (padded sz xs)) (ground (arith, length-take sz xs))
    ∙ take-append (length (take sz xs)) (take sz xs) _ refl

module _ (h : Held) (inlined count : ℕ) (blocks : ℕ → ℕ) (bm : BlockManager) (v : IsDevice bm)
    (d : DirectBlocks h inlined bm.block_cnt count blocks) where
  read_end :
      (n file_sz : ℕ) (content : List ℕ)
      → read_loop file_sz n file_sz content h bm ≡ done (ok content) bm
  unfolding read_loop
  read_end zero file_sz content = refl
  read_end (suc n) file_sz content = rw (ltb-false {a = file_sz} {b = file_sz} (omega arith))

  index_of : (idx : ℕ) → idx * bm.block_sz / bm.block_sz ≡ idx
  index_of idx =
      ap (λ (t : ℕ). t / bm.block_sz) (omega arith) ∙ index_div idx 0 bm.block_sz v.some_bytes

  nonzero_lem : nonzero bm.block_sz bm ≡ done (ok bm.block_sz) bm
  unfolding nonzero
  nonzero_lem = rw (lt→ltb 0 bm.block_sz v.some_bytes) refl

  pub read_loop-Holds :
      (n idx file_sz read_sz : ℕ) (content rest : List ℕ)
      → Holds bm.block_sz bm blocks n idx rest
      → length rest ≤ n
      → (0 < length rest → read_sz ≡ idx * bm.block_sz)
      → read_sz + length rest ≡ file_sz
      → idx * bm.block_sz + length rest ≤ count * bm.block_sz
      → read_loop file_sz n read_sz content h bm ≡ done (ok (content ++ rest)) bm
  unfolding read_loop Holds
  read_loop-Holds n idx file_sz read_sz content [] k f e s l =
      let over : read_sz ≡ file_sz = omega arith in
      ap (λ (t : ℕ). read_loop file_sz n t content h bm) over
      ∙ read_end n file_sz content
      ∙ ap (λ c. done (ok c) bm) (sym (append-nil content))
  read_loop-Holds zero idx file_sz read_sz content (byte ∷ rest) k f e s l = absurd (omega arith)
  read_loop-Holds (suc n) idx file_sz read_sz content (byte ∷ rest) k f e s l =
      let xs = byte ∷ rest in
      let sz = bm.block_sz in
      let start : read_sz ≡ idx * sz = e (omega arith) in
      let place : read_sz / sz ≡ idx = ap (λ (t : ℕ). t / sz) start ∙ index_of idx in
      let left : file_sz - read_sz ≡ length (byte ∷ rest) = omega arith in
      let taken : take (piece sz (file_sz - read_sz)) (block bm (blocks idx)) ≡ take sz xs =
        ap (λ (t : ℕ). take (piece sz t) (block bm (blocks idx))) left
        ∙ ap (take (piece sz (length xs))) k.0
        ∙ take-padded sz xs in
      let below = index_below idx count sz (length (byte ∷ rest)) (omega arith) l in
      rw
        (
          lt→ltb read_sz file_sz (omega arith),
          ◌>>=◌,
          nonzero_lem,
          d.number,
          ap (Inode.is_direct_block h.inode) place ∙ d.are_direct idx below,
          ap (Inode.block_at h.inode) place ∙ d.ids idx below,
          read_block_lem bm (blocks idx) v (d.inside idx below) (replicate sz 0)
              (length-replicate {A = ℕ} sz 0),
        )
        (ap
            (λ ys.
              read_loop file_sz n (read_sz + piece sz (file_sz - read_sz)) (content ++ ys) h bm)
            taken
          ∙ read_loop-Holds n (idx + 1) file_sz (read_sz + piece sz (file_sz - read_sz))
              (content ++ take sz xs) (drop sz xs) k.1
              (omega (arith, length-drop sz xs, v.some_bytes))
              (λ p. ground (arith, length-drop sz xs)) (ground (arith, length-drop sz xs))
              (rw (length-drop sz xs) (rest_fits idx count sz (length xs) (omega arith) l))
          ∙ ap (λ ys. done (ok ys) bm)
              (append_assoc content (take sz xs) (drop sz xs)
                ∙ ap (λ ys. content ++ ys) (append-take-drop sz xs)))

-- Where the blocks of the file stay as they are, what they hold stays.
pub Holds-kept :
    (count sz : ℕ) (bm other : BlockManager) (blocks : ℕ → ℕ) (n idx : ℕ) (rest : List ℕ)
    → ((i : ℕ) → i < count → block other (blocks i) ≡ block bm (blocks i))
    → idx * sz + length rest ≤ count * sz
    → Holds sz bm blocks n idx rest
    → Holds sz other blocks n idx rest
unfolding Holds
Holds-kept count sz bm other blocks zero idx rest k l h = tt
Holds-kept count sz bm other blocks (suc n) idx [] k l h = tt
Holds-kept count sz bm other blocks (suc n) idx (byte ∷ rest) k l h = (
  k idx (index_below idx count sz (length (byte ∷ rest)) (omega arith) l) ∙ h.0,
  Holds-kept count sz bm other blocks n (idx + 1) (drop sz (byte ∷ rest)) k
      (rw (length-drop sz (byte ∷ rest))
        (rest_fits idx count sz (length (byte ∷ rest)) (omega arith) l))
      h.1,
)

-- What the blocks from the first on hold is read.
pub read_loop_held :
    (h : Held) (inlined count : ℕ) (blocks : ℕ → ℕ) (content : List ℕ) (bm after : BlockManager)
    → DirectBlocks h inlined bm.block_cnt count blocks
    → length content ≤ count * bm.block_sz
    → IsDevice after
    → after.block_sz ≡ bm.block_sz
    → after.block_cnt ≡ bm.block_cnt
    → Holds bm.block_sz after blocks (length content) 0 content
    → read_loop (length content) (length content) 0 [] h after ≡ done (ok content) after
read_loop_held h inlined count blocks content bm after d l v s c k =
    read_loop-Holds h inlined count blocks after v
      (subst (λ (n : ℕ). DirectBlocks h inlined n count blocks) (sym c) d) (length content) 0
      (length content) 0 [] content
      (subst (λ (n : ℕ). Holds n after blocks (length content) 0 content) (sym s) k) (omega arith)
      (λ p. omega arith) (omega arith) (let e = ap (λ (n : ℕ). count * n) s in omega arith)
