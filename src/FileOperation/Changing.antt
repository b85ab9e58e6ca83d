-- ===== src/FileOperation/Changing.antt =====
-- src/filesystem/data_op.cc: `write_file_w_off` and `resize` on the contents of a file.
use se3331_labs.Common.{
  ℕ, zero, suc, ◌+◌, ◌-◌, ◌<◌, ◌≤◌, ◌≡◌, refl, sym, ap, ◌∙◌, arith, List, [], ◌∷◌, ◌++◌, ltb, leb,
  ◌==◌, ◌&&◌, if◌then◌else◌, length, take, drop, replicate, u64, u64_mod, leb-true, length-append,
  length-take, length-drop, length-replicate, get_or, get_or_beyond, get_or-replicate, eq_false,
  true,
}
use native.Mathlib.Decide.{dec_lt, ℕ_discrete}
use se3331_labs.Result.{ok}
use se3331_labs.Block.{BlockManager, done, ◌>>=◌}
use se3331_labs.Block.Layout.{block, length-block}
use se3331_labs.Fields.RoundTrip.{
  get_or-drop, get_or-take, get_or-append_front, get_or-append_back, load-total,
}
use se3331_labs.Inode
use se3331_labs.Inode.{FileAttr}
use se3331_labs.InodeManager
use se3331_labs.InodeManager.{raw_to_logic}
use se3331_labs.FileOperation.{FileOperation}
use se3331_labs.FileOperation.Data.{getattr, write_file_w_off, resize, resized_to}
use se3331_labs.FileOperation.Rewriting.{HasFile, read_inode_lem}
use se3331_labs.FileOperation.Sequence.{Contains, Replaces, read_file-Contains, write_file-Contains}

-- The contents that a write of `sz` bytes at an offset starts from.
abbrev pub grown : (content : List ℕ) → (sz offset : ℕ) → List ℕ
grown content sz offset =
    if ltb (length content) (u64 (offset + sz))
    then resized_to (u64 (offset + sz)) content
    else content

abbrev pub overlaid : (content data_bytes : List ℕ) → (sz offset : ℕ) → List ℕ
overlaid content data_bytes sz offset =
    take offset (grown content sz offset)
    ++ (take sz data_bytes ++ drop (offset + sz) (grown content sz offset))

length-resized_to : (n : ℕ) (content : List ℕ) → length (resized_to n content) ≡ n
unfolding resized_to
length-resized_to n content = omega (
  arith,
  length-append (take n content) (replicate (n - length content) 0),
  length-take n content,
  length-replicate {A = ℕ} (n - length content) 0,
)

length-grown :
    (content : List ℕ) (sz offset : ℕ)
    → offset + sz < u64_mod
    → offset + sz ≤ length (grown content sz offset)
length-grown content sz offset s = ground (arith, length-resized_to (u64 (offset + sz)) content)

take_beyond : (n : ℕ) (xs : List ℕ) → length xs ≤ n → take n xs ≡ xs
take_beyond zero [] l = refl
take_beyond zero (x ∷ xs) l = absurd (omega arith)
take_beyond (suc n) [] l = refl
take_beyond (suc n) (x ∷ xs) l = rw (take_beyond n xs (omega arith)) refl

get_or-zeros : (n k : ℕ) → get_or {A = ℕ} (replicate n 0) k 0 ≡ 0
get_or-zeros n k = elim (dec_lt k n) [
  | yes l ↦ get_or-replicate n k 0 0 l
  | no l ↦ get_or_beyond (replicate n 0) k 0 (omega (arith, length-replicate {A = ℕ} n 0))
]

-- Behind the first list.
get_or-later :
    (xs ys : List ℕ) (k : ℕ) → length xs ≤ k → get_or (xs ++ ys) k 0 ≡ get_or ys (k - length xs) 0
get_or-later xs ys k l =
    let e : k ≡ length xs + (k - length xs) = omega arith in
    ap (λ (t : ℕ). get_or (xs ++ ys) t 0) e ∙ get_or-append_back xs ys (k - length xs)

get_or-resized_to :
    (n k : ℕ) (content : List ℕ)
    → length content ≤ n
    → get_or (resized_to n content) k 0 ≡ get_or content k 0
unfolding resized_to
get_or-resized_to n k content l = rw (take_beyond n content l) (elim (dec_lt k (length content)) [
  | yes q ↦ get_or-append_front content (replicate (n - length content) 0) k q
  | no q ↦
      get_or-later content (replicate (n - length content) 0) k (omega arith)
      ∙ get_or-zeros (n - length content) (k - length content)
      ∙ sym (get_or_beyond content k 0 (omega arith))
])

get_or-grown :
    (content : List ℕ) (sz offset k : ℕ) → get_or (grown content sz offset) k 0 ≡ get_or content k 0
get_or-grown content sz offset k = ground (arith, get_or-resized_to (u64 (offset + sz)) k content)

get_or-resized :
    (n k : ℕ) (content : List ℕ) → k < n → get_or (resized_to n content) k 0 ≡ get_or content k 0
unfolding resized_to
get_or-resized n k content l = elim (dec_lt k (length content)) [
  | yes q ↦
      get_or-append_front (take n content) (replicate (n - length content) 0) k
        (omega (arith, length-take n content))
      ∙ get_or-take n content k l
  | no q ↦ get_or-resized_to n k content (omega arith)
]

-- Where a list is written over another, its elements are found.
get_or-over :
    (offset : ℕ) (xs ys : List ℕ) (k : ℕ)
    → offset + length xs ≤ length ys
    → get_or (take offset ys ++ (xs ++ drop (offset + length xs) ys)) k 0 ≡ (
        if leb offset k && ltb k (offset + length xs)
        then get_or xs (k - offset) 0
        else get_or ys k 0)
get_or-over offset xs ys k l = elim (dec_lt k offset) [
  | yes q ↦
      get_or-append_front (take offset ys) _ k (omega (arith, front))
      ∙ get_or-take offset ys k q
      ∙ ground arith
  | no q ↦
      get_or-later (take offset ys) _ k (omega (arith, front))
      ∙ ap (λ (t : ℕ). get_or (xs ++ drop (offset + length xs) ys) (k - t) 0) front
      ∙ elim (dec_lt k (offset + length xs)) [
        | yes r ↦ get_or-append_front xs _ (k - offset) (omega arith) ∙ ground arith
        | no r ↦
            let e : offset + length xs + (k - offset - length xs) ≡ k = omega arith in
            get_or-later xs _ (k - offset) (omega arith)
            ∙ get_or-drop (offset + length xs) ys (k - offset - length xs)
            ∙ ap (λ (t : ℕ). get_or ys t 0) e
            ∙ ground arith
      ]
]
  where
    front : length (take offset ys) ≡ offset
    front = omega (arith, length-take offset ys)

-- What is written is found at its place, and elsewhere what was there, or zeros behind the old end.
get_or-overlaid :
    (content data_bytes : List ℕ) (sz offset k : ℕ)
    → sz ≤ length data_bytes
    → offset + sz < u64_mod
    → get_or (overlaid content data_bytes sz offset) k 0 ≡ (
        if leb offset k && ltb k (offset + sz)
        then get_or data_bytes (k - offset) 0
        else get_or content k 0)
get_or-overlaid content data_bytes sz offset k l s =
    let n : length (take sz data_bytes) ≡ sz = omega (arith, length-take sz data_bytes) in
    let over =
      get_or-over offset (take sz data_bytes) (grown content sz offset) k
        (rw n (length-grown content sz offset s)) in
    (rw n at over) ∙ elim (dec_lt (k - offset) sz) [
      | yes q ↦
          ground (arith, get_or-grown content sz offset k, get_or-take sz data_bytes (k - offset) q)
      | no q ↦ ground (arith, get_or-grown content sz offset k)
    ]

length-overlaid :
    (content data_bytes : List ℕ) (sz offset : ℕ)
    → sz ≤ length data_bytes
    → offset + sz < u64_mod
    → length (overlaid content data_bytes sz offset)
      ≡ (if ltb (length content) (offset + sz) then offset + sz else length content)
length-overlaid content data_bytes sz offset l s =
    let g = length-grown content sz offset s in
    let whole : length (overlaid content data_bytes sz offset) ≡ length (grown content sz offset) =
      omega (
        arith,
        length-append (take offset (grown content sz offset))
            (take sz data_bytes ++ drop (offset + sz) (grown content sz offset)),
        length-append (take sz data_bytes) (drop (offset + sz) (grown content sz offset)),
        length-take offset (grown content sz offset),
        length-take sz data_bytes,
        length-drop (offset + sz) (grown content sz offset),
      ) in
    whole ∙ ground (arith, length-resized_to (u64 (offset + sz)) content)

module _ (fs : FileOperation) (idx block_id inlined count : ℕ) (blocks : ℕ → ℕ) where
  -- Where a file has known contents in direct blocks, and the contents that a write at an offset
  -- leads to are bytes, of a length that the inode supports, and need exactly as many blocks as the
  -- file has, so that no block is allocated or freed: `write_file_w_off` succeeds and gives the size
  -- written. The file then has the bytes written at their place, and elsewhere what it had, or zeros
  -- where it was longer by the write, and is as long as the two need. The offset and the size add up
  -- without a wrap-around.
  pub write_file_w_off-Contains :
      (now : ℕ) (raw content data_bytes : List ℕ) (sz offset : ℕ) (bm : BlockManager)
      → Contains fs idx block_id inlined count blocks content bm
      → length raw ≡ bm.block_sz
      → sz ≤ length data_bytes
      → offset + sz < u64_mod
      → Replaces block_id count (length content) (overlaid content data_bytes sz offset) bm
      → (after : BlockManager) × (out : List ℕ) × (write_file_w_off now raw fs
            (raw_to_logic idx)
            data_bytes
            sz
            offset
            bm
          ≡ done (ok sz) after)
        × Contains fs idx block_id inlined count blocks out after
        × (length out
            ≡ (if ltb (length content) (offset + sz) then offset + sz else length content))
        × ((k : ℕ)
            → get_or out k 0 ≡ (
                if leb offset k && ltb k (offset + sz)
                then get_or data_bytes (k - offset) 0
                else get_or content k 0))
  unfolding write_file_w_off
  write_file_w_off-Contains now raw content data_bytes sz offset bm c r l s p =
      let (after, run, k) =
        write_file-Contains fs idx block_id inlined count blocks now (length content) raw
          (overlaid content data_bytes sz offset) bm c.has_file p r in
      (
        after,
        overlaid content data_bytes sz offset,
        rw
            (
              ◌>>=◌,
              read_file-Contains fs idx block_id inlined count blocks raw content bm c r,
              leb-true {a = sz} {b = length data_bytes} l,
              leb-true {a = offset + sz} {b = length (grown content sz offset)}
                  (length-grown content sz offset s),
              run,
            )
            refl,
        k,
        length-overlaid content data_bytes sz offset l s,
        λ j. get_or-overlaid content data_bytes sz offset j l s,
      )

  -- The attributes of the file are read.
  getattr-HasFile :
      (size : ℕ) (raw : List ℕ) (bm : BlockManager)
      → HasFile fs idx block_id size inlined count blocks bm
      → length raw ≡ bm.block_sz
      → (attr : FileAttr) × (getattr raw fs (raw_to_logic idx) bm ≡ done (ok attr) bm)
  unfolding InodeManager.get_attr Inode.get_attr
  getattr-HasFile size raw bm f r =
      let n = length-block bm block_id in
      let room = f.room in
      let (a, p) = load-total 8 4 (block bm block_id) (omega arith) in
      let (m, q) = load-total 8 12 (block bm block_id) (omega arith) in
      let (c, s) = load-total 8 20 (block bm block_id) (omega arith) in
      let (z, t) = load-total 8 28 (block bm block_id) (omega arith) in
      (
        record { atime = a; mtime = m; ctime = c; size = z },
        rw
            (
              ◌>>=◌,
              read_inode_lem raw (replicate bm.block_sz 0) fs idx block_id bm f.has_inode r
                  (length-replicate {A = ℕ} bm.block_sz 0),
              p,
              q,
              s,
              t,
            )
            refl,
      )

  -- Where a file has known contents in direct blocks, and the new size is one that the inode supports
  -- and needs exactly as many blocks as the file has, so that no block is allocated or freed: `resize`
  -- succeeds, and gives attributes with the size. The file then has as many bytes: those it had, and
  -- zeros behind them where it grew.
  pub resize-Contains :
      (now sz : ℕ) (raw content : List ℕ) (bm : BlockManager)
      → Contains fs idx block_id inlined count blocks content bm
      → length raw ≡ bm.block_sz
      → Replaces block_id count (length content) (resized_to sz content) bm
      → (after : BlockManager) × (attr : FileAttr) × (out : List ℕ) × (resize now raw fs
            (raw_to_logic idx)
            sz
            bm
          ≡ done (ok attr) after)
        × (attr.size ≡ sz)
        × Contains fs idx block_id inlined count blocks out after
        × (length out ≡ sz)
        × ((k : ℕ) → k < sz → get_or out k 0 ≡ get_or content k 0)
  unfolding resize
  resize-Contains now sz raw content bm c r p =
      let (attr, a) = getattr-HasFile (length content) raw bm c.has_file r in
      let read = read_file-Contains fs idx block_id inlined count blocks raw content bm c r in
      elim (ℕ_discrete (length content) sz) [
        | yes e ↦
            let same : (length content == sz) ≡ true = ground arith in
            (
              bm,
              record attr { size = sz },
              content,
              rw (◌>>=◌, a, read, same) refl,
              refl,
              c,
              e,
              λ k q. refl,
            )
        | no n ↦
            let (after, run, k) =
              write_file-Contains fs idx block_id inlined count blocks now (length content) raw
                (resized_to sz content) bm c.has_file p r in
            (
              after,
              record attr { size = sz },
              resized_to sz content,
              rw (◌>>=◌, a, read, eq_false {a = length content} {b = sz} n, run) refl,
              refl,
              k,
              length-resized_to sz content,
              λ j q. get_or-resized sz j content q,
            )
      ]
