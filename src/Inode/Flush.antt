-- ===== src/Inode/Flush.antt =====
-- The fields that are read from the bytes of a new inode.
use se3331_labs.Common.{
  ℕ, zero, suc, ◌+◌, ◌-◌, ◌*◌, ◌/◌, ◌<◌, ◌≤◌, ◌≡◌, refl, sym, ap, ◌∙◌, List, ◌++◌, some, arith,
  append_assoc, ltb, leb-true, lt→ltb, length, length-append, length-take, length-drop, take, drop,
  get_or, u32, u32_mod, u64_mod, true,
}
use native.Mathlib.Decide.{dec_lt}
use se3331_labs.Fields.{bytes_of, load, save}
use se3331_labs.Fields.RoundTrip.{
  length-bytes_of, get_or-append_front, get_or-append_back, get_or-take, append-bytes, take-bytes,
  drop-bytes, bytes_of-bytes, zero_bytes, load-front, load_behind, load-bytes, load-agrees,
}
use se3331_labs.Inode.{
  Inode, new_inode, inode_bytes, clear_blocks, flush_to_buffer, get_type, get_size, get_nblocks,
  block_at, invalid_block_id,
}

-- Clearing a field keeps the bytes before it and behind it.
record Cleared (offset : ℕ) (buffer out : List ℕ) : Type 0 where
  bytes : ((k : ℕ) → get_or buffer k 0 < 256) → (k : ℕ) → get_or out k 0 < 256
  same_length : length out ≡ length buffer
  before : (k : ℕ) → k < offset → get_or out k 0 ≡ get_or buffer k 0
  zeros : (k : ℕ) → k < 8 → get_or out (offset + k) 0 ≡ 0

zeros_behind :
    (offset : ℕ) (front back : List ℕ) (k : ℕ)
    → length front ≡ offset
    → k < 8
    → get_or (front ++ (bytes_of 8 0 ++ back)) (offset + k) 0 ≡ 0
zeros_behind offset front back k e h =
    ap (λ (t : ℕ). get_or (front ++ (bytes_of 8 0 ++ back)) (t + k) 0) (sym e)
    ∙ get_or-append_back front (bytes_of 8 0 ++ back) k
    ∙ get_or-append_front (bytes_of 8 0) back k (omega (arith, length-bytes_of 8 0))
    ∙ zero_bytes 8 k

save-Cleared :
    (offset : ℕ) (buffer : List ℕ)
    → offset + 8 ≤ length buffer
    → (out : List ℕ) × (save 8 offset 0 buffer ≡ some out) × Cleared offset buffer out
unfolding save
save-Cleared offset buffer fits = (
  take offset buffer ++ (bytes_of 8 0 ++ drop (offset + 8) buffer),
  rw (leb-true {a = offset + 8} {b = length buffer} fits),
  record {
    bytes = λ h.
        append-bytes (take offset buffer) (bytes_of 8 0 ++ drop (offset + 8) buffer)
          (take-bytes offset buffer h)
          (append-bytes (bytes_of 8 0) (drop (offset + 8) buffer) (bytes_of-bytes 8 0)
            (drop-bytes (offset + 8) buffer h));
    same_length = omega (
      arith,
      length-append (take offset buffer) (bytes_of 8 0 ++ drop (offset + 8) buffer),
      length-append (bytes_of 8 0) (drop (offset + 8) buffer),
      front,
      length-bytes_of 8 0,
      length-drop (offset + 8) buffer,
    );
    before = λ k h.
        get_or-append_front (take offset buffer) (bytes_of 8 0 ++ drop (offset + 8) buffer) k
          (omega (arith, front))
        ∙ get_or-take offset buffer k h;
    zeros = λ k h. zeros_behind offset (take offset buffer) (drop (offset + 8) buffer) k front h;
  },
)
  where
    front : length (take offset buffer) ≡ offset
    front = omega (arith, length-take offset buffer)

-- The loop clears the block ids from `i` on.
record AllCleared (i n : ℕ) (buffer out : List ℕ) : Type 0 where
  bytes : ((k : ℕ) → get_or buffer k 0 < 256) → (k : ℕ) → get_or out k 0 < 256
  same_length : length out ≡ length buffer
  before : (k : ℕ) → k < 44 + i * 8 → get_or out k 0 ≡ get_or buffer k 0
  zeros : (k : ℕ) → 44 + i * 8 ≤ k → k < 44 + (i + n) * 8 → get_or out k 0 ≡ 0

clear_blocks-AllCleared :
    (n i : ℕ) (buffer : List ℕ)
    → 44 + (i + n) * 8 ≤ length buffer
    → (out : List ℕ) × (clear_blocks n i buffer ≡ some out) × AllCleared i n buffer out
unfolding clear_blocks
clear_blocks-AllCleared zero i buffer fits = (
  buffer,
  refl,
  record {
    bytes = λ h. h;
    same_length = refl;
    before = λ k h. refl;
    zeros = λ k l h. absurd (omega arith);
  },
)
clear_blocks-AllCleared (suc n) i buffer fits =
    let (one, e, c) = save-Cleared (44 + i * 8) buffer (omega arith) in
    let (out, f, d) = clear_blocks-AllCleared n (i + 1) one (omega (arith, c.same_length)) in
    (
      out,
      rw e f,
      record {
        bytes = λ h. d.bytes (c.bytes h);
        same_length = d.same_length ∙ c.same_length;
        before = λ k h. d.before k (omega arith) ∙ c.before k h;
        zeros = λ k l h. elim (dec_lt k (44 + (i + 1) * 8)) [
          | yes q ↦
              let o : 44 + i * 8 + (k - (44 + i * 8)) ≡ k = omega arith in
              d.before k q ∙ (rw o at (c.zeros (k - (44 + i * 8)) (omega arith)))
          | no q ↦ d.zeros k (omega arith) (omega arith)
        ];
      },
    )

-- The bytes of the object, with what follows them.
module _ (inode : Inode) (rest : List ℕ) where
  abbrev nblocks_on : List ℕ
  nblocks_on = bytes_of 4 inode.nblocks ++ rest

  abbrev block_size_on : List ℕ
  block_size_on = bytes_of 4 inode.block_size ++ nblocks_on

  abbrev size_on : List ℕ
  size_on = bytes_of 8 inode.inner_attr.size ++ block_size_on

  abbrev ctime_on : List ℕ
  ctime_on = bytes_of 8 inode.inner_attr.ctime ++ size_on

  abbrev mtime_on : List ℕ
  mtime_on = bytes_of 8 inode.inner_attr.mtime ++ ctime_on

  abbrev atime_on : List ℕ
  atime_on = bytes_of 8 inode.inner_attr.atime ++ mtime_on

  flat : inode_bytes inode ++ rest ≡ bytes_of 4 inode.type ++ atime_on
  unfolding inode_bytes
  flat = simp append_assoc

  type_field : inode.type < u32_mod → load 4 0 (inode_bytes inode ++ rest) ≡ some inode.type
  type_field h = rw flat (load-front 4 inode.type atime_on (omega arith))

  behind_atime :
      (width offset : ℕ)
      → load width (12 + offset) (inode_bytes inode ++ rest) ≡ load width offset mtime_on
  behind_atime width offset =
      let a : 12 + offset ≡ 4 + (8 + offset) = omega arith in
      rw (flat, a)
        (load_behind width 4 (8 + offset) (bytes_of 4 inode.type) atime_on
            (length-bytes_of 4 inode.type)
          ∙ load_behind width 8 offset (bytes_of 8 inode.inner_attr.atime) mtime_on
              (length-bytes_of 8 inode.inner_attr.atime))

  behind_ctime :
      (width offset : ℕ)
      → load width (28 + offset) (inode_bytes inode ++ rest) ≡ load width offset size_on
  behind_ctime width offset =
      let a : 28 + offset ≡ 12 + (8 + (8 + offset)) = omega arith in
      rw a (
        behind_atime width (8 + (8 + offset))
        ∙ load_behind width 8 (8 + offset) (bytes_of 8 inode.inner_attr.mtime) ctime_on
            (length-bytes_of 8 inode.inner_attr.mtime)
        ∙ load_behind width 8 offset (bytes_of 8 inode.inner_attr.ctime) size_on
            (length-bytes_of 8 inode.inner_attr.ctime))

  size_field :
      inode.inner_attr.size < u64_mod
      → load 8 28 (inode_bytes inode ++ rest) ≡ some inode.inner_attr.size
  size_field h = behind_ctime 8 0 ∙ load-front 8 inode.inner_attr.size block_size_on (omega arith)

  nblocks_field :
      inode.nblocks < u32_mod → load 4 40 (inode_bytes inode ++ rest) ≡ some inode.nblocks
  nblocks_field h =
      behind_ctime 4 12
      ∙ load_behind 4 8 4 (bytes_of 8 inode.inner_attr.size) block_size_on
          (length-bytes_of 8 inode.inner_attr.size)
      ∙ load_behind 4 4 0 (bytes_of 4 inode.block_size) nblocks_on
          (length-bytes_of 4 inode.block_size)
      ∙ load-front 4 inode.nblocks rest (omega arith)

inode_bytes-bytes : (inode : Inode) (k : ℕ) → get_or (inode_bytes inode) k 0 < 256
unfolding inode_bytes
inode_bytes-bytes inode k =
    append-bytes (bytes_of 4 inode.type) _ (bytes_of-bytes 4 inode.type)
      (append-bytes (bytes_of 8 inode.inner_attr.atime) _ (bytes_of-bytes 8 inode.inner_attr.atime)
        (append-bytes (bytes_of 8 inode.inner_attr.mtime) _
          (bytes_of-bytes 8 inode.inner_attr.mtime)
          (append-bytes (bytes_of 8 inode.inner_attr.ctime) _
            (bytes_of-bytes 8 inode.inner_attr.ctime)
            (append-bytes (bytes_of 8 inode.inner_attr.size) _
              (bytes_of-bytes 8 inode.inner_attr.size)
              (append-bytes (bytes_of 4 inode.block_size) _ (bytes_of-bytes 4 inode.block_size)
                (bytes_of-bytes 4 inode.nblocks))))))
      k

length-inode_bytes : (inode : Inode) → length (inode_bytes inode) ≡ 44
unfolding inode_bytes bytes_of
length-inode_bytes inode = refl

-- A block that holds a new inode of a type: an empty file with no blocks.
pub record Flushed (type size : ℕ) (out : List ℕ) : Type 0 where
  pub bytes : (k : ℕ) → get_or out k 0 < 256
  pub same_length : length out ≡ size
  pub kind : get_type out ≡ some type
  pub empty_file : get_size out ≡ some 0
  pub count : get_nblocks out ≡ some ((size - 44) / 8)
  pub no_blocks : (idx : ℕ) → idx < (size - 44) / 8 → block_at out idx ≡ some invalid_block_id

abbrev made : (now type size : ℕ) → Inode
made now type size = record {
  type = type;
  inner_attr = record { atime = now; mtime = now; ctime = now; size = 0 };
  block_size = size;
  nblocks = (size - 44) / 8;
}

new_inode_lem :
    (now type size : ℕ)
    → 44 < size
    → size < u32_mod
    → new_inode now type size ≡ some (made now type size)
unfolding new_inode
new_inode_lem now type size room small =
    let g : ltb 44 size ≡ true = lt→ltb 44 size room in
    let w : u32 ((size - 44) / 8) ≡ (size - 44) / 8 = omega arith in rw (g, w)

module _ (now type size : ℕ) (raw : List ℕ) (room : 44 < size) (small : size < u32_mod)
    (e : length raw ≡ size) (b : (k : ℕ) → get_or raw k 0 < 256) where
  start : List ℕ
  start = inode_bytes (made now type size) ++ drop 44 raw

  length-start : length start ≡ size
  unfolding start
  length-start = omega (
    arith,
    length-append (inode_bytes (made now type size)) (drop 44 raw),
    length-inode_bytes (made now type size),
    length-drop 44 raw,
  )

  start-bytes : (k : ℕ) → get_or start k 0 < 256
  unfolding start
  start-bytes =
      append-bytes (inode_bytes (made now type size)) (drop 44 raw)
        (inode_bytes-bytes (made now type size)) (drop-bytes 44 raw b)

  load-kept :
      (out : List ℕ) (width offset : ℕ)
      → AllCleared 0 ((size - 44) / 8) start out
      → offset + width ≤ 44
      → load width offset out ≡ load width offset start
  load-kept out width offset c fits =
      load-agrees width offset out start c.same_length (omega (arith, c.same_length, length-start))
        λ k h. c.before (offset + k) (omega arith)

  Flushed-out :
      (out : List ℕ)
      → type < u32_mod
      → AllCleared 0 ((size - 44) / 8) start out
      → Flushed type size out
  unfolding get_type get_size get_nblocks block_at start
  Flushed-out out t c = record {
    bytes = c.bytes start-bytes;
    same_length = c.same_length ∙ length-start;
    kind = load-kept out 4 0 c (omega arith) ∙ type_field (made now type size) (drop 44 raw) t;
    empty_file =
        load-kept out 8 28 c (omega arith)
        ∙ size_field (made now type size) (drop 44 raw) (omega arith);
    count =
        load-kept out 4 40 c (omega arith)
        ∙ nblocks_field (made now type size) (drop 44 raw) (omega arith);
    no_blocks = λ idx h.
        load-bytes 8 (44 + idx * 8) 0 out (omega (arith, c.same_length, length-start)) (omega arith)
          λ k q. c.zeros (44 + idx * 8 + k) (omega arith) (omega arith) ∙ sym (zero_bytes 8 k);
  }

  flush_lem :
      type < u32_mod
      → (out : List ℕ) × (flush_to_buffer (made now type size) raw ≡ some out)
        × Flushed type size out
  unfolding flush_to_buffer start
  flush_lem t =
      let (out, f, c) =
        clear_blocks-AllCleared ((size - 44) / 8) 0 start (omega (arith, length-start)) in
      (out, rw (leb-true {a = 44} {b = length raw} (omega arith)) f, Flushed-out out t c)

-- A new inode for blocks of more than 44 and less than 2 ^ 32 bytes, flushed to a buffer of that size
-- with any bytes in it, does not fault: the buffer then holds bytes, and has the type, the size 0, as many block ids as
-- fit behind the 44 bytes of the header, and each of these block ids is invalid.
pub flush_to_buffer-Flushed :
    (now type size : ℕ) (raw : List ℕ)
    → 44 < size
    → size < u32_mod
    → type < u32_mod
    → length raw ≡ size
    → ((k : ℕ) → get_or raw k 0 < 256)
    → (inode : Inode) × (out : List ℕ) × (new_inode now type size ≡ some inode)
      × (flush_to_buffer inode raw ≡ some out)
      × Flushed type size out
flush_to_buffer-Flushed now type size raw room small t e b =
    let (out, f, p) = flush_lem now type size raw room small e b t in
    (made now type size, out, new_inode_lem now type size room small, f, p)
