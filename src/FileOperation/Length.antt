-- ===== src/FileOperation/Length.antt =====
-- What a file reads as has the length that its inode says: the rounds of the loop are enough.
use se3331_labs.Common.{
  ℕ, zero, suc, ◌+◌, ◌-◌, ◌/◌, ◌≤◌, ◌<◌, ◌≡◌, refl, arith, some, List, [], ◌++◌, ltb, if◌then◌else◌,
  length, take, replicate, length-append, inl, inr, Bool-cases, length-take, ltb→lt, u64, u64_mod,
}
use se3331_labs.Result.{ok}
use se3331_labs.Block.{BlockManager, done, Cmd, ◌>>=◌, checked, verify, block_size, read_block}
use se3331_labs.Block.Within.{
  Within, pure-Within, checked-Within, if-Within, bind-Within, Within-ok, Reads-Within,
  read_block-Within,
}
use se3331_labs.Allocator.{new_buffer}
use se3331_labs.Inode
use se3331_labs.InodeManager.{nonzero, read_inode}
use se3331_labs.FileOperation.{FileOperation}
use se3331_labs.FileOperation.Data.{Held, locate, read_loop, read_file}
use se3331_labs.FileOperation.Reading.{locate-Reads}

abbrev Anything {ℓ} : {A : Type ℓ} → A → Type 0
Anything a = Unit

abbrev piece : (file_sz per read_sz : ℕ) → ℕ
piece file_sz per read_sz = if ltb per (file_sz - read_sz) then per else file_sz - read_sz

nonzero-Within : (bm : BlockManager) (n : ℕ) → Within bm (λ per. (per ≡ n) × (0 < per)) (nonzero n)
unfolding nonzero
nonzero-Within bm n = elim (Bool-cases (ltb 0 n)) [
  | inl e ↦ inr (ok n, rw (e, verify), (refl, ltb→lt 0 n e))
  | inr e ↦ inl (rw (e, verify))
]

-- The end of a round: the block is read, and the loop goes on.
abbrev fetch :
    (file_sz read_sz per : ℕ)
    → (content : List ℕ) → ((sz : ℕ) → List ℕ → Held → Cmd (List ℕ))
    → ℕ × Held
    → Cmd (List ℕ)
fetch file_sz read_sz per content go located = do
  buffer ← new_buffer
  bytes ← read_block located.0 buffer
  go (piece file_sz per read_sz) (content ++ take (piece file_sz per read_sz) bytes) located.1

abbrev seek :
    (file_sz read_sz per : ℕ)
    → (content : List ℕ) → Held
    → ((sz : ℕ) → List ℕ → Held → Cmd (List ℕ))
    → Cmd (List ℕ)
seek file_sz read_sz per content h go = do
  inlined ← checked (Inode.get_direct_block_num h.inode)
  located ← locate (read_sz / per) (u64 (read_sz / per + u64_mod - inlined)) h
  fetch file_sz read_sz per content go located

module _ (bm : BlockManager) (file_sz read_sz : ℕ) (content : List ℕ)
    (go : (sz : ℕ) → List ℕ → Held → Cmd (List ℕ)) (e : length content ≡ read_sz)
    (l : read_sz < file_sz) where
  abbrev Full : List ℕ → Type 0
  Full out = length out ≡ file_sz

  -- The loop goes on with longer contents that are not too long.
  abbrev GoesOn : Type 0
  GoesOn =
      (sz : ℕ) (more : List ℕ) (g : Held)
      → 0 < sz
      → read_sz + sz ≤ file_sz
      → length more ≡ read_sz + sz
      → Within bm Full (go sz more g)

  fetch-Full :
      (per : ℕ) (located : ℕ × Held)
      → GoesOn
      → 0 < per
      → per ≡ bm.block_sz
      → Within bm Full (fetch file_sz read_sz per content go located)
  fetch-Full per located k p q =
      bind-Within bm (λ bytes. bm.block_sz ≤ length bytes) Full
        (read_block located.0 (replicate bm.block_sz 0))
        (λ bytes.
          go (piece file_sz per read_sz) (content ++ take (piece file_sz per read_sz) bytes)
            located.1)
        (read_block-Within bm located.0 (replicate bm.block_sz 0))
        λ bytes n.
          let sz = piece file_sz per read_sz in
          k sz (content ++ take sz bytes) located.1 (ground (arith, p)) (ground arith)
            (ground (arith, length-append content (take sz bytes), length-take sz bytes))

  seek-Full :
      (per : ℕ) (h : Held)
      → GoesOn
      → 0 < per
      → per ≡ bm.block_sz
      → Within bm Full (seek file_sz read_sz per content h go)
  seek-Full per h k p q =
      bind-Within bm Anything Full (checked (Inode.get_direct_block_num h.inode))
        (λ inlined.
          locate (read_sz / per) (u64 (read_sz / per + u64_mod - inlined)) h
          >>= fetch file_sz read_sz per content go)
        (checked-Within bm Anything (Inode.get_direct_block_num h.inode) (λ a t. tt))
        λ inlined t.
          bind-Within bm Anything Full
            (locate (read_sz / per) (u64 (read_sz / per + u64_mod - inlined)) h)
            (fetch file_sz read_sz per content go)
            (Reads-Within bm _
              (locate-Reads (read_sz / per) (u64 (read_sz / per + u64_mod - inlined)) h))
            λ located t. fetch-Full per located k p q

  round-Full :
      (h : Held)
      → GoesOn
      → Within bm Full
          (do block_sz ← block_size; per ← nonzero block_sz; seek file_sz read_sz per content h go)
  round-Full h k =
      bind-Within bm (λ per. (per ≡ bm.block_sz) × (0 < per)) Full (nonzero bm.block_sz)
        (λ per. seek file_sz read_sz per content h go) (nonzero-Within bm bm.block_sz)
        λ per p. seek-Full per h k p.1 p.0

read_loop-length :
    (bm : BlockManager) (file_sz n read_sz : ℕ) (content : List ℕ) (h : Held)
    → length content ≡ read_sz
    → read_sz ≤ file_sz
    → file_sz ≤ read_sz + n
    → Within bm (λ out. length out ≡ file_sz) (read_loop file_sz n read_sz content h)
unfolding read_loop
read_loop-length bm file_sz zero read_sz content h e l f =
    pure-Within bm (λ out. length out ≡ file_sz) content (omega arith)
read_loop-length bm file_sz (suc n) read_sz content h e l f =
    if-Within bm (λ out. length out ≡ file_sz) (ltb read_sz file_sz) _ _
      (λ t.
        round-Full bm file_sz read_sz content (λ sz c g. read_loop file_sz n (read_sz + sz) c g) e
          (ltb→lt read_sz file_sz t) h
          λ sz more g p q r. read_loop-length bm file_sz n (read_sz + sz) more g r q (omega arith))
      (λ t. pure-Within bm (λ out. length out ≡ file_sz) content (ground arith))

-- If a file is read, then it reads as exactly as many bytes as its inode says that it has: the loop
-- does not stop before, and does not read past the end.
pub length-read_file :
    (raw : List ℕ) (fs : FileOperation) (id block_id size : ℕ) (inode content : List ℕ)
    (bm after : BlockManager)
    → read_inode raw fs.inode_manager id (replicate bm.block_sz 0) bm
      ≡ done (ok (block_id, inode)) bm
    → Inode.get_size inode ≡ some size
    → read_file raw fs id bm ≡ done (ok content) after
    → length content ≡ size
unfolding read_file
length-read_file raw fs id block_id size inode content bm after r s e =
    Within-ok bm (λ out. length out ≡ size)
      (read_loop size size 0 [] (record { inode = inode; indirect_block = [] })) after content
      (read_loop-length bm size size 0 [] _ refl (omega arith) (omega arith))
      (rw (◌>>=◌, r, s) at e)
