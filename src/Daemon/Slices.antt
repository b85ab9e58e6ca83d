-- ===== src/Daemon/Slices.antt =====
-- What `chfs_read` answers, against the contents of the file.
use se3331_labs.Common.{
  ℕ, ◌+◌, ◌-◌, ◌^◌, ◌≤◌, ◌<◌, ◌≡◌, ◌∙◌, refl, ap, arith, min, inl, inr, false, Option, none, some,
  List, leb, leb-true, length, take, drop, replicate, length-drop, Option-cases, u64, u64_mod,
}
use native.Mathlib.Decide.{dec_le}
use se3331_labs.Result.{ok}
use se3331_labs.Block.{BlockManager, done}
use se3331_labs.Block
use se3331_labs.Fields.{load}
use se3331_labs.Inode
use se3331_labs.Inode.{FileAttr, type_file}
use se3331_labs.InodeManager
use se3331_labs.InodeManager.{read_inode}
use se3331_labs.FileOperation.{FileOperation}
use se3331_labs.FileOperation.Data.{read_file, read_file_w_off}
use se3331_labs.FileOperation.Length.{length-read_file}
use se3331_labs.Daemon.{reply_buf, signed_leb, stat_of, file_mode, Stat, getattr_helper}
use se3331_labs.Daemon.Handlers.{with_stat, read_size_of, data_reply, read_from, chfs_read}
use se3331_labs.Daemon.Pages.{drop_beyond, take-min, take_nil}

abbrev size_of : Option FileAttr → Option ℕ
size_of none = none
size_of (some attr) = some attr.size

get_size-get_attr :
    (bytes : List ℕ) (attr : FileAttr)
    → Inode.get_attr bytes ≡ some attr
    → Inode.get_size bytes ≡ some attr.size
unfolding Inode.get_attr Inode.get_size
get_size-get_attr bytes attr h = elim (Option-cases (load 8 4 bytes)) [
  | inl e ↦ absurd (none_some (rw e at h))
  | inr (a, ea) ↦ elim (Option-cases (load 8 12 bytes)) [
    | inl e ↦ absurd (none_some (rw (ea, e) at h))
    | inr (m, em) ↦ elim (Option-cases (load 8 20 bytes)) [
      | inl e ↦ absurd (none_some (rw (ea, em, e) at h))
      | inr (c, ec) ↦ elim (Option-cases (load 8 28 bytes)) [
        | inl e ↦ absurd (none_some (rw (ea, em, ec, e) at h))
        | inr (s, es) ↦ es ∙ ap size_of (rw (ea, em, ec, es) at h)
      ]
    ]
  ]
]
  where
    none_some : none ≡ some attr → ⊥
    none_some q = cc

signed_leb-leb : (a b : ℕ) → a < 2 ^ 63 → b < 2 ^ 63 → signed_leb a b ≡ leb a b
unfolding signed_leb
signed_leb-leb a b h k =
    let p : u64 (a + 2 ^ 63) ≡ a + 2 ^ 63 = omega arith in
    let q : u64 (b + 2 ^ 63) ≡ b + 2 ^ 63 = omega arith in rw (p, q) (ground arith)

read_size_of-min :
    (st_size off size : ℕ)
    → st_size < 2 ^ 63
    → off + size < 2 ^ 63
    → off < st_size
    → read_size_of st_size off size ≡ min (st_size - off) size
unfolding read_size_of
read_size_of-min st_size off size small near within =
    let s : u64 (off + size) ≡ off + size = omega arith in
    rw (s, signed_leb-leb (off + size) st_size near small)
      (elim (dec_le (off + size) st_size) [
        | yes h ↦ rw (leb-true h) (omega arith)
        | no h ↦
            let f : leb (off + size) st_size ≡ false = ground arith in
            let r : u64 (st_size + u64_mod - off) ≡ st_size - off = omega arith in
            rw f (r ∙ omega arith)
      ])

read_file_w_off_lem :
    (raw : List ℕ) (fs : FileOperation) (id sz offset : ℕ) (content : List ℕ) (bm : BlockManager)
    → read_file raw fs id bm ≡ done (ok content) bm
    → offset + sz ≤ length content
    → read_file_w_off raw fs id sz offset bm ≡ done (ok (take sz (drop offset content))) bm
unfolding read_file_w_off
read_file_w_off_lem raw fs id sz offset content bm c h = rw (Block.◌>>=◌, c) (rw (leb-true h))

read_from_lem :
    (raw : List ℕ) (fs : FileOperation) (ino size off : ℕ) (content : List ℕ) (st : Stat)
    (bm : BlockManager)
    → read_file raw fs ino bm ≡ done (ok content) bm
    → length content ≡ st.st_size
    → st.st_size < 2 ^ 63
    → off + size < 2 ^ 63
    → read_from raw fs ino size off st bm ≡ done (ok (reply_buf (take size (drop off content)))) bm
unfolding read_from data_reply
read_from_lem raw fs ino size off content st bm c len small near =
    rw (signed_leb-leb st.st_size off small (omega arith)) (elim (dec_le st.st_size off) [
      | yes h ↦ rw (leb-true h, drop_beyond off content (omega arith), take_nil size) refl
      | no h ↦
          let f : leb st.st_size off ≡ false = ground arith in
          let size_is = read_size_of-min st.st_size off size small near (omega arith) in
          let got =
            read_file_w_off_lem raw fs ino (min (st.st_size - off) size) off content bm c
              (omega arith) in
          let cut : take (min (st.st_size - off) size) (drop off content)
              ≡ take size (drop off content) =
            let d : st.st_size - off ≡ length (drop off content) =
              omega (arith, length-drop off content) in
            rw d (take-min size (drop off content)) in
          rw (f, size_is) (rw (Block.attempt, Block.◌>>=◌, got) (rw cut))
    ])

-- A `read` of a file gives the bytes of its contents from the offset on, as many as were asked for
-- or as there are, and none at an offset behind the end. The file can be read, and no offset reaches
-- 2 ^ 63.
pub chfs_read-slice :
    (raw : List ℕ) (fs : FileOperation) (ino block_id size off : ℕ) (inode content : List ℕ)
    (attr : FileAttr) (bm : BlockManager)
    → read_inode raw fs.inode_manager ino (replicate bm.block_sz 0) bm
      ≡ done (ok (block_id, inode)) bm
    → Inode.get_type inode ≡ some type_file
    → Inode.get_attr inode ≡ some attr
    → read_file raw fs ino bm ≡ done (ok content) bm
    → attr.size < 2 ^ 63
    → off + size < 2 ^ 63
    → chfs_read raw fs ino size off bm ≡ done (ok (reply_buf (take size (drop off content)))) bm
unfolding chfs_read InodeManager.get_type_attr with_stat getattr_helper
chfs_read-slice raw fs ino block_id size off inode content attr bm r t a c small near =
    let len : length content ≡ attr.size =
      length-read_file raw fs ino block_id attr.size inode content bm bm r
        (get_size-get_attr inode attr a) c in
    rw (Block.attempt, Block.◌>>=◌, r, t, a)
      (read_from_lem raw fs ino size off content (stat_of attr file_mode 1) bm c len small near)
