-- ===== src/Tests/Daemon.antt =====
-- A device of 72 blocks of 64 bytes that holds a file system whose inode bitmap the inode table
-- covers: the table in blocks 1 to 64, the inode bitmap in 65, the block bitmap in 66, the inode of a
-- directory in 67 and its text "a:1" in 68. The daemon runs on it.
use se3331_labs.Common.{
  ◌%◌, length-replicate, ℕ, zero, suc, ◌+◌, ◌≡◌, refl, arith, List, [], ◌∷◌, ◌++◌, some, ltb, leb,
  ◌&&◌, ◌==◌, if◌then◌else◌, length, replicate, take, drop, tabulate,
}
use se3331_labs.Result.{ErrorType, ok, err}
use se3331_labs.Block.{BlockManager, Run, done, fault, read_block, write_block, store, splice}
use se3331_labs.Block.Layout.{IsDevice, block}
use se3331_labs.Fields.{load, save, bytes_of}
use se3331_labs.Inode
use se3331_labs.Inode.{FileAttr, type_file, type_directory}
use se3331_labs.InodeManager.{read_inode, inode_per_block}
use se3331_labs.Directory.{
  Bytes, DirectoryEntry, entry, parse_directory, string_to_inode_id, find_entry, cut_at, same_bytes,
}
use se3331_labs.FileOperation.{FileOperation}
use se3331_labs.FileOperation.Data.{read_file, write_file, calculate_block_sz, write_file_w_off}
use se3331_labs.FileOperation.Tree.{lookup}
use se3331_labs.FileOperation.Length.{length-read_file}
use se3331_labs.Daemon.{Reply, reply_err, reply_buf, reply_write, enoent, eexist, fatal}
use se3331_labs.Daemon.Listing.{Fuse, add_all}
use se3331_labs.Daemon.Pages.{listing, add_all-listing, read_pages, read_pages-all}
use se3331_labs.Daemon.Handlers.{
  chfs_getattr, chfs_readdir, chfs_read, chfs_write, chfs_mknod, chfs_mkdir, write_reply,
}
use se3331_labs.Daemon.Session.{Request, handle}
use se3331_labs.Daemon.Serving.{AnswersThere, handle-Serves}
use se3331_labs.Daemon.Session.{bootstrap}
use se3331_labs.Daemon.Start.{bootstrap-Root}
use se3331_labs.FileOperation.Root.{Root}
use se3331_labs.Daemon.Slices.{chfs_read-slice}
use se3331_labs.Daemon.Refusing.{unknown_ino, made_twice}
use se3331_labs.Bitmap.Bits.{AreBytes}

-- `kind` is the type of the inode.
abbrev byte_at : (kind k : ℕ) → ℕ
byte_at kind k =
    if k == 64
    then 67
    else if k == 4160
    then 1
    else if leb 4224 k && ltb k 4232
    then 255
    else if k == 4232
    then 31
    else if k == 4288
    then kind
    else if k == 4316
    then 3
    else if k == 4324
    then 64
    else if k == 4328
    then 2
    else if k == 4332
    then 68
    else if k == 4352
    then b'a'
    else if k == 4353
    then b':'
    else if k == 4354
    then b'1'
    else 0

abbrev rooted : ℕ → BlockManager
rooted kind = record { block_sz = 64; block_cnt = 72; block_data = byte_at kind }

rooted-IsDevice : IsDevice (rooted 2)
rooted-IsDevice = record {
  some_bytes = omega arith;
  small_blocks = omega arith;
  few_blocks = omega arith;
  bytes = λ k. ground arith;
}

abbrev fs : FileOperation
fs = record {
  inode_manager = record { max_inode_supported = 512; n_table_blocks = 64; n_bitmap_blocks = 1 };
  block_allocator = record { bitmap_block_id = 66; bitmap_block_cnt = 1; last_block_num = 72 };
}

abbrev raw : List ℕ
raw = replicate 64 0

-- An entry is the low byte of the next offset, and the name.
fuse : Fuse
fuse = record {
  direntry_size = λ name. length name + 1;
  direntry = λ name ino off. off ∷ name;
  fuse_add_direntry = λ p oldsize name ino off.
      take oldsize p ++ ((off ∷ name) ++ drop (oldsize + (length name + 1)) p);
  length-direntry = λ name ino off. omega arith;
  direntry_written = λ p oldsize name ino off l. refl;
}

abbrev device_of : Run Reply → BlockManager
device_of (done r bm) = bm
device_of fault = rooted 2

abbrev overwrite : Request
overwrite = Request.write 1 (b'b' ∷ []) 1 0

after_write : BlockManager
after_write = device_of (handle fuse 0 7 raw fs overwrite (rooted 2))

write_is_answered :
    handle fuse 0 7 raw fs overwrite (rooted 2) ≡ done (ok (reply_write 1)) after_write
unfolding after_write handle chfs_write write_reply write_file_w_off read_file write_file read_inode
    inode_per_block read_block load tabulate Inode.get_size Inode.get_direct_block_num
    Inode.is_direct_block Inode.block_at Inode.max_file_sz_supported save bytes_of
    calculate_block_sz Inode.set_attr write_block store splice
write_is_answered = refl

abbrev a_name : Bytes
a_name = b'a' ∷ []

abbrev b_name : Bytes
b_name = b'b' ∷ []

a_is_found : lookup 0 raw fs 1 a_name (rooted 2) ≡ done (ok 1) (rooted 2)
unfolding lookup read_file read_inode inode_per_block read_block load tabulate Inode.get_size
    Inode.get_direct_block_num Inode.is_direct_block Inode.block_at find_entry parse_directory
    cut_at same_bytes string_to_inode_id
a_is_found = refl

b_is_missing : lookup 0 raw fs 1 b_name (rooted 2) ≡ done (err ErrorType.not_exist) (rooted 2)
unfolding lookup read_file read_inode inode_per_block read_block load tabulate Inode.get_size
    Inode.get_direct_block_num Inode.is_direct_block Inode.block_at find_entry parse_directory
    cut_at same_bytes
b_is_missing = refl

made_twice_example :
    (chfs_mknod 0 7 raw fs 1 a_name (rooted 2) ≡ done (ok (reply_err eexist)) (rooted 2))
    × (chfs_mkdir 0 7 raw fs 1 a_name (rooted 2) ≡ done (ok (reply_err eexist)) (rooted 2))
made_twice_example = made_twice 0 7 raw fs 1 1 a_name (rooted 2) (rooted 2) a_is_found

unknown_ino_example :
    (chfs_getattr raw fs 600 (rooted 2) ≡ done (ok (reply_err enoent)) (rooted 2))
    × (chfs_read raw fs 600 1 0 (rooted 2) ≡ done (ok (reply_err fatal)) (rooted 2))
    × (chfs_readdir fuse 0 raw fs 600 1 0 (rooted 2) ≡ fault)
    × (chfs_write 7 raw fs 600 b_name 1 0 (rooted 2) ≡ fault)
unknown_ino_example =
    unknown_ino fuse 0 7 raw fs 600 1 0 b_name (rooted 2) (omega arith) (omega arith) (omega arith)

abbrev text : List ℕ
text = b'a' ∷ b':' ∷ b'1' ∷ []

abbrev inode_of : ℕ → List ℕ
inode_of kind = block (rooted kind) 67

inode_is_read :
    read_inode raw fs.inode_manager 1 (replicate 64 0) (rooted 1)
    ≡ done (ok (67, inode_of 1)) (rooted 1)
unfolding read_inode inode_per_block read_block load tabulate block
inode_is_read = refl

text_is_read : read_file raw fs 1 (rooted 1) ≡ done (ok text) (rooted 1)
unfolding read_file read_inode inode_per_block read_block load tabulate Inode.get_size
    Inode.get_direct_block_num Inode.is_direct_block Inode.block_at
text_is_read = refl

three_bytes : Inode.get_size (inode_of 1) ≡ some 3
unfolding Inode.get_size load tabulate block
three_bytes = refl

is_file : Inode.get_type (inode_of 1) ≡ some type_file
unfolding Inode.get_type load tabulate block
is_file = refl

abbrev text_attr : FileAttr
text_attr = record { atime = 0; mtime = 0; ctime = 0; size = 3 }

has_attr : Inode.get_attr (inode_of 1) ≡ some text_attr
unfolding Inode.get_attr load tabulate block
has_attr = refl

length-read_file_example : length text ≡ 3
length-read_file_example =
    length-read_file raw fs 1 67 3 (inode_of 1) text (rooted 1) (rooted 1) inode_is_read three_bytes
      text_is_read

chfs_read-slice_example :
    chfs_read raw fs 1 5 1 (rooted 1) ≡ done (ok (reply_buf (take 5 (drop 1 text)))) (rooted 1)
chfs_read-slice_example =
    chfs_read-slice raw fs 1 67 5 1 (inode_of 1) text text_attr (rooted 1) inode_is_read is_file
      has_attr text_is_read (omega arith) (omega arith)

abbrev two_entries : List DirectoryEntry
two_entries = entry a_name 1 ∷ entry b_name 2 ∷ []

add_all-listing_example : add_all fuse two_entries [] ≡ [] ++ listing fuse 0 two_entries
add_all-listing_example = add_all-listing fuse two_entries []

read_pages-all_example : read_pages text 2 4 0 ≡ text
read_pages-all_example = read_pages-all text 2 (omega arith)

handle-Serves_example :
    AnswersThere (rooted 2) (handle fuse 0 7 raw fs (Request.lookup 1 a_name) (rooted 2))
handle-Serves_example = handle-Serves fuse 0 7 raw fs (Request.lookup 1 a_name) (rooted 2) tt

bootstrap-Root_example :
    (made : FileOperation) × (after : BlockManager) × (bootstrap
        (5, 6)
        7
        (replicate 1024 9)
        (λ k. k % 256)
      ≡ done (ok made) after)
    × Root (replicate 1024 9) made after
bootstrap-Root_example =
    bootstrap-Root (5, 6) 7 (replicate 1024 9) (λ k. k % 256) (λ k. omega arith)
      (length-replicate {A = ℕ} 1024 9) (nines 1024)
  where
    nines : (n : ℕ) → AreBytes (replicate n 9)
    nines zero k = omega arith
    nines (suc n) zero = omega arith
    nines (suc n) (suc k) = nines n k
