-- ===== src/Tests/Contents.antt =====
-- A file of one block, written over, at an offset too, and resized.
use se3331_labs.Common.{
  ℕ, zero, suc, ◌-◌, ◌<◌, ◌≡◌, refl, arith, true, some, List, [], ◌∷◌, ltb, leb, ◌&&◌, length,
  get_or, if◌then◌else◌, tabulate,
}
use se3331_labs.Bitmap.Bits.{AreBytes}
use se3331_labs.Block.{BlockManager, done}
use se3331_labs.Result.{ok}
use se3331_labs.Block.Layout.{block}
use se3331_labs.Fields.{load}
use se3331_labs.Inode.{
  get_size, get_direct_block_num, is_direct_block, block_at, max_file_sz_supported, FileAttr,
}
use se3331_labs.InodeManager.Table.{entry_of}
use se3331_labs.FileOperation.Data.{
  calculate_block_sz, resized_to, read_file, write_file, write_file_w_off, resize,
}
use se3331_labs.FileOperation.RoundTrip.{Holds}
use se3331_labs.FileOperation.Rewriting.{HasFile}
use se3331_labs.FileOperation.Sequence.{Contains, Replaces, read_file-write_file}
use se3331_labs.FileOperation.Changing.{overlaid, write_file_w_off-Contains, resize-Contains}
use se3331_labs.Tests.Files.{one_directory, one_directory-IsDevice, fs, raw}

abbrev device : BlockManager
device = one_directory 0

abbrev old : List ℕ
old = b'a' ∷ b':' ∷ b'1' ∷ []

abbrev fifth : ℕ → ℕ
fifth i = 5

number_is : get_direct_block_num (block device 4) ≡ some 1
unfolding get_direct_block_num load tabulate block
number_is = refl

first_is_direct : (i : ℕ) → i < 1 → is_direct_block (block device 4) i ≡ some true
unfolding is_direct_block load tabulate block
first_is_direct zero l = refl
first_is_direct (suc i) l = absurd (omega arith)

first_id : (i : ℕ) → i < 1 → block_at (block device 4) i ≡ some 5
unfolding block_at load tabulate block
first_id zero l = refl
first_id (suc i) l = absurd (omega arith)

size_is : get_size (block device 4) ≡ some 3
unfolding get_size load tabulate block
size_is = refl

most_is : max_file_sz_supported (block device 4) ≡ some 576
unfolding max_file_sz_supported load tabulate block
most_is = refl

entry_is : entry_of device 0 ≡ some 4
unfolding entry_of load tabulate block
entry_is = refl

file_is_there : HasFile fs 0 4 3 1 1 fifth device
file_is_there = record {
  has_inode = record {
    accepted = refl;
    index = record {
      device = one_directory-IsDevice;
      room = omega arith;
      within = omega arith;
      small = omega arith;
    };
    entry = entry_is;
    valid = λ e. absurd (omega arith);
    inside = omega arith;
  };
  room = omega arith;
  its_size = size_is;
  direct = record {
    number = number_is;
    are_direct = first_is_direct;
    ids = first_id;
    inside = λ i l. omega arith;
    apart = λ i j l q. absurd (omega arith);
  };
  not_inode = λ i l e. absurd (omega arith);
  not_entry = λ i l e. absurd (omega arith);
  apart = λ e. absurd (omega arith);
}

held_bytes : Holds 64 device fifth 3 0 old
unfolding Holds tabulate block
held_bytes = (refl, tt)

device-Contains : Contains fs 0 4 1 1 fifth old device
device-Contains = record { has_file = file_is_there; holds = held_bytes; fits = omega arith }

no_more : AreBytes []
no_more k = omega arith

cons_bytes : (x : ℕ) (xs : List ℕ) → x < 256 → AreBytes xs → AreBytes (x ∷ xs)
cons_bytes x xs l b zero = l
cons_bytes x xs l b (suc k) = b k

five_bytes :
    (a b c d e : ℕ)
    → a < 256
    → b < 256
    → c < 256
    → d < 256
    → e < 256
    → AreBytes (a ∷ b ∷ c ∷ d ∷ e ∷ [])
five_bytes a b c d e p q r s t = cons_bytes a (b ∷ c ∷ d ∷ e ∷ []) p (
    cons_bytes b (c ∷ d ∷ e ∷ []) q
      (cons_bytes c (d ∷ e ∷ []) r (cons_bytes d (e ∷ []) s (cons_bytes e [] t no_more))))

-- Any five bytes fit the block of the file.
five_fit :
    (a b c d e : ℕ)
    → AreBytes (a ∷ b ∷ c ∷ d ∷ e ∷ [])
    → Replaces 4 1 3 (a ∷ b ∷ c ∷ d ∷ e ∷ []) device
unfolding calculate_block_sz
five_fit a b c d e bytes = record {
  are_bytes = bytes;
  small = omega arith;
  most = 576;
  supported = most_is;
  below = omega arith;
  same_blocks = refl;
  room = omega arith;
}

read_file-write_file_example :
    (after : BlockManager) × (write_file 7 raw fs 1 (1 ∷ 2 ∷ 3 ∷ 4 ∷ 5 ∷ []) device
      ≡ done (ok tt) after)
    × (read_file raw fs 1 after ≡ done (ok (1 ∷ 2 ∷ 3 ∷ 4 ∷ 5 ∷ [])) after)
    × Contains fs 0 4 1 1 fifth (1 ∷ 2 ∷ 3 ∷ 4 ∷ 5 ∷ []) after
read_file-write_file_example =
    read_file-write_file fs 0 4 1 1 fifth 7 3 raw raw (1 ∷ 2 ∷ 3 ∷ 4 ∷ 5 ∷ []) device file_is_there
      (five_fit 1 2 3 4 5 (
        five_bytes 1 2 3 4 5 (omega arith) (omega arith) (omega arith) (omega arith) (omega arith)))
      refl refl

overlaid_fit : Replaces 4 1 3 (overlaid old (8 ∷ 9 ∷ []) 2 3) device
unfolding resized_to
overlaid_fit = five_fit b'a' b':' b'1' 8 9 (
    five_bytes b'a' b':' b'1' 8 9 (omega arith) (omega arith) (omega arith) (omega arith)
      (omega arith))

write_file_w_off-Contains_example :
    (after : BlockManager) × (out : List ℕ) × (write_file_w_off 7 raw fs 1 (8 ∷ 9 ∷ []) 2 3 device
      ≡ done (ok 2) after)
    × Contains fs 0 4 1 1 fifth out after
    × (length out ≡ 5)
    × ((k : ℕ)
        → get_or out k 0
          ≡ (if leb 3 k && ltb k 5 then get_or (8 ∷ 9 ∷ []) (k - 3) 0 else get_or old k 0))
write_file_w_off-Contains_example =
    write_file_w_off-Contains fs 0 4 1 1 fifth 7 raw old (8 ∷ 9 ∷ []) 2 3 device device-Contains
      refl (omega arith) (omega arith) overlaid_fit

resized_fit : Replaces 4 1 3 (resized_to 5 old) device
unfolding resized_to
resized_fit = five_fit b'a' b':' b'1' 0 0 (
    five_bytes b'a' b':' b'1' 0 0 (omega arith) (omega arith) (omega arith) (omega arith)
      (omega arith))

resize-Contains_example :
    (after : BlockManager) × (attr : FileAttr) × (out : List ℕ) × (resize 7 raw fs 1 5 device
      ≡ done (ok attr) after)
    × (attr.size ≡ 5)
    × Contains fs 0 4 1 1 fifth out after
    × (length out ≡ 5)
    × ((k : ℕ) → k < 5 → get_or out k 0 ≡ get_or old k 0)
resize-Contains_example =
    resize-Contains fs 0 4 1 1 fifth 7 5 raw old device device-Contains refl resized_fit
