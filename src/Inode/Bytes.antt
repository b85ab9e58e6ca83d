-- ===== src/Inode/Bytes.antt =====
-- Bitmaps and inodes are bytes where they are made of bytes.
use se3331_labs.Common.{
  ℕ, zero, suc, ◌+◌, ◌*◌, ◌/◌, ◌%◌, ◌<◌, arith, Bool, true, false, Option, none, some, List, [],
  ◌∷◌, inl, inr, leb, length, take, get_elem?, set, set_bit, clear_bit, set_bit-lt, clear_bit-lt,
  Bool-cases,
}
use se3331_labs.Common.Checked.{◌>>=◌, verify}
use se3331_labs.Bitmap
use se3331_labs.Bitmap.{Bitmap}
use se3331_labs.Bitmap.Bits.{AreBytes}
use se3331_labs.Fields.{bytes_of, save}
use se3331_labs.Fields.RoundTrip.{append-bytes, take-bytes, drop-bytes, bytes_of-bytes}
use se3331_labs.Block.Safe.{OnSome}
use se3331_labs.Inode.{
  Inode, inode_bytes, clear_blocks, flush_to_buffer, sizeof_inode, invalid_block_id,
}

pub bind-OnSome {ℓ κ} :
    {A : Type ℓ} {B : Type κ} (P : A → Type 0) (Q : B → Type 0) (o : Option A) (f : A → Option B)
    → OnSome P o
    → ((a : A) → P a → OnSome Q (f a))
    → OnSome Q (o >>= f)
bind-OnSome P Q none f h k = tt
bind-OnSome P Q (some a) f h k = k a h

pub of_any {ℓ} : {A : Type ℓ} (o : Option A) → OnSome (λ a. Unit) o
of_any none = tt
of_any (some a) = tt

verify-OnSome {ℓ} :
    {A : Type ℓ} (P : A → Type 0) (b : Bool) (o : Option A) → OnSome P o → OnSome P (verify b o)
verify-OnSome P true o h = h
verify-OnSome P false o h = tt

set-AreBytes : (xs : List ℕ) (i v : ℕ) → AreBytes xs → v < 256 → AreBytes (set xs i v)
set-AreBytes [] i v h q k = h k
set-AreBytes (x ∷ xs) zero v h q zero = q
set-AreBytes (x ∷ xs) zero v h q (suc k) = h (suc k)
set-AreBytes (x ∷ xs) (suc i) v h q zero = h 0
set-AreBytes (x ∷ xs) (suc i) v h q (suc k) = set-AreBytes xs i v (λ j. h (suc j)) q k

get_elem?-byte : (xs : List ℕ) (i : ℕ) → AreBytes xs → OnSome (λ b. b < 256) (get_elem? xs i)
get_elem?-byte [] i h = tt
get_elem?-byte (x ∷ xs) zero h = h 0
get_elem?-byte (x ∷ xs) (suc i) h = get_elem?-byte xs i (λ j. h (suc j))

abbrev pub HasBytes : Bitmap → Type 0
HasBytes b = AreBytes b.bytes

pub set-HasBytes : (b : Bitmap) (i : ℕ) → HasBytes b → OnSome HasBytes (Bitmap.set b i)
unfolding Bitmap.set
set-HasBytes b i h = verify-OnSome HasBytes _ _ (
    bind-OnSome (λ byte. byte < 256) HasBytes (get_elem? b.bytes (i / 8)) _
      (get_elem?-byte b.bytes (i / 8) h)
      λ byte q. set-AreBytes b.bytes (i / 8) (set_bit byte (i % 8)) h (set_bit-lt byte (i % 8)))

pub clear-HasBytes : (b : Bitmap) (i : ℕ) → HasBytes b → OnSome HasBytes (Bitmap.clear b i)
unfolding Bitmap.clear
clear-HasBytes b i h = verify-OnSome HasBytes _ _ (
    bind-OnSome (λ byte. byte < 256) HasBytes (get_elem? b.bytes (i / 8)) _
      (get_elem?-byte b.bytes (i / 8) h)
      λ byte q.
        set-AreBytes b.bytes (i / 8) (clear_bit byte (i % 8)) h
          (clear_bit-lt byte (i % 8) q (omega arith)))

pub save-AreBytes :
    (width offset value : ℕ) (buffer : List ℕ)
    → AreBytes buffer
    → OnSome AreBytes (save width offset value buffer)
unfolding save
save-AreBytes width offset value buffer h =
    elim (Bool-cases (leb (offset + width) (length buffer))) [
      | inr e ↦ rw e tt
      | inl e ↦ rw e (
          append-bytes (take offset buffer) _ (take-bytes offset buffer h) (
            append-bytes (bytes_of width value) _ (bytes_of-bytes width value)
              (drop-bytes (offset + width) buffer h)))
    ]

inode_bytes-AreBytes : (inode : Inode) → AreBytes (inode_bytes inode)
unfolding inode_bytes
inode_bytes-AreBytes inode = append-bytes _ _ (bytes_of-bytes 4 _) (
    append-bytes _ _ (bytes_of-bytes 8 _) (
      append-bytes _ _ (bytes_of-bytes 8 _) (
        append-bytes _ _ (bytes_of-bytes 8 _) (
          append-bytes _ _ (bytes_of-bytes 8 _)
            (append-bytes _ _ (bytes_of-bytes 4 _) (bytes_of-bytes 4 _))))))

clear_blocks-AreBytes :
    (n i : ℕ) (buffer : List ℕ) → AreBytes buffer → OnSome AreBytes (clear_blocks n i buffer)
unfolding clear_blocks
clear_blocks-AreBytes zero i buffer h = h
clear_blocks-AreBytes (suc n) i buffer h =
    bind-OnSome AreBytes AreBytes (save 8 (sizeof_inode + i * 8) invalid_block_id buffer) _
      (save-AreBytes 8 _ _ buffer h) λ cleared q. clear_blocks-AreBytes n (i + 1) cleared q

pub flush_to_buffer-AreBytes :
    (inode : Inode) (buffer : List ℕ)
    → AreBytes buffer
    → OnSome AreBytes (flush_to_buffer inode buffer)
unfolding flush_to_buffer
flush_to_buffer-AreBytes inode buffer h = verify-OnSome AreBytes _ _ (
    clear_blocks-AreBytes inode.nblocks 0 _ (
      append-bytes (inode_bytes inode) _ (inode_bytes-AreBytes inode)
        (drop-bytes sizeof_inode buffer h)))
