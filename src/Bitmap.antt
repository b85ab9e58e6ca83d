-- ===== src/Bitmap.antt =====
-- src/include/common/bitmap.h: a bitmap over a buffer of bytes.
-- The outer `Option` of a result is the assertion of the method: `none` where it fails, or where
-- the buffer is left. `usize` is uint32_t, and its products wrap around.
pub mod Bits
pub mod Find
pub mod Count
use se3331_labs.Common.{
  ℕ, zero, suc, ◌+◌, ◌-◌, ◌*◌, ◌/◌, ◌%◌, ◌^◌, min, Bool, true, false, Option, none, some, List, [],
  ◌∷◌, ◌++◌, ltb, leb, ◌==◌, if◌then◌else◌, length, get_elem?, set as set_elem, drop, replicate,
  u32, u32_mod, u64_mod, test_bit, set_bit, clear_bit,
}
use se3331_labs.Common.Checked.{◌>>=◌, verify, otherwise}

pub record Bitmap : Type 0 where
  pub bytes : List ℕ
  pub payload : ℕ

-- payload * KBitsPerByte
abbrev pub total_bits : Bitmap → ℕ
total_bits b = u32 (b.payload * 8)

unfoldable pub zeroed : Bitmap → Option Bitmap
zeroed b =
    verify (leb b.payload (length b.bytes))
      (some (record b { bytes = replicate b.payload 0 ++ drop b.payload b.bytes }))

unfoldable pub set : Bitmap → ℕ → Option Bitmap
set b index = verify (ltb index (total_bits b)) do
  byte ← get_elem? b.bytes (index / 8)
  some (record b { bytes = set_elem b.bytes (index / 8) (set_bit byte (index % 8)) })

unfoldable pub clear : Bitmap → ℕ → Option Bitmap
clear b index = verify (ltb index (total_bits b)) do
  byte ← get_elem? b.bytes (index / 8)
  some (record b { bytes = set_elem b.bytes (index / 8) (clear_bit byte (index % 8)) })

unfoldable pub check : Bitmap → ℕ → Option Bool
check b index =
    verify (ltb index (total_bits b))
      do byte ← get_elem? b.bytes (index / 8); some (test_bit byte (index % 8))

-- The loop of `count_ones`: the rounds left, i, num_ones.
unfoldable pub ones_loop : Bitmap → ℕ → ℕ → ℕ → Option ℕ
ones_loop b zero i num_ones = some num_ones
ones_loop b (suc n) i num_ones = do
  used ← check b i
  ones_loop b n (i + 1) (if used then u32 (num_ones + 1) else num_ones)

unfoldable pub count_ones : Bitmap → Option ℕ
unfolding ones_loop
count_ones b = ones_loop b (total_bits b) 0 0

unfoldable pub count_zeros : Bitmap → Option ℕ
count_zeros b = do ones ← count_ones b; some (u32 (total_bits b + u32_mod - ones))

-- The loop of `count_zeros_to_bound`.
unfoldable pub zeros_loop : Bitmap → ℕ → ℕ → ℕ → Option ℕ
zeros_loop b zero i num_zeros = some num_zeros
zeros_loop b (suc n) i num_zeros = do
  used ← check b i
  zeros_loop b n (i + 1) (if used then num_zeros else u32 (num_zeros + 1))

unfoldable pub count_zeros_to_bound : Bitmap → ℕ → Option ℕ
unfolding zeros_loop
count_zeros_to_bound b upbound = zeros_loop b upbound 0 0

-- The first clear bit among the `n` from `i` on, bit by bit.
unfoldable pub scan_bits : Bitmap → ℕ → ℕ → Option (Option ℕ)
scan_bits b zero i = some none
scan_bits b (suc n) i =
    let rest = scan_bits b n (i + 1) in do used ← check b i; if used then rest else some (some i)

-- The little-endian number in the `n` bytes from `k` on.
unfoldable pub word_at : List ℕ → ℕ → ℕ → Option ℕ
word_at bytes zero k = some 0
word_at bytes (suc n) k = do
  high ← word_at bytes n (k + 1)
  byte ← get_elem? bytes k
  some (byte + 256 * high)

-- The words, 64 bits each: one that is all ones is passed over.
unfoldable pub scan_words : Bitmap → ℕ → ℕ → Option (Option ℕ)
unfolding scan_bits word_at
scan_words b zero i = some none
scan_words b (suc n) i =
    let rest = scan_words b n (i + 1) in
    do
      word ← word_at b.bytes 8 (i * 8)
      found ← (if word == u64_mod - 1 then some none else scan_bits b 64 (u32 (i * 64)))
      otherwise found rest

unfoldable pub find_first_free_w_bound : Bitmap → ℕ → Option (Option ℕ)
unfolding scan_words
find_first_free_w_bound b bits =
    let num_words = min (total_bits b) bits / 64 in
    do found ← scan_words b num_words 0; otherwise found (scan_bits b (bits % 64) (num_words * 64))

unfoldable pub find_first_free : Bitmap → Option (Option ℕ)
unfolding find_first_free_w_bound
find_first_free b = find_first_free_w_bound b (total_bits b)
