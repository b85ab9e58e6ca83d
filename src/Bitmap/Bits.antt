-- ===== src/Bitmap/Bits.antt =====
-- The bits of a bitmap as a function of the index, and what the single-bit methods do to them.
use se3331_labs.Common.{
  ℕ, ◌*◌, ◌/◌, ◌%◌, ◌<◌, ◌≤◌, ◌≡◌, Bool, true, false, some, List, ◌==◌, if◌then◌else◌, arith,
  length, get_or, set as set_elem, get_or-set, get_elem?-get_or, lt→ltb, u32_mod, test_bit, set_bit,
  clear_bit, test_bit-set_bit, test_bit-clear_bit, set_bit-lt, clear_bit-lt,
}
use se3331_labs.Bitmap.{Bitmap, total_bits, set, clear, check}

abbrev pub bit : List ℕ → ℕ → Bool
bit bytes i = test_bit (get_or bytes (i / 8) 0) (i % 8)

abbrev pub AreBytes : List ℕ → Type 0
AreBytes bytes = (k : ℕ) → get_or bytes k 0 < 256

-- The buffer holds the payload, and the number of its bits fits a `usize`.
pub record IsBitmap (b : Bitmap) : Type 0 where
  pub fits : b.payload ≤ length b.bytes
  pub small : b.payload * 8 < u32_mod
  pub bytes : AreBytes b.bytes

module _ (b : Bitmap) (i : ℕ) (v : IsBitmap b) (h : i < b.payload * 8) where
  in_range : i < total_bits b
  in_range = let s = v.small in omega arith

  in_buffer : i / 8 < length b.bytes
  in_buffer = let s = v.fits in omega arith

  pub check-bit : check b i ≡ some (bit b.bytes i)
  unfolding check
  check-bit = rw (lt→ltb _ _ in_range, get_elem?-get_or b.bytes (i / 8) 0 in_buffer)

  -- The byte that the method writes back.
  byte_small : get_or b.bytes (i / 8) 0 < 256
  byte_small = v.bytes (i / 8)

module _ (b : Bitmap) (i : ℕ) where
  abbrev pub set_bits : List ℕ
  set_bits = set_elem b.bytes (i / 8) (set_bit (get_or b.bytes (i / 8) 0) (i % 8))

  abbrev pub clear_bits : List ℕ
  clear_bits = set_elem b.bytes (i / 8) (clear_bit (get_or b.bytes (i / 8) 0) (i % 8))

module _ (b : Bitmap) (i : ℕ) (v : IsBitmap b) (h : i < b.payload * 8) where
  pub set_lem : set b i ≡ some (record b { bytes = set_bits b i })
  unfolding set
  set_lem =
      rw (lt→ltb _ _ (in_range b i v h), get_elem?-get_or b.bytes (i / 8) 0 (in_buffer b i v h))

  pub clear_lem : clear b i ≡ some (record b { bytes = clear_bits b i })
  unfolding clear
  clear_lem =
      rw (lt→ltb _ _ (in_range b i v h), get_elem?-get_or b.bytes (i / 8) 0 (in_buffer b i v h))

  -- One bit changes.
  pub bit-set_bits : (j : ℕ) → bit (set_bits b i) j ≡ (if i == j then true else bit b.bytes j)
  bit-set_bits j = ground (
    arith,
    get_or-set b.bytes (i / 8) (j / 8) (set_bit (get_or b.bytes (i / 8) 0) (i % 8)) 0
        (in_buffer b i v h),
    test_bit-set_bit (get_or b.bytes (i / 8) 0) (i % 8) (j % 8) (v.bytes (i / 8)) (omega arith)
        (omega arith),
  )

  pub bit-clear_bits : (j : ℕ) → bit (clear_bits b i) j ≡ (if i == j then false else bit b.bytes j)
  bit-clear_bits j = ground (
    arith,
    get_or-set b.bytes (i / 8) (j / 8) (clear_bit (get_or b.bytes (i / 8) 0) (i % 8)) 0
        (in_buffer b i v h),
    test_bit-clear_bit (get_or b.bytes (i / 8) 0) (i % 8) (j % 8) (v.bytes (i / 8)) (omega arith)
        (omega arith),
  )

  pub set_bits-AreBytes : AreBytes (set_bits b i)
  set_bits-AreBytes k = ground (
    arith,
    get_or-set b.bytes (i / 8) k (set_bit (get_or b.bytes (i / 8) 0) (i % 8)) 0 (in_buffer b i v h),
    set_bit-lt (get_or b.bytes (i / 8) 0) (i % 8),
    v.bytes k,
  )

  pub clear_bits-AreBytes : AreBytes (clear_bits b i)
  clear_bits-AreBytes k = ground (
    arith,
    get_or-set b.bytes (i / 8) k (clear_bit (get_or b.bytes (i / 8) 0) (i % 8)) 0
        (in_buffer b i v h),
    clear_bit-lt (get_or b.bytes (i / 8) 0) (i % 8) (v.bytes (i / 8)) (omega arith),
    v.bytes k,
  )
