-- ===== src/Bitmap/Count.antt =====
-- The counts of a bitmap.
use se3331_labs.Common.{
  ℕ, zero, suc, ◌+◌, ◌-◌, ◌*◌, ◌≤◌, ◌≡◌, ap, inl, inr, some, arith, u32, Bool-cases, count_clear,
  count_clear-le,
}
use se3331_labs.Bitmap.{
  Bitmap, total_bits, ones_loop, count_ones, count_zeros, zeros_loop, count_zeros_to_bound,
}
use se3331_labs.Bitmap.Bits.{bit, IsBitmap, check-bit}

module _ (b : Bitmap) (v : IsBitmap b) where
  ones_loop_lem :
      (n i acc : ℕ)
      → i + n ≤ b.payload * 8
      → acc ≤ i
      → ones_loop b n i acc ≡ some (acc + (n - count_clear n i (bit b.bytes)))
  unfolding ones_loop count_clear
  ones_loop_lem zero i acc h a = ground arith
  ones_loop_lem (suc n) i acc h a =
      let small = v.small in
      let few = count_clear-le n (i + 1) (bit b.bytes) in
      rw (check-bit b i v (omega arith)) (elim (Bool-cases (bit b.bytes i)) [
        | inl used ↦
            let w : u32 (acc + 1) ≡ acc + 1 = omega arith in
            rw (used, w)
              (ground (arith, ones_loop_lem n (i + 1) (acc + 1) (omega arith) (omega arith)))
        | inr free ↦
            rw free (ground (arith, ones_loop_lem n (i + 1) acc (omega arith) (omega arith)))
      ])

  zeros_loop_lem :
      (n i acc : ℕ)
      → i + n ≤ b.payload * 8
      → acc ≤ i
      → zeros_loop b n i acc ≡ some (acc + count_clear n i (bit b.bytes))
  unfolding zeros_loop count_clear
  zeros_loop_lem zero i acc h a = ground arith
  zeros_loop_lem (suc n) i acc h a =
      let small = v.small in
      rw (check-bit b i v (omega arith)) (elim (Bool-cases (bit b.bytes i)) [
        | inl used ↦
            rw used (ground (arith, zeros_loop_lem n (i + 1) acc (omega arith) (omega arith)))
        | inr free ↦
            let w : u32 (acc + 1) ≡ acc + 1 = omega arith in
            rw (free, w)
              (ground (arith, zeros_loop_lem n (i + 1) (acc + 1) (omega arith) (omega arith)))
      ])

  pub count_zeros_to_bound-count_clear :
      (upbound : ℕ)
      → upbound ≤ b.payload * 8
      → count_zeros_to_bound b upbound ≡ some (count_clear upbound 0 (bit b.bytes))
  unfolding count_zeros_to_bound
  count_zeros_to_bound-count_clear n h =
      ground (arith, zeros_loop_lem n 0 0 (omega arith) (omega arith))

  pub count_zeros-count_clear : count_zeros b ≡ some (count_clear (b.payload * 8) 0 (bit b.bytes))
  unfolding count_zeros count_ones
  count_zeros-count_clear =
      let small = v.small in
      let t : total_bits b ≡ b.payload * 8 = omega arith in
      let few = count_clear-le (b.payload * 8) 0 (bit b.bytes) in
      rw (t, ones_loop_lem (b.payload * 8) 0 0 (omega arith) (omega arith)) (ap some (omega arith))
