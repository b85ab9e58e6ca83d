-- ===== src/Common/Words.antt =====
-- Machine words: the moduli, little-endian bytes, and the bits of a byte.
use Prim.Native.Nat.{ℕ, zero, suc, ◌-◌, ◌%◌, ◌^◌, ◌<◌, bit_and, bit_or}
use mathlib.Core.Path.{◌≡◌, refl}
use mathlib.Core.Bool.{Bool, true, false, not, ◌&&◌}
use native.Mathlib.Omega.{arith}
use se3331_labs.Common.Tests.{◌==◌, if◌then◌else◌, ltb}

-- uint32_t (usize) and uint64_t results, with their wrap-around.
abbrev pub u32_mod : ℕ
u32_mod = 2 ^ 32

abbrev pub u64_mod : ℕ
u64_mod = 2 ^ 64

abbrev pub u32 : ℕ → ℕ
u32 x = x % u32_mod

abbrev pub u64 : ℕ → ℕ
u64 x = x % u64_mod

-- `byte & (1 << k)`, `byte |= 1 << k` and `byte &= ~(1 << k)` on a uint8_t.
unfoldable pub test_bit : ℕ → ℕ → Bool
test_bit byte k = not (bit_and byte (2 ^ k) == 0)

unfoldable pub set_bit : ℕ → ℕ → ℕ
set_bit byte k = bit_or byte (2 ^ k) % 256

unfoldable pub clear_bit : ℕ → ℕ → ℕ
clear_bit byte k = bit_and byte (255 - 2 ^ k)

-- The law `law` holds at the numbers under a bound.
checks : (ℕ → Bool) → ℕ → Bool
checks law zero = true
checks law (suc top) = checks law top && law top

law_at : (law : ℕ → Bool) (top i : ℕ) → i < top → checks law top ≡ true → law i ≡ true
unfolding checks
law_at law zero i below all = elim below [ ]
law_at law (suc top) i below all = ground (arith, law_at law top i)

same : Bool → Bool → Bool
same true b = b
same false b = not b

same_eq : (a b : Bool) → same a b ≡ true → a ≡ b
unfolding same
same_eq true b h = ground arith
same_eq false b h = ground arith

-- Over the 256 bytes and the 8 positions the laws are checked by evaluation.
abbrev set_law : ℕ → ℕ → ℕ → Bool
set_law b k j = same (test_bit (set_bit b k) j) (if k == j then true else test_bit b j)

abbrev clear_law : ℕ → ℕ → ℕ → Bool
clear_law b k j = same (test_bit (clear_bit b k) j) (if k == j then false else test_bit b j)

over_bytes : (ℕ → ℕ → ℕ → Bool) → Bool
unfolding checks
over_bytes law = checks (λ byte. checks (λ k. checks (law byte k) 8) 8) 256

over_bytes_sound :
    (law : ℕ → ℕ → ℕ → Bool) (byte k j : ℕ)
    → over_bytes law ≡ true
    → byte < 256
    → k < 8
    → j < 8
    → law byte k j ≡ true
unfolding over_bytes
over_bytes_sound law byte k j all hb hk hj = law_at (law byte k) 8 j hj (
    law_at (λ i. checks (law byte i) 8) 8 k hk
      (law_at (λ b. checks (λ i. checks (law b i) 8) 8) 256 byte hb all))

set_table : over_bytes set_law ≡ true
unfolding over_bytes same test_bit set_bit
set_table = refl

clear_table : over_bytes clear_law ≡ true
unfolding over_bytes same test_bit clear_bit
clear_table = refl

module _ (b k j : ℕ) (hb : b < 256) (hk : k < 8) (hj : j < 8) where
  pub test_bit-set_bit : test_bit (set_bit b k) j ≡ (if k == j then true else test_bit b j)
  test_bit-set_bit = same_eq _ _ (over_bytes_sound set_law b k j set_table hb hk hj)

  pub test_bit-clear_bit : test_bit (clear_bit b k) j ≡ (if k == j then false else test_bit b j)
  test_bit-clear_bit = same_eq _ _ (over_bytes_sound clear_law b k j clear_table hb hk hj)

pub set_bit-lt : (b k : ℕ) → set_bit b k < 256
unfolding set_bit
set_bit-lt b k = omega arith

clear_lt_table : over_bytes (λ b k j. ltb (clear_bit b k) 256) ≡ true
unfolding over_bytes clear_bit
clear_lt_table = refl

pub clear_bit-lt : (b k : ℕ) → b < 256 → k < 8 → clear_bit b k < 256
clear_bit-lt b k hb hk =
    let e =
      over_bytes_sound (λ b k j. ltb (clear_bit b k) 256) b k 0 clear_lt_table hb hk
        (omega arith) in
    ground arith

ones_table : checks (λ k. test_bit 255 k) 8 ≡ true
unfolding checks test_bit
ones_table = refl

pub test_bit-ones : (k : ℕ) → k < 8 → test_bit 255 k ≡ true
test_bit-ones k h = law_at (λ k. test_bit 255 k) 8 k h ones_table

zeros_table : checks (λ k. not (test_bit 0 k)) 8 ≡ true
unfolding checks test_bit
zeros_table = refl

pub test_bit-zero : (k : ℕ) → k < 8 → test_bit 0 k ≡ false
test_bit-zero k h = let e = law_at (λ k. not (test_bit 0 k)) 8 k h zeros_table in ground arith
