-- ===== src/Bitmap/Find.antt =====
-- The search of `find_first_free_w_bound`, by words and then by bits, against a plain search.
use se3331_labs.Common.{
  ℕ, zero, suc, ◌+◌, ◌-◌, ◌*◌, ◌/◌, ◌%◌, ◌^◌, ◌<◌, ◌≤◌, min, ◌≡◌, refl, ap, sym, ◌∙◌, inl, inr,
  Bool, true, false, Option, none, some, List, ◌==◌, arith, length, get_or, get_elem?-get_or, u32,
  u64_mod, Bool-cases, Option-cases, ==_iff, test_bit-ones, first_clear, first_clear-add,
  first_clear-none, first_clear-Least, or_else,
}
use native.Mathlib.Nat.{pow-suc}
use se3331_labs.Common.Checked.{otherwise}
use se3331_labs.Bitmap.{
  Bitmap, total_bits, check, scan_bits, word_at, scan_words, find_first_free_w_bound,
  find_first_free,
}
use se3331_labs.Bitmap.Bits.{bit, AreBytes, IsBitmap, check-bit}

module _ (b : Bitmap) (v : IsBitmap b) where
  pub scan_bits-first_clear :
      (n i : ℕ) → i + n ≤ b.payload * 8 → scan_bits b n i ≡ some (first_clear n i (bit b.bytes))
  unfolding scan_bits first_clear
  scan_bits-first_clear zero i h = refl
  scan_bits-first_clear (suc n) i h =
      rw (check-bit b i v (omega arith), scan_bits-first_clear n (i + 1) (omega arith))
        (elim (Bool-cases (bit b.bytes i)) [ inl e ↦ rw e | inr e ↦ rw e ])

-- What `word_at` reads.
word : List ℕ → ℕ → ℕ → ℕ
word bytes zero k = 0
word bytes (suc n) k = get_or bytes k 0 + 256 * word bytes n (k + 1)

word_at-word :
    (bytes : List ℕ) (n k : ℕ) → k + n ≤ length bytes → word_at bytes n k ≡ some (word bytes n k)
unfolding word_at word
word_at-word bytes zero k h = refl
word_at-word bytes (suc n) k h =
    rw (word_at-word bytes n (k + 1) (omega arith), get_elem?-get_or bytes k 0 (omega arith))

-- A word that is all ones is made of bytes that are.
ones_bytes :
    (bytes : List ℕ) (n k j : ℕ)
    → AreBytes bytes
    → word bytes n k + 1 ≡ 256 ^ n
    → j < n
    → get_or bytes (k + j) 0 ≡ 255
unfolding word
ones_bytes bytes zero k j small e h = elim h [ ]
ones_bytes bytes (suc n) k zero small e h =
    let z : k + 0 ≡ k = omega arith in rw z (omega (arith, small k, pow-suc 256 n))
ones_bytes bytes (suc n) k (suc j) small e h =
    let s : k + suc j ≡ k + 1 + j = omega arith in
    rw s (ones_bytes bytes n (k + 1) j small (omega (arith, small k, pow-suc 256 n)) (omega arith))

ones_bit :
    (bytes : List ℕ) (i j : ℕ)
    → AreBytes bytes
    → word bytes 8 (i * 8) ≡ u64_mod - 1
    → i * 64 ≤ j
    → j < i * 64 + 64
    → bit bytes j ≡ true
ones_bit bytes i j small e lo hi =
    let s : i * 8 + (j / 8 - i * 8) ≡ j / 8 = omega arith in
    let o = ones_bytes bytes 8 (i * 8) (j / 8 - i * 8) small (omega arith) (omega arith) in
    rw (rw s at o) (test_bit-ones (j % 8) (omega arith))

all_set :
    (n i : ℕ) (p : ℕ → Bool) → ((j : ℕ) → i ≤ j → j < i + n → p j ≡ true) → first_clear n i p ≡ none
unfolding first_clear
all_set zero i p h = refl
all_set (suc n) i p h =
    rw (h i (omega arith) (omega arith))
      (all_set n (i + 1) p (λ j a b. h j (omega arith) (omega arith)))

module _ (b : Bitmap) (v : IsBitmap b) where
  scan_words-first_clear :
      (k i : ℕ)
      → (i + k) * 64 ≤ b.payload * 8
      → scan_words b k i ≡ some (first_clear (k * 64) (i * 64) (bit b.bytes))
  unfolding scan_words
  scan_words-first_clear zero i h = unfold first_clear in refl
  scan_words-first_clear (suc k) i h =
      let ih = scan_words-first_clear k (i + 1) (omega arith) in
      let small = v.small in
      let fits = v.fits in
      let s : (suc k) * 64 ≡ 64 + k * 64 = omega arith in
      let u : u32 (i * 64) ≡ i * 64 = omega arith in
      let split = first_clear-add 64 (k * 64) (i * 64) ((i + 1) * 64) (bit b.bytes) (omega arith) in
      rw (word_at-word b.bytes 8 (i * 8) (omega arith), s, split)
        (elim (Bool-cases (word b.bytes 8 (i * 8) == u64_mod - 1)) [
          | inl ones ↦
              let o =
                all_set 64 (i * 64) (bit b.bytes)
                  (λ j lo hi. ones_bit b.bytes i j v.bytes ((==_iff _ _).0 ones) lo hi) in
              rw (ones, o) ih
          | inr more ↦
              rw (more, u, scan_bits-first_clear b v 64 (i * 64) (omega arith))
                (elim (Option-cases (first_clear 64 (i * 64) (bit b.bytes))) [
                  | inl e ↦ rw e ih
                  | inr (j, e) ↦ rw e
                ])
        ])

  -- The word scan, followed by the bits that are left, is a search bit by bit.
  pub find-first_clear :
      (bits : ℕ)
      → bits ≤ b.payload * 8
      → find_first_free_w_bound b bits ≡ some (first_clear bits 0 (bit b.bytes))
  unfolding find_first_free_w_bound
  find-first_clear bits h =
      let small = v.small in
      let n : min (total_bits b) bits / 64 ≡ bits / 64 = omega arith in
      let split =
        first_clear-add (bits / 64 * 64) (bits % 64) 0 (bits / 64 * 64) (bit b.bytes)
          (omega arith) in
      let whole : bits / 64 * 64 + bits % 64 ≡ bits = omega arith in
      let words = scan_words-first_clear (bits / 64) 0 (omega arith) in
      let rest = scan_bits-first_clear b v (bits % 64) (bits / 64 * 64) (omega arith) in
      simp (n, words, rest, ← join) (rw whole at (sym (ap some split)))
    where
      join : (x y : Option ℕ) → some (or_else x y) ≡ otherwise x (some y)
      join none y = refl
      join (some x) y = refl

-- The answer of `find_first_free_w_bound` by what `check` says of the bits.
abbrev pub Answer : Bitmap → ℕ → Option ℕ → Type 0
Answer b bits none = (j : ℕ) → j < bits → check b j ≡ some true
Answer b bits (some i) =
    (i < bits) × (check b i ≡ some false) × ((j : ℕ) → j < i → check b j ≡ some true)

-- On a well-formed bitmap, with a bound that does not exceed its bits, the search by words and
-- bits ends without a failed assertion, and gives the least index below the bound whose bit is
-- clear, or nothing exactly when every bit below the bound is set.
pub find_first_free_w_bound-Answer :
    (b : Bitmap) (bits : ℕ)
    → IsBitmap b
    → bits ≤ b.payload * 8
    → (r : Option ℕ) × (find_first_free_w_bound b bits ≡ some r) × Answer b bits r
find_first_free_w_bound-Answer b bits v h = (
  first_clear bits 0 (bit b.bytes),
  find-first_clear b v bits h,
  answer (first_clear bits 0 (bit b.bytes)) refl,
)
  where
    answer : (r : Option ℕ) → first_clear bits 0 (bit b.bytes) ≡ r → Answer b bits r
    answer none e = λ j q. rw (
      check-bit b j v (omega arith),
      first_clear-none bits 0 (bit b.bytes) e j (omega arith) (omega arith),
    )
    answer (some i) e =
        let (lo, hi, clear, before) = first_clear-Least bits 0 (bit b.bytes) i e in
        (
          omega arith,
          rw (check-bit b i v (omega arith), clear),
          λ j q. rw (check-bit b j v (omega arith), before j (omega arith) q),
        )

-- `find_first_free` is the search with the number of all bits for its bound.
pub find_first_free-first_clear :
    (b : Bitmap)
    → IsBitmap b
    → find_first_free b ≡ some (first_clear (b.payload * 8) 0 (bit b.bytes))
unfolding find_first_free
find_first_free-first_clear b v =
    let small = v.small in
    let t : total_bits b ≡ b.payload * 8 = omega arith in
    ap (find_first_free_w_bound b) t ∙ find-first_clear b v (b.payload * 8) (omega arith)
