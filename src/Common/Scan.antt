-- ===== src/Common/Scan.antt =====
-- The specification of a search and of a count over a row of bits: the first clear one, and how
-- many are clear, among the n positions from i on.
use Prim.Native.Nat.{ℕ, zero, suc, ◌+◌, ◌<◌, ◌≤◌}
use mathlib.Core.Path.{◌≡◌, refl}
use mathlib.Core.Logic.{inl, inr}
use mathlib.Core.Bool.{Bool, true, false}
use mathlib.Core.Option.{Option, none, some}
use mathlib.Core.Logic.{◌≢◌}
use native.Mathlib.Decide.{dec_le}
use native.Mathlib.Omega.{arith}
use se3331_labs.Common.Tests.{if◌then◌else◌, Bool-cases}

unfoldable pub first_clear : ℕ → ℕ → (ℕ → Bool) → Option ℕ
first_clear zero i p = none
first_clear (suc n) i p = if p i then first_clear n (i + 1) p else some i

unfoldable pub count_clear : ℕ → ℕ → (ℕ → Bool) → ℕ
count_clear zero i p = 0
count_clear (suc n) i p = (if p i then 0 else 1) + count_clear n (i + 1) p

abbrev pub or_else {ℓ} : {A : Type ℓ} → Option A → Option A → Option A
or_else none b = b
or_else (some a) b = some a

pub first_clear-add :
    (m n i j : ℕ) (p : ℕ → Bool)
    → i + m ≡ j
    → first_clear (m + n) i p ≡ or_else (first_clear m i p) (first_clear n j p)
unfolding first_clear
first_clear-add zero n i j p e =
    let e' : i ≡ j = omega arith in let z : 0 + n ≡ n = omega arith in rw (z, e')
first_clear-add (suc m) n i j p e =
    let s : suc m + n ≡ suc (m + n) = omega arith in
    rw s (ground (arith, first_clear-add m n (i + 1) j p (omega arith)))

-- What the search finds, if anything.
abbrev pub Least : ℕ → ℕ → (ℕ → Bool) → ℕ → Type 0
Least n i p k = (i ≤ k) × (k < i + n) × (p k ≡ false) × ((j : ℕ) → i ≤ j → j < k → p j ≡ true)

pub first_clear-none :
    (n i : ℕ) (p : ℕ → Bool) → first_clear n i p ≡ none → (j : ℕ) → i ≤ j → j < i + n → p j ≡ true
unfolding first_clear
first_clear-none zero i p e j h k = absurd (omega arith)
first_clear-none (suc n) i p e j h k =
    let rest : p i ≡ true → i + 1 ≤ j → p j ≡ true =
      λ used q. first_clear-none n (i + 1) p (rw used at e) j q (omega arith) in
    elim (dec_le (i + 1) j) [
      | yes q ↦ rest (ground arith) q
      | no q ↦ let s : i ≡ j = omega arith in rw (← s) (ground arith)
    ]

pub first_clear-Least :
    (n i : ℕ) (p : ℕ → Bool) (k : ℕ) → first_clear n i p ≡ some k → Least n i p k
unfolding first_clear
first_clear-Least zero i p k e = cc
first_clear-Least (suc n) i p k e = elim (Bool-cases (p i)) [
  | inl used ↦
      let (a, b, c, d) = first_clear-Least n (i + 1) p k (rw used at e) in
      (
        omega arith,
        omega arith,
        c,
        λ j u v. elim (dec_le (i + 1) j) [
          | yes q ↦ d j q v
          | no q ↦ let s : i ≡ j = omega arith in rw (← s) used
        ],
      )
  | inr clear ↦
      let s : i ≡ k = ground arith in
      (omega arith, omega arith, rw (← s) clear, λ j u v. absurd (omega arith))
]

pub first_clear_congr :
    (n i : ℕ) (p q : ℕ → Bool)
    → ((j : ℕ) → i ≤ j → j < i + n → p j ≡ q j)
    → first_clear n i p ≡ first_clear n i q
unfolding first_clear
first_clear_congr zero i p q h = refl
first_clear_congr (suc n) i p q h = rw (
  h i (omega arith) (omega arith),
  first_clear_congr n (i + 1) p q (λ j a b. h j (omega arith) (omega arith)),
)

pub count_clear_congr :
    (n i : ℕ) (p q : ℕ → Bool)
    → ((j : ℕ) → i ≤ j → j < i + n → p j ≡ q j)
    → count_clear n i p ≡ count_clear n i q
unfolding count_clear
count_clear_congr zero i p q h = refl
count_clear_congr (suc n) i p q h = rw (
  h i (omega arith) (omega arith),
  count_clear_congr n (i + 1) p q (λ j a b. h j (omega arith) (omega arith)),
)

pub count_clear-add :
    (m n i j : ℕ) (p : ℕ → Bool)
    → i + m ≡ j
    → count_clear (m + n) i p ≡ count_clear m i p + count_clear n j p
unfolding count_clear
count_clear-add zero n i j p e =
    let e' : i ≡ j = omega arith in let z : 0 + n ≡ n = omega arith in rw (z, e') (omega arith)
count_clear-add (suc m) n i j p e =
    let s : suc m + n ≡ suc (m + n) = omega arith in
    rw s (omega (arith, count_clear-add m n (i + 1) j p (omega arith)))

pick : (a b : Bool) → a ≡ false → b ≡ true → (if a then 0 else 1) ≡ suc (if b then 0 else 1)
pick a b h k = ground arith

-- Setting a clear bit takes one from the count, clearing a set bit adds one.
pub count_clear_set :
    (n i k : ℕ) (p q : ℕ → Bool)
    → i ≤ k
    → k < i + n
    → p k ≡ false
    → q k ≡ true
    → ((j : ℕ) → j ≢ k → p j ≡ q j)
    → count_clear n i p ≡ suc (count_clear n i q)
unfolding count_clear
count_clear_set zero i k p q a b pk qk h = absurd (omega arith)
count_clear_set (suc n) i k p q a b pk qk h = elim (dec_le (i + 1) k) [
  | yes l ↦
      rw (h i (omega arith))
        (omega (arith, count_clear_set n (i + 1) k p q l (omega arith) pk qk h))
  | no l ↦
      let s : i ≡ k = omega arith in
      let r : count_clear n (i + 1) p ≡ count_clear n (i + 1) q =
        count_clear_congr n (i + 1) p q (λ j u v. h j (omega arith)) in
      omega (arith, r, pick (p i) (q i) (rw s pk) (rw s qk))
]

abbrev pub plus : ℕ → Option ℕ → Option ℕ
plus s none = none
plus s (some k) = some (s + k)

-- A search from `s` on is a search from 0 on, with the answer moved.
pub first_clear-shift :
    (n s k i : ℕ) (p q : ℕ → Bool)
    → s + k ≡ i
    → ((j : ℕ) → j < k + n → p (s + j) ≡ q j)
    → first_clear n i p ≡ plus s (first_clear n k q)
unfolding first_clear
first_clear-shift zero s k i p q e h = refl
first_clear-shift (suc n) s k i p q e h =
    rw
      (
        ← e,
        h k (omega arith),
        first_clear-shift n s (k + 1) (s + k + 1) p q (omega arith) (λ j l. h j (omega arith)),
      )
      (elim (Bool-cases (q k)) [ inl e' ↦ rw e' | inr e' ↦ rw e' ])

pub count_clear-shift :
    (n s k i : ℕ) (p q : ℕ → Bool)
    → s + k ≡ i
    → ((j : ℕ) → j < k + n → p (s + j) ≡ q j)
    → count_clear n i p ≡ count_clear n k q
unfolding count_clear
count_clear-shift zero s k i p q e h = refl
count_clear-shift (suc n) s k i p q e h = rw (
  ← e,
  h k (omega arith),
  count_clear-shift n s (k + 1) (s + k + 1) p q (omega arith) (λ j l. h j (omega arith)),
)

pub count_clear-le : (n i : ℕ) (p : ℕ → Bool) → count_clear n i p ≤ n
unfolding count_clear
count_clear-le zero i p = omega arith
count_clear-le (suc n) i p = ground (arith, count_clear-le n (i + 1) p)
