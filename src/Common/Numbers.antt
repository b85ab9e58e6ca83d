-- ===== src/Common/Numbers.antt =====
-- Division with remainder at an index that is written as a block and a place in it.
use Prim.Native.Nat.{ℕ, ◌+◌, ◌*◌, ◌/◌, ◌%◌, ◌<◌, ◌≤◌}
use mathlib.Core.Path.{◌≡◌, ap, ◌∙◌}
use native.Mathlib.Nat.{
  mul-add-div_right, mul-add-mod_self_right, div-eq_of_lt, mod-eq_of_lt, div-add-mod, mod-lt,
}
use mathlib.Core.Logic.{◌⊎◌, inl, inr}
use native.Mathlib.Decide.{dec_lt}
use native.Mathlib.Omega.{arith}

pub index_div : (i r s : ℕ) → r < s → (i * s + r) / s ≡ i
index_div i r s h = mul-add-div_right (omega arith) i r ∙ omega (arith, div-eq_of_lt h)

pub index_mod : (i r s : ℕ) → r < s → (i * s + r) % s ≡ r
index_mod i r s h = mul-add-mod_self_right i s r ∙ mod-eq_of_lt h

pub same_index : (b c s : ℕ) → b / s ≡ c / s → b % s ≡ c % s → b ≡ c
same_index b c s p q =
    let r = ap (λ (t : ℕ). t * s) p in omega (arith, r, div-add-mod b s, div-add-mod c s)

-- The first place of a block stands before every other place of it.
pub le_of_index : (b c s : ℕ) → b / s ≡ c / s → b % s ≡ 0 → b ≤ c
le_of_index b c s p q =
    let r = ap (λ (t : ℕ). t * s) p in omega (arith, r, div-add-mod b s, div-add-mod c s)

-- The next place is in the same block, or it is the first place of the next one.
pub next_index :
    (i c s : ℕ)
    → 0 < s
    → i / s ≡ c
    → ((i + 1) / s ≡ c) ⊎ (((i + 1) / s ≡ c + 1) × ((i + 1) % s ≡ 0))
next_index i c s h e = elim (dec_lt (i % s + 1) s) [
  | yes l ↦ inl (ap (λ (t : ℕ). t / s) same ∙ index_div c (i % s + 1) s l)
  | no l ↦
      let q : i + 1 ≡ (c + 1) * s + 0 =
        omega (arith, ap (λ (t : ℕ). t * s) e, div-add-mod i s, mod-lt i h) in
      inr (
        ap (λ (t : ℕ). t / s) q ∙ index_div (c + 1) 0 s h,
        ap (λ (t : ℕ). t % s) q ∙ index_mod (c + 1) 0 s h,
      )
]
  where
    same : i + 1 ≡ c * s + (i % s + 1)
    same = omega (arith, ap (λ (t : ℕ). t * s) e, div-add-mod i s)
