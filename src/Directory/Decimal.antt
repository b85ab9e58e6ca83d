-- ===== src/Directory/Decimal.antt =====
-- Printing an inode number and reading it back.
use native.Mathlib.Nat.{pow-suc}
use se3331_labs.Common.{
  ℕ, zero, suc, ◌+◌, ◌-◌, ◌*◌, ◌/◌, ◌%◌, ◌^◌, ◌<◌, ◌≡◌, ◌≢◌, refl, ap, ◌∙◌, true, false, [], ◌∷◌,
  arith, ◌==◌, inl, inr, Bool-cases, u64_mod, lt→ltb, All,
}
use se3331_labs.Directory.{
  Bytes, is_space, is_digit, digits_value, string_to_inode_id, digits, inode_id_to_string,
}

abbrev pub AreDigits : Bytes → Type 0
AreDigits = All (λ c. is_digit c ≡ true)

last_digit : (n : ℕ) → is_digit (b'0' + n % 10) ≡ true
unfolding is_digit
last_digit n = ground arith

pub digits-AreDigits : (k n : ℕ) (out : Bytes) → AreDigits out → AreDigits (digits k n out)
unfolding digits
digits-AreDigits zero n out h = h
digits-AreDigits (suc k) n out h = elim (Bool-cases (n / 10 == 0)) [
  | inl e ↦ rw e (last_digit n, h)
  | inr e ↦ rw e (digits-AreDigits k (n / 10) ((b'0' + n % 10) ∷ out) (last_digit n, h))
]

digits-ne-nil : (k n : ℕ) (out : Bytes) → out ≢ [] → digits k n out ≢ []
unfolding digits
digits-ne-nil zero n out h = h
digits-ne-nil (suc k) n out h = elim (Bool-cases (n / 10 == 0)) [
  | inl e ↦ rw e (λ q. cc)
  | inr e ↦ rw e (digits-ne-nil k (n / 10) ((b'0' + n % 10) ∷ out) (λ q. cc))
]

next_digit :
    (n v : ℕ) (out : Bytes)
    → digits_value ((b'0' + n % 10) ∷ out) v ≡ digits_value out (v * 10 + n % 10)
unfolding digits_value
next_digit n v out = let e : b'0' + n % 10 - b'0' ≡ n % 10 = omega arith in rw (last_digit n, e)

-- Reading the digits of `n` is reading `n` already.
digits_value-digits :
    (k n : ℕ) (out : Bytes) → n < 10 ^ k → digits_value (digits k n out) 0 ≡ digits_value out n
unfolding digits
digits_value-digits zero n out h = let z : n ≡ 0 = omega arith in rw z
digits_value-digits (suc k) n out h = elim (Bool-cases (n / 10 == 0)) [
  | inl e ↦
      let z : n / 10 ≡ 0 = ground arith in
      let m : 0 * 10 + n % 10 ≡ n = omega arith in
      rw e (next_digit n 0 out ∙ ap (digits_value out) m)
  | inr e ↦ rw e (
      digits_value-digits k (n / 10) ((b'0' + n % 10) ∷ out) (omega (arith, pow-suc 10 k))
      ∙ next_digit n (n / 10) out
      ∙ ap (digits_value out) (omega arith))
]

-- A text of digits is read as their value.
read-digits :
    (stale : ℕ) (s : Bytes)
    → s ≢ []
    → AreDigits s
    → digits_value s 0 < u64_mod
    → string_to_inode_id stale s ≡ digits_value s 0
unfolding string_to_inode_id is_space is_digit
read-digits stale [] ne h small = absurd (ne refl)
read-digits stale (c ∷ s) ne (hc, hs) small =
    let sp : is_space c ≡ false = ground arith in
    let minus : (c == b'-') ≡ false = ground arith in
    let plus : (c == b'+') ≡ false = ground arith in rw (sp, minus, plus, lt→ltb _ _ small)

digits_20-ne-nil : (n : ℕ) → digits 20 n [] ≢ []
unfolding digits
digits_20-ne-nil n = elim (Bool-cases (n / 10 == 0)) [
  | inl e ↦ rw e (λ q. cc)
  | inr e ↦ rw e (digits-ne-nil 19 (n / 10) ((b'0' + n % 10) ∷ []) (λ q. cc))
]

-- An inode number is read back from its text.
pub string_to_inode_id-inode_id_to_string :
    (stale id : ℕ) → id < u64_mod → string_to_inode_id stale (inode_id_to_string id) ≡ id
unfolding inode_id_to_string digits_value
string_to_inode_id-inode_id_to_string stale id h =
    let v : digits_value (digits 20 id []) 0 ≡ id = digits_value-digits 20 id [] (omega arith) in
    read-digits stale (digits 20 id []) (digits_20-ne-nil id) (digits-AreDigits 20 id [] tt)
      (omega arith)
    ∙ v
