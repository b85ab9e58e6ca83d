-- ===== src/Block/Safe.antt =====
-- Commands that keep a device well-formed, and what they give.
use mathlib.Core.Path.{subst}
use se3331_labs.Common.{
  ℕ, ◌+◌, ◌-◌, ◌<◌, ◌≡◌, ◌⊎◌, ◌∙◌, refl, inl, inr, arith, Bool, true, false, Option, none, some,
  List, ◌++◌, leb, ◌&&◌, if◌then◌else◌, length, take, drop, tabulate, length-tabulate,
  get_or-tabulate, get_or_beyond, Bool-cases,
}
use native.Mathlib.Decide.{dec_lt}
use se3331_labs.Result.{ErrorType, Result, ok, err}
use se3331_labs.Bitmap.Bits.{AreBytes}
use se3331_labs.Fields.RoundTrip.{append-bytes, take-bytes, drop-bytes}
use se3331_labs.Block.{
  BlockManager, Run, done, fault, Cmd, pure, fail, ◌>>=◌, checked, verify, attempt, unwrapped,
  splice, store, write_block, write_partial_block, read_block, offset_of, storage_bytes,
}
use se3331_labs.Block.Layout.{IsDevice}
use se3331_labs.Block.Reads.{Reads}

-- A device of the same geometry that is well-formed.
pub record Stays (bm after : BlockManager) : Type 0 where
  pub same_size : after.block_sz ≡ bm.block_sz
  pub same_count : after.block_cnt ≡ bm.block_cnt
  pub device : IsDevice after

abbrev pub Any {ℓ} : {A : Type ℓ} → A → Type 0
Any a = Unit

module _ {ℓ} {A : Type ℓ} (P : A → Type 0) where
  abbrev pub OnOk : Result A → Type 0
  OnOk (ok a) = P a
  OnOk (err e) = Unit

  abbrev pub OnSome : Option A → Type 0
  OnSome none = Unit
  OnSome (some a) = P a

  -- A run from `bm` that faults, or ends on a device that stays well-formed.
  abbrev pub Ends : BlockManager → Run A → Type ℓ
  Ends bm run =
      (run ≡ fault)
      ⊎ ((r : Result A) × (after : BlockManager) × (run ≡ done r after) × Stays bm after × OnOk r)

  -- From every well-formed device; a result is as `P` says.
  abbrev pub Safe : Cmd A → Type ℓ
  Safe m = (bm : BlockManager) → IsDevice bm → Ends bm (m bm)

pub Stays-refl : (bm : BlockManager) → IsDevice bm → Stays bm bm
Stays-refl bm v = record { same_size = refl; same_count = refl; device = v }

pub Stays-trans : {a b c : BlockManager} → Stays a b → Stays b c → Stays a c
Stays-trans p q = record {
  same_size = q.same_size ∙ p.same_size;
  same_count = q.same_count ∙ p.same_count;
  device = q.device;
}

module _ {ℓ} {A : Type ℓ} (P : A → Type 0) where
  pub pure-Safe : (a : A) → P a → Safe P (pure a)
  pure-Safe a p bm v = inr (ok a, bm, refl, Stays-refl bm v, p)

  pub fail-Safe : (e : ErrorType) → Safe P (fail e)
  fail-Safe e bm v = inr (err e, bm, refl, Stays-refl bm v, tt)

  pub fault-Safe : (m : Cmd A) → ((bm : BlockManager) → m bm ≡ fault) → Safe P m
  fault-Safe m h bm v = inl (h bm)

  pub checked-Safe : (o : Option A) → OnSome P o → Safe P (checked o)
  checked-Safe none p bm v = inl refl
  checked-Safe (some a) p bm v = inr (ok a, bm, refl, Stays-refl bm v, p)

  pub verify-Safe : (b : Bool) (m : Cmd A) → Safe P m → Safe P (verify b m)
  verify-Safe true m h bm v = h bm v
  verify-Safe false m h bm v = inl refl

  pub if-Safe : (b : Bool) (m n : Cmd A) → Safe P m → Safe P n → Safe P (if b then m else n)
  if-Safe true m n h k bm v = h bm v
  if-Safe false m n h k bm v = k bm v

  pub attempt-Safe : (m : Cmd A) → Safe P m → Safe (OnOk P) (attempt m)
  attempt-Safe m h bm v = elim (h bm v) [
    | inl e ↦ inl (rw (attempt, e))
    | inr (r, after, e, s, p) ↦ inr (ok r, after, rw (attempt, e), s, p)
  ]

  unwrapped_result :
      (m : Cmd A) (bm after : BlockManager) (r : Result A)
      → m bm ≡ done r after
      → Stays bm after
      → OnOk P r
      → Ends P bm (unwrapped m bm)
  unwrapped_result m bm after (ok a) e s p = inr (ok a, after, rw (unwrapped, e), s, p)
  unwrapped_result m bm after (err x) e s p = inl (rw (unwrapped, e))

  pub unwrapped-Safe : (m : Cmd A) → Safe P m → Safe P (unwrapped m)
  unwrapped-Safe m h bm v = elim (h bm v) [
    | inl e ↦ inl (rw (unwrapped, e))
    | inr (r, after, e, s, p) ↦ unwrapped_result m bm after r e s p
  ]

further {κ} :
    {B : Type κ} (Q : B → Type 0) (bm after : BlockManager) (run : Run B)
    → Stays bm after
    → Ends Q after run
    → Ends Q bm run
further Q bm after run s (inl e) = inl e
further Q bm after run s (inr (r, end, e, t, q)) = inr (r, end, e, Stays-trans s t, q)

after_result {ℓ κ} :
    {A : Type ℓ} {B : Type κ} (P : A → Type 0) (Q : B → Type 0) (m : Cmd A) (f : A → Cmd B)
    (bm after : BlockManager) (r : Result A)
    → ((a : A) → P a → Safe Q (f a))
    → m bm ≡ done r after
    → Stays bm after
    → OnOk P r
    → Ends Q bm ((m >>= f) bm)
after_result P Q m f bm after (ok a) k e s p =
    rw (◌>>=◌, e) (further Q bm after (f a after) s (k a p after s.device))
after_result P Q m f bm after (err x) k e s p = inr (err x, after, rw (◌>>=◌, e), s, tt)

pub bind-Safe {ℓ κ} :
    {A : Type ℓ} {B : Type κ} (P : A → Type 0) (Q : B → Type 0) (m : Cmd A) (f : A → Cmd B)
    → Safe P m
    → ((a : A) → P a → Safe Q (f a))
    → Safe Q (m >>= f)
bind-Safe P Q m f h k bm v = elim (h bm v) [
  | inl e ↦ inl (rw (◌>>=◌, e))
  | inr (r, after, e, s, p) ↦ after_result P Q m f bm after r k e s p
]

-- A command that only reads.
pub Reads-Safe {ℓ} : {A : Type ℓ} (m : Cmd A) → Reads m → Safe Any m
Reads-Safe m h bm v = elim (h bm) [
  | inl e ↦ inl e
  | inr (ok a, e) ↦ inr (ok a, bm, e, Stays-refl bm v, tt)
  | inr (err x, e) ↦ inr (err x, bm, e, Stays-refl bm v, tt)
]

tabulate-AreBytes : (n i : ℕ) (f : ℕ → ℕ) → ((k : ℕ) → f k < 256) → AreBytes (tabulate n i f)
tabulate-AreBytes n i f h k = elim (dec_lt k n) [
  | yes q ↦ rw (get_or-tabulate n i k f 0 q) (h (i + k))
  | no q ↦
      rw (get_or_beyond (tabulate n i f) k 0 (omega (arith, length-tabulate n i f))) (omega arith)
]

pub read_block-Safe :
    (id : ℕ) (buffer : List ℕ) → AreBytes buffer → Safe AreBytes (read_block id buffer)
unfolding read_block
read_block-Safe id buffer h bm v =
    elim (Bool-cases
      (leb bm.block_sz (length buffer) && leb (offset_of bm id + bm.block_sz) (storage_bytes bm))) [
        | inl e ↦ inr (
          ok (tabulate bm.block_sz (offset_of bm id) bm.block_data ++ drop bm.block_sz buffer),
          bm,
          rw e,
          Stays-refl bm v,
          append-bytes (tabulate bm.block_sz (offset_of bm id) bm.block_data) _
              (tabulate-AreBytes bm.block_sz (offset_of bm id) bm.block_data v.bytes)
              (drop-bytes bm.block_sz buffer h),
        )
        | inr e ↦ inl (rw e)
      ]

store-Safe : (start : ℕ) (xs : List ℕ) → AreBytes xs → Safe Any (store start xs)
unfolding store splice
store-Safe start xs h bm v = elim (Bool-cases (leb (start + length xs) (storage_bytes bm))) [
  | inl e ↦ inr (
    ok tt,
    record bm { block_data = splice bm.block_data start xs },
    rw e,
    record {
      same_size = refl;
      same_count = refl;
      device = record {
        some_bytes = v.some_bytes;
        small_blocks = v.small_blocks;
        few_blocks = v.few_blocks;
        bytes = λ k. ground (arith, v.bytes k, h (k - start));
      };
    },
    tt,
  )
  | inr e ↦ inl (rw e)
]

pub write_block-Safe : (id : ℕ) (xs : List ℕ) → AreBytes xs → Safe Any (write_block id xs)
unfolding write_block
write_block-Safe id xs h bm v =
    verify-Safe Any (leb bm.block_sz (length xs)) _
      (store-Safe (offset_of bm id) (take bm.block_sz xs) (take-bytes bm.block_sz xs h)) bm v

pub write_partial_block-Safe :
    (id : ℕ) (xs : List ℕ) (offset len : ℕ)
    → AreBytes xs
    → Safe Any (write_partial_block id xs offset len)
unfolding write_partial_block
write_partial_block-Safe id xs offset len h bm v =
    verify-Safe Any (leb len (length xs)) _
      (store-Safe (offset_of bm id + offset) (take len xs) (take-bytes len xs h)) bm v

-- The device that a run ends on.
pub Safe-Stays {ℓ} :
    {A : Type ℓ} (P : A → Type 0) (m : Cmd A) (bm after : BlockManager) (r : Result A)
    → Safe P m
    → IsDevice bm
    → m bm ≡ done r after
    → Stays bm after
Safe-Stays P m bm after r h v e = elim (h bm v) [
  | inl f ↦ absurd cc
  | inr (q, end, f, s, p) ↦ let same : end ≡ after = cc in subst (λ x. Stays bm x) same s
]
