-- ===== src/Block/Within.antt =====
-- Commands that, from one device, keep it, and what they give there.
use mathlib.Core.Path.{subst}
use se3331_labs.Common.{
  ℕ, ◌+◌, ◌≤◌, ◌≡◌, ◌⊎◌, inl, inr, refl, arith, Bool, true, false, Option, some, List, ◌++◌, leb,
  ◌&&◌, if◌then◌else◌, length, drop, tabulate, length-append, length-tabulate, Bool-cases,
  Option-cases,
}
use se3331_labs.Result.{Result, ok, err}
use se3331_labs.Block.{
  BlockManager, done, fault, Cmd, pure, ◌>>=◌, checked, verify, read_block, offset_of,
  storage_bytes,
}
use se3331_labs.Block.Reads.{Reads}
use se3331_labs.Block.Safe.{OnOk}

module _ {ℓ} {A : Type ℓ} (bm : BlockManager) (P : A → Type 0) where
  abbrev pub Within : Cmd A → Type ℓ
  Within m = (m bm ≡ fault) ⊎ ((r : Result A) × (m bm ≡ done r bm) × OnOk P r)

  pub pure-Within : (a : A) → P a → Within (pure a)
  pure-Within a p = inr (ok a, refl, p)

  pub checked-Within : (o : Option A) → ((a : A) → o ≡ some a → P a) → Within (checked o)
  checked-Within o h = elim (Option-cases o) [
    | inl e ↦ inl (rw (e, checked))
    | inr (a, e) ↦ inr (ok a, rw (e, checked), h a e)
  ]

  pub verify-Within : (b : Bool) (m : Cmd A) → Within m → Within (verify b m)
  verify-Within true m h = h
  verify-Within false m h = inl refl

  pub if-Within :
      (b : Bool) (m n : Cmd A)
      → (b ≡ true → Within m)
      → (b ≡ false → Within n)
      → Within (if b then m else n)
  if-Within true m n h k = h refl
  if-Within false m n h k = k refl

  -- What a run that succeeds gives.
  pub Within-ok :
      (m : Cmd A) (after : BlockManager) (a : A) → Within m → m bm ≡ done (ok a) after → P a
  Within-ok m after a (inl f) e = absurd cc
  Within-ok m after a (inr (ok b, f, p)) e = let q : b ≡ a = cc in subst P q p
  Within-ok m after a (inr (err x, f, p)) e = absurd cc

after_result {ℓ κ} :
    {A : Type ℓ} {B : Type κ} (bm : BlockManager) (P : A → Type 0) (Q : B → Type 0) (m : Cmd A)
    (f : A → Cmd B)
    → ((a : A) → P a → Within bm Q (f a))
    → (r : Result A) → m bm ≡ done r bm
    → OnOk P r
    → Within bm Q (m >>= f)
after_result bm P Q m f k (ok a) e p = rw (◌>>=◌, e) (k a p)
after_result bm P Q m f k (err x) e p = inr (err x, rw (◌>>=◌, e), tt)

pub bind-Within {ℓ κ} :
    {A : Type ℓ} {B : Type κ} (bm : BlockManager) (P : A → Type 0) (Q : B → Type 0) (m : Cmd A)
    (f : A → Cmd B)
    → Within bm P m
    → ((a : A) → P a → Within bm Q (f a))
    → Within bm Q (m >>= f)
bind-Within bm P Q m f h k = elim h [
  | inl e ↦ inl (rw (◌>>=◌, e))
  | inr (r, e, p) ↦ after_result bm P Q m f k r e p
]

pub Reads-Within {ℓ} :
    {A : Type ℓ} (bm : BlockManager) (m : Cmd A) → Reads m → Within bm (λ a. Unit) m
Reads-Within bm m h = elim (h bm) [
  | inl e ↦ inl e
  | inr (ok a, e) ↦ inr (ok a, e, tt)
  | inr (err x, e) ↦ inr (err x, e, tt)
]

-- A block that is read is no shorter than a block of the device.
pub read_block-Within :
    (bm : BlockManager) (id : ℕ) (buffer : List ℕ)
    → Within bm (λ bytes. bm.block_sz ≤ length bytes) (read_block id buffer)
unfolding read_block
read_block-Within bm id buffer =
    elim (Bool-cases
      (leb bm.block_sz (length buffer) && leb (offset_of bm id + bm.block_sz) (storage_bytes bm))) [
        | inl e ↦ inr (
          ok (tabulate bm.block_sz (offset_of bm id) bm.block_data ++ drop bm.block_sz buffer),
          rw e,
          omega (
            arith,
            length-append (tabulate bm.block_sz (offset_of bm id) bm.block_data)
                (drop bm.block_sz buffer),
            length-tabulate bm.block_sz (offset_of bm id) bm.block_data,
          ),
        )
        | inr e ↦ inl (rw e)
      ]
