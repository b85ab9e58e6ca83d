-- ===== src/Block/Reads.antt =====
-- Commands that keep the device as it is.
use se3331_labs.Common.{
  ℕ, ◌+◌, ◌≡◌, ◌⊎◌, inl, inr, refl, Bool, true, false, Option, none, some, List, ◌++◌, leb, ◌&&◌,
  if◌then◌else◌, length, Bool-cases, drop, tabulate,
}
use se3331_labs.Result.{ErrorType, Result, ok, err}
use se3331_labs.Block.{
  BlockManager, Run, done, fault, Cmd, pure, fail, ◌>>=◌, checked, verify, attempt, unwrapped,
  read_block, block_size, offset_of, storage_bytes,
}

-- A run that faults, or ends on the device `bm`.
abbrev pub Keeps {ℓ} : {A : Type ℓ} → Run A → BlockManager → Type ℓ
Keeps {A = A} run bm = (run ≡ fault) ⊎ ((r : Result A) × (run ≡ done r bm))

-- A command that keeps every device.
abbrev pub Reads {ℓ} : {A : Type ℓ} → Cmd A → Type ℓ
Reads m = (bm : BlockManager) → Keeps (m bm) bm

module _ {ℓ} {A : Type ℓ} where
  pub pure-Reads : (a : A) → Reads (pure a)
  pure-Reads a bm = inr (ok a, refl)

  pub fail-Reads : (e : ErrorType) → Reads {A = A} (fail e)
  fail-Reads e bm = inr (err e, refl)

  pub checked-Reads : (a : Option A) → Reads (checked a)
  checked-Reads none bm = inl refl
  checked-Reads (some a) bm = inr (ok a, refl)

  pub verify-Reads : (b : Bool) (m : Cmd A) → Reads m → Reads (verify b m)
  verify-Reads true m h bm = h bm
  verify-Reads false m h bm = inl refl

  pub if-Reads : (b : Bool) (m n : Cmd A) → Reads m → Reads n → Reads (if b then m else n)
  if-Reads true m n h k bm = h bm
  if-Reads false m n h k bm = k bm

  pub attempt-Reads : (m : Cmd A) → Reads m → Reads (attempt m)
  attempt-Reads m h bm = elim (h bm) [
    | inl e ↦ inl (rw (attempt, e))
    | inr (r, e) ↦ inr (ok r, rw (attempt, e))
  ]

  unwrapped_result :
      (m : Cmd A) (bm : BlockManager) (r : Result A) → m bm ≡ done r bm → Keeps (unwrapped m bm) bm
  unwrapped_result m bm (ok a) e = inr (ok a, rw (unwrapped, e))
  unwrapped_result m bm (err x) e = inl (rw (unwrapped, e))

  pub unwrapped-Reads : (m : Cmd A) → Reads m → Reads (unwrapped m)
  unwrapped-Reads m h bm = elim (h bm) [
    | inl e ↦ inl (rw (unwrapped, e))
    | inr (r, e) ↦ unwrapped_result m bm r e
  ]

after_result {ℓ κ} :
    {A : Type ℓ} {B : Type κ}
    → (m : Cmd A) (f : A → Cmd B) (bm : BlockManager) → ((a : A) → Reads (f a))
    → (r : Result A) → m bm ≡ done r bm
    → Keeps ((m >>= f) bm) bm
after_result m f bm k (ok a) e = rw (◌>>=◌, e) (k a bm)
after_result m f bm k (err x) e = inr (err x, rw (◌>>=◌, e))

pub bind-Reads {ℓ κ} :
    {A : Type ℓ} {B : Type κ}
    → (m : Cmd A) (f : A → Cmd B) → Reads m
    → ((a : A) → Reads (f a))
    → Reads (m >>= f)
bind-Reads m f h k bm = elim (h bm) [
  | inl e ↦ inl (rw (◌>>=◌, e))
  | inr (r, e) ↦ after_result m f bm k r e
]

pub block_size-Reads : Reads block_size
block_size-Reads bm = inr (ok bm.block_sz, refl)

pub read_block-Reads : (id : ℕ) (buffer : List ℕ) → Reads (read_block id buffer)
unfolding read_block
read_block-Reads id buffer bm =
    elim (Bool-cases
      (leb bm.block_sz (length buffer) && leb (offset_of bm id + bm.block_sz) (storage_bytes bm))) [
        | inl e ↦ inr (
          ok (tabulate bm.block_sz (offset_of bm id) bm.block_data ++ drop bm.block_sz buffer),
          rw e,
        )
        | inr e ↦ inl (rw e)
      ]
