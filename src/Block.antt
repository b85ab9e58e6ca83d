-- ===== src/Block.antt =====
-- src/include/block/manager.h and src/block/manager.cc: the block device, and its commands.
-- A command runs on the device and ends with a result and the device as it then is, or with a
-- fault: a failed CHFS_ASSERT or CHFS_VERIFY, an exception that nothing catches, or an access
-- outside an array. An error keeps what was written before it.
pub mod Layout
pub mod ReadWrite
pub mod Iterator
pub mod Walk
pub mod Reads
pub mod File
pub mod Safe
pub mod Within
use se3331_labs.Common.{
  ℕ, ◌+◌, ◌-◌, ◌*◌, Bool, true, false, ◌&&◌, Option, none, some, List, ltb, leb, if◌then◌else◌,
  ◌++◌, length, get_or, take, drop, replicate, tabulate, u64,
}
use se3331_labs.Result.{ErrorType, Result, ok, err}

pub record BlockManager : Type 0 where
  pub block_sz : ℕ
  pub block_cnt : ℕ
  pub block_data : ℕ → ℕ

pub data Run {ℓ} (A : Type ℓ) : Type ℓ where
  done : Result A → BlockManager → Run A
  fault : Run A

abbrev pub Cmd {ℓ} : Type ℓ → Type ℓ
Cmd A = BlockManager → Run A

module _ {ℓ} {A : Type ℓ} where
  abbrev pub pure : A → Cmd A
  pure a bm = done (ok a) bm

  abbrev pub fail : ErrorType → Cmd A
  fail e bm = done (err e) bm

  -- A checked computation on values alone.
  abbrev pub checked : Option A → Cmd A
  checked (some a) bm = done (ok a) bm
  checked none bm = fault

  abbrev pub verify : Bool → Cmd A → Cmd A
  verify true k bm = k bm
  verify false k bm = fault

  -- A call whose result, error or not, the caller looks at.
  abbrev pub attempt : Cmd A → Cmd (Result A)
  attempt m bm = elim (m bm) [ done r bm' ↦ done (ok r) bm' | fault ↦ fault ]

  -- `unwrap()` on the result of a call.
  abbrev pub unwrapped : Cmd A → Cmd A
  unwrapped m bm = elim (m bm) [
    | done r bm' ↦ elim r [ ok a ↦ done (ok a) bm' | err e ↦ fault ]
    | fault ↦ fault
  ]

infixl 5 ◌>>=◌ ◌>>◌
-- CHFS_HANDLE and its hand-written form: an error of the call is the error of the caller.
abbrev pub ◌>>=◌ {ℓ κ} : {A : Type ℓ} {B : Type κ} → Cmd A → (A → Cmd B) → Cmd B
◌>>=◌ m f bm = elim (m bm) [
  | done r bm' ↦ elim r [ ok a ↦ f a bm' | err e ↦ done (err e) bm' ]
  | fault ↦ fault
]

abbrev pub ◌>>◌ {ℓ} : {B : Type ℓ} → Cmd (Unit {0}) → Cmd B → Cmd B
m >> k = m >>= λ _. k

abbrev pub storage_bytes : BlockManager → ℕ
storage_bytes bm = bm.block_cnt * bm.block_sz

-- BlockManager(usize block_cnt, usize block_size), over memory that holds `raw`.
unfoldable pub create : (block_cnt block_size : ℕ) → (raw : ℕ → ℕ) → Option BlockManager
create block_cnt block_size raw =
    if ltb 0 (block_cnt * block_size)
    then some (record { block_sz = block_size; block_cnt = block_cnt; block_data = raw })
    else none

abbrev pub total_blocks : Cmd ℕ
total_blocks bm = done (ok bm.block_cnt) bm

abbrev pub block_size : Cmd ℕ
block_size bm = done (ok bm.block_sz) bm

-- block_id * this->block_sz, in uint64_t
abbrev pub offset_of : BlockManager → ℕ → ℕ
offset_of bm block_id = u64 (block_id * bm.block_sz)

-- The bytes `xs` written over an array from `start` on.
unfoldable pub splice : (ℕ → ℕ) → ℕ → List ℕ → ℕ → ℕ
splice f start xs k =
    if leb start k && ltb k (start + length xs) then get_or xs (k - start) 0 else f k

-- memcpy of `xs` into the device.
unfoldable pub store : ℕ → List ℕ → Cmd (Unit {0})
unfolding splice
store start xs bm =
    if leb (start + length xs) (storage_bytes bm)
    then done (ok tt) (record bm { block_data = splice bm.block_data start xs })
    else fault

unfoldable pub write_block : ℕ → List ℕ → Cmd (Unit {0})
write_block block_id bytes bm =
    verify (leb bm.block_sz (length bytes)) (store (offset_of bm block_id) (take bm.block_sz bytes))
      bm

unfoldable pub write_partial_block : ℕ → List ℕ → (offset len : ℕ) → Cmd (Unit {0})
write_partial_block block_id bytes offset len bm =
    verify (leb len (length bytes)) (store (offset_of bm block_id + offset) (take len bytes)) bm

-- The buffer comes back with its first `block_sz` bytes replaced.
unfoldable pub read_block : ℕ → List ℕ → Cmd (List ℕ)
read_block block_id buffer bm =
    if leb bm.block_sz (length buffer)
      && leb (offset_of bm block_id + bm.block_sz) (storage_bytes bm)
    then done
        (ok (tabulate bm.block_sz (offset_of bm block_id) bm.block_data ++ drop bm.block_sz buffer))
        bm
    else fault

unfoldable pub zero_block : ℕ → Cmd (Unit {0})
zero_block block_id bm = store (offset_of bm block_id) (replicate bm.block_sz 0) bm
