-- ===== src/InodeManager/Table.antt =====
-- The inode table as a map from indices to block ids.
use se3331_labs.Common.{
  ℕ, ◌+◌, ◌-◌, ◌*◌, ◌/◌, ◌%◌, ◌<◌, ◌≤◌, ◌≡◌, ◌≢◌, sym, ap, ◌∙◌, List, Option, some, arith, ltb,
  ◌==◌, if◌then◌else◌, length, u64_mod, true,
}
use native.Mathlib.Decide.{ℕ_discrete}
use se3331_labs.Common.Numbers.{same_index}
use se3331_labs.Result.{ok}
use se3331_labs.Block.{BlockManager, write_partial_block, Cmd, done, ◌>>=◌, attempt, checked}
use se3331_labs.Block.Layout.{
  IsDevice, block, written, length-block, block-written_ne, get_or-block-written,
}
use se3331_labs.Block.ReadWrite.{read_block_lem, write_partial_block_lem, written-IsDevice}
use se3331_labs.Fields.{bytes_of, load}
use se3331_labs.Fields.RoundTrip.{
  length-bytes_of, bytes_of-bytes, load-bytes, load-agrees, load-total,
}
use se3331_labs.InodeManager.{
  set_table, get, read_into, kept, raw_to_logic, logic_to_raw, inode_per_block, nonzero, ignored,
}

-- The entry of the table with the index `idx`, where the table starts with block 1.
unfoldable pub entry_of : BlockManager → ℕ → Option ℕ
entry_of bm idx = load 8 (idx % (bm.block_sz / 8) * 8) (block bm (1 + idx / (bm.block_sz / 8)))

-- The table has room for the index, in blocks of the device.
pub record IsIndex (bm : BlockManager) (idx : ℕ) : Type 0 where
  pub device : IsDevice bm
  pub room : 8 ≤ bm.block_sz
  pub within : 1 + idx / (bm.block_sz / 8) < bm.block_cnt
  pub small : idx + 1 < u64_mod

-- The device with the entry replaced.
abbrev pub entered : BlockManager → (idx bid : ℕ) → BlockManager
entered bm idx bid =
    written bm (1 + idx / (bm.block_sz / 8)) (idx % (bm.block_sz / 8) * 8) (bytes_of 8 bid)

pub ignored_lem :
    (m : Cmd (Unit {0})) (bm after : BlockManager)
    → m bm ≡ done (ok tt) after
    → ignored m bm ≡ done (ok tt) after
unfolding ignored
ignored_lem m bm after e = rw (ignored, attempt, ◌>>=◌, e)

module _ (bm : BlockManager) (idx : ℕ) (v : IsIndex bm idx) where
  pub slot_fits : idx % (bm.block_sz / 8) * 8 + 8 ≤ bm.block_sz
  slot_fits = let r = v.room in grind arith

  pub per_block_lem : inode_per_block bm ≡ done (ok (bm.block_sz / 8)) bm
  unfolding inode_per_block nonzero
  per_block_lem = let r = v.room in let e : ltb 0 (bm.block_sz / 8) ≡ true = ground arith in rw e

  pub set_table_lem : (bid : ℕ) → set_table idx bid bm ≡ done (ok tt) (entered bm idx bid)
  unfolding set_table ignored
  set_table_lem bid =
      let w =
        write_partial_block_lem bm (1 + idx / (bm.block_sz / 8)) v.device v.within (bytes_of 8 bid)
          (idx % (bm.block_sz / 8) * 8) (omega (arith, slot_fits, length-bytes_of 8 bid)) in
      rw (per_block_lem, ◌>>=◌)
        (ignored_lem
          (write_partial_block (1 + idx / (bm.block_sz / 8)) (bytes_of 8 bid)
            (idx % (bm.block_sz / 8) * 8) 8)
          bm _ (rw (length-bytes_of 8 bid) at w))

  pub get_lem :
      (raw : List ℕ)
      → length raw ≡ bm.block_sz
      → get raw (raw_to_logic idx) bm ≡ checked (entry_of bm idx) bm
  unfolding get read_into kept entry_of
  get_lem raw e =
      let s = v.small in
      let z : logic_to_raw (raw_to_logic idx) ≡ idx = omega arith in
      rw (per_block_lem, ◌>>=◌, z)
        (rw (read_block_lem bm (1 + idx / (bm.block_sz / 8)) v.device v.within raw e) (rw z))

pub IsIndex-entered :
    (bm : BlockManager) (idx bid other : ℕ) → IsIndex bm other → IsIndex (entered bm idx bid) other
IsIndex-entered bm idx bid other v = record {
  device =
      written-IsDevice bm (1 + idx / (bm.block_sz / 8)) (idx % (bm.block_sz / 8) * 8)
        (bytes_of 8 bid) v.device (bytes_of-bytes 8 bid);
  room = v.room;
  within = v.within;
  small = v.small;
}

pub entry_of-entered :
    (bm : BlockManager) (idx bid : ℕ)
    → IsIndex bm idx
    → bid < u64_mod
    → entry_of (entered bm idx bid) idx ≡ some bid
unfolding entry_of
entry_of-entered bm idx bid v small =
    load-bytes 8 (idx % (bm.block_sz / 8) * 8) bid
      (block (entered bm idx bid) (1 + idx / (bm.block_sz / 8)))
      (omega (
        arith,
        length-block (entered bm idx bid) (1 + idx / (bm.block_sz / 8)),
        slot_fits bm idx v,
      ))
      (omega arith)
      λ k h.
        let f = slot_fits bm idx v in
        let e : idx % (bm.block_sz / 8) * 8 + k - idx % (bm.block_sz / 8) * 8 ≡ k = omega arith in
        get_or-block-written bm (1 + idx / (bm.block_sz / 8)) (idx % (bm.block_sz / 8) * 8)
          (bytes_of 8 bid) (omega (arith, length-bytes_of 8 bid)) (idx % (bm.block_sz / 8) * 8 + k)
          (omega arith)
        ∙ rw e (ground (arith, length-bytes_of 8 bid))

pub entry_total :
    (bm : BlockManager) (idx : ℕ) → IsIndex bm idx → (bid : ℕ) × (entry_of bm idx ≡ some bid)
unfolding entry_of
entry_total bm idx v =
    load-total 8 (idx % (bm.block_sz / 8) * 8) (block bm (1 + idx / (bm.block_sz / 8)))
      (omega (arith, slot_fits bm idx v, length-block bm (1 + idx / (bm.block_sz / 8))))

pub entry_of-entered_ne :
    (bm : BlockManager) (idx bid other : ℕ)
    → IsIndex bm idx
    → IsIndex bm other
    → idx ≢ other
    → entry_of (entered bm idx bid) other ≡ entry_of bm other
unfolding entry_of
entry_of-entered_ne bm idx bid other v w ne =
    elim (ℕ_discrete (1 + idx / (bm.block_sz / 8)) (1 + other / (bm.block_sz / 8))) [
      | no apart ↦ ap (load 8 (other % (bm.block_sz / 8) * 8)) (
          block-written_ne bm (1 + idx / (bm.block_sz / 8)) (idx % (bm.block_sz / 8) * 8)
            (bytes_of 8 bid) (omega (arith, length-bytes_of 8 bid, slot_fits bm idx v))
            (1 + other / (bm.block_sz / 8)) apart)
      | yes same ↦
          let f = slot_fits bm idx v in
          let g = slot_fits bm other w in
          let slots : idx % (bm.block_sz / 8) ≢ other % (bm.block_sz / 8) =
            λ q. ne (same_index idx other (bm.block_sz / 8) (omega arith) q) in
          load-agrees 8 (other % (bm.block_sz / 8) * 8) _ _
            (length-block (entered bm idx bid) _ ∙ sym (length-block bm _))
            (omega (arith, length-block (entered bm idx bid) (1 + other / (bm.block_sz / 8))))
            λ k h. rw (← same) (
              get_or-block-written bm (1 + idx / (bm.block_sz / 8)) (idx % (bm.block_sz / 8) * 8)
                (bytes_of 8 bid) (omega (arith, length-bytes_of 8 bid))
                (other % (bm.block_sz / 8) * 8 + k) (omega arith)
              ∙ ground (arith, length-bytes_of 8 bid))
    ]

-- After `set_table` of an index of the table, `get` of the inode with that index gives the block id
-- written, and `get` of any other inode of the table gives what it gave before; none of the calls
-- faults. The device is well-formed, both indices lie in the table, and a buffer from `new` has the
-- size of a block.
pub get-set_table :
    (bm : BlockManager) (idx other bid : ℕ) (raw : List ℕ)
    → IsIndex bm idx
    → IsIndex bm other
    → bid < u64_mod
    → length raw ≡ bm.block_sz
    → (before : ℕ) × (after : BlockManager) × (get raw (raw_to_logic other) bm
        ≡ done (ok before) bm)
      × (set_table idx bid bm ≡ done (ok tt) after)
      × (get raw (raw_to_logic other) after
          ≡ done (ok (if idx == other then bid else before)) after)
get-set_table bm idx other bid raw v w small e =
    let (before, found) = entry_total bm other w in
    (
      before,
      entered bm idx bid,
      get_lem bm other w raw e ∙ rw found,
      set_table_lem bm idx v bid,
      get_lem (entered bm idx bid) other (IsIndex-entered bm idx bid other w) raw e
          ∙ rw (now before found),
    )
  where
    now :
        (before : ℕ)
        → entry_of bm other ≡ some before
        → entry_of (entered bm idx bid) other ≡ some (if idx == other then bid else before)
    now before found = elim (ℕ_discrete idx other) [
      | yes q ↦ rw (← q) (entry_of-entered bm idx bid v small ∙ ground arith)
      | no q ↦ entry_of-entered_ne bm idx bid other v w q ∙ found ∙ ground arith
    ]
