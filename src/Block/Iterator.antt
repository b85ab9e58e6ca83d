-- ===== src/Block/Iterator.antt =====
-- BlockIterator of src/include/block/manager.h and src/block/manager.cc.
use se3331_labs.Common.{
  ℕ, ◌+◌, ◌-◌, ◌*◌, ◌/◌, ◌%◌, Bool, List, ◌++◌, ltb, ◌==◌, if◌then◌else◌, get_elem?, take, drop,
  replicate, u64, u64_mod,
}
use se3331_labs.Result.{ErrorType, Result, ok, err}
use se3331_labs.Block.{Cmd, pure, ◌>>=◌, checked, attempt, block_size, read_block, write_block}

pub record BlockIterator : Type 0 where
  pub cur_block_off : ℕ
  pub start_block_id : ℕ
  pub end_block_id : ℕ
  pub buffer : List ℕ

unfoldable pub create : (start_block_id end_block_id : ℕ) → Cmd BlockIterator
create first last = do
  sz ← block_size
  bytes ← read_block (u64 (0 / sz + first)) (replicate sz 0)
  pure (record { cur_block_off = 0; start_block_id = first; end_block_id = last; buffer = bytes })

-- The buffer is replaced if the read succeeds.
unfoldable pub refreshed : BlockIterator → Result (List ℕ) → BlockIterator × Result (Unit {0})
refreshed it (ok bytes) = (record it { buffer = bytes }, ok tt)
refreshed it (err e) = (it, err e)

-- The iterator is changed, and returned, also where the call ends with an error.
unfoldable pub next : BlockIterator → ℕ → Cmd (BlockIterator × Result (Unit {0}))
unfolding refreshed
next it offset = do
  sz ← block_size
  let off = u64 (it.cur_block_off + offset)
  let moved = record it { cur_block_off = off }
  let target = u64 (it.start_block_id + off / sz)
  if off / sz == it.cur_block_off / sz
      then pure (moved, ok tt)
      else if ltb it.end_block_id target
      then pure (moved, err ErrorType.done)
      else (do r ← attempt (read_block target it.buffer); pure (refreshed moved r))

unfoldable pub has_next : BlockIterator → Cmd Bool
has_next it = do
  sz ← block_size
  pure (ltb it.cur_block_off (u64 (u64 (it.end_block_id + u64_mod - it.start_block_id) * sz)))

unfoldable pub flush_cur_block : BlockIterator → Cmd (Unit {0})
flush_cur_block it = do
  sz ← block_size
  write_block (u64 (it.start_block_id + it.cur_block_off / sz)) it.buffer

unfoldable pub get_cur_byte : BlockIterator → Cmd ℕ
get_cur_byte it = do sz ← block_size; checked (get_elem? it.buffer (it.cur_block_off % sz))

-- `unsafe_get_value_ptr<u8>()`: the bytes that the pointer reaches, and the iterator after they
-- are written through it.
unfoldable pub unsafe_get_value_ptr : BlockIterator → Cmd (List ℕ)
unsafe_get_value_ptr it = do sz ← block_size; pure (drop (it.cur_block_off % sz) it.buffer)

unfoldable pub write_through : BlockIterator → List ℕ → Cmd BlockIterator
write_through it bytes = do
  sz ← block_size
  pure (record it { buffer = take (it.cur_block_off % sz) it.buffer ++ bytes })
