-- ===== src/Inode/Iterator.antt =====
-- src/include/metadata/inode.h and src/metadata/inode.cc: InodeIterator, begin() and end(), and the
-- checked operator[].
use se3331_labs.Common.{ℕ, ◌+◌, Bool, Option, some, List, ltb, ◌==◌}
use se3331_labs.Common.Checked.{◌>>=◌, verify}
use se3331_labs.Inode.{get_nblocks, block_at}

-- `inode` is the buffer of the inode.
pub record InodeIterator : Type 0 where
  pub cur_idx : ℕ
  pub inode : List ℕ

unfoldable pub begin : List ℕ → InodeIterator
begin inode = record { cur_idx = 0; inode = inode }

unfoldable pub end : List ℕ → Option InodeIterator
end inode = do n ← get_nblocks inode; some (record { cur_idx = n; inode = inode })

unfoldable pub increment : InodeIterator → InodeIterator
increment it = record it { cur_idx = it.cur_idx + 1 }

unfoldable pub same_place : InodeIterator → InodeIterator → Bool
same_place it rhs = it.cur_idx == rhs.cur_idx

unfoldable pub dereference : InodeIterator → Option ℕ
dereference it = block_at it.inode it.cur_idx

-- An index out of range throws.
unfoldable pub at_index : List ℕ → (index : ℕ) → Option ℕ
at_index inode index = do n ← get_nblocks inode; verify (ltb index n) (block_at inode index)
