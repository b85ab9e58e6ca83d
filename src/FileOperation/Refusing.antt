-- ===== src/FileOperation/Refusing.antt =====
-- What the making of a file refuses, and where the removal of a file does not end.
use se3331_labs.Common.{
  ℕ, ◌<◌, ◌≡◌, ◌≢◌, inl, inr, arith, false, some, List, [], leb, eq_false, replicate,
}
use se3331_labs.Result.{ErrorType, Result, ok, err, is_ok}
use se3331_labs.Block.{BlockManager, done, fault, Cmd, ◌>>=◌, attempt, read_block}
use se3331_labs.Directory.{Bytes}
use se3331_labs.Inode
use se3331_labs.Inode.{InodeType, type_directory, invalid_block_id}
use se3331_labs.InodeManager
use se3331_labs.FileOperation.{FileOperation}
use se3331_labs.FileOperation.Control.{collect, collect_indirect, remove_file}
use se3331_labs.FileOperation.Tree.{lookup, mk_helper}
use se3331_labs.FileOperation.Reading.{lookup-Reads}
use se3331_labs.Block.Reads.{Reads}

-- A command that reads ends on the device that it started on.
ends_there {ℓ} :
    {A : Type ℓ}
    → (m : Cmd A) (bm after : BlockManager) (r : Result A) → Reads m
    → m bm ≡ done r after
    → m bm ≡ done r bm
ends_there m bm after r h e = elim (h bm) [ inl f ↦ cc | inr (q, f) ↦ cc ]

-- If the name is found, `mk_helper` refuses it with AlreadyExist, whatever it was to make, and the
-- device is unchanged.
pub mk_helper-lookup :
    (stale now : ℕ) (raw : List ℕ) (fs : FileOperation) (id found : ℕ) (name : Bytes)
    (type : InodeType) (bm after : BlockManager)
    → lookup stale raw fs id name bm ≡ done (ok found) after
    → mk_helper stale now raw fs id name type bm ≡ done (err ErrorType.already_exist) bm
unfolding mk_helper is_ok
mk_helper-lookup stale now raw fs id found name type bm after e =
    let q =
      ends_there (lookup stale raw fs id name) bm after (ok found)
        (lookup-Reads stale raw fs id name) e in
    rw (attempt, ◌>>=◌, q)

-- Removing a file that has an indirect block does not end: behind the search of its direct blocks,
-- its indirect block is read into a vector of no bytes, which is a fault.
pub remove_file-indirect :
    (raw : List ℕ) (fs : FileOperation) (id block_id direct bid : ℕ) (inode free_set : List ℕ)
    (bm : BlockManager)
    → 0 < bm.block_sz
    → InodeManager.read_inode raw fs.inode_manager id (replicate bm.block_sz 0) bm
      ≡ done (ok (block_id, inode)) bm
    → Inode.get_direct_block_num inode ≡ some direct
    → collect direct 0 44 inode [] ≡ some free_set
    → Inode.block_at inode direct ≡ some bid
    → bid ≢ invalid_block_id
    → remove_file raw fs id bm ≡ fault
unfolding remove_file collect_indirect read_block
remove_file-indirect raw fs id block_id direct bid inode free_set bm pos r d c b ne =
    let l : leb bm.block_sz 0 ≡ false = ground arith in
    rw (◌>>=◌, r) (rw d (rw c (rw b (rw (eq_false ne, ◌>>=◌) (rw l)))))
