-- ===== src/FileOperation/Tree.antt =====
-- src/filesystem/directory_op.cc and src/include/filesystem/operations.h: the operations on
-- directories. `stale` is what a variable holds that is declared and not set.
use se3331_labs.Common.{ℕ, Option, none, some, List, ◌==◌, if◌then◌else◌}
use se3331_labs.Result.{ErrorType, is_ok}
use se3331_labs.Block.{Cmd, pure, fail, ◌>>=◌, ◌>>◌, attempt}
use se3331_labs.Inode.{InodeType, type_file, type_directory}
use se3331_labs.Directory.{
  Bytes, DirectoryEntry, parse_directory, find_entry, append_to_directory, rm_from_directory,
}
use se3331_labs.FileOperation.{FileOperation}
use se3331_labs.FileOperation.Data.{read_file, write_file, alloc_inode, gettype}
use se3331_labs.FileOperation.Control.{remove_file}

unfoldable pub read_directory :
    (stale : ℕ) → (raw : List ℕ) → FileOperation → (id : ℕ) → Cmd (List DirectoryEntry)
read_directory stale raw fs id = do buf ← read_file raw fs id; pure (parse_directory stale buf)

abbrev pub or_missing : Option ℕ → Cmd ℕ
or_missing (some id) = pure id
or_missing none = fail ErrorType.not_exist

unfoldable pub lookup :
    (stale : ℕ) → (raw : List ℕ) → FileOperation → (id : ℕ) → (name : Bytes) → Cmd ℕ
unfolding read_directory
lookup stale raw fs id name = do
  list ← read_directory stale raw fs id
  or_missing (find_entry name list)

unfoldable pub mk_helper :
    (stale now : ℕ) → (raw : List ℕ) → FileOperation → (id : ℕ) → (name : Bytes) → InodeType → Cmd ℕ
unfolding lookup
mk_helper stale now raw fs id name type = do
  lookup_res ← attempt (lookup stale raw fs id name)
  let make = (do
    new_inode_id ← alloc_inode now raw fs type
    dir ← read_file raw fs id
    write_file now raw fs id (append_to_directory dir name new_inode_id)
    pure new_inode_id)
  if is_ok lookup_res then fail ErrorType.already_exist else make

abbrev pub mkdir : (stale now : ℕ) → (raw : List ℕ) → FileOperation → (parent : ℕ) → Bytes → Cmd ℕ
mkdir stale now raw fs parent name = mk_helper stale now raw fs parent name type_directory

abbrev pub mkfile : (stale now : ℕ) → (raw : List ℕ) → FileOperation → (parent : ℕ) → Bytes → Cmd ℕ
mkfile stale now raw fs parent name = mk_helper stale now raw fs parent name type_file

unfoldable pub unlink :
    (stale now : ℕ)
    → (raw : List ℕ) → FileOperation
    → (parent : ℕ) → (name : Bytes) → Cmd (Unit {0})
unfolding lookup
unlink stale now raw fs parent name = do
  tid ← lookup stale raw fs parent name
  type ← gettype raw fs tid
  let remove = (do
    remove_file raw fs tid
    dir ← read_file raw fs parent
    write_file now raw fs parent (rm_from_directory stale dir name))
  if type == type_directory then fail ErrorType.not_empty else remove
