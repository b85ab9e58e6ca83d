-- ===== src/Daemon/Start.antt =====
-- The file system that the daemon starts with.
use se3331_labs.Common.{ℕ, ◌<◌, ◌≡◌, refl, arith, List, length}
use se3331_labs.Result.{ok}
use se3331_labs.Bitmap.Bits.{AreBytes}
use se3331_labs.Block.{BlockManager, done, ◌>>=◌, unwrapped, verify, create}
use se3331_labs.InodeManager.Zeroing.{manager_of}
use se3331_labs.FileOperation.{FileOperation}
use se3331_labs.FileOperation.Control.{construct}
use se3331_labs.FileOperation.Data.{alloc_inode}
use se3331_labs.Inode.{type_directory}
use se3331_labs.FileOperation.Booting.{HasRoom, construct-New}
use se3331_labs.FileOperation.Root.{Root, alloc_inode-Root}
use se3331_labs.Daemon.Session.{prepare, bootstrap, k_block_size, k_max_inode_num}

prepare_run :
    (unset : ℕ × ℕ) (now : ℕ) (raw : List ℕ) (max : ℕ) (fs : FileOperation)
    (bm mid after : BlockManager)
    → construct unset max bm ≡ done (ok fs) mid
    → alloc_inode now raw fs type_directory mid ≡ done (ok 1) after
    → prepare unset now raw max bm ≡ done (ok fs) after
unfolding prepare
prepare_run unset now raw max fs bm mid after e f =
    rw (e, ◌>>=◌) (rw (f, unwrapped, ◌>>=◌, verify) refl)

prepare-Root :
    (unset : ℕ × ℕ) (now : ℕ) (raw : List ℕ) (max : ℕ) (bm : BlockManager)
    → HasRoom max bm
    → length raw ≡ bm.block_sz
    → AreBytes raw
    → (fs : FileOperation) × (after : BlockManager) × (prepare unset now raw max bm
        ≡ done (ok fs) after)
      × Root raw fs after
prepare-Root unset now raw max bm room whole bytes =
    let (fs, free, mid, e, n, s, m) = construct-New unset max bm room in
    let size = s.same_size in
    let (after, f, r) = alloc_inode-Root now raw fs free mid n (omega arith) bytes in
    (fs, after, prepare_run unset now raw max fs bm mid after e f, r)

abbrev disk : (ℕ → ℕ) → BlockManager
disk memory = record { block_sz = 1024; block_cnt = 16384; block_data = memory }

disk-HasRoom : (memory : ℕ → ℕ) → ((k : ℕ) → memory k < 256) → HasRoom k_max_inode_num (disk memory)
unfolding manager_of
disk-HasRoom memory bytes = record {
  inodes = record {
    range = record {
      device = record {
        some_bytes = omega arith;
        small_blocks = omega arith;
        few_blocks = omega arith;
        bytes = bytes;
      };
      within = omega arith;
    };
    covers = omega arith;
    room = omega arith;
  };
  some_inodes = omega arith;
  numbers = omega arith;
  behind = omega arith;
}

-- The daemon's start succeeds, whatever the memory of its device holds and whatever its unset fields
-- and buffers hold: the root directory gets inode number 1, as the code asserts, it is a directory, it
-- reads as empty, and the block bitmap and the inode bitmap are well-formed. A buffer has the size of
-- a block, and memory and buffers hold bytes.
pub bootstrap-Root :
    (unset : ℕ × ℕ) (now : ℕ) (raw : List ℕ) (memory : ℕ → ℕ)
    → ((k : ℕ) → memory k < 256)
    → length raw ≡ k_block_size
    → AreBytes raw
    → (fs : FileOperation) × (after : BlockManager) × (bootstrap unset now raw memory
        ≡ done (ok fs) after)
      × Root raw fs after
unfolding bootstrap create
bootstrap-Root unset now raw memory bytes whole clean =
    prepare-Root unset now raw k_max_inode_num (disk memory) (disk-HasRoom memory bytes) whole clean
