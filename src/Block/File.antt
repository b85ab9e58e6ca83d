-- ===== src/Block/File.antt =====
-- src/block/manager.cc: the constructors of a device over a file. The system calls are parameters.
use se3331_labs.Common.{
  ℕ, ◌*◌, ◌/◌, ◌<◌, ◌≡◌, refl, arith, Bool, true, false, Option, none, some, ◌==◌, eq_false,
  if◌then◌else◌, u32, u32_mod,
}
use se3331_labs.Common.Checked.{◌>>=◌, verify}
use se3331_labs.Block.{BlockManager}

-- A file: its length, and its bytes as a mapping shows them.
pub record File : Type 0 where
  pub file_sz : ℕ
  pub bytes : ℕ → ℕ

-- What the system does: whether open and mmap succeed, and ftruncate, which can fail.
pub record Host : Type 0 where
  pub opened : Bool
  pub ftruncate : File → (total_file_sz : ℕ) → Option File
  pub mapped : Bool

abbrev pub k_default_block_cnt : ℕ
k_default_block_cnt = 4096

abbrev pub default_block_sz : ℕ
default_block_sz = 4096

-- total_storage_sz(), a usize.
abbrev pub total_storage_sz : (block_cnt : ℕ) → ℕ
total_storage_sz block_cnt = u32 (block_cnt * default_block_sz)

-- The length as a usize.
abbrev pub get_file_sz : File → ℕ
get_file_sz file = u32 file.file_sz

abbrev pub initialize_file : Host → File → (total_file_sz : ℕ) → Option File
initialize_file host file total_file_sz = host.ftruncate file total_file_sz

-- mmap: the device, and the file as it now is.
abbrev pub map_file : Host → File → (block_cnt : ℕ) → Option (BlockManager × File)
map_file host file block_cnt = verify host.mapped (
    some (
      record { block_sz = default_block_sz; block_cnt = block_cnt; block_data = file.bytes },
      file,
    ))

-- BlockManager(const std::string &file, usize block_cnt). A failed assertion is `none`.
unfoldable pub create_over_file : Host → File → (block_cnt : ℕ) → Option (BlockManager × File)
create_over_file host file block_cnt = verify host.opened (
    if get_file_sz file == 0
    then (do
      made ← initialize_file host file (total_storage_sz block_cnt)
      map_file host made block_cnt)
    else verify
        (total_storage_sz (get_file_sz file / default_block_sz)
          == u32 (k_default_block_cnt * default_block_sz))
        (map_file host file (get_file_sz file / default_block_sz)))

-- BlockManager(const std::string &file)
abbrev pub create_default : Host → File → Option (BlockManager × File)
create_default host file = create_over_file host file k_default_block_cnt

-- The system calls succeed, and ftruncate gives a file the length asked for.
pub record Succeeds (host : Host) : Type 0 where
  pub opens : host.opened ≡ true
  pub truncates :
      (file : File) (len : ℕ)
      → (made : File) × (host.ftruncate file len ≡ some made) × (made.file_sz ≡ len)
  pub maps : host.mapped ≡ true

-- Where the system calls succeed, a device of any number of blocks that is not zero, and whose bytes
-- fit a usize, is made over a file that is empty, or whose length is a multiple of 4 GiB. It makes the
-- file as long as its blocks. To open that file again, for whatever number of blocks, gives the same
-- device if it has as many blocks as a default device, and fails for every other number.
pub create_over_file-again :
    (host : Host) (file : File) (block_cnt asked : ℕ)
    → Succeeds host
    → u32 file.file_sz ≡ 0
    → 0 < block_cnt
    → block_cnt * default_block_sz < u32_mod
    → (bm : BlockManager) × (made : File) × (create_over_file host file block_cnt ≡ some (bm, made))
      × (bm.block_cnt ≡ block_cnt)
      × (made.file_sz ≡ block_cnt * default_block_sz)
      × (create_over_file host made asked
          ≡ (if block_cnt == k_default_block_cnt then some (bm, made) else none))
unfolding create_over_file
create_over_file-again host file block_cnt asked s empty some_blocks small =
    let (made, t, len) = s.truncates file (total_storage_sz block_cnt) in
    let e : u32 (block_cnt * default_block_sz) ≡ block_cnt * default_block_sz = omega arith in
    let z : (get_file_sz made == 0) ≡ false = eq_false (omega arith) in
    let d : get_file_sz made / default_block_sz ≡ block_cnt = omega arith in
    let same : (total_storage_sz block_cnt == u32 (k_default_block_cnt * default_block_sz))
        ≡ (block_cnt == k_default_block_cnt) =
      ground arith in
    (
      record { block_sz = default_block_sz; block_cnt = block_cnt; block_data = made.bytes },
      made,
      rw (s.opens, empty, ◌>>=◌, t, s.maps) refl,
      refl,
      omega arith,
      rw (s.opens, z, d, same) (split made (block_cnt == k_default_block_cnt)),
    )
  where
    split :
        (made : File) (b : Bool)
        → verify b (map_file host made block_cnt) ≡ (
            if b
            then some (
              record {
                block_sz = default_block_sz;
                block_cnt = block_cnt;
                block_data = made.bytes;
              },
              made,
            )
            else none)
    split made true = rw s.maps refl
    split made false = refl
