-- ===== src/Fields.antt =====
-- A buffer of bytes read and written as packed fields, as src/include/metadata/inode.h and
-- src/include/metadata/superblock.h lay them out on a little-endian machine. A field outside the
-- buffer gives `none`.
pub mod RoundTrip
pub mod Saving
use se3331_labs.Common.{
  ℕ, zero, suc, ◌+◌, ◌*◌, ◌/◌, ◌%◌, Option, none, some, List, [], ◌∷◌, ◌++◌, leb, if◌then◌else◌,
  length, take, drop,
}

-- The bytes of an unsigned integer of a width in bytes.
unfoldable pub bytes_of : (width value : ℕ) → List ℕ
bytes_of zero value = []
bytes_of (suc width) value = value % 256 ∷ bytes_of width (value / 256)

unfoldable pub value_of : List ℕ → ℕ
value_of [] = 0
value_of (byte ∷ bytes) = byte + 256 * value_of bytes

unfoldable pub load : (width offset : ℕ) → List ℕ → Option ℕ
unfolding value_of
load width offset buffer =
    if leb (offset + width) (length buffer)
    then some (value_of (take width (drop offset buffer)))
    else none

unfoldable pub save : (width offset value : ℕ) → List ℕ → Option (List ℕ)
unfolding bytes_of
save width offset value buffer =
    if leb (offset + width) (length buffer)
    then some (take offset buffer ++ (bytes_of width value ++ drop (offset + width) buffer))
    else none
