-- ===== src/Directory.antt =====
-- src/include/filesystem/directory_op.h and src/filesystem/directory_op.cc: the text of a
-- directory, "name0:inode0/name1:inode1". A text is a list of bytes. `stale` is what a variable
-- holds that is declared and not set.
pub mod Decimal
pub mod Tokens
pub mod RoundTrip
pub mod Lists
pub mod Remove
use se3331_labs.Common.{
  ℕ, zero, suc, ◌+◌, ◌-◌, ◌*◌, ◌/◌, ◌%◌, Bool, true, false, not, ◌&&◌, ◌||◌, Option, none, some,
  List, [], ◌∷◌, ◌++◌, ltb, leb, ◌==◌, if◌then◌else◌, length, u64_mod,
}

abbrev pub Bytes : Type 0
Bytes = List ℕ

pub record DirectoryEntry : Type 0 where
  pub name : Bytes
  pub id : ℕ

abbrev pub entry : Bytes → ℕ → DirectoryEntry
entry n i = record { name = n; id = i }

-- `==` of std::string.
unfoldable pub same_bytes : Bytes → Bytes → Bool
same_bytes [] [] = true
same_bytes [] (d ∷ ds) = false
same_bytes (c ∷ cs) [] = false
same_bytes (c ∷ cs) (d ∷ ds) = c == d && same_bytes cs ds

-- operator>> into a uint64_t: white space, a sign, and the digits up to another character. Text
-- that starts with no digit gives 0, a number that does not fit gives the largest.
unfoldable pub is_space : ℕ → Bool
is_space c = c == b' ' || (leb 9 c && leb c 13)

unfoldable pub is_digit : ℕ → Bool
is_digit c = leb b'0' c && leb c b'9'

unfoldable pub skip_spaces : Bytes → Bytes
unfolding is_space
skip_spaces [] = []
skip_spaces (c ∷ s) = if is_space c then skip_spaces s else c ∷ s

unfoldable pub digits_value : Bytes → ℕ → ℕ
unfolding is_digit
digits_value [] value = value
digits_value (c ∷ s) value =
    let more = digits_value s (value * 10 + (c - b'0')) in if is_digit c then more else value

unfoldable pub magnitude : Bytes → ℕ
unfolding digits_value
magnitude s = let n = digits_value s 0 in if ltb n u64_mod then n else u64_mod - 1

unfoldable pub negated : Bytes → ℕ
unfolding digits_value
negated s =
    let n = digits_value s 0 in if ltb n u64_mod then (u64_mod - n) % u64_mod else u64_mod - 1

unfoldable pub read_number : ℕ → Bytes → ℕ
unfolding magnitude negated
read_number stale [] = stale
read_number stale (c ∷ s) =
    if c == b'-' then negated s else if c == b'+' then magnitude s else magnitude (c ∷ s)

-- An empty text leaves the variable as it is.
unfoldable pub string_to_inode_id : ℕ → Bytes → ℕ
unfolding skip_spaces read_number
string_to_inode_id stale text = read_number stale (skip_spaces text)

-- operator<< of a uint64_t: rounds left, the number, the digits behind it. A uint64_t has at most
-- twenty digits.
unfoldable pub digits : ℕ → ℕ → Bytes → Bytes
digits zero n out = out
digits (suc k) n out =
    let rest = digits k (n / 10) ((b'0' + n % 10) ∷ out) in
    if n / 10 == 0 then (b'0' + n % 10) ∷ out else rest

unfoldable pub inode_id_to_string : ℕ → Bytes
unfolding digits
inode_id_to_string id = digits 20 id []

-- The loop of `dir_list_to_string`: cnt, entries.size(), and what is written.
unfoldable pub print_loop : List DirectoryEntry → ℕ → ℕ → Bytes → Bytes
print_loop [] cnt size oss = oss
print_loop (e ∷ entries) cnt size oss = print_loop entries (cnt + 1) size (
    oss
    ++ (e.name
        ++ (b':' ∷ inode_id_to_string e.id ++ (if ltb cnt (size - 1) then b'/' ∷ [] else []))))

unfoldable pub dir_list_to_string : List DirectoryEntry → Bytes
unfolding print_loop
dir_list_to_string entries = print_loop entries 0 (length entries) []

-- `src.back() != '/'`, of a text that is not empty.
unfoldable pub needs_separator : Bytes → Bool
needs_separator [] = false
needs_separator (c ∷ []) = not (c == b'/')
needs_separator (c ∷ d ∷ s) = needs_separator (d ∷ s)

unfoldable pub append_to_directory : Bytes → Bytes → ℕ → Bytes
append_to_directory src filename id =
    src
    ++ ((if needs_separator src then b'/' ∷ [] else [])
        ++ (filename ++ b':' ∷ inode_id_to_string id))

-- `find` with the two `substr` around what it finds: the text before the first `sep`, and the text
-- behind it, if there is one.
unfoldable pub cut_at : ℕ → Bytes → Bytes × Option Bytes
cut_at sep [] = ([], none)
cut_at sep (c ∷ s) =
    let (before, behind) = cut_at sep s in if c == sep then ([], some s) else (c ∷ before, behind)

unfoldable pub entry_at : ℕ → Bytes → Option Bytes → List DirectoryEntry
entry_at stale name none = []
entry_at stale name (some id_str) = entry name (string_to_inode_id stale id_str) ∷ []

-- What one token adds to the list.
unfoldable pub token_entry : ℕ → Bytes → List DirectoryEntry
unfolding entry_at
token_entry stale [] = []
token_entry stale (c ∷ s) = let (name, id_str) = cut_at b':' (c ∷ s) in entry_at stale name id_str

-- The loop of `parse_directory` over the text from `start` on. Each round ends the loop or moves
-- `start`, so one round more than the text has bytes is enough.
unfoldable pub parse_loop : ℕ → ℕ → Bytes → List DirectoryEntry → List DirectoryEntry
unfolding token_entry
parse_loop stale zero rest list = list
parse_loop stale (suc rounds) rest list =
    let (token, behind) = cut_at b'/' rest in
    elim behind [
      | none ↦ list ++ token_entry stale token
      | some rest' ↦ parse_loop stale rounds rest' (list ++ token_entry stale token)
    ]

unfoldable pub parse_directory : ℕ → Bytes → List DirectoryEntry
unfolding parse_loop
parse_directory stale [] = []
parse_directory stale (c ∷ s) = parse_loop stale (length (c ∷ s) + 1) (c ∷ s) []

-- `remove_if` of the entries with the name.
unfoldable pub remove_named : Bytes → List DirectoryEntry → List DirectoryEntry
remove_named filename [] = []
remove_named filename (e ∷ list) =
    if same_bytes e.name filename
    then remove_named filename list
    else e ∷ remove_named filename list

unfoldable pub rm_from_directory : ℕ → Bytes → Bytes → Bytes
unfolding parse_directory remove_named dir_list_to_string
rm_from_directory stale src filename =
    dir_list_to_string (remove_named filename (parse_directory stale src))

-- The loop of `lookup` over the entries.
unfoldable pub find_entry : Bytes → List DirectoryEntry → Option ℕ
find_entry name [] = none
find_entry name (e ∷ list) = if same_bytes e.name name then some e.id else find_entry name list
