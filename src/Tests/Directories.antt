-- ===== src/Tests/Directories.antt =====
-- Directory texts of a few bytes.
use se3331_labs.Common.{◌≡◌, ◌≢◌, refl, ap, get_or, [], ◌∷◌, ◌++◌, none, some, arith, All}
use se3331_labs.Directory.{
  cut_at, same_bytes, Bytes, entry, inode_id_to_string, string_to_inode_id, parse_directory,
  append_to_directory, dir_list_to_string, rm_from_directory, find_entry,
}
use se3331_labs.Directory.RoundTrip.{
  IsEntry, parse_directory-append_to_directory, append_to_directory-colon,
}
use se3331_labs.Directory.Lists.{parse_directory-dir_list_to_string}
use se3331_labs.Directory.Remove.{
  parse_directory-IsEntry, find_entry-rm_from_directory, find_entry-append_to_directory,
}

abbrev two_entries : Bytes
two_entries = b'a' ∷ b':' ∷ b'2' ∷ b'/' ∷ b'b' ∷ b':' ∷ b'1' ∷ b'7' ∷ []

abbrev a_name : Bytes
a_name = b'a' ∷ []

abbrev b_name : Bytes
b_name = b'b' ∷ []

abbrev c_name : Bytes
c_name = b'c' ∷ []

parse_runs : parse_directory 0 two_entries ≡ entry a_name 2 ∷ entry b_name 17 ∷ []
unfolding parse_directory string_to_inode_id cut_at
parse_runs = refl

c-IsEntry : IsEntry (entry c_name 305)
c-IsEntry = record {
  no_slash = (omega arith, tt);
  no_colon = (omega arith, tt);
  fits = omega arith;
}

c_is_new : find_entry c_name (parse_directory 0 two_entries) ≡ none
unfolding parse_directory string_to_inode_id find_entry cut_at same_bytes
c_is_new = refl

parse_directory-append_to_directory_example :
    parse_directory 0 (append_to_directory two_entries c_name 305)
    ≡ parse_directory 0 two_entries ++ entry c_name 305 ∷ []
parse_directory-append_to_directory_example =
    parse_directory-append_to_directory 0 two_entries c_name 305 c-IsEntry

append_to_directory-colon_example :
    parse_directory 0 (append_to_directory two_entries (a_name ++ b':' ∷ b_name) 5)
    ≡ parse_directory 0 two_entries
      ++ entry a_name (string_to_inode_id 0 (b_name ++ b':' ∷ inode_id_to_string 5)) ∷ []
append_to_directory-colon_example =
    append_to_directory-colon 0 two_entries a_name b_name 5 (omega arith, tt) (omega arith, tt)
      (omega arith, tt)

parse_directory-dir_list_to_string_example :
    parse_directory 0 (dir_list_to_string (entry c_name 305 ∷ entry c_name 305 ∷ []))
    ≡ entry c_name 305 ∷ entry c_name 305 ∷ []
parse_directory-dir_list_to_string_example =
    parse_directory-dir_list_to_string 0 (entry c_name 305 ∷ entry c_name 305 ∷ [])
      (c-IsEntry, (c-IsEntry, tt))

parse_directory-IsEntry_example : All IsEntry (parse_directory 0 two_entries)
parse_directory-IsEntry_example = parse_directory-IsEntry 0 two_entries (omega arith)

a_is_not_b : b_name ≢ a_name
a_is_not_b q =
    let e : get_or b_name 0 0 ≡ get_or a_name 0 0 = ap (λ (s : Bytes). get_or s 0 0) q in
    omega arith

find_entry-rm_from_directory_example :
    (find_entry a_name (parse_directory 9 (rm_from_directory 0 two_entries a_name)) ≡ none)
    × (find_entry b_name (parse_directory 9 (rm_from_directory 0 two_entries a_name))
        ≡ find_entry b_name (parse_directory 0 two_entries))
find_entry-rm_from_directory_example =
    find_entry-rm_from_directory 0 9 two_entries a_name b_name (omega arith) a_is_not_b

b_is_not_c : b_name ≢ c_name
b_is_not_c q =
    let e : get_or b_name 0 0 ≡ get_or c_name 0 0 = ap (λ (s : Bytes). get_or s 0 0) q in
    omega arith

find_entry-append_to_directory_example :
    (find_entry c_name (parse_directory 0 (append_to_directory two_entries c_name 305)) ≡ some 305)
    × (find_entry b_name (parse_directory 0 (append_to_directory two_entries c_name 305))
        ≡ find_entry b_name (parse_directory 0 two_entries))
find_entry-append_to_directory_example =
    find_entry-append_to_directory 0 two_entries c_name b_name 305 c-IsEntry c_is_new b_is_not_c
