-- ===== src/Directory/Lists.antt =====
-- What `parse_directory` reads from what `dir_list_to_string` writes, and the entries that
-- `rm_from_directory` keeps.
use se3331_labs.Common.{
  ℕ, ◌+◌, ◌-◌, ◌≡◌, refl, sym, ap, ◌∙◌, List, [], ◌∷◌, ◌++◌, append_assoc, append-nil, arith,
  length, All, lt→ltb, ltb-false,
}
use se3331_labs.Directory.{
  Bytes, DirectoryEntry, inode_id_to_string, parse_directory, print_loop, dir_list_to_string,
}
use se3331_labs.Directory.Decimal.{string_to_inode_id-inode_id_to_string}
use se3331_labs.Directory.Tokens.{token_entry-colon, parse_directory-append, parse_directory_token}
use se3331_labs.Directory.RoundTrip.{IsEntry, token, token-Lacks}

-- The texts of the entries, with slashes between them.
pub joined : List DirectoryEntry → Bytes
joined [] = []
joined (e ∷ []) = token e
joined (e ∷ f ∷ list) = token e ++ b'/' ∷ joined (f ∷ list)

print_loop-joined :
    (list : List DirectoryEntry) (cnt size : ℕ) (oss : Bytes)
    → cnt + length list ≡ size
    → print_loop list cnt size oss ≡ oss ++ joined list
unfolding print_loop joined token
print_loop-joined [] cnt size oss e = sym (append-nil oss)
print_loop-joined (e ∷ []) cnt size oss h =
    rw (ltb-false {a = cnt} {b = size - 1} (omega arith)) (rw append-nil)
print_loop-joined (e ∷ f ∷ list) cnt size oss h =
    rw (lt→ltb cnt (size - 1) (omega arith))
      (print_loop-joined (f ∷ list) (cnt + 1) size _ (omega arith) ∙ simp append_assoc)

dir_list_to_string-joined : (list : List DirectoryEntry) → dir_list_to_string list ≡ joined list
unfolding dir_list_to_string
dir_list_to_string-joined list = print_loop-joined list 0 (length list) [] (omega arith)

parse_directory-token :
    (stale : ℕ) (e : DirectoryEntry) → IsEntry e → parse_directory stale (token e) ≡ e ∷ []
unfolding token
parse_directory-token stale e v =
    parse_directory_token stale (e.name ++ b':' ∷ inode_id_to_string e.id)
      (token-Lacks e.name e.id v.no_slash)
    ∙ rw (
      token_entry-colon stale e.name (inode_id_to_string e.id) v.no_colon,
      string_to_inode_id-inode_id_to_string stale e.id v.fits,
    )

parse_directory-joined :
    (stale : ℕ) (list : List DirectoryEntry)
    → All IsEntry list
    → parse_directory stale (joined list) ≡ list
unfolding joined
parse_directory-joined stale [] h = unfold parse_directory in refl
parse_directory-joined stale (e ∷ []) (he, h) = parse_directory-token stale e he
parse_directory-joined stale (e ∷ f ∷ list) (he, h) =
    parse_directory-append stale (token e) (joined (f ∷ list))
    ∙ rw (parse_directory-token stale e he, parse_directory-joined stale (f ∷ list) h)

-- Entries whose names hold neither '/' nor ':' and whose numbers fit a uint64_t are read back, in
-- their order, from the text that `dir_list_to_string` writes of them.
pub parse_directory-dir_list_to_string :
    (stale : ℕ) (list : List DirectoryEntry)
    → All IsEntry list
    → parse_directory stale (dir_list_to_string list) ≡ list
parse_directory-dir_list_to_string stale list h =
    ap (parse_directory stale) (dir_list_to_string-joined list)
    ∙ parse_directory-joined stale list h
