-- ===== src/Directory/Remove.antt =====
-- What `rm_from_directory` leaves, and what the loop of `lookup` finds in it.
use se3331_labs.Common.{
  ℕ, ◌<◌, ◌≡◌, ◌≢◌, refl, sym, ap, ◌∙◌, inl, inr, true, Option, none, some, List, [], ◌∷◌, ◌++◌,
  arith, ◌==◌, Bool-cases, All, All-append, u64_mod, ltb, ltb→lt, eq_refl,
}
use se3331_labs.Directory.{
  Bytes, DirectoryEntry, entry, string_to_inode_id, token_entry, parse_directory,
  append_to_directory, remove_named, rm_from_directory, same_bytes, cut_at, find_entry, entry_at,
  read_number, magnitude, negated, skip_spaces, digits_value,
}
use se3331_labs.Directory.Tokens.{Lacks, prepend, tokens, entries, parse_directory-entries}
use se3331_labs.Directory.RoundTrip.{IsEntry, parse_directory-append_to_directory}
use se3331_labs.Directory.Lists.{parse_directory-dir_list_to_string}

magnitude_bound : (s : Bytes) → magnitude s < u64_mod
unfolding magnitude
magnitude_bound s = elim (Bool-cases (ltb (digits_value s 0) u64_mod)) [
  | inl e ↦ rw e (ltb→lt (digits_value s 0) u64_mod e)
  | inr e ↦ rw e (omega arith)
]

negated_bound : (s : Bytes) → negated s < u64_mod
unfolding negated
negated_bound s = elim (Bool-cases (ltb (digits_value s 0) u64_mod)) [
  | inl e ↦ rw e (omega arith)
  | inr e ↦ rw e (omega arith)
]

read_number_bound : (stale : ℕ) (s : Bytes) → stale < u64_mod → read_number stale s < u64_mod
unfolding read_number
read_number_bound stale [] h = h
read_number_bound stale (c ∷ s) h = elim (Bool-cases (c == b'-')) [
  | inl e ↦ rw e (negated_bound s)
  | inr e ↦ rw e (elim (Bool-cases (c == b'+')) [
    | inl f ↦ rw f (magnitude_bound s)
    | inr f ↦ rw f (magnitude_bound (c ∷ s))
  ])
]

id_bound : (stale : ℕ) (s : Bytes) → stale < u64_mod → string_to_inode_id stale s < u64_mod
unfolding string_to_inode_id
id_bound stale s h = read_number_bound stale (skip_spaces s) h

before-Lacks : (sep : ℕ) (s : Bytes) → Lacks sep (cut_at sep s).0
unfolding cut_at
before-Lacks sep [] = tt
before-Lacks sep (c ∷ s) = elim (Bool-cases (c == sep)) [
  | inl e ↦ rw e tt
  | inr e ↦ rw e ((λ q. cc (eq_refl sep)), before-Lacks sep s)
]

before-Lacks_other : (sep b : ℕ) (s : Bytes) → Lacks b s → Lacks b (cut_at sep s).0
unfolding cut_at
before-Lacks_other sep b [] h = tt
before-Lacks_other sep b (c ∷ s) (hc, h) = elim (Bool-cases (c == sep)) [
  | inl e ↦ rw e tt
  | inr e ↦ rw e (hc, before-Lacks_other sep b s h)
]

prepend-Lacks :
    (sep c : ℕ) (ts : List Bytes) → c ≢ sep → All (Lacks sep) ts → All (Lacks sep) (prepend c ts)
prepend-Lacks sep c [] hc h = ((hc, tt), tt)
prepend-Lacks sep c (t ∷ ts) hc (ht, h) = ((hc, ht), h)

tokens-Lacks : (sep : ℕ) (s : Bytes) → All (Lacks sep) (tokens sep s)
unfolding tokens
tokens-Lacks sep [] = (tt, tt)
tokens-Lacks sep (c ∷ s) = elim (Bool-cases (c == sep)) [
  | inl e ↦ rw e (tt, tokens-Lacks sep s)
  | inr e ↦ rw e (prepend-Lacks sep c (tokens sep s) (λ q. cc (eq_refl sep)) (tokens-Lacks sep s))
]

entry_at-IsEntry :
    (stale : ℕ) (name : Bytes) (id_str : Option Bytes)
    → stale < u64_mod
    → Lacks b'/' name
    → Lacks b':' name
    → All IsEntry (entry_at stale name id_str)
unfolding entry_at
entry_at-IsEntry stale name none h ns nc = tt
entry_at-IsEntry stale name (some s) h ns nc =
    (record { no_slash = ns; no_colon = nc; fits = id_bound stale s h }, tt)

token_entry-IsEntry :
    (stale : ℕ) (t : Bytes) → stale < u64_mod → Lacks b'/' t → All IsEntry (token_entry stale t)
unfolding token_entry
token_entry-IsEntry stale [] h l = tt
token_entry-IsEntry stale (c ∷ s) h l =
    entry_at-IsEntry stale (cut_at b':' (c ∷ s)).0 (cut_at b':' (c ∷ s)).1 h
      (before-Lacks_other b':' b'/' (c ∷ s) l) (before-Lacks b':' (c ∷ s))

entries-IsEntry :
    (stale : ℕ) (ts : List Bytes)
    → stale < u64_mod
    → All (Lacks b'/') ts
    → All IsEntry (entries stale ts)
unfolding entries
entries-IsEntry stale [] h l = tt
entries-IsEntry stale (t ∷ ts) h (lt, l) =
    All-append IsEntry (token_entry stale t) (entries stale ts) (token_entry-IsEntry stale t h lt)
      (entries-IsEntry stale ts h l)

-- Whatever the text is, every entry that `parse_directory` reads from it has a name without '/' and
-- ':' and a number that fits a uint64_t, if the variable that holds the number did before.
pub parse_directory-IsEntry :
    (stale : ℕ) (src : Bytes) → stale < u64_mod → All IsEntry (parse_directory stale src)
parse_directory-IsEntry stale src h =
    rw (parse_directory-entries stale src)
      (entries-IsEntry stale (tokens b'/' src) h (tokens-Lacks b'/' src))

remove_named-All :
    (P : DirectoryEntry → Type 0) (name : Bytes) (list : List DirectoryEntry)
    → All P list
    → All P (remove_named name list)
unfolding remove_named
remove_named-All P name [] h = tt
remove_named-All P name (e ∷ list) (he, h) = elim (Bool-cases (same_bytes e.name name)) [
  | inl q ↦ rw q (remove_named-All P name list h)
  | inr q ↦ rw q (he, remove_named-All P name list h)
]

pub parse_directory-rm_from_directory :
    (stale again : ℕ) (src name : Bytes)
    → stale < u64_mod
    → parse_directory again (rm_from_directory stale src name)
      ≡ remove_named name (parse_directory stale src)
unfolding rm_from_directory
parse_directory-rm_from_directory stale again src name h =
    parse_directory-dir_list_to_string again (remove_named name (parse_directory stale src)) (
      remove_named-All IsEntry name (parse_directory stale src)
        (parse_directory-IsEntry stale src h))

pub same_bytes→eq : (a b : Bytes) → same_bytes a b ≡ true → a ≡ b
unfolding same_bytes
same_bytes→eq [] [] h = refl
same_bytes→eq [] (d ∷ b) h = cc
same_bytes→eq (c ∷ a) [] h = cc
same_bytes→eq (c ∷ a) (d ∷ b) h = elim (Bool-cases (c == d)) [
  | inl e ↦ let q : c ≡ d = ground arith in rw q (ap (λ s. d ∷ s) (same_bytes→eq a b (rw e at h)))
  | inr e ↦ cc (rw e at h)
]

pub same_bytes_refl : (a : Bytes) → same_bytes a a ≡ true
unfolding same_bytes
same_bytes_refl [] = refl
same_bytes_refl (c ∷ a) = rw (eq_refl c, same_bytes_refl a)

find_entry-remove_named :
    (name : Bytes) (list : List DirectoryEntry) → find_entry name (remove_named name list) ≡ none
unfolding find_entry remove_named
find_entry-remove_named name [] = refl
find_entry-remove_named name (e ∷ list) = elim (Bool-cases (same_bytes e.name name)) [
  | inl q ↦ rw q (find_entry-remove_named name list)
  | inr q ↦ rw (q, find_entry) (rw q (find_entry-remove_named name list))
]

find_entry-remove_named_ne :
    (name other : Bytes) (list : List DirectoryEntry)
    → other ≢ name
    → find_entry other (remove_named name list) ≡ find_entry other list
unfolding find_entry remove_named
find_entry-remove_named_ne name other [] h = refl
find_entry-remove_named_ne name other (e ∷ list) h =
    let rest = find_entry-remove_named_ne name other list h in
    elim (Bool-cases (same_bytes e.name name)) [
      | inl q ↦ elim (Bool-cases (same_bytes e.name other)) [
        | inl r ↦ absurd (h (sym (same_bytes→eq e.name other r) ∙ same_bytes→eq e.name name q))
        | inr r ↦ rw (q, r) rest
      ]
      | inr q ↦ rw (q, find_entry) (rw rest)
    ]

-- After `rm_from_directory` the name is not found, and every other name is found or missing as
-- before, whatever the text of the directory is. The unset variables of the parse behind it can hold
-- another value than those of the parses before.
pub find_entry-rm_from_directory :
    (stale again : ℕ) (src name other : Bytes)
    → stale < u64_mod
    → other ≢ name
    → (find_entry name (parse_directory again (rm_from_directory stale src name)) ≡ none)
      × (find_entry other (parse_directory again (rm_from_directory stale src name))
          ≡ find_entry other (parse_directory stale src))
find_entry-rm_from_directory stale again src name other h ne =
    rw (parse_directory-rm_from_directory stale again src name h) (
      find_entry-remove_named name (parse_directory stale src),
      find_entry-remove_named_ne name other (parse_directory stale src) ne,
    )

find_entry-append :
    (name other : Bytes) (id : ℕ) (list : List DirectoryEntry)
    → find_entry name list ≡ none
    → find_entry name (list ++ entry name id ∷ []) ≡ some id
unfolding find_entry
find_entry-append name other id [] h = rw (same_bytes_refl name)
find_entry-append name other id (e ∷ list) h = elim (Bool-cases (same_bytes e.name name)) [
  | inl q ↦ cc (rw q at h)
  | inr q ↦ rw q (find_entry-append name other id list (rw q at h))
]

find_entry-append_ne :
    (name other : Bytes) (id : ℕ) (list : List DirectoryEntry)
    → other ≢ name
    → find_entry other (list ++ entry name id ∷ []) ≡ find_entry other list
unfolding find_entry
find_entry-append_ne name other id [] h = elim (Bool-cases (same_bytes name other)) [
  | inl q ↦ absurd (h (sym (same_bytes→eq name other q)))
  | inr q ↦ rw q
]
find_entry-append_ne name other id (e ∷ list) h = rw (find_entry-append_ne name other id list h)

-- After `append_to_directory` of a name that was not found, with neither '/' nor ':' in it, and a
-- number that fits a uint64_t, the name is found with its number, and every other name is found or missing as before.
pub find_entry-append_to_directory :
    (stale : ℕ) (src name other : Bytes) (id : ℕ)
    → IsEntry (entry name id)
    → find_entry name (parse_directory stale src) ≡ none
    → other ≢ name
    → (find_entry name (parse_directory stale (append_to_directory src name id)) ≡ some id)
      × (find_entry other (parse_directory stale (append_to_directory src name id))
          ≡ find_entry other (parse_directory stale src))
find_entry-append_to_directory stale src name other id v fresh ne =
    rw (parse_directory-append_to_directory stale src name id v) (
      find_entry-append name other id (parse_directory stale src) fresh,
      find_entry-append_ne name other id (parse_directory stale src) ne,
    )
