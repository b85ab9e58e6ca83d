-- ===== src/Directory/RoundTrip.antt =====
-- What `parse_directory` reads from the texts that the other functions write.
use se3331_labs.Common.{
  ℕ, ◌<◌, ◌≡◌, ◌≢◌, sym, ap, ◌∙◌, inl, inr, [], ◌∷◌, ◌++◌, append_assoc, append-nil, arith,
  if◌then◌else◌, Bool-cases, All-append, u64_mod,
}
use se3331_labs.Directory.{
  Bytes, DirectoryEntry, entry, inode_id_to_string, string_to_inode_id, token_entry,
  parse_directory, append_to_directory, needs_separator, digits, is_digit,
}
use se3331_labs.Directory.Decimal.{
  AreDigits, digits-AreDigits, string_to_inode_id-inode_id_to_string,
}
use se3331_labs.Directory.Tokens.{
  Lacks, ends, token_entry-colon, parse_directory-append, parse_directory_token,
}

-- Names hold neither separator, and numbers fit a uint64_t.
pub record IsEntry (e : DirectoryEntry) : Type 0 where
  pub no_slash : Lacks b'/' e.name
  pub no_colon : Lacks b':' e.name
  pub fits : e.id < u64_mod

digits-Lacks : (s : Bytes) → AreDigits s → Lacks b'/' s
digits-Lacks [] h = tt
digits-Lacks (c ∷ s) (hc, hs) = (unfold is_digit in ground arith, digits-Lacks s hs)

id_text-Lacks : (id : ℕ) → Lacks b'/' (inode_id_to_string id)
unfolding inode_id_to_string
id_text-Lacks id = digits-Lacks (digits 20 id []) (digits-AreDigits 20 id [] tt)

-- The text of an entry.
unfoldable pub token : DirectoryEntry → Bytes
token e = e.name ++ b':' ∷ inode_id_to_string e.id

pub token-Lacks :
    (name : Bytes) (id : ℕ) → Lacks b'/' name → Lacks b'/' (name ++ b':' ∷ inode_id_to_string id)
token-Lacks name id h =
    All-append (λ c. c ≢ b'/') name (b':' ∷ inode_id_to_string id) h (omega arith, id_text-Lacks id)

-- Appending a text with no slash appends the entry of that text.
append-token :
    (stale : ℕ) (src t : Bytes)
    → Lacks b'/' t
    → parse_directory stale (src ++ ((if needs_separator src then b'/' ∷ [] else []) ++ t))
      ≡ parse_directory stale src ++ token_entry stale t
unfolding parse_directory token_entry
append-token stale src t h = elim (Bool-cases (needs_separator src)) [
  | inl e ↦ rw e (
      parse_directory-append stale src t
      ∙ ap (λ l. parse_directory stale src ++ l) (parse_directory_token stale t h))
  | inr e ↦ rw e (elim (ends src e) [
    | inl empty ↦ rw empty (parse_directory_token stale t h)
    | inr (s, q) ↦
        rw
          (
            q,
            append_assoc s (b'/' ∷ []) t,
            parse_directory-append stale s t,
            parse_directory-append stale s [],
            parse_directory_token stale t h,
          )
          (ap (λ l. l ++ token_entry stale t) (sym (append-nil (parse_directory stale s))))
  ])
]

-- Whatever the text of the directory is, appending a name without '/' and ':' with a number that
-- fits a uint64_t appends exactly that entry to what is parsed.
pub parse_directory-append_to_directory :
    (stale : ℕ) (src name : Bytes) (id : ℕ)
    → IsEntry (entry name id)
    → parse_directory stale (append_to_directory src name id)
      ≡ parse_directory stale src ++ entry name id ∷ []
unfolding append_to_directory
parse_directory-append_to_directory stale src name id v =
    append-token stale src (name ++ b':' ∷ inode_id_to_string id) (token-Lacks name id v.no_slash)
    ∙ rw (
      token_entry-colon stale name (inode_id_to_string id) v.no_colon,
      string_to_inode_id-inode_id_to_string stale id v.fits,
    )

-- If the name appended holds a ':', behind `front` without one, then what is parsed is not that
-- name: the new entry has the name `front`, and its number is read from the rest of the name.
pub append_to_directory-colon :
    (stale : ℕ) (src front back : Bytes) (id : ℕ)
    → Lacks b'/' front
    → Lacks b'/' back
    → Lacks b':' front
    → parse_directory stale (append_to_directory src (front ++ b':' ∷ back) id)
      ≡ parse_directory stale src
        ++ entry front (string_to_inode_id stale (back ++ b':' ∷ inode_id_to_string id)) ∷ []
unfolding append_to_directory
append_to_directory-colon stale src front back id hf hb hc =
    append-token stale src ((front ++ b':' ∷ back) ++ b':' ∷ inode_id_to_string id) (
      token-Lacks (front ++ b':' ∷ back) id
        (All-append (λ c. c ≢ b'/') front (b':' ∷ back) hf (omega arith, hb)))
    ∙ rw (
      append_assoc front (b':' ∷ back) (b':' ∷ inode_id_to_string id),
      token_entry-colon stale front (back ++ b':' ∷ inode_id_to_string id) hc,
    )
