-- ===== src/Directory/Tokens.antt =====
-- `parse_directory` as a split into tokens, each of which gives at most one entry.
use se3331_labs.Common.{
  ℕ, zero, suc, ◌+◌, ◌<◌, ◌≡◌, ◌≢◌, ◌⊎◌, refl, ap, ◌∙◌, inl, inr, false, Option, none, some, List,
  [], ◌∷◌, ◌++◌, append_assoc, append-nil, arith, ◌==◌, if◌then◌else◌, Bool-cases, Option-cases,
  length, All, eq_false, eq_refl,
}
use se3331_labs.Directory.{
  Bytes, DirectoryEntry, entry, cut_at, entry_at, token_entry, parse_loop, parse_directory,
  needs_separator, string_to_inode_id,
}

abbrev pub Lacks : ℕ → Bytes → Type 0
Lacks b = All (λ c. c ≢ b)

abbrev pub prepend : ℕ → List Bytes → List Bytes
prepend c [] = (c ∷ []) ∷ []
prepend c (t ∷ ts) = (c ∷ t) ∷ ts

-- The parts between the separators.
unfoldable pub tokens : ℕ → Bytes → List Bytes
tokens sep [] = [] ∷ []
tokens sep (c ∷ s) = if c == sep then [] ∷ tokens sep s else prepend c (tokens sep s)

abbrev rest_tokens : ℕ → Option Bytes → List Bytes
rest_tokens sep none = []
rest_tokens sep (some s) = tokens sep s

tokens-cut_at :
    (sep : ℕ) (s : Bytes) → tokens sep s ≡ (cut_at sep s).0 ∷ rest_tokens sep (cut_at sep s).1
unfolding tokens cut_at
tokens-cut_at sep [] = refl
tokens-cut_at sep (c ∷ s) = elim (Bool-cases (c == sep)) [
  | inl e ↦ rw e
  | inr e ↦ rw (e, tokens-cut_at sep s)
]

-- What is behind a separator is shorter.
length-cut_at : (sep : ℕ) (s rest : Bytes) → (cut_at sep s).1 ≡ some rest → length rest < length s
unfolding cut_at
length-cut_at sep [] rest h = cc
length-cut_at sep (c ∷ s) rest h = ground (arith, length-cut_at sep s rest)

unfoldable pub entries : ℕ → List Bytes → List DirectoryEntry
entries stale [] = []
entries stale (t ∷ ts) = token_entry stale t ++ entries stale ts

pub entries-append :
    (stale : ℕ) (ts us : List Bytes)
    → entries stale (ts ++ us) ≡ entries stale ts ++ entries stale us
unfolding entries
entries-append stale [] us = refl
entries-append stale (t ∷ ts) us = simp (entries-append stale ts us, append_assoc)

pub entries_one : (stale : ℕ) (t : Bytes) → entries stale (t ∷ []) ≡ token_entry stale t
unfolding entries
entries_one stale t = append-nil (token_entry stale t)

parse_loop-entries :
    (stale rounds : ℕ) (rest : Bytes) (list : List DirectoryEntry)
    → length rest < rounds
    → parse_loop stale rounds rest list ≡ list ++ entries stale (tokens b'/' rest)
unfolding parse_loop entries
parse_loop-entries stale zero rest list h = absurd (omega arith)
parse_loop-entries stale (suc rounds) rest list h =
    rw (tokens-cut_at b'/' rest) (elim (Option-cases (cut_at b'/' rest).1) [
      | inl e ↦ rw (e, parse_loop) (rw append-nil)
      | inr (rest', e) ↦
          rw (e, parse_loop)
            (parse_loop-entries stale rounds rest' (list ++ token_entry stale (cut_at b'/' rest).0)
                (omega (arith, length-cut_at b'/' rest rest' e))
              ∙ append_assoc list (token_entry stale (cut_at b'/' rest).0)
                  (entries stale (tokens b'/' rest')))
    ])

-- `parse_directory` is the entries of the tokens, for every text: its loop has rounds enough.
pub parse_directory-entries :
    (stale : ℕ) (src : Bytes) → parse_directory stale src ≡ entries stale (tokens b'/' src)
unfolding parse_directory
parse_directory-entries stale [] = unfold entries tokens token_entry in refl
parse_directory-entries stale (c ∷ s) =
    parse_loop-entries stale (length (c ∷ s) + 1) (c ∷ s) [] (omega arith)

pub tokens_of_Lacks : (sep : ℕ) (t : Bytes) → Lacks sep t → tokens sep t ≡ t ∷ []
unfolding tokens
tokens_of_Lacks sep [] h = refl
tokens_of_Lacks sep (c ∷ t) (hc, ht) = rw (eq_false hc, tokens_of_Lacks sep t ht)

tokens-ne-nil : (sep : ℕ) (s : Bytes) → tokens sep s ≢ []
tokens-ne-nil sep s h = cc (tokens-cut_at sep s)

prepend-append : (c : ℕ) (ts us : List Bytes) → ts ≢ [] → prepend c (ts ++ us) ≡ prepend c ts ++ us
prepend-append c [] us h = absurd (h refl)
prepend-append c (t ∷ ts) us h = refl

pub parse_directory_token :
    (stale : ℕ) (t : Bytes) → Lacks b'/' t → parse_directory stale t ≡ token_entry stale t
parse_directory_token stale t h =
    parse_directory-entries stale t ∙ rw (tokens_of_Lacks b'/' t h) (entries_one stale t)

pub tokens-append :
    (sep : ℕ) (s t : Bytes) → tokens sep (s ++ sep ∷ t) ≡ tokens sep s ++ tokens sep t
unfolding tokens
tokens-append sep [] t = rw (eq_refl sep)
tokens-append sep (c ∷ s) t = elim (Bool-cases (c == sep)) [
  | inl e ↦ rw (e, tokens-append sep s t)
  | inr e ↦
      rw (e, tokens-append sep s t)
        (prepend-append c (tokens sep s) (tokens sep t) (tokens-ne-nil sep s))
]

-- The text behind a separator gives its entries after those of the text before it.
pub parse_directory-append :
    (stale : ℕ) (s t : Bytes)
    → parse_directory stale (s ++ b'/' ∷ t) ≡ parse_directory stale s ++ parse_directory stale t
parse_directory-append stale s t =
    rw
      (
        parse_directory-entries stale (s ++ b'/' ∷ t),
        parse_directory-entries stale s,
        parse_directory-entries stale t,
        tokens-append b'/' s t,
      )
      (entries-append stale (tokens b'/' s) (tokens b'/' t))

-- A text that needs no separator is empty or ends with one.
pub ends :
    (src : Bytes)
    → needs_separator src ≡ false
    → (src ≡ []) ⊎ ((s : Bytes) × (src ≡ s ++ b'/' ∷ []))
unfolding needs_separator
ends [] h = inl refl
ends (c ∷ []) h = let e : c ≡ b'/' = ground arith in inr ([], rw e)
ends (c ∷ d ∷ s) h = elim (ends (d ∷ s) h) [
  | inl e ↦ cc
  | inr (t, e) ↦ inr (c ∷ t, ap (λ r. c ∷ r) e)
]

cut_at-colon : (s text : Bytes) → Lacks b':' s → cut_at b':' (s ++ b':' ∷ text) ≡ (s, some text)
unfolding cut_at
cut_at-colon [] text h = refl
cut_at-colon (c ∷ s) text (hc, hs) = rw (eq_false hc, cut_at-colon s text hs)

-- A name and a number, with a colon between them.
pub token_entry-colon :
    (stale : ℕ) (name text : Bytes)
    → Lacks b':' name
    → token_entry stale (name ++ b':' ∷ text) ≡ entry name (string_to_inode_id stale text) ∷ []
unfolding token_entry entry_at
token_entry-colon stale [] text h = unfold cut_at in refl
token_entry-colon stale (c ∷ s) text (hc, hs) = rw (cut_at-colon (c ∷ s) text (hc, hs))
