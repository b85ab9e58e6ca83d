-- ===== src/Daemon/Pages.antt =====
-- The bytes of a listing, and the pages that a client reads it by.
use se3331_labs.Common.{
  ℕ, zero, suc, ◌+◌, ◌≤◌, ◌≡◌, false, ◌∙◌, refl, sym, ap, arith, min, List, [], ◌∷◌, ◌++◌,
  append_assoc, append-nil, ◌<◌, ◌==◌, if◌then◌else◌, eq_false, length-take, lt→ltb, ltb-false,
  length, take, drop, replicate, length-append, length-replicate, length-drop,
}
use native.Mathlib.Decide.{dec_lt}
use se3331_labs.Directory.{Bytes, DirectoryEntry}
use se3331_labs.Daemon.{
  Reply, reply_err, reply_attr, reply_buf, reply_entry, reply_open, reply_write,
}
use se3331_labs.Daemon.Listing.{Fuse, c_str, add, add_all, reply_buf_limited}

module _ {ℓ} {A : Type ℓ} where
  pub take_beyond : (n : ℕ) (xs : List A) → length xs ≤ n → take n xs ≡ xs
  take_beyond zero [] h = refl
  take_beyond zero (x ∷ xs) h = absurd (omega arith)
  take_beyond (suc n) [] h = refl
  take_beyond (suc n) (x ∷ xs) h = ap (λ t. x ∷ t) (take_beyond n xs (omega arith))

  pub drop_beyond : (n : ℕ) (xs : List A) → length xs ≤ n → drop n xs ≡ []
  drop_beyond zero [] h = refl
  drop_beyond zero (x ∷ xs) h = absurd (omega arith)
  drop_beyond (suc n) [] h = refl
  drop_beyond (suc n) (x ∷ xs) h = drop_beyond n xs (omega arith)

  take-front : (xs ys : List A) → take (length xs) (xs ++ ys) ≡ xs
  take-front [] ys = refl
  take-front (x ∷ xs) ys = ap (λ t. x ∷ t) (take-front xs ys)

  pub take_nil : (n : ℕ) → take {A = A} n [] ≡ []
  take_nil zero = refl
  take_nil (suc n) = refl

  drop_nil : (n : ℕ) → drop {A = A} n [] ≡ []
  drop_nil zero = refl
  drop_nil (suc n) = refl

  drop-drop : (m n : ℕ) (xs : List A) → drop n (drop m xs) ≡ drop (m + n) xs
  drop-drop zero n xs = let e : n ≡ 0 + n = omega arith in ap (λ (t : ℕ). drop t xs) e
  drop-drop (suc m) n [] = drop_nil n ∙ sym (drop_nil (suc m + n))
  drop-drop (suc m) n (x ∷ xs) =
      let e : suc m + n ≡ suc (m + n) = omega arith in rw e (drop-drop m n xs)

  take_rest : (n : ℕ) (xs : List A) → take n xs ++ drop (length (take n xs)) xs ≡ xs
  take_rest zero xs = refl
  take_rest (suc n) [] = refl
  take_rest (suc n) (x ∷ xs) = ap (λ t. x ∷ t) (take_rest n xs)

  pub take-min : (n : ℕ) (xs : List A) → take (min (length xs) n) xs ≡ take n xs
  take-min n xs = elim (dec_lt n (length xs)) [
    | yes h ↦ let e : min (length xs) n ≡ n = omega arith in ap (λ (t : ℕ). take t xs) e
    | no h ↦
        let e : min (length xs) n ≡ length xs = omega arith in
        ap (λ (t : ℕ). take t xs) e
        ∙ (take_beyond (length xs) xs (omega arith) ∙ sym (take_beyond n xs (omega arith)))
  ]

-- An entry behind those of the buffer, as libfuse writes it.
add-direntry :
    (fuse : Fuse) (p name : Bytes) (ino : ℕ)
    → add fuse p name ino ≡ p ++ fuse.direntry name ino (length p + fuse.direntry_size name)
unfolding add
add-direntry fuse p name ino =
    let sz = fuse.direntry_size name in
    let len : length (p ++ replicate sz 0) ≡ length p + sz =
      omega (arith, length-append p (replicate sz 0), length-replicate {A = ℕ} sz 0) in
    rw (
      fuse.direntry_written (p ++ replicate sz 0) (length p) name ino (length p + sz) (omega arith),
      take-front p (replicate sz 0),
      drop_beyond (length p + sz) (p ++ replicate sz 0) (omega arith),
      append-nil,
    )

-- The entries one behind another; each is told where the next begins.
unfoldable pub listing : Fuse → (start : ℕ) → List DirectoryEntry → Bytes
listing fuse start [] = []
listing fuse start (entry ∷ list) =
    let end = start + fuse.direntry_size (c_str entry.name) in
    fuse.direntry (c_str entry.name) entry.id end ++ listing fuse end list

-- The buffer of `chfs_readdir` is what it held, and behind it the entries one behind another, whole,
-- each with the offset at which the next begins.
pub add_all-listing :
    (fuse : Fuse) (list : List DirectoryEntry) (p : Bytes)
    → add_all fuse list p ≡ p ++ listing fuse (length p) list
unfolding add_all listing
add_all-listing fuse [] p = sym (append-nil p)
add_all-listing fuse (entry ∷ list) p =
    let name = c_str entry.name in
    let end = length p + fuse.direntry_size name in
    let d = fuse.direntry name entry.id end in
    let len : length (p ++ d) ≡ end =
      omega (arith, length-append p d, fuse.length-direntry name entry.id end) in
    rw (add-direntry fuse p name entry.id)
      (add_all-listing fuse list (p ++ d) ∙ rw len (append_assoc p d (listing fuse end list)))

page : (p : Bytes) (off n : ℕ) → reply_buf_limited p off n ≡ reply_buf (take n (drop off p))
unfolding reply_buf_limited
page p off n = elim (dec_lt off (length p)) [
  | yes h ↦
      rw (lt→ltb off (length p) h)
        (ap reply_buf (rw (← length-drop off p) (take-min n (drop off p))))
  | no h ↦
      rw (ltb-false {a = off} {b = length p} (omega arith), drop_beyond off p (omega arith))
        (ap reply_buf (sym (take_nil n)))
]

abbrev data_of : Reply → Bytes
data_of (reply_buf bytes) = bytes
data_of (reply_err e) = []
data_of (reply_attr st) = []
data_of (reply_entry e) = []
data_of reply_open = []
data_of (reply_write n) = []

-- A client that reads the listing page by page, each from where the last ended, up to the first page
-- that is empty: rounds left, the offset.
unfoldable pub read_pages : (p : Bytes) → (maxsize : ℕ) → ℕ → (off : ℕ) → Bytes
read_pages p maxsize zero off = []
read_pages p maxsize (suc n) off =
    let got = data_of (reply_buf_limited p off maxsize) in
    got
    ++ (let rest = read_pages p maxsize n (off + length got) in
        if length got == 0 then [] else rest)

page_data : (p : Bytes) (off n : ℕ) → data_of (reply_buf_limited p off n) ≡ take n (drop off p)
page_data p off n = ap data_of (page p off n)

pages_from :
    (p : Bytes) (maxsize n off : ℕ)
    → 0 < maxsize
    → length p < off + n
    → read_pages p maxsize n off ≡ drop off p
unfolding read_pages
pages_from p maxsize zero off some_bytes enough = sym (drop_beyond off p (omega arith))
pages_from p maxsize (suc n) off some_bytes enough =
    let got = take maxsize (drop off p) in
    let len = length-take maxsize (drop off p) in
    let left = length-drop off p in
    elim (dec_lt off (length p)) [
      | yes h ↦
          let ne : (length got == 0) ≡ false = eq_false (omega arith) in
          rw (page_data p off maxsize, ne)
            (ap (λ t. got ++ t)
                (pages_from p maxsize n (off + length got) some_bytes (omega arith)
                  ∙ sym (drop-drop off (length got) p))
              ∙ take_rest maxsize (drop off p))
      | no h ↦
          let over : drop off p ≡ [] = drop_beyond off p (omega arith) in
          rw (page_data p off maxsize, over, take_nil {A = ℕ} maxsize) refl
    ]

-- A client that asks for pages of any size but zero, each from where the last one ended, up to the
-- first that is empty, gets all the bytes of the listing, in their order and each once, in no more
-- pages than the listing has bytes and one.
pub read_pages-all :
    (p : Bytes) (maxsize : ℕ) → 0 < maxsize → read_pages p maxsize (length p + 1) 0 ≡ p
read_pages-all p maxsize some_bytes = pages_from p maxsize (length p + 1) 0 some_bytes (omega arith)
