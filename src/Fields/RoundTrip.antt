-- ===== src/Fields/RoundTrip.antt =====
-- What is read from a buffer that holds the bytes of a field.
use native.Mathlib.Nat.{pow-suc}
use se3331_labs.Common.{
  ℕ, zero, suc, ◌+◌, ◌/◌, ◌^◌, ◌<◌, ◌≤◌, ◌≡◌, refl, sym, ap, ◌∙◌, some, List, [], ◌∷◌, ◌++◌, arith,
  leb, leb-true, length, take, drop, get_or, length-take, length-drop, length-append, list_ext,
}
use se3331_labs.Fields.{bytes_of, value_of, load}

pub length-bytes_of : (width value : ℕ) → length (bytes_of width value) ≡ width
unfolding bytes_of
length-bytes_of zero value = refl
length-bytes_of (suc width) value = ap suc (length-bytes_of width (value / 256))

pub bytes_of-bytes : (width value k : ℕ) → get_or (bytes_of width value) k 0 < 256
unfolding bytes_of
bytes_of-bytes zero value k = omega arith
bytes_of-bytes (suc width) value zero = omega arith
bytes_of-bytes (suc width) value (suc k) = bytes_of-bytes width (value / 256) k

pub value_of-bytes_of :
    (width value : ℕ) → value < 256 ^ width → value_of (bytes_of width value) ≡ value
unfolding bytes_of value_of
value_of-bytes_of zero value h = omega arith
value_of-bytes_of (suc width) value h =
    rw (value_of-bytes_of width (value / 256) (omega (arith, pow-suc 256 width))) (omega arith)

pub get_or-drop : (n : ℕ) (xs : List ℕ) (k : ℕ) → get_or (drop n xs) k 0 ≡ get_or xs (n + k) 0
get_or-drop zero xs k = let e : k ≡ 0 + k = omega arith in ap (λ (t : ℕ). get_or xs t 0) e
get_or-drop (suc n) [] k = refl
get_or-drop (suc n) (x ∷ xs) k =
    let e : suc (n + k) ≡ suc n + k = omega arith in
    get_or-drop n xs k ∙ ap (λ (t : ℕ). get_or (x ∷ xs) t 0) e

pub get_or-take : (n : ℕ) (xs : List ℕ) (k : ℕ) → k < n → get_or (take n xs) k 0 ≡ get_or xs k 0
get_or-take zero xs k h = elim h [ ]
get_or-take (suc n) [] k h = refl
get_or-take (suc n) (x ∷ xs) zero h = refl
get_or-take (suc n) (x ∷ xs) (suc k) h = get_or-take n xs k (omega arith)

window_length :
    (width offset : ℕ) (xs : List ℕ)
    → offset + width ≤ length xs
    → length (take width (drop offset xs)) ≡ width
window_length width offset xs h =
    omega (arith, length-take width (drop offset xs), length-drop offset xs)

get_or-window :
    (width offset : ℕ) (xs : List ℕ) (k : ℕ)
    → k < width
    → get_or (take width (drop offset xs)) k 0 ≡ get_or xs (offset + k) 0
get_or-window width offset xs k h = get_or-take width (drop offset xs) k h ∙ get_or-drop offset xs k

-- A field whose bytes stand in the buffer is read as its value.
pub load-bytes :
    (width offset value : ℕ) (buffer : List ℕ)
    → offset + width ≤ length buffer
    → value < 256 ^ width
    → ((k : ℕ) → k < width → get_or buffer (offset + k) 0 ≡ get_or (bytes_of width value) k 0)
    → load width offset buffer ≡ some value
unfolding load
load-bytes width offset value buffer fits small same =
    rw (leb-true {a = offset + width} {b = length buffer} fits)
      (ap some (ap value_of bytes ∙ value_of-bytes_of width value small))
  where
    bytes : take width (drop offset buffer) ≡ bytes_of width value
    bytes =
        list_ext _ _ 0 (window_length width offset buffer fits ∙ sym (length-bytes_of width value))
          λ k h.
            let h' : k < width = omega (arith, window_length width offset buffer fits) in
            get_or-window width offset buffer k h' ∙ same k h'

-- A field is read as in another buffer of the same length with the same bytes there.
pub load-agrees :
    (width offset : ℕ) (buffer other : List ℕ)
    → length buffer ≡ length other
    → offset + width ≤ length buffer
    → ((k : ℕ) → k < width → get_or buffer (offset + k) 0 ≡ get_or other (offset + k) 0)
    → load width offset buffer ≡ load width offset other
unfolding load
load-agrees width offset buffer other e fits same =
    rw
      (
        leb-true {a = offset + width} {b = length buffer} fits,
        leb-true {a = offset + width} {b = length other} (omega arith),
      )
      (ap some (ap value_of bytes))
  where
    bytes : take width (drop offset buffer) ≡ take width (drop offset other)
    bytes =
        list_ext _ _ 0
          (window_length width offset buffer fits
            ∙ sym (window_length width offset other (omega arith)))
          λ k h.
            let h' : k < width = omega (arith, window_length width offset buffer fits) in
            get_or-window width offset buffer k h'
            ∙ same k h'
            ∙ sym (get_or-window width offset other k h')

pub load-total :
    (width offset : ℕ) (buffer : List ℕ)
    → offset + width ≤ length buffer
    → (value : ℕ) × (load width offset buffer ≡ some value)
unfolding load
load-total width offset buffer fits = (
  value_of (take width (drop offset buffer)),
  rw (leb-true {a = offset + width} {b = length buffer} fits),
)

pub get_or-append_front :
    (xs ys : List ℕ) (k : ℕ) → k < length xs → get_or (xs ++ ys) k 0 ≡ get_or xs k 0
get_or-append_front [] ys k h = elim h [ ]
get_or-append_front (x ∷ xs) ys zero h = refl
get_or-append_front (x ∷ xs) ys (suc k) h = get_or-append_front xs ys k (omega arith)

pub get_or-append_back :
    (xs ys : List ℕ) (k : ℕ) → get_or (xs ++ ys) (length xs + k) 0 ≡ get_or ys k 0
get_or-append_back [] ys k = let e : 0 + k ≡ k = omega arith in ap (λ (t : ℕ). get_or ys t 0) e
get_or-append_back (x ∷ xs) ys k =
    let e : suc (length xs) + k ≡ suc (length xs + k) = omega arith in
    ap (λ (t : ℕ). get_or (x ∷ (xs ++ ys)) t 0) e ∙ get_or-append_back xs ys k

-- A field at the front, and one behind other bytes.
pub load-front :
    (width value : ℕ) (rest : List ℕ)
    → value < 256 ^ width
    → load width 0 (bytes_of width value ++ rest) ≡ some value
load-front width value rest small =
    let n = length-bytes_of width value in
    load-bytes width 0 value (bytes_of width value ++ rest)
      (omega (arith, n, length-append (bytes_of width value) rest)) small
      λ k h.
        let e : 0 + k ≡ k = omega arith in
        rw e (get_or-append_front (bytes_of width value) rest k (omega (arith, n)))

drop_behind : (xs ys : List ℕ) (offset : ℕ) → drop (length xs + offset) (xs ++ ys) ≡ drop offset ys
drop_behind [] ys offset = let e : 0 + offset ≡ offset = omega arith in ap (λ (t : ℕ). drop t ys) e
drop_behind (x ∷ xs) ys offset =
    let e : suc (length xs) + offset ≡ suc (length xs + offset) = omega arith in
    ap (λ (t : ℕ). drop t (x ∷ (xs ++ ys))) e ∙ drop_behind xs ys offset

leb_shift : (n a b : ℕ) → leb (n + a) (n + b) ≡ leb a b
leb_shift n a b = ground arith

load_past :
    (width offset : ℕ) (xs ys : List ℕ)
    → load width (length xs + offset) (xs ++ ys) ≡ load width offset ys
unfolding load
load_past width offset xs ys =
    let a : length xs + offset + width ≡ length xs + (offset + width) = omega arith in
    rw (
      length-append xs ys,
      a,
      leb_shift (length xs) (offset + width) (length ys),
      drop_behind xs ys offset,
    )

pub load_behind :
    (width n offset : ℕ) (xs ys : List ℕ)
    → length xs ≡ n
    → load width (n + offset) (xs ++ ys) ≡ load width offset ys
load_behind width n offset xs ys e =
    ap (λ (t : ℕ). load width (t + offset) (xs ++ ys)) (sym e) ∙ load_past width offset xs ys

pub append-bytes :
    (xs ys : List ℕ)
    → ((k : ℕ) → get_or xs k 0 < 256)
    → ((k : ℕ) → get_or ys k 0 < 256)
    → (k : ℕ) → get_or (xs ++ ys) k 0 < 256
append-bytes [] ys hx hy k = hy k
append-bytes (x ∷ xs) ys hx hy zero = hx zero
append-bytes (x ∷ xs) ys hx hy (suc k) = append-bytes xs ys (λ j. hx (suc j)) hy k

pub zero_bytes : (width k : ℕ) → get_or (bytes_of width 0) k 0 ≡ 0
unfolding bytes_of
zero_bytes zero k = refl
zero_bytes (suc width) zero = refl
zero_bytes (suc width) (suc k) = zero_bytes width k

pub take-bytes :
    (n : ℕ) (xs : List ℕ) → ((k : ℕ) → get_or xs k 0 < 256) → (k : ℕ) → get_or (take n xs) k 0 < 256
take-bytes zero xs h k = omega arith
take-bytes (suc n) [] h k = omega arith
take-bytes (suc n) (x ∷ xs) h zero = h zero
take-bytes (suc n) (x ∷ xs) h (suc k) = take-bytes n xs (λ j. h (suc j)) k

pub drop-bytes :
    (n : ℕ) (xs : List ℕ) → ((k : ℕ) → get_or xs k 0 < 256) → (k : ℕ) → get_or (drop n xs) k 0 < 256
drop-bytes n xs h k = rw (get_or-drop n xs k) (h (n + k))
