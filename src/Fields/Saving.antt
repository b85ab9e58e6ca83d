-- ===== src/Fields/Saving.antt =====
-- What `save` leaves of the bytes of a buffer.
use se3331_labs.Common.{
  ℕ, ◌+◌, ◌-◌, ◌^◌, ◌<◌, ◌≤◌, ◌≡◌, refl, sym, ap, ◌∙◌, arith, List, ◌++◌, some, leb-true, length,
  take, drop, get_or, length-append, length-take, length-drop,
}
use native.Mathlib.Decide.{dec_le}
use se3331_labs.Fields.{bytes_of, load, save}
use se3331_labs.Fields.RoundTrip.{
  length-bytes_of, bytes_of-bytes, get_or-drop, get_or-append_front, get_or-append_back, load-bytes,
  load-agrees, append-bytes, take-bytes, drop-bytes,
}

-- `out` is the buffer with a field of it replaced.
pub record Saved (width offset value : ℕ) (buffer out : List ℕ) : Type 0 where
  pub same_length : length out ≡ length buffer
  pub inside : (k : ℕ) → k < width → get_or out (offset + k) 0 ≡ get_or (bytes_of width value) k 0
  pub behind : (k : ℕ) → offset + width ≤ k → get_or out k 0 ≡ get_or buffer k 0
  pub bytes : ((k : ℕ) → get_or buffer k 0 < 256) → (k : ℕ) → get_or out k 0 < 256

module _ (width offset value : ℕ) (buffer : List ℕ) (fits : offset + width ≤ length buffer) where
  abbrev field : List ℕ
  field = bytes_of width value

  abbrev back : List ℕ
  back = drop (offset + width) buffer

  front : length (take offset buffer) ≡ offset
  front = omega (arith, length-take offset buffer)

  -- Behind the first part.
  get_or-past :
      (k : ℕ)
      → get_or (take offset buffer ++ (field ++ back)) (offset + k) 0 ≡ get_or (field ++ back) k 0
  get_or-past k =
      ap (λ (t : ℕ). get_or (take offset buffer ++ (field ++ back)) (t + k) 0) (sym front)
      ∙ get_or-append_back (take offset buffer) (field ++ back) k

  get_or-behind :
      (k : ℕ)
      → get_or (take offset buffer ++ (field ++ back)) (offset + (width + k)) 0
        ≡ get_or buffer (offset + width + k) 0
  get_or-behind k =
      get_or-past (width + k)
      ∙ ap (λ (t : ℕ). get_or (field ++ back) (t + k) 0) (sym (length-bytes_of width value))
      ∙ get_or-append_back field back k
      ∙ get_or-drop (offset + width) buffer k

  pub save-Saved :
      (out : List ℕ) × (save width offset value buffer ≡ some out)
      × Saved width offset value buffer out
  unfolding save
  save-Saved = (
    take offset buffer ++ (field ++ back),
    rw (leb-true {a = offset + width} {b = length buffer} fits) refl,
    record {
      same_length = omega (
        arith,
        length-append (take offset buffer) (field ++ back),
        length-append field back,
        front,
        length-bytes_of width value,
        length-drop (offset + width) buffer,
      );
      inside = λ k h.
          get_or-past k
          ∙ get_or-append_front field back k (omega (arith, length-bytes_of width value));
      behind = λ k h.
          let e : offset + (width + (k - (offset + width))) ≡ k = omega arith in
          let f : offset + width + (k - (offset + width)) ≡ k = omega arith in
          ap (λ (t : ℕ). get_or (take offset buffer ++ (field ++ back)) t 0) (sym e)
          ∙ get_or-behind (k - (offset + width))
          ∙ ap (λ (t : ℕ). get_or buffer t 0) f;
      bytes = λ h. append-bytes (take offset buffer) (field ++ back) (take-bytes offset buffer h) (
          append-bytes field back (bytes_of-bytes width value)
            (drop-bytes (offset + width) buffer h));
    },
  )

-- The field reads as what was saved.
pub load-Saved :
    (width offset value : ℕ) (buffer out : List ℕ)
    → Saved width offset value buffer out
    → offset + width ≤ length buffer
    → value < 256 ^ width
    → load width offset out ≡ some value
load-Saved width offset value buffer out s fits small =
    let n = s.same_length in load-bytes width offset value out (omega arith) small s.inside

-- A field reads the same in buffers that agree from a place before it on.
pub load-behind :
    (from width offset : ℕ) (buffer out : List ℕ)
    → length out ≡ length buffer
    → ((k : ℕ) → from ≤ k → get_or out k 0 ≡ get_or buffer k 0)
    → from ≤ offset
    → load width offset out ≡ load width offset buffer
unfolding load
load-behind from width offset buffer out n same l = elim (dec_le (offset + width) (length buffer)) [
  | yes f ↦
      load-agrees width offset out buffer n (omega arith) λ k h. same (offset + k) (omega arith)
  | no f ↦ ground arith
]
