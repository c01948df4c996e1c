-- ===== src/FileManager/Spliced.antt =====
-- What a replacement of lines or bytes leaves of a file.
use a_hand.Base.{
  append_nil, append_assoc, ℕ, zero, suc, ◌+◌, ◌≤◌, ◌<◌, ◌≡◌, refl, sym, ap, ◌∙◌, true, false, List,
  [], ◌∷◌, ◌++◌, some, arith, length, length-append, drop, ltb, nat_beq, Bool-cases, inl, inr,
}
use a_hand.Base.Text.{Text, text_eq}
use a_hand.Base.Map
use a_hand.FileManager.{Fs, file, ok, ByteRangeReplace}
use a_hand.FileManager.Lines.{
  before_lines, split_inclusive, concat, take, ends_with_newline, line_at,
}
use a_hand.FileManager.Write.{new_block, splice_lines, splice_bytes, apply_byte_range_replace, read}

newline_first : (c : ℕ) (ls : List Text) → nat_beq c 10 ≡ true → before_lines c ls ≡ (c ∷ []) ∷ ls
newline_first c [] h = refl
newline_first c (l ∷ ls) h = rw h refl

before_lines-append :
    (c d : ℕ) (ls ms : List Text)
    → before_lines c (before_lines d ls ++ ms) ≡ before_lines c (before_lines d ls) ++ ms
before_lines-append c d [] ms = ground arith
before_lines-append c d (l ∷ ls) ms = ground arith

-- A text that ends with a newline is cut off from what follows it.
split_inclusive-append :
    (s t : Text)
    → ends_with_newline s ≡ true
    → split_inclusive (s ++ t) ≡ split_inclusive s ++ split_inclusive t
unfolding split_inclusive ends_with_newline
split_inclusive-append [] t h = cc
split_inclusive-append (c ∷ []) t h = newline_first c (split_inclusive t) h
split_inclusive-append (c ∷ d ∷ s) t h =
    ap (before_lines c) (split_inclusive-append (d ∷ s) t h)
    ∙ before_lines-append c d (split_inclusive s) (split_inclusive t)

-- The lines of a text: each is its own only line, and all but the last end with a newline.
abbrev IsLines : List Text → Type 0
IsLines [] = Unit {0}
IsLines (l ∷ []) = split_inclusive l ≡ l ∷ []
IsLines (l ∷ m ∷ ls) =
    (split_inclusive l ≡ l ∷ []) × (ends_with_newline l ≡ true) × IsLines (m ∷ ls)

-- A byte in front of a line that is its own only line.
longer_line :
    (c : ℕ) (l : Text)
    → split_inclusive l ≡ l ∷ []
    → nat_beq c 10 ≡ false
    → (split_inclusive (c ∷ l) ≡ (c ∷ l) ∷ []) × (ends_with_newline (c ∷ l) ≡ ends_with_newline l)
unfolding split_inclusive ends_with_newline
longer_line c [] e h = ground arith
longer_line c (d ∷ l) e h = (rw (e, h) refl, refl)

before_lines-IsLines : (c : ℕ) (ls : List Text) → IsLines ls → IsLines (before_lines c ls)
unfolding split_inclusive ends_with_newline
before_lines-IsLines c [] v = refl
before_lines-IsLines c (l ∷ []) v = elim (Bool-cases (nat_beq c 10)) [
  | inl b ↦ rw b (refl, b, v)
  | inr b ↦ rw b (longer_line c l v b).0
]
before_lines-IsLines c (l ∷ m ∷ ls) v = elim (Bool-cases (nat_beq c 10)) [
  | inl b ↦ rw b (refl, b, v)
  | inr b ↦ rw b ((longer_line c l v.0 b).0, (longer_line c l v.0 b).1 ∙ v.1, v.2)
]

split_inclusive-IsLines : (s : Text) → IsLines (split_inclusive s)
unfolding split_inclusive
split_inclusive-IsLines [] = tt
split_inclusive-IsLines (c ∷ s) =
    before_lines-IsLines c (split_inclusive s) (split_inclusive-IsLines s)

-- Putting lines together and splitting them again gives them back.
split_inclusive-concat : (ls : List Text) → IsLines ls → split_inclusive (concat ls) ≡ ls
unfolding concat split_inclusive
split_inclusive-concat [] v = refl
split_inclusive-concat (l ∷ []) v = ap split_inclusive (append_nil l) ∙ v
split_inclusive-concat (l ∷ m ∷ ls) v =
    split_inclusive-append l (concat (m ∷ ls)) v.1
    ∙ rw (v.0) (ap (λ ms. l ∷ ms) (split_inclusive-concat (m ∷ ls) v.2))

drop-IsLines : (n : ℕ) (ls : List Text) → IsLines ls → IsLines (drop n ls)
drop-IsLines zero ls v = v
drop-IsLines (suc n) [] v = v
drop-IsLines (suc n) (l ∷ []) v = drop-IsLines n [] tt
drop-IsLines (suc n) (l ∷ m ∷ ls) v = drop-IsLines n (m ∷ ls) v.2

inner_line :
    (n : ℕ) (ls : List Text)
    → IsLines ls
    → suc n < length ls
    → ends_with_newline (line_at n ls) ≡ true
inner_line n [] v h = absurd (omega arith)
inner_line n (l ∷ []) v h = absurd (omega arith)
inner_line zero (l ∷ m ∷ ls) v h = v.1
inner_line (suc n) (l ∷ m ∷ ls) v h = inner_line n (m ∷ ls) v.2 (omega arith)

concat-append : (ls ms : List Text) → concat (ls ++ ms) ≡ concat ls ++ concat ms
unfolding concat
concat-append [] ms = refl
concat-append (l ∷ ls) ms = rw (concat-append ls ms) (sym (append_assoc l (concat ls) (concat ms)))

split_inclusive-take :
    (n : ℕ) (ls : List Text) (t : Text)
    → IsLines ls
    → n < length ls
    → split_inclusive (concat (take n ls) ++ t) ≡ take n ls ++ split_inclusive t
unfolding concat take
split_inclusive-take zero ls t v h = refl
split_inclusive-take (suc n) [] t v h = absurd (omega arith)
split_inclusive-take (suc n) (l ∷ []) t v h = absurd (omega arith)
split_inclusive-take (suc n) (l ∷ m ∷ ls) t v h =
    ap split_inclusive (append_assoc l (concat (take n (m ∷ ls))) t)
    ∙ split_inclusive-append l (concat (take n (m ∷ ls)) ++ t) v.1
    ∙ rw (v.0) (ap (λ ms. l ∷ ms) (split_inclusive-take n (m ∷ ls) t v.2 (omega arith)))

append_lines_nil : (ls : List Text) → ls ++ [] ≡ ls
append_lines_nil [] = refl
append_lines_nil (l ∷ ls) = ap (λ ms. l ∷ ms) (append_lines_nil ls)

ends_snoc : (s : Text) → ends_with_newline (s ++ (10 ∷ [])) ≡ true
unfolding ends_with_newline
ends_snoc [] = refl
ends_snoc (c ∷ []) = refl
ends_snoc (c ∷ d ∷ s) = ends_snoc (d ∷ s)

drop_all : (n : ℕ) (ls : List Text) → length ls ≤ n → drop n ls ≡ []
drop_all zero [] h = refl
drop_all zero (l ∷ ls) h = absurd (omega (arith, h))
drop_all (suc n) [] h = refl
drop_all (suc n) (l ∷ ls) h = drop_all n ls (omega (arith, h))

new_block-ends :
    (last new : Text)
    → ends_with_newline last ≡ true
    → ends_with_newline (new_block last new) ≡ true
unfolding new_block
new_block-ends last new h = elim (Bool-cases (ends_with_newline new)) [
  | inl b ↦ rw (new_block, h, b) b
  | inr b ↦ rw (new_block, h, b) (ends_snoc new)
]

splice_rest :
    (end : ℕ) (new : Text) (ls : List Text)
    → IsLines ls
    → end < length ls
    → split_inclusive (new_block (line_at end ls) new ++ concat (drop (suc end) ls))
      ≡ split_inclusive (new_block (line_at end ls) new) ++ drop (suc end) ls
unfolding concat
splice_rest end new ls v h = elim (Bool-cases (ltb (suc end) (length ls))) [
  | inl b ↦
      split_inclusive-append (new_block (line_at end ls) new) (concat (drop (suc end) ls))
        (new_block-ends (line_at end ls) new (inner_line end ls v (ground (arith, b))))
      ∙ ap (λ ms. split_inclusive (new_block (line_at end ls) new) ++ ms)
          (split_inclusive-concat (drop (suc end) ls) (drop-IsLines (suc end) ls v))
  | inr b ↦
      rw
        (
          drop_all (suc end) ls (ground (arith, b, h)),
          append_nil (new_block (line_at end ls) new),
          append_lines_nil (split_inclusive (new_block (line_at end ls) new)),
        )
        refl
]

take-drop : (n : ℕ) (s : Text) → take n s ++ drop n s ≡ s
unfolding take
take-drop zero s = refl
take-drop (suc n) [] = refl
take-drop (suc n) (c ∷ s) = ap (λ t. c ∷ t) (take-drop n s)

drop-append : (s t : Text) → drop (length s) (s ++ t) ≡ t
drop-append [] t = refl
drop-append (c ∷ s) t = drop-append s t

splice_bytes_back :
    (start end mid len : ℕ) (new s : Text)
    → end ≡ start + len
    → mid ≡ start + length new
    → end ≤ length s
    → splice_bytes start mid (take len (drop start s)) (splice_bytes start end new s) ≡ s
unfolding splice_bytes take
splice_bytes_back zero end mid len new s e m h =
    let e' : end ≡ len = omega (arith, e) in
    let m' : mid ≡ length new = omega (arith, m) in
    rw (e', m', drop-append new (drop len s)) (take-drop len s)
splice_bytes_back (suc start) zero mid len new s e m h = absurd (omega (arith, e))
splice_bytes_back (suc start) (suc end) zero len new s e m h = absurd (omega (arith, m))
splice_bytes_back (suc start) (suc end) (suc mid) len new [] e m h = absurd (omega (arith, h))
splice_bytes_back (suc start) (suc end) (suc mid) len new (c ∷ s) e m h =
    ap (λ t. c ∷ t)
      (splice_bytes_back start end mid len new s (omega (arith, e)) (omega (arith, m))
        (omega (arith, h)))

-- After lines are replaced, the file's lines are those before the range, the lines of the new
-- block, and those behind the range, none of them joined to another.
split_inclusive-splice_lines :
    (start end : ℕ) (new existing : Text)
    → start ≤ end
    → end < length (split_inclusive existing)
    → split_inclusive (splice_lines start end new (split_inclusive existing))
      ≡ take start (split_inclusive existing)
        ++ (split_inclusive (new_block (line_at end (split_inclusive existing)) new)
            ++ drop (suc end) (split_inclusive existing))
unfolding splice_lines concat
split_inclusive-splice_lines start end new existing l h =
    let ls = split_inclusive existing in
    let v = split_inclusive-IsLines existing in
    ap split_inclusive
      (concat-append (take start ls) (new_block (line_at end ls) new ∷ drop (suc end) ls))
    ∙ split_inclusive-take start ls (new_block (line_at end ls) new ++ concat (drop (suc end) ls)) v
        (omega (arith, l, h))
    ∙ ap (λ ms. take start ls ++ ms) (splice_rest end new ls v h)

applied :
    (fs : Fs) (req_path path existing bytes : Text) (br : ByteRangeReplace) (max : ℕ)
    → Map.get path fs ≡ some (file existing)
    → apply_byte_range_replace fs req_path path br max ≡ ok bytes
    → (bytes
        ≡ splice_bytes br.byte_offset (br.byte_offset + br.byte_length) br.new_content existing)
      × (br.byte_offset + br.byte_length ≤ length existing)
unfolding apply_byte_range_replace read
applied fs req_path path existing bytes br max g a = ground (arith, g, a)

length-take : (n : ℕ) (s : Text) → n ≤ length s → length (take n s) ≡ n
unfolding take
length-take zero s h = refl
length-take (suc n) [] h = absurd (omega (arith, h))
length-take (suc n) (c ∷ s) h = omega (arith, length-take n s (omega (arith, h)))

splice_bytes-le :
    (start end : ℕ) (new s : Text)
    → start ≤ length s
    → start + length new ≤ length (splice_bytes start end new s)
unfolding splice_bytes
splice_bytes-le start end new s h = omega (
  arith,
  length-append (take start s) (new ++ drop end s),
  length-append new (drop end s),
  length-take start s h,
)

-- A replacement of bytes in a file that is there, whose result is within the limit and whose new
-- bytes end before 2^64, is undone by the replacement, at the same place, of the new bytes by
-- those that were there.
pub apply_byte_range_replace-undo :
    (fs : Fs) (req_path path existing bytes : Text) (br : ByteRangeReplace) (max : ℕ)
    → Map.get path fs ≡ some (file existing)
    → apply_byte_range_replace fs req_path path br max ≡ ok bytes
    → length bytes ≤ max
    → br.byte_offset + length br.new_content < 18446744073709551616
    → apply_byte_range_replace
        (Map.insert path (file bytes) fs)
        req_path
        path
        (record {
          byte_offset = br.byte_offset;
          byte_length = length br.new_content;
          new_content = take br.byte_length (drop br.byte_offset existing);
        })
        max
      ≡ ok existing
unfolding apply_byte_range_replace read
apply_byte_range_replace-undo fs req_path path existing bytes br max g a m o =
    let (e, h) = applied fs req_path path existing bytes br max g a in
    let fits : br.byte_offset + length br.new_content ≤ length bytes = rw e (
      splice_bytes-le br.byte_offset (br.byte_offset + br.byte_length) br.new_content existing
        (omega (arith, h))) in
    let back =
      splice_bytes_back br.byte_offset (br.byte_offset + br.byte_length)
        (br.byte_offset + length br.new_content) br.byte_length br.new_content existing refl refl
        h in
    rw (apply_byte_range_replace, read, Map.get-insert_self path (file bytes) fs)
      (ground (arith, m, o, fits, e, back))
