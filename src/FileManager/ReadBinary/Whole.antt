-- ===== src/FileManager/ReadBinary/Whole.antt =====
-- A file that is read piece by piece.
use a_hand.Base.{
  ℕ, zero, suc, ◌+◌, ◌-◌, ◌≤◌, ◌<◌, ◌≡◌, refl, sym, ap, ◌∙◌, Bool, true, false, some, [], ◌∷◌, ◌++◌,
  append_nil, length, drop, leb, nat_beq, if◌then◌else◌, arith, Bool-cases, inl, inr,
}
use a_hand.Base.Text.{Text, text_eq}
use a_hand.Base.Map
use a_hand.FileManager.{ok, err, file, Fs}
use a_hand.FileManager.Lines.{take}
use a_hand.FileManager.Write.{min}
use a_hand.FileManager.ReadText.{unwrap_or}
use a_hand.FileManager.ReadBinary.{
  FileReadBinary, default_binary_max, fill, read_bytes, handle_read_binary,
}

suc_plus : (n m : ℕ) → suc n + m ≡ suc (n + m)
suc_plus n m = omega arith

zero_plus : (m : ℕ) → 0 + m ≡ m
zero_plus m = omega arith

take-append-drop :
    (n m : ℕ) (s : Text) → n ≤ length s → take n s ++ take m (drop n s) ≡ take (n + m) s
unfolding take
take-append-drop zero m s h = ap (λ k. take k s) (sym (zero_plus m))
take-append-drop (suc n) m [] h = ground (arith, h)
take-append-drop (suc n) m (c ∷ s) h =
    rw (suc_plus n m) (ap (λ t. c ∷ t) (take-append-drop n m s (omega (arith, h))))

length-take : (n : ℕ) (s : Text) → n ≤ length s → length (take n s) ≡ n
unfolding take
length-take zero s h = refl
length-take (suc n) [] h = ground (arith, h)
length-take (suc n) (c ∷ s) h = omega (arith, length-take n s (omega (arith, h)))

length-drop : (n : ℕ) (s : Text) → length (drop n s) ≡ length s - n
length-drop zero s = omega arith
length-drop (suc n) [] = omega arith
length-drop (suc n) (c ∷ s) = omega (arith, length-drop n s)

take_all : (n : ℕ) (s : Text) → length s ≤ n → take n s ≡ s
unfolding take
take_all zero [] h = refl
take_all zero (c ∷ s) h = ground (arith, h)
take_all (suc n) [] h = refl
take_all (suc n) (c ∷ s) h = ap (λ t. c ∷ t) (take_all n s (omega (arith, h)))

drop_all : (n : ℕ) (s : Text) → length s ≤ n → drop n s ≡ []
drop_all zero [] h = refl
drop_all zero (c ∷ s) h = ground (arith, h)
drop_all (suc n) [] h = refl
drop_all (suc n) (c ∷ s) h = drop_all n s (omega (arith, h))

take-append-drop_plus : (o n : ℕ) (s : Text) → take n (drop o s) ++ drop (o + n) s ≡ drop o s
unfolding take
take-append-drop_plus zero n s = rw (zero_plus n) (split n s)
  where
    split : (n : ℕ) (s : Text) → take n s ++ drop n s ≡ s
    split zero s = refl
    split (suc n) [] = refl
    split (suc n) (c ∷ s) = ap (λ t. c ∷ t) (split n s)
take-append-drop_plus (suc o) zero [] = rw (suc_plus o zero) refl
take-append-drop_plus (suc o) (suc n) [] = rw (suc_plus o (suc n)) refl
take-append-drop_plus (suc o) n (c ∷ s) = rw (suc_plus o n) (take-append-drop_plus o n s)

skip_if {ℓ} : {A : Type ℓ} (x y : A) (b : Bool) → b ≡ false → (if b then x else y) ≡ y
skip_if x y true h = cc
skip_if x y false h = refl

module _ (amount : ℕ → ℕ) where
  -- Where a read hands on something as long as anything is left.
  abbrev pub IsReading : Type 0
  IsReading = (k : ℕ) → 0 < k → 0 < amount k

  fill_lem :
      (fuel wanted : ℕ) (rest : Text)
      → IsReading
      → wanted ≤ fuel
      → wanted ≤ length rest
      → fill amount fuel rest wanted ≡ take wanted rest
  unfolding fill take
  fill_lem zero zero rest r h k = refl
  fill_lem zero (suc wanted) rest r h k = ground (arith, h)
  fill_lem (suc fuel) zero rest r h k = refl
  fill_lem (suc fuel) (suc wanted) rest r h k =
      let n = min (amount (length rest)) (min (suc wanted) (length rest)) in
      let positive : 0 < n = ground (arith, r (length rest) (omega (arith, k)), k) in
      let within : n ≤ suc wanted = ground arith in
      let inside : n ≤ length rest = ground arith in
      let rejoined : n + (suc wanted - n) ≡ suc wanted = omega (arith, within) in
      skip_if _ _ (nat_beq (suc wanted) 0) (ground arith)
      ∙ skip_if _ _ (nat_beq n 0) (ground (arith, positive))
      ∙ ap (λ t. take n rest ++ t)
          (fill_lem fuel (suc wanted - n) (drop n rest) r (omega (arith, h, positive))
            (omega (arith, k, length-drop n rest)))
      ∙ take-append-drop n (suc wanted - n) rest inside
      ∙ ap (λ m. take m rest) rejoined

  -- A client that asks for the bytes behind those it has until none remain; `fuel` is how often it
  -- asks at most.
  unfoldable pub fetch_all : ℕ → Fs → FileReadBinary → Text → ℕ → ℕ → Text
  fetch_all zero fs req resolved max offset = []
  fetch_all (suc fuel) fs req resolved max offset =
      let further = λ (n : ℕ). fetch_all fuel fs req resolved max (offset + n) in
      elim (handle_read_binary amount fs (record req { byte_offset = offset; byte_length = 0 })
        resolved max) [
          | err e ↦ []
          | ok r ↦ r.content ++ (if nat_beq r.remaining_bytes 0 then [] else further r.bytes_read)
        ]

  -- One answer: the bytes behind the offset, as many as the limit allows.
  read_bytes_lem :
      (req : FileReadBinary) (raw : Text) (max offset : ℕ)
      → IsReading
      → offset < length raw
      → let n = min (length raw - offset) (min (unwrap_or default_binary_max req.max_bytes) max) in
        let r = read_bytes amount (record req { byte_offset = offset; byte_length = 0 }) raw max in
        (r.content ≡ take n (drop offset raw))
        × (r.bytes_read ≡ n)
        × (r.remaining_bytes ≡ length raw - (offset + n))
  unfolding read_bytes
  read_bytes_lem req raw max offset r h =
      let n = min (length raw - offset) (min (unwrap_or default_binary_max req.max_bytes) max) in
      let filled =
        fill_lem n n (drop offset raw) r (omega arith) (ground (arith, length-drop offset raw)) in
      let counted = length-take n (drop offset raw) (ground (arith, length-drop offset raw)) in
      rw (read_bytes, behind, filled, counted) (refl, refl, refl)
    where
      behind : leb (length raw) offset ≡ false
      behind = ground (arith, h)

  fetch_all-suc :
      (fuel : ℕ) (fs : Fs) (req : FileReadBinary) (resolved raw : Text) (max offset : ℕ)
      → Map.get resolved fs ≡ some (file raw)
      → let r = read_bytes amount (record req { byte_offset = offset; byte_length = 0 }) raw max in
        fetch_all (suc fuel) fs req resolved max offset
        ≡ r.content
          ++ (if nat_beq r.remaining_bytes 0
              then []
              else fetch_all fuel fs req resolved max (offset + r.bytes_read))
  unfolding fetch_all handle_read_binary
  fetch_all-suc fuel fs req resolved raw max offset g = rw (fetch_all, handle_read_binary, g) refl

  -- One answer and what is fetched behind it.
  joined :
      (raw : Text) (offset n : ℕ) (content : Text) (counted left : ℕ) (further : ℕ → Text)
      → content ≡ take n (drop offset raw)
      → counted ≡ n
      → left ≡ length raw - (offset + n)
      → 0 < n
      → n ≤ length raw - offset
      → further (offset + n) ≡ drop (offset + n) raw
      → content ++ (if nat_beq left 0 then [] else further (offset + counted)) ≡ drop offset raw
  joined raw offset n content counted left further c k l p w f =
      elim (Bool-cases (nat_beq left 0)) [
        | inl z ↦ rw z (
            append_nil content
            ∙ c
            ∙ take_all n (drop offset raw) (ground (arith, length-drop offset raw, z, l, w)))
        | inr z ↦ rw (z, c, k, f) (take-append-drop_plus offset n raw)
      ]

  fetch_all_from :
      (fuel : ℕ) (fs : Fs) (req : FileReadBinary) (resolved raw : Text) (max offset : ℕ)
      → IsReading
      → Map.get resolved fs ≡ some (file raw)
      → 0 < min (unwrap_or default_binary_max req.max_bytes) max
      → length raw ≤ fuel + offset
      → fetch_all fuel fs req resolved max offset ≡ drop offset raw
  unfolding fetch_all read_bytes
  fetch_all_from zero fs req resolved raw max offset r g p h =
      sym (drop_all offset raw (omega (arith, h)))
  fetch_all_from (suc fuel) fs req resolved raw max offset r g p h =
      elim (Bool-cases (leb (length raw) offset)) [
        | inl b ↦
            fetch_all-suc fuel fs req resolved raw max offset g
            ∙ rw (read_bytes, b) (sym (drop_all offset raw (ground (arith, b))))
        | inr b ↦
            let n =
              min (length raw - offset) (min (unwrap_or default_binary_max req.max_bytes) max) in
            let (content, counted, left) =
              read_bytes_lem req raw max offset r (ground (arith, b)) in
            fetch_all-suc fuel fs req resolved raw max offset g
            ∙ joined raw offset n _ _ _ (λ k. fetch_all fuel fs req resolved max k) content counted
                left (ground (arith, p, b)) (ground arith)
                (fetch_all_from fuel fs req resolved raw max (offset + n) r g p
                  (ground (arith, p, b, h)))
      ]

  -- A client that asks for the bytes behind those it has until none remain has the whole file,
  -- where the limit lets it have a byte at a time at least and the operating system hands on
  -- something as long as anything is left, no matter in what pieces; as many requests as the
  -- file has bytes are enough.
  pub fetch_all-handle_read_binary :
      (fs : Fs) (req : FileReadBinary) (resolved raw : Text) (max : ℕ)
      → IsReading
      → Map.get resolved fs ≡ some (file raw)
      → 0 < min (unwrap_or default_binary_max req.max_bytes) max
      → fetch_all (length raw) fs req resolved max 0 ≡ raw
  fetch_all-handle_read_binary fs req resolved raw max r g p =
      fetch_all_from (length raw) fs req resolved raw max 0 r g p (omega arith)
