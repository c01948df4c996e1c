-- ===== src/FileManager/Replaced.antt =====
-- What a replacement of strings makes of a file.
use a_hand.Base.{
  ℕ, zero, suc, ◌-◌, ◌≤◌, ◌<◌, ◌≡◌, ◌⊎◌, refl, sym, subst, Bool, true, false, not, ◌&&◌, [], ◌∷◌,
  ◌++◌, some, arith, length, ltb, nat_beq, if◌then◌else◌, Bool-cases, inl, inr, u32,
}
use a_hand.Base.Text.{Text, text_eq, starts_with}
use a_hand.Base.Map
use a_hand.FileManager.{Fs, file, ok, StringReplace}
use a_hand.FileManager.Replace.{
  count_from, replace_from, skip, replace_first, matches, replace, replacen_once,
}
use a_hand.FileManager.Write.{apply_string_replace, read_to_string, read}

-- `t` is `s` with `n` occurrences of `old`, found from left to right without overlap, in each place
-- replaced by `new`, and no other one left out.
pub data Replaces (old new : Text) : Text → Text → ℕ → Type 0 where
  end : Replaces old new [] [] 0
  keeps :
      (c : ℕ) (s t : Text) (n : ℕ)
      → starts_with old (c ∷ s) ≡ false
      → Replaces old new s t n
      → Replaces old new (c ∷ s) (c ∷ t) n
  swaps :
      (s t : Text) (n : ℕ) → Replaces old new s t n → Replaces old new (old ++ s) (new ++ t) (suc n)

starts_with-skip : (old s : Text) → starts_with old s ≡ true → old ++ skip (length old) s ≡ s
unfolding starts_with
starts_with-skip [] s h = refl
starts_with-skip (a ∷ old) [] h = cc
starts_with-skip (a ∷ old) (b ∷ s) h = ground (arith, h, starts_with-skip old s)

-- A match in front, without its first byte.
matched :
    (a c : ℕ) (old s : Text)
    → starts_with (a ∷ old) (c ∷ s) ≡ true
    → (a ∷ old) ++ skip (length (a ∷ old) - 1) s ≡ c ∷ s
unfolding starts_with
matched a c old s h =
    let less : length (a ∷ old) - 1 ≡ length old = omega arith in
    rw less (ground (arith, h, starts_with-skip old s))

replace_from-Replaces :
    (a : ℕ) (old new : Text) (k : ℕ) (s : Text)
    → Replaces (a ∷ old) new (skip k s) (replace_from (a ∷ old) new k s) (count_from (a ∷ old) k s)
unfolding replace_from count_from
replace_from-Replaces a old new zero [] = end
replace_from-Replaces a old new (suc k) [] = end
replace_from-Replaces a old new (suc k) (c ∷ s) = replace_from-Replaces a old new k s
replace_from-Replaces a old new zero (c ∷ s) = elim (Bool-cases (starts_with (a ∷ old) (c ∷ s))) [
  | inl b ↦
      rw (replace_from, count_from, b)
        (subst
          (λ whole.
            Replaces (a ∷ old) new whole
              (new ++ replace_from (a ∷ old) new (length (a ∷ old) - 1) s)
              (suc (count_from (a ∷ old) (length (a ∷ old) - 1) s)))
          (matched a c old s b)
          (swaps _ _ _ (replace_from-Replaces a old new (length (a ∷ old) - 1) s)))
  | inr b ↦ rw (replace_from, count_from, b) (keeps c s _ _ b (replace_from-Replaces a old new 0 s))
]

none-Replaces :
    (a : ℕ) (old new : Text) (k : ℕ) (s : Text)
    → count_from (a ∷ old) k s ≡ 0
    → Replaces (a ∷ old) new (skip k s) (skip k s) 0
unfolding count_from
none-Replaces a old new zero [] h = end
none-Replaces a old new (suc k) [] h = end
none-Replaces a old new (suc k) (c ∷ s) h = none-Replaces a old new k s h
none-Replaces a old new zero (c ∷ s) h = elim (Bool-cases (starts_with (a ∷ old) (c ∷ s))) [
  | inl b ↦ absurd (ground (arith, h, b))
  | inr b ↦ keeps c s s 0 b (none-Replaces a old new 0 s (ground (arith, h, b)))
]

replace_first-Replaces :
    (a : ℕ) (old new s : Text)
    → count_from (a ∷ old) 0 s ≡ 1
    → Replaces (a ∷ old) new s (replace_first (a ∷ old) new s) 1
unfolding replace_first count_from
replace_first-Replaces a old new [] h = absurd (omega (arith, h))
replace_first-Replaces a old new (c ∷ s) h = elim (Bool-cases (starts_with (a ∷ old) (c ∷ s))) [
  | inl b ↦
      rw (replace_first, b)
        (subst (λ whole. Replaces (a ∷ old) new whole (new ++ skip (length (a ∷ old) - 1) s) 1)
          (matched a c old s b)
          (swaps _ _ 0 (none-Replaces a old new (length (a ∷ old) - 1) s (ground (arith, h, b)))))
  | inr b ↦
      rw (replace_first, b)
        (keeps c s _ 1 b (replace_first-Replaces a old new s (ground (arith, h, b))))
]

count_from-le : (old : Text) (k : ℕ) (s : Text) → count_from old k s ≤ length s
unfolding count_from
count_from-le old zero [] = omega arith
count_from-le old (suc k) [] = omega arith
count_from-le old (suc k) (c ∷ s) = omega (arith, count_from-le old k s)
count_from-le old zero (c ∷ s) =
    ground (arith, count_from-le old 0 s, count_from-le old (length old - 1) s)

-- What a replacement that succeeds has passed, and what it answers.
applied :
    (is_utf8 : Text → Bool) (fs : Fs) (req_path path existing text : Text) (sr : StringReplace)
    (max count : ℕ)
    → Map.get path fs ≡ some (file existing)
    → apply_string_replace is_utf8 fs req_path path sr max ≡ ok (text, count)
    → (count ≡ u32 (matches sr.old_string existing))
      × (nat_beq count 0 ≡ false)
      × ((ltb 1 count && not sr.replace_all) ≡ false)
      × (text ≡ (
          if sr.replace_all
          then replace sr.old_string sr.new_string existing
          else replacen_once sr.old_string sr.new_string existing))
unfolding apply_string_replace read_to_string read
applied is_utf8 fs req_path path existing text sr max count g h = ground (arith, g, h)

chosen :
    (a : ℕ) (old new existing : Text) (all : Bool)
    → (ltb 1 (count_from (a ∷ old) 0 existing) && not all) ≡ false
    → nat_beq (count_from (a ∷ old) 0 existing) 0 ≡ false
    → Replaces
        (a ∷ old)
        new
        existing
        (if all
          then replace_from (a ∷ old) new 0 existing
          else replace_first (a ∷ old) new existing)
        (count_from (a ∷ old) 0 existing)
chosen a old new existing true h k = replace_from-Replaces a old new 0 existing
chosen a old new existing false h k =
    let one : count_from (a ∷ old) 0 existing ≡ 1 = ground (arith, h, k) in
    subst (Replaces (a ∷ old) new existing (replace_first (a ∷ old) new existing)) (sym one)
      (replace_first-Replaces a old new existing one)

-- A replacement of a string that is not empty, in a file shorter than 2^32 bytes, that succeeds
-- gives the text of the file with every occurrence of the string, found from left to right without
-- overlap, replaced by the new one; the number that it reports is theirs, is not 0, and is 1 unless
-- `replace_all` was asked for.
pub apply_string_replace-Replaces :
    (is_utf8 : Text → Bool) (fs : Fs) (req_path path existing text : Text) (a : ℕ) (old new : Text)
    (all : Bool) (max count : ℕ)
    → Map.get path fs ≡ some (file existing)
    → length existing < 4294967296
    → apply_string_replace is_utf8 fs req_path path
        (record { old_string = a ∷ old; new_string = new; replace_all = all })
        max
      ≡ ok (text, count)
    → Replaces (a ∷ old) new existing text count × (0 < count) × ((all ≡ true) ⊎ (count ≡ 1))
unfolding matches replace replacen_once
apply_string_replace-Replaces is_utf8 fs req_path path existing text a old new all max count g l h =
    let (number, some_match, no_more, done) =
      applied is_utf8 fs req_path path existing text
        (record { old_string = a ∷ old; new_string = new; replace_all = all }) max count g h in
    let exact : count ≡ count_from (a ∷ old) 0 existing =
      omega (arith, number, l, count_from-le (a ∷ old) 0 existing) in
    (
      rw (done, exact)
          (chosen a old new existing all (rw (sym exact) no_more) (rw (sym exact) some_match)),
      ground (arith, some_match),
      elim (Bool-cases all) [
        | inl e ↦ inl e
        | inr f ↦ inr (ground (arith, some_match, no_more, f))
      ],
    )
