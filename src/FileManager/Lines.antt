-- ===== src/FileManager/Lines.antt =====
-- `split_inclusive('\n')`, `concat`, `take` and `ends_with('\n')`.
use a_hand.Base.{ℕ, zero, suc, Bool, false, List, [], ◌∷◌, ◌++◌, nat_beq, if◌then◌else◌}
use a_hand.Base.Text.{Text}

-- A byte before the lines of the rest of a text.
abbrev pub before_lines : ℕ → List Text → List Text
before_lines c [] = (c ∷ []) ∷ []
before_lines c (line ∷ lines) =
    if nat_beq c 10 then (c ∷ []) ∷ (line ∷ lines) else (c ∷ line) ∷ lines

unfoldable pub split_inclusive : Text → List Text
split_inclusive [] = []
split_inclusive (c ∷ s) = before_lines c (split_inclusive s)

unfoldable pub concat : List Text → Text
concat [] = []
concat (line ∷ lines) = line ++ concat lines

unfoldable pub take {ℓ} : {A : Type ℓ} → ℕ → List A → List A
take zero xs = []
take (suc n) [] = []
take (suc n) (x ∷ xs) = x ∷ take n xs

unfoldable pub ends_with_newline : Text → Bool
ends_with_newline [] = false
ends_with_newline (c ∷ []) = nat_beq c 10
ends_with_newline (c ∷ d ∷ s) = ends_with_newline (d ∷ s)

-- The line at an index.
abbrev pub line_at : ℕ → List Text → Text
line_at n [] = []
line_at zero (line ∷ lines) = line
line_at (suc n) (line ∷ lines) = line_at n lines
