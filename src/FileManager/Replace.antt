-- ===== src/FileManager/Replace.antt =====
-- `str::matches(..).count()`, `str::replace` and `str::replacen(.., 1)` of the standard library, on
-- bytes, as crates/ahandd/src/file_manager/write_ops.rs uses them. An empty pattern matches at
-- every boundary of a character, and every other one from left to right without overlap.
use a_hand.Base.{ℕ, zero, suc, ◌-◌, Bool, not, ◌&&◌, [], ◌∷◌, ◌++◌, leb, if◌then◌else◌, length}
use a_hand.Base.Text.{Text, starts_with}

-- The first byte of a character in UTF-8.
abbrev pub is_boundary : ℕ → Bool
is_boundary b = not (leb 128 b && leb b 191)

unfoldable pub count_boundaries : Text → ℕ
count_boundaries [] = 1
count_boundaries (c ∷ s) = let rest = count_boundaries s in if is_boundary c then suc rest else rest

unfoldable pub between : Text → Text → Text
between new [] = new
between new (c ∷ s) =
    let rest = between new s in if is_boundary c then new ++ (c ∷ rest) else c ∷ rest

-- The matches after `skip` bytes that belong to the last match.
unfoldable pub count_from : Text → ℕ → Text → ℕ
count_from old skip [] = 0
count_from old (suc skip) (c ∷ s) = count_from old skip s
count_from old zero (c ∷ s) =
    let inside = count_from old (length old - 1) s in
    let after = count_from old 0 s in if starts_with old (c ∷ s) then suc inside else after

unfoldable pub replace_from : Text → Text → ℕ → Text → Text
replace_from old new skip [] = []
replace_from old new (suc skip) (c ∷ s) = replace_from old new skip s
replace_from old new zero (c ∷ s) =
    let inside = replace_from old new (length old - 1) s in
    let after = replace_from old new 0 s in
    if starts_with old (c ∷ s) then new ++ inside else c ∷ after

-- What follows the first `n` bytes.
abbrev pub skip : ℕ → Text → Text
skip zero s = s
skip (suc n) [] = []
skip (suc n) (c ∷ s) = skip n s

unfoldable pub replace_first : Text → Text → Text → Text
replace_first old new [] = []
replace_first old new (c ∷ s) =
    let after = replace_first old new s in
    if starts_with old (c ∷ s) then new ++ skip (length old - 1) s else c ∷ after

unfoldable pub matches : Text → Text → ℕ
unfolding count_boundaries count_from
matches [] s = count_boundaries s
matches (c ∷ old) s = count_from (c ∷ old) 0 s

unfoldable pub replace : Text → Text → Text → Text
unfolding between replace_from
replace [] new s = between new s
replace (c ∷ old) new s = replace_from (c ∷ old) new 0 s

unfoldable pub replacen_once : Text → Text → Text → Text
unfolding replace_first
replacen_once [] new s = new ++ s
replacen_once (c ∷ old) new s = replace_first (c ∷ old) new s
