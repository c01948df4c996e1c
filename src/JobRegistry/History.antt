-- ===== src/JobRegistry/History.antt =====
-- The registry of jobs against the history of the operations on it.
use a_hand.Base.{
  append_nil, ℕ, suc, ◌-◌, ltb, drop, Bool-cases, inl, inr, true, ◌≤◌, ◌≡◌, refl, sym, ap, ◌∙◌,
  Bool, false, not, ◌&&◌, ◌||◌, List, [], ◌∷◌, ◌++◌, arith, ◌==◌, if◌then◌else◌, length,
  length-append,
}
use a_hand.Base.Text.{Text, text_eq}
use a_hand.Base.Map
use a_hand.Base.Map.{Map}
use a_hand.JobRegistry.{
  JobRegistry, CompletedJob, IsKnown, running, unknown, new, register, register_interactive, remove,
  mark_completed, is_known, find_completed, pop_over,
}

pub data Op : Type 0 where
  registers : Text → ℕ → Op
  registers_interactive : Text → ℕ → ℕ → Op
  removes : Text → Op
  completes : Text → ℕ → Text → Op

unfoldable pub step : JobRegistry → Op → JobRegistry
step g (registers job_id tx) = register g job_id tx
step g (registers_interactive job_id tx stdin_tx) = register_interactive g job_id tx stdin_tx
step g (removes job_id) = remove g job_id
step g (completes job_id exit_code error) = mark_completed g job_id exit_code error

unfoldable pub run : JobRegistry → List Op → JobRegistry
run g [] = g
run g (o ∷ os) = run (step g o) os

-- Every completion, the first one first.
unfoldable pub completions : List Op → List (Text × CompletedJob)
completions [] = []
completions (completes job_id exit_code error ∷ os) =
    (job_id, record { exit_code = exit_code; error = error }) ∷ completions os
completions (registers job_id tx ∷ os) = completions os
completions (registers_interactive job_id tx stdin_tx ∷ os) = completions os
completions (removes job_id ∷ os) = completions os

-- Whether the last registration of a job is not followed by a removal.
unfoldable pub is_live : Text → Bool → List Op → Bool
is_live id live [] = live
is_live id live (registers job_id tx ∷ os) = is_live id (job_id == id || live) os
is_live id live (registers_interactive job_id tx stdin_tx ∷ os) =
    is_live id (job_id == id || live) os
is_live id live (removes job_id ∷ os) = is_live id (not (job_id == id) && live) os
is_live id live (completes job_id exit_code error ∷ os) = is_live id live os

pop_over-append :
    (m : ℕ) (xs ys : List (Text × CompletedJob))
    → pop_over m (pop_over m xs ++ ys) ≡ pop_over m (xs ++ ys)
unfolding pop_over
pop_over-append m [] ys = refl
pop_over-append m (x ∷ xs) ys = ground (arith, pop_over-append m xs ys, length-append xs ys)

length-pop_over-le : (m : ℕ) (xs : List (Text × CompletedJob)) → length (pop_over m xs) ≤ m
unfolding pop_over
length-pop_over-le m [] = omega arith
length-pop_over-le m (x ∷ xs) = ground (arith, length-pop_over-le m xs)

pop_over_twice :
    (m : ℕ) (xs : List (Text × CompletedJob)) → pop_over m (pop_over m xs) ≡ pop_over m xs
unfolding pop_over
pop_over_twice m [] = refl
pop_over_twice m (x ∷ xs) = ground (arith, pop_over_twice m xs)

snoc-append :
    (xs ys : List (Text × CompletedJob)) (y : Text × CompletedJob)
    → (xs ++ (y ∷ [])) ++ ys ≡ xs ++ (y ∷ ys)
snoc-append [] ys y = refl
snoc-append (x ∷ xs) ys y = ap (λ r. x ∷ r) (snoc-append xs ys y)

completed-run :
    (g : JobRegistry) (os : List Op)
    → g.completed ≡ pop_over g.max_completed g.completed
    → (run g os).completed ≡ pop_over g.max_completed (g.completed ++ completions os)
unfolding run step completions register register_interactive remove mark_completed
completed-run g [] h = rw (append_nil g.completed) h
completed-run g (registers job_id tx ∷ os) h = completed-run (register g job_id tx) os h
completed-run g (registers_interactive job_id tx stdin_tx ∷ os) h =
    completed-run (register_interactive g job_id tx stdin_tx) os h
completed-run g (removes job_id ∷ os) h = completed-run (remove g job_id) os h
completed-run g (completes job_id exit_code error ∷ os) h =
    completed-run (mark_completed g job_id exit_code error) os
      (sym (pop_over_twice g.max_completed (g.completed ++ (entry ∷ []))))
    ∙ pop_over-append g.max_completed (g.completed ++ (entry ∷ [])) (completions os)
    ∙ ap (pop_over g.max_completed) (snoc-append g.completed (completions os) entry)
  where
    entry : Text × CompletedJob
    entry = (job_id, record { exit_code = exit_code; error = error })

contains_key-run :
    (g : JobRegistry) (os : List Op) (id : Text)
    → Map.contains_key id (run g os).jobs ≡ is_live id (Map.contains_key id g.jobs) os
unfolding run step is_live register register_interactive remove mark_completed
contains_key-run g [] id = refl
contains_key-run g (registers job_id tx ∷ os) id =
    rw (contains_key-run (register g job_id tx) os id)
      (ap (λ b. is_live id b os) (ground (arith, Map.get-insert job_id id tx g.jobs)))
contains_key-run g (registers_interactive job_id tx stdin_tx ∷ os) id =
    rw (contains_key-run (register_interactive g job_id tx stdin_tx) os id)
      (ap (λ b. is_live id b os) (ground (arith, Map.get-insert job_id id tx g.jobs)))
contains_key-run g (removes job_id ∷ os) id =
    rw (contains_key-run (remove g job_id) os id)
      (ap (λ b. is_live id b os) (ground (arith, Map.get-remove job_id id g.jobs)))
contains_key-run g (completes job_id exit_code error ∷ os) id =
    contains_key-run (mark_completed g job_id exit_code error) os id

pop_over-drop : (m : ℕ) (xs : List (Text × CompletedJob)) → pop_over m xs ≡ drop (length xs - m) xs
unfolding pop_over
pop_over-drop m [] = rw (none_over m) refl
  where
    none_over : (k : ℕ) → 0 - k ≡ 0
    none_over k = omega arith
pop_over-drop m (x ∷ xs) = elim (Bool-cases (ltb m (suc (length xs)))) [
  | inl b ↦ rw (pop_over, b, more b) (pop_over-drop m xs)
  | inr b ↦ rw (pop_over, b, within b) refl
]
  where
    more : ltb m (suc (length xs)) ≡ true → suc (length xs) - m ≡ suc (length xs - m)
    more b = ground arith

    within : ltb m (suc (length xs)) ≡ false → suc (length xs) - m ≡ 0
    within b = ground arith

-- The results of a job, the oldest first.
abbrev pub results : Text → List (Text × CompletedJob) → List CompletedJob
results id [] = []
results id ((job_id, result) ∷ entries) =
    if job_id == id then result ∷ results id entries else results id entries

abbrev pub oldest : List CompletedJob → IsKnown
oldest [] = unknown
oldest (result ∷ results) = IsKnown.completed result

find_completed-results :
    (id : Text) (entries : List (Text × CompletedJob))
    → find_completed id entries ≡ oldest (results id entries)
unfolding find_completed
find_completed-results id [] = refl
find_completed-results id ((job_id, result) ∷ entries) = elim (Bool-cases (job_id == id)) [
  | inl b ↦ rw (find_completed, b) refl
  | inr b ↦ rw (find_completed, b) (find_completed-results id entries)
]

-- After any operations on a new registry a job is running exactly if its last registration is not
-- followed by a removal; else the answer is the oldest of its results among the last 1000
-- completions of all jobs, and it is unknown when there is none.
pub is_known-run :
    (max_concurrent : ℕ) (os : List Op) (id : Text)
    → is_known (run (new max_concurrent) os) id ≡ (
        if is_live id false os
        then running
        else oldest (results id (drop (length (completions os) - 1000) (completions os))))
unfolding is_known new Map.get pop_over
is_known-run max_concurrent os id =
    rw
      (
        is_known,
        contains_key-run (new max_concurrent) os id,
        completed-run (new max_concurrent) os refl,
        find_completed-results id (pop_over 1000 (completions os)),
        pop_over-drop 1000 (completions os),
      )
      refl

-- The cache of completed jobs never holds more than 1000 entries, and it holds the newest ones.
length-completed-run :
    (max_concurrent : ℕ) (os : List Op)
    → (length (run (new max_concurrent) os).completed ≤ 1000)
      × ((run (new max_concurrent) os).completed ≡ pop_over 1000 (completions os))
unfolding pop_over new
length-completed-run max_concurrent os = (
  rw (completed-run (new max_concurrent) os refl) (length-pop_over-le 1000 (completions os)),
  completed-run (new max_concurrent) os refl,
)
