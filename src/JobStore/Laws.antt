-- ===== src/JobStore/Laws.antt =====
-- What the job store keeps of a job, whatever is requested.
use mathlib.Core.List.{Perm}
use a_hand.Base.{
  ℕ, ◌⊎◌, ◌≡◌, refl, sym, ap, ◌∙◌, subst, Bool-cases, true, false, List, [], ◌∷◌, map, Option, none,
  some, arith, ◌==◌, if◌then◌else◌, keep, Option-cases, inl, inr,
}
use a_hand.Base.Text.{Text, text_eq, text_beq_iff}
use a_hand.Base.Map
use a_hand.Base.Sort.{sort_by, IsSorted, IsOrder, sort_by-perm, sort_by-IsSorted, text_IsOrder}
use a_hand.Hub.{JobStatus, job_not_found, Result, ok, err}
use a_hand.Job.{
  Job, NewJob, JobFilter, is_terminal_status, status_eq, new_pending, apply_status_transition,
}
use a_hand.JobStore.{
  JobStore, insert, matches, created_leb, list, transition_status, update_status, update_terminal,
}

-- The answer to a granted or refused request.
abbrev pub answered : Result JobStatus → Result (Option JobStatus)
answered (ok s) = ok (some s)
answered (err e) = err e

-- What a request for `status` makes of a stored job.
abbrev pub requested : JobStatus → ℕ → Job → Job
requested status now job =
    if status_eq job.status status then job else (apply_status_transition job status now).0

-- A request for a job that is not stored fails and changes nothing. Where the job is stored, a
-- request for its present status changes nothing and answers `none`; any other does to that job,
-- and to no other, what `apply_status_transition` does, and answers with its outcome.
get-transition_status :
    (jobs : JobStore) (job_id other : Text) (status : JobStatus) (now : ℕ)
    → ((Map.get job_id jobs ≡ none)
        × (transition_status jobs job_id status now ≡ (jobs, err (job_not_found job_id))))
      ⊎ ((job : Job) × (Map.get job_id jobs ≡ some job)
          × (Map.get other (transition_status jobs job_id status now).0
              ≡ (if job_id == other then some (requested status now job) else Map.get other jobs))
          × ((transition_status jobs job_id status now).1 ≡ (
              if status_eq job.status status
              then ok none
              else answered (apply_status_transition job status now).1)))
unfolding transition_status apply_status_transition
get-transition_status jobs job_id other status now = elim (Option-cases (Map.get job_id jobs)) [
  | inl h ↦ inl (h, rw (h, transition_status))
  | inr (job, h) ↦ inr (
    job,
    h,
    ground (
      arith,
      text_beq_iff job_id other,
      Map.get-insert job_id other (requested status now job) jobs,
    ),
    rw (h, transition_status) (ground arith),
  )
]

-- The calls that change the store.
pub data Call : Type 0 where
  inserts : NewJob → Text → ℕ → Call
  transitions updates : Text → JobStatus → ℕ → Call
  terminals : Text → ℕ → Text → Text → Call

abbrev pub step : JobStore → Call → JobStore
step jobs (inserts new_job id now) = (insert jobs new_job id now).0
step jobs (transitions id status now) = (transition_status jobs id status now).0
step jobs (updates id status now) = (update_status jobs id status now).0
step jobs (terminals id exit_code error summary) =
    (update_terminal jobs id exit_code error summary).0

abbrev pub run : JobStore → List Call → JobStore
run jobs [] = jobs
run jobs (c ∷ cs) = run (step jobs c) cs

-- Fresh ids never repeat.
abbrev pub IsFresh : Text → List Call → Type 0
IsFresh id [] = Unit {0}
IsFresh id (inserts new_job i now ∷ cs) = ((i == id) ≡ false) × IsFresh id cs
IsFresh id (transitions i status now ∷ cs) = IsFresh id cs
IsFresh id (updates i status now ∷ cs) = IsFresh id cs
IsFresh id (terminals i exit_code error summary ∷ cs) = IsFresh id cs

-- What the store holds has the status and the times of `job`.
abbrev pub Keeps : Job → Option Job → Type 0
Keeps job none = ⊥
Keeps job (some held) =
    (held.status ≡ job.status)
    × (held.started_at ≡ job.started_at)
    × (held.finished_at ≡ job.finished_at)

requested_terminal :
    (job held : Job) (status : JobStatus) (now : ℕ)
    → is_terminal_status job.status ≡ true
    → Keeps job (some held)
    → Keeps job (some (requested status now held))
unfolding apply_status_transition
requested_terminal job held status now t k = ground arith

module _ (id : Text) (job : Job) (jobs : JobStore) (held_now : Keeps job (Map.get id jobs)) where
  insert-Keeps :
      (i : Text) (held : Job)
      → ((i == id) ≡ true → Keeps job (some held))
      → Keeps job (Map.get id (Map.insert i held jobs))
  insert-Keeps i held h =
      rw (Map.get-insert i id held jobs)
        (elim (Bool-cases (i == id)) [ inl e ↦ rw e (h e) | inr e ↦ rw e held_now ])

  -- A stored job under the same id is the one that is held.
  same_held :
      (i : Text) (held : Job)
      → Map.get i jobs ≡ some held
      → (i == id) ≡ true
      → Keeps job (some held)
  same_held i held e h =
      subst (Keeps job) (ap (λ (k : Text). Map.get k jobs) (sym ((text_beq_iff i id).0 h)) ∙ e)
        held_now

  transition-Keeps :
      (i : Text) (status : JobStatus) (now : ℕ)
      → is_terminal_status job.status ≡ true
      → Keeps job (Map.get id (transition_status jobs i status now).0)
  transition-Keeps i status now t = elim (get-transition_status jobs i id status now) [
    | inl (_, e) ↦ rw e held_now
    | inr (held, e, after, _) ↦ rw after (elim (Bool-cases (i == id)) [
      | inl h ↦ rw h (requested_terminal job held status now t (same_held i held e h))
      | inr h ↦ rw h held_now
    ])
  ]

  step-Keeps :
      (c : Call)
      → is_terminal_status job.status ≡ true
      → IsFresh id (c ∷ [])
      → Keeps job (Map.get id (step jobs c))
  unfolding insert update_status update_terminal
  step-Keeps (inserts new_job i now) t f = insert-Keeps i (new_pending i new_job now) (λ e. cc)
  step-Keeps (transitions i status now) t f = transition-Keeps i status now t
  step-Keeps (updates i status now) t f = transition-Keeps i status now t
  step-Keeps (terminals i exit_code error summary) t f = elim (Option-cases (Map.get i jobs)) [
    | inl e ↦ rw (step, e, update_terminal) held_now
    | inr (held, e) ↦ rw (step, e, update_terminal) (insert-Keeps i _ (same_held i held e))
  ]

-- Once a stored job has a terminal status, its status, its start time and its finish time stay,
-- through any further calls that do not insert a job under its id again.
pub run-Keeps :
    (id : Text) (job : Job) (jobs : JobStore) (cs : List Call)
    → Keeps job (Map.get id jobs)
    → is_terminal_status job.status ≡ true
    → IsFresh id cs
    → Keeps job (Map.get id (run jobs cs))
run-Keeps id job jobs [] h t f = h
run-Keeps id job jobs (inserts new_job i now ∷ cs) h t f =
    run-Keeps id job (step jobs (inserts new_job i now)) cs
      (step-Keeps id job jobs h (inserts new_job i now) t (f.0, tt)) t f.1
run-Keeps id job jobs (transitions i status now ∷ cs) h t f =
    run-Keeps id job (step jobs (transitions i status now)) cs
      (step-Keeps id job jobs h (transitions i status now) t tt) t f
run-Keeps id job jobs (updates i status now ∷ cs) h t f =
    run-Keeps id job (step jobs (updates i status now)) cs
      (step-Keeps id job jobs h (updates i status now) t tt) t f
run-Keeps id job jobs (terminals i exit_code error summary ∷ cs) h t f =
    run-Keeps id job (step jobs (terminals i exit_code error summary)) cs
      (step-Keeps id job jobs h (terminals i exit_code error summary) t tt) t f

created_IsOrder : IsOrder created_leb
created_IsOrder = record {
  total = λ a b h. ground (arith, text_IsOrder.total a.id b.id);
  trans = λ a b c h k. ground (arith, text_IsOrder.trans a.id b.id c.id);
}

-- A listing holds exactly the stored jobs that match the filter, each as often as it is stored,
-- and they rise by creation time and then by id.
list_lem :
    (jobs : JobStore) (filter : JobFilter)
    → (found : List Job) × (list jobs filter ≡ ok found)
      × Perm found (keep (matches filter) (map (λ e. e.1) jobs))
      × IsSorted created_leb found
unfolding list
list_lem jobs filter = (
  sort_by created_leb (keep (matches filter) (map (λ e. e.1) jobs)),
  refl,
  sort_by-perm created_leb _,
  sort_by-IsSorted created_leb created_IsOrder _,
)
