-- ===== src/AppTools/Examples.antt =====
-- A registry of one tool. A JSON value is its text, and every one is an object.
use a_hand.Base.{ℕ, ◌≡◌, refl, Bool, true, List, [], ◌∷◌, arith}
use a_hand.Base.Text.{Text, codes}
use a_hand.Base.Map
use a_hand.AppTools.{
  AppToolDef, AppToolRegistry, new, snapshot, register, unregister, mark_running, valid_name,
}
use a_hand.AppTools.Revisions.{Op, registers, unregisters, starts, run, step, snapshot-run}

abbrev is_object : Text → Bool
is_object json = true

abbrev to_string : Text → Text
to_string json = json

abbrev camera : AppToolDef Text
camera = record {
  name = codes "camera";
  description = codes "takes a picture";
  input_schema = codes "{}";
  requires_approval = true;
}

abbrev registry : AppToolRegistry ℕ
registry = run is_object to_string new (registers camera 1 ∷ [])

abbrev ops : List (Op Text ℕ)
ops = registers camera 2 ∷ unregisters (codes "none") ∷ starts (codes "t1") ∷ []

snapshot-run_example : snapshot (run is_object to_string registry ops) ≡ snapshot registry
unfolding run step register unregister mark_running snapshot valid_name new Map.get Map.insert
    Map.remove
snapshot-run_example = snapshot-run is_object to_string registry ops (omega arith) refl
