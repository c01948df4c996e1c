-- ===== src/AppTools.antt =====
-- The daemon's registry of app tools, crates/ahandd/src/app_tool_registry/mod.rs. JSON values, with
-- the test for an object and their text, are parameters, and so are handlers. The watch channel is
-- the revision that it holds; waiting on it and the semaphore are not modelled.
pub mod Revisions
pub mod Snapshots
mod Examples
use a_hand.Base.{
  ℕ, suc, ◌+◌, Bool, true, false, not, ◌&&◌, ◌||◌, List, [], ◌∷◌, ◌++◌, Option, none, some, ltb,
  leb, nat_beq, nat_eq, ◌==◌, if◌then◌else◌, is_some, length, elem, all, keep, map, u64,
}
use a_hand.Base.Text.{Text, text_eq, is_empty}
use a_hand.Base.Map
use a_hand.Base.Map.{Map}
use a_hand.Base.Sort.{sort_by, text_leb}

pub record AppToolDef (J : Type 0) : Type 0 where
  pub name : Text
  pub description : Text
  pub input_schema : J
  pub requires_approval : Bool

pub record AppToolDescriptor : Type 0 where
  pub name : Text
  pub description : Text
  pub input_schema_json : Text
  pub requires_approval : Bool

pub record AppToolError : Type 0 where
  pub code : Text
  pub message : Text

pub record CompletedAppToolCall : Type 0 where
  pub result_json : Option Text
  pub error : Option AppToolError

pub data CallState : Type 0 where
  running : CallState
  completed : CompletedAppToolCall → CallState
  unknown : CallState

pub record Registered (H : Type 0) : Type 0 where
  pub descriptor : AppToolDescriptor
  pub handler : H

pub record AppToolRegistry (H : Type 0) : Type 0 where
  pub tools : Map Text (Registered H)
  pub revision : ℕ
  pub running : List Text
  pub completed : List (Text × CompletedAppToolCall)

pub record AppToolsUpdate : Type 0 where
  pub revision : ℕ
  pub tools : List AppToolDescriptor

abbrev pub default_timeout_ms : ℕ
default_timeout_ms = 60000

abbrev pub min_timeout_ms : ℕ
min_timeout_ms = 1000

abbrev pub max_timeout_ms : ℕ
max_timeout_ms = 300000

abbrev pub max_completed_calls : ℕ
max_completed_calls = 256

-- A lower case letter, a digit, `_` or `-`; no byte of a longer character is one.
abbrev pub is_name_char : ℕ → Bool
is_name_char c = (leb 97 c && leb c 122) || (leb 48 c && leb c 57) || (nat_beq c 95 || nat_beq c 45)

unfoldable pub valid_name : Text → Bool
valid_name name = not (is_empty name) && (leb (length name) 64 && all is_name_char name)

unfoldable pub new : {H : Type 0} → AppToolRegistry H
new = record { tools = []; revision = 0; running = []; completed = [] }

-- Whether the tool was registered; the message of an error is left out.
unfoldable pub register :
    {J H : Type 0}
    → (J → Bool)
    → (J → Text)
    → AppToolRegistry H
    → AppToolDef J
    → H
    → AppToolRegistry H × Bool
unfolding valid_name
register is_object to_string r tool handler =
    if not (valid_name tool.name)
    then (r, false)
    else if not (is_object tool.input_schema)
    then (r, false)
    else if Map.contains_key tool.name r.tools
    then (r, false)
    else (
      record r {
        tools =
            Map.insert tool.name
              (record {
                descriptor = record {
                  name = tool.name;
                  description = tool.description;
                  input_schema_json = to_string tool.input_schema;
                  requires_approval = tool.requires_approval;
                };
                handler = handler;
              })
              r.tools;
        revision = u64 (r.revision + 1);
      },
      true,
    )

unfoldable pub unregister : {H : Type 0} → AppToolRegistry H → Text → AppToolRegistry H × Bool
unregister r name =
    if is_some (Map.get name r.tools)
    then (record r { tools = Map.remove name r.tools; revision = u64 (r.revision + 1) }, true)
    else (r, false)

-- The order of `a.name.cmp(&b.name)`.
abbrev pub name_leb : AppToolDescriptor → AppToolDescriptor → Bool
name_leb a b = text_leb a.name b.name

unfoldable pub snapshot : {H : Type 0} → AppToolRegistry H → AppToolsUpdate
snapshot r = record {
  revision = r.revision;
  tools = sort_by name_leb (map (λ e. e.1.descriptor) r.tools);
}

unfoldable pub lookup : {H : Type 0} → AppToolRegistry H → Text → Option (AppToolDescriptor × H)
lookup r name = elim (Map.get name r.tools) [
  | none ↦ none
  | some tool ↦ some (tool.descriptor, tool.handler)
]

unfoldable pub find_call : Text → List (Text × CompletedAppToolCall) → CallState
find_call id [] = unknown
find_call id ((call, result) ∷ entries) =
    let rest = find_call id entries in if call == id then CallState.completed result else rest

unfoldable pub call_state : {H : Type 0} → AppToolRegistry H → Text → CallState
unfolding find_call
call_state r id = if elem id r.running then CallState.running else find_call id r.completed

unfoldable pub mark_running : {H : Type 0} → AppToolRegistry H → Text → AppToolRegistry H
mark_running r id = record r { running = if elem id r.running then r.running else id ∷ r.running }

-- `while completed.len() > MAX_COMPLETED_CALLS { completed.pop_front() }`.
unfoldable pub pop_over : List (Text × CompletedAppToolCall) → List (Text × CompletedAppToolCall)
pop_over [] = []
pop_over (call ∷ calls) =
    if ltb max_completed_calls (suc (length calls)) then pop_over calls else call ∷ calls

unfoldable pub mark_completed :
    {H : Type 0} → AppToolRegistry H → Text → CompletedAppToolCall → AppToolRegistry H
unfolding pop_over
mark_completed r id result = record r {
  running = keep (λ call. not (call == id)) r.running;
  completed = pop_over (r.completed ++ ((id, result) ∷ []));
}

unfoldable pub clamp_timeout : ℕ → ℕ
clamp_timeout timeout_ms =
    if nat_beq timeout_ms 0
    then default_timeout_ms
    else if ltb timeout_ms min_timeout_ms
    then min_timeout_ms
    else if ltb max_timeout_ms timeout_ms
    then max_timeout_ms
    else timeout_ms
