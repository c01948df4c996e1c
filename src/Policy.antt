-- ===== src/Policy.antt =====
-- The daemon's policy checker, crates/ahandd/src/policy.rs. `url_host` stands for parsing a URL
-- with the `url` crate and taking its host, and `debug` for the `{:?}` rendering of a string. A
-- `HashSet` is a list without repetitions.
pub mod Remembered
pub mod Updates
mod Examples
use a_hand.Base.{
  ℕ, Bool, true, false, not, ◌&&◌, ◌||◌, List, [], ◌∷◌, ◌++◌, Option, none, some, ltb, ◌==◌,
  if◌then◌else◌, keep, any, elem,
}
use a_hand.Base.Text.{
  Text, text_eq, codes, is_empty, starts_with, contains, before, after, after_last,
}
use a_hand.Base.Map
use a_hand.Base.Map.{Map}
use a_hand.Wire.{JobRequest, PolicyState, PolicyUpdate}

pub data PolicyDecision : Type 0 where
  allow : PolicyDecision
  deny : Text → PolicyDecision
  needs_approval : Text → List Text → PolicyDecision

pub record PolicyConfig : Type 0 where
  pub allowed_tools : List Text
  pub denied_paths : List Text
  pub denied_tools : List Text
  pub allowed_domains : List Text
  pub approval_timeout_secs : ℕ

pub record PolicyChecker : Type 0 where
  pub config : PolicyConfig
  pub session_approvals : Map Text (List Text)

unfoldable pub new : PolicyConfig → PolicyChecker
new config = record { config = config; session_approvals = [] }

abbrev pub network_tools : List Text
network_tools =
    codes "curl"
    ∷ codes "wget"
    ∷ codes "git"
    ∷ codes "ssh"
    ∷ codes "scp"
    ∷ codes "rsync"
    ∷ codes "sftp"
    ∷ codes "nc"
    ∷ codes "ncat"
    ∷ codes "nmap"
    ∷ codes "ping"
    ∷ codes "dig"
    ∷ codes "nslookup"
    ∷ codes "http"
    ∷ codes "https"
    ∷ codes "fetch"
    ∷ []

abbrev pub bare_host_tools : List Text
bare_host_tools =
    codes "ssh" ∷ codes "ping" ∷ codes "dig" ∷ codes "nslookup" ∷ codes "nc" ∷ codes "ncat" ∷ []

-- `user@host:path` or `user@host`, where the host has a dot.
unfoldable pub try_extract_ssh_host : Text → Option Text
try_extract_ssh_host s = elim (after b'@' s) [
  | none ↦ none
  | some after_at ↦
      let host = before b':' after_at in
      if not (is_empty host) && contains b'.' host then some host else none
]

-- `push` behind `if !domains.contains(&host)`.
abbrev pub push_new : Text → List Text → List Text
push_new a xs = if elem a xs then xs else xs ++ (a ∷ [])

module _ (url_host : Text → Option Text) where
  -- The host that one argument names.
  unfoldable pub extract_host : Text → Text → Option Text
  unfolding try_extract_ssh_host
  extract_host base arg =
      if starts_with (codes "-") arg then none else elim (url_host arg) as (λ _. Option Text) [
        | some host ↦ some host
        | none ↦ elim (try_extract_ssh_host arg) as (λ _. Option Text) [
          | some host ↦ some host
          | none ↦
              if elem base bare_host_tools && (not (contains b'/' arg) && contains b'.' arg)
              then some (before b':' arg)
              else none
        ]
      ]

  abbrev pub push_host : Option Text → List Text → List Text
  push_host none domains = domains
  push_host (some host) domains = push_new host domains

  unfoldable pub extract_from : Text → List Text → List Text → List Text
  extract_from base domains [] = domains
  extract_from base domains (arg ∷ args) =
      extract_from base (push_host (extract_host base arg) domains) args

  unfoldable pub extract_domains : Text → List Text → List Text
  unfolding extract_from
  extract_domains tool args =
      let base = after_last b'/' tool in
      if elem base network_tools then extract_from base [] args else []

abbrev pub tool_key : Text → Text
tool_key tool = codes "tool:" ++ tool

abbrev pub domain_key : Text → Text
domain_key d = codes "domain:" ++ d

-- What a caller has approved.
abbrev pub approvals_of : Option (List Text) → List Text
approvals_of none = []
approvals_of (some approvals) = approvals

abbrev pub join : Text → List Text → Text
join sep [] = []
join sep (x ∷ []) = x
join sep (x ∷ y ∷ xs) = x ++ (sep ++ join sep (y ∷ xs))

abbrev pub is_nil : List Text → Bool
is_nil [] = true
is_nil (x ∷ xs) = false

module _ (url_host : Text → Option Text) (debug : Text → Text) where
  unfoldable pub check : PolicyChecker → JobRequest → Text → PolicyDecision
  check c req caller_uid =
      let cfg = c.config in
      let detected_domains = extract_domains url_host req.tool req.args in
      let approvals = approvals_of (Map.get caller_uid c.session_approvals) in
      let tool_remembered = elem (tool_key req.tool) approvals in
      let remembered_domains = keep (λ d. elem (domain_key d) approvals) detected_domains in
      let tool_allowed =
        is_nil cfg.allowed_tools || (elem req.tool cfg.allowed_tools || tool_remembered) in
      let unapproved =
        keep (λ d. not (elem d cfg.allowed_domains) && not (elem d remembered_domains))
          detected_domains in
      if elem req.tool cfg.denied_tools
      then deny (codes "tool " ++ (debug req.tool ++ codes " is in the deny list"))
      else if not (is_empty req.cwd) && any (λ denied. starts_with denied req.cwd) cfg.denied_paths
      then deny (codes "working directory " ++ (debug req.cwd ++ codes " is denied by policy"))
      else if not tool_allowed
      then needs_approval (codes "tool " ++ (debug req.tool ++ codes " is not in the allow list"))
          detected_domains
      else if (not (is_nil detected_domains) && not (is_nil cfg.allowed_domains))
          && not (is_nil unapproved)
      then needs_approval
          (codes "domain(s) " ++ (join (codes ", ") unapproved ++ codes " not in allowed domains"))
          detected_domains
      else allow

-- `HashSet::insert`.
abbrev pub set_insert : Text → List Text → List Text
set_insert a set = if elem a set then set else a ∷ set

unfoldable pub insert_domains : List Text → List Text → List Text
insert_domains [] set = set
insert_domains (d ∷ ds) set = insert_domains ds (set_insert (domain_key d) set)

unfoldable pub remember_approval : PolicyChecker → Text → Text → List Text → PolicyChecker
unfolding insert_domains
remember_approval c caller_uid tool domains =
    let set = approvals_of (Map.get caller_uid c.session_approvals) in
    record c {
      session_approvals =
          Map.insert caller_uid (insert_domains domains (set_insert (tool_key tool) set))
            c.session_approvals;
    }

unfoldable pub get_state : PolicyChecker → PolicyState
get_state c = record {
  allowed_tools = c.config.allowed_tools;
  denied_tools = c.config.denied_tools;
  denied_paths = c.config.denied_paths;
  allowed_domains = c.config.allowed_domains;
  approval_timeout_secs = c.config.approval_timeout_secs;
}

unfoldable pub add_items : List Text → List Text → List Text
add_items list [] = list
add_items list (item ∷ add) = add_items (push_new item list) add

-- The list, what to add and what to remove.
unfoldable pub apply_list_update : List Text → List Text → List Text → List Text
unfolding add_items
apply_list_update list add remove = add_items (keep (λ item. not (elem item remove)) list) add

unfoldable pub apply_update : PolicyChecker → PolicyUpdate → PolicyChecker
unfolding apply_list_update
apply_update c update = record c {
  config = record {
    allowed_tools =
        apply_list_update c.config.allowed_tools update.add_allowed_tools
          update.remove_allowed_tools;
    denied_tools =
        apply_list_update c.config.denied_tools update.add_denied_tools update.remove_denied_tools;
    denied_paths =
        apply_list_update c.config.denied_paths update.add_denied_paths update.remove_denied_paths;
    allowed_domains =
        apply_list_update c.config.allowed_domains update.add_allowed_domains
          update.remove_allowed_domains;
    approval_timeout_secs =
        if ltb 0 update.approval_timeout_secs
        then update.approval_timeout_secs
        else c.config.approval_timeout_secs;
  };
}
