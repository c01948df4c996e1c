-- ===== src/FileManager/Requests.antt =====
-- The requests, and the paths that one touches: `collect_request_paths` and `lexically_normalize`
-- of crates/ahandd/src/file_manager/mod.rs. Of the requests that are not for writing or editing,
-- only the fields that are read here.
use a_hand.Base.{
  ℕ, Bool, true, false, Option, none, some, List, [], ◌∷◌, ◌++◌, reverse, if◌then◌else◌,
}
use a_hand.Base.Text.{Text, is_empty}
use a_hand.FileManager.Write.{FileWrite, FileEdit}
use a_hand.FileManager.Paths.{
  Component, cur_dir, parent_dir, normal, PathBuf, parse, display, push_all,
}

-- `DeleteMode::Permanent`, as the number that a request carries.
abbrev pub permanent : ℕ
permanent = 1

pub record FileDelete : Type 0 where
  pub path : Text
  pub mode : ℕ
  pub recursive : Bool
  pub no_follow_symlink : Bool

pub record FileGlob : Type 0 where
  pub pattern : Text
  pub base_path : Option Text

pub data Operation : Type 0 where
  stat : (path : Text) → (no_follow_symlink : Bool) → Operation
  list : (path : Text) → Operation
  glob : FileGlob → Operation
  mkdir : (path : Text) → Operation
  read_text read_binary read_image read_pdf : (path : Text) → (no_follow_symlink : Bool) → Operation
  write : FileWrite → Operation
  edit : FileEdit → Operation
  delete : FileDelete → Operation
  chmod : (path : Text) → (no_follow_symlink : Bool) → Operation
  copy move : (source : Text) → (destination : Text) → Operation
  create_symlink : (target : Text) → (link_path : Text) → Operation

-- The components that are kept, the last one first.
unfoldable pub normalize_from : List Component → List Component → List Component
normalize_from out [] = reverse out
normalize_from [] (parent_dir ∷ rest) = normalize_from [] rest
normalize_from (c ∷ out) (parent_dir ∷ rest) = normalize_from out rest
normalize_from out (cur_dir ∷ rest) = normalize_from out rest
normalize_from out (normal name ∷ rest) = normalize_from (normal name ∷ out) rest

unfoldable pub lexically_normalize : PathBuf → PathBuf
unfolding normalize_from
lexically_normalize p = record {
  is_absolute = p.is_absolute;
  components = normalize_from [] p.components;
}

abbrev parent_from : Bool → List Component → Option PathBuf
parent_from is_absolute [] = none
parent_from is_absolute (c ∷ up) =
    some (record { is_absolute = is_absolute; components = reverse up })

-- `Path::parent`.
abbrev pub parent : PathBuf → Option PathBuf
parent p = parent_from p.is_absolute (reverse p.components)

-- A path with the flags of its check.
pub record Access : Type 0 where
  pub path : Text
  pub is_write : Bool
  pub no_follow_symlink : Bool

abbrev pub reads : Text → Bool → List Access
reads path no_follow = record { path = path; is_write = false; no_follow_symlink = no_follow } ∷ []

abbrev writes : Text → Bool → List Access
writes path no_follow = record { path = path; is_write = true; no_follow_symlink = no_follow } ∷ []

-- What a symlink points at, read against the directory it stands in.
unfoldable pub target_paths : Text → Text → List Access
unfolding lexically_normalize
target_paths target link_path =
    if is_empty target
    then []
    else if (parse target).is_absolute
    then reads target true
    else elim (parent (parse link_path)) [
      | none ↦ []
      | some directory ↦
          reads (display (lexically_normalize (push_all directory (parse target).components))) true
    ]

abbrev base_paths : Option Text → List Access
base_paths none = []
base_paths (some b) = if is_empty b then [] else reads b false

unfoldable pub collect_request_paths : Option Operation → List Access
unfolding target_paths
collect_request_paths none = []
collect_request_paths (some (stat path no_follow)) = reads path no_follow
collect_request_paths (some (list path)) = reads path false
collect_request_paths (some (glob g)) = base_paths g.base_path
collect_request_paths (some (mkdir path)) = writes path false
collect_request_paths (some (read_text path no_follow)) = reads path no_follow
collect_request_paths (some (read_binary path no_follow)) = reads path no_follow
collect_request_paths (some (read_image path no_follow)) = reads path no_follow
collect_request_paths (some (read_pdf path no_follow)) = reads path no_follow
collect_request_paths (some (write w)) = writes w.path w.no_follow_symlink
collect_request_paths (some (edit e)) = writes e.path e.no_follow_symlink
collect_request_paths (some (delete d)) = writes d.path d.no_follow_symlink
collect_request_paths (some (chmod path no_follow)) = writes path no_follow
collect_request_paths (some (copy source destination)) =
    reads source false ++ writes destination false
collect_request_paths (some (move source destination)) =
    writes source false ++ writes destination false
collect_request_paths (some (create_symlink target link_path)) =
    writes link_path true ++ target_paths target link_path
