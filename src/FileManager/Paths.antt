-- ===== src/FileManager/Paths.antt =====
-- Paths of a Unix daemon by their components, `std::path`, and the resolution of a path that need
-- not be there yet: crates/ahandd/src/file_manager/policy.rs. `canonicalize` is the operating
-- system's; paths are Unicode text.
use a_hand.Base.{
  Bool, true, false, Option, none, some, List, [], ◌∷◌, ◌++◌, reverse, nat_beq, if◌then◌else◌, ◌==◌,
}
use a_hand.Base.Text.{Text, text_eq, codes}

pub data Component : Type 0 where
  cur_dir parent_dir : Component
  normal : Text → Component

pub record PathBuf : Type 0 where
  pub is_absolute : Bool
  pub components : List Component

-- The text up to the next `/`, and what is behind it cut at each `/`.
unfoldable pub segments : Text → Text × List Text
segments [] = ([], [])
segments (c ∷ s) =
    let rest = segments s in if nat_beq c 47 then ([], rest.0 ∷ rest.1) else (c ∷ rest.0, rest.1)

-- What `components` makes of a segment behind the first one.
abbrev pub add_segment : Text → List Component → List Component
add_segment segment rest =
    if segment == codes ""
    then rest
    else if segment == codes "."
    then rest
    else if segment == codes ".."
    then parent_dir ∷ rest
    else normal segment ∷ rest

abbrev pub add_segments : List Text → List Component
add_segments [] = []
add_segments (segment ∷ rest) = add_segment segment (add_segments rest)

-- Only a relative path keeps a `.`, at its head.
unfoldable pub relative : Text → List Component
unfolding segments
relative s =
    let cut = segments s in
    if cut.0 == codes "."
    then cur_dir ∷ add_segments cut.1
    else add_segment cut.0 (add_segments cut.1)

-- `Path::new` and `components`: a path is absolute if it begins with `/`.
unfoldable pub parse : Text → PathBuf
unfolding segments relative
parse [] = record { is_absolute = false; components = [] }
parse (c ∷ s) =
    if nat_beq c 47
    then record { is_absolute = true; components = add_segments ((segments s).0 ∷ (segments s).1) }
    else record { is_absolute = false; components = relative (c ∷ s) }

abbrev component_text : Component → Text
component_text cur_dir = codes "."
component_text parent_dir = codes ".."
component_text (normal name) = name

unfoldable pub join_components : List Component → Text
join_components [] = []
join_components (c ∷ []) = component_text c
join_components (c ∷ d ∷ rest) = component_text c ++ (47 ∷ join_components (d ∷ rest))

-- `to_string_lossy`.
unfoldable pub display : PathBuf → Text
unfolding join_components
display p =
    if p.is_absolute then 47 ∷ join_components p.components else join_components p.components

abbrev pub push_all : PathBuf → List Component → PathBuf
push_all p parts = record { is_absolute = p.is_absolute; components = p.components ++ parts }

-- `std::fs::canonicalize`: a path, or an error that is `NotFound` or another one.
pub data Canonical : Type 0 where
  found : PathBuf → Canonical
  missing failed : Canonical

module _ (canonicalize : PathBuf → Canonical) where
  -- The loop of `canonicalize_or_parent`: the components that are left, the last one first, and
  -- those taken off, in the order in which they are put back.
  unfoldable pub climb : Bool → List Component → List Component → Option PathBuf
  climb is_absolute [] suffix = none
  climb is_absolute (cur_dir ∷ up) suffix = none
  climb is_absolute (parent_dir ∷ up) suffix = none
  climb is_absolute (normal name ∷ up) suffix =
      let further = climb is_absolute up (normal name ∷ suffix) in
      elim (canonicalize (record { is_absolute = is_absolute; components = reverse up })) [
        | found canonical ↦ some (push_all canonical (normal name ∷ suffix))
        | missing ↦ further
        | failed ↦ none
      ]

  unfoldable pub canonicalize_or_parent : PathBuf → Option PathBuf
  unfolding climb
  canonicalize_or_parent path = elim (canonicalize path) [
    | found p ↦ some p
    | missing ↦ climb path.is_absolute (reverse path.components) []
    | failed ↦ none
  ]

  -- The last component is kept as it is.
  abbrev pub keep_last : Bool → List Component → Option PathBuf
  keep_last is_absolute [] = none
  keep_last is_absolute (cur_dir ∷ up) = none
  keep_last is_absolute (parent_dir ∷ up) = none
  keep_last is_absolute (normal name ∷ up) =
      elim (canonicalize_or_parent
        (record { is_absolute = is_absolute; components = reverse up })) [
          | none ↦ none
          | some parent ↦ some (push_all parent (normal name ∷ []))
        ]

  unfoldable pub canonicalize_no_follow : PathBuf → Option PathBuf
  unfolding canonicalize_or_parent
  canonicalize_no_follow path = keep_last path.is_absolute (reverse path.components)
