-- ===== src/FileManager/Printed.antt =====
-- Reading a path back that was printed, and the paths of symlink targets.
use a_hand.Base.{◌≡◌, false, List, ◌∷◌, ◌++◌, ◌==◌}
use a_hand.Base.Text.{Text, text_eq, codes, contains}
use a_hand.FileManager.Paths.{Component, cur_dir, parent_dir, normal}

-- A name that `components` keeps as one.
abbrev pub IsName : Text → Type 0
IsName name =
    (contains 47 name ≡ false)
    × ((name == codes "") ≡ false)
    × ((name == codes ".") ≡ false)
    × ((name == codes "..") ≡ false)

abbrev pub IsNormal : Component → Type 0
IsNormal cur_dir = ⊥
IsNormal parent_dir = ⊥
IsNormal (normal name) = IsName name

-- A component that can stand in a path.
abbrev pub IsNamed : Component → Type 0
IsNamed cur_dir = Unit
IsNamed parent_dir = Unit
IsNamed (normal name) = IsName name

abbrev IsCut : Text → Type 0
IsCut s = contains 47 s ≡ false

-- How the components of a path may be simplified: a name with the `..` behind it goes, a `..` at
-- the root goes, and a `.` goes.
pub data Simplifies : List Component → List Component → Type 0 where
  up :
      (front rest : List Component) (name : Text)
      → Simplifies (front ++ (normal name ∷ parent_dir ∷ rest)) (front ++ rest)
  root : (rest : List Component) → Simplifies (parent_dir ∷ rest) rest
  here : (front rest : List Component) → Simplifies (front ++ (cur_dir ∷ rest)) (front ++ rest)

pub data Reaches : List Component → List Component → Type 0 where
  done : (cs : List Component) → Reaches cs cs
  step : {cs ds es : List Component} → Simplifies cs ds → Reaches ds es → Reaches cs es

abbrev IsWord : Component → Type 0
IsWord cur_dir = ⊥
IsWord parent_dir = ⊥
IsWord (normal name) = Unit
