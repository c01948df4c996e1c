-- ===== src/FileManager/Os.antt =====
-- What the handlers of crates/ahandd/src/file_manager/write_ops.rs ask of the operating system and
-- of `std::path`: `tokio::fs::create_dir_all`, `tokio::fs::write`, a file opened with `append` and
-- written, the path that is reached through links, and the parent of a path. A call answers the
-- files it leaves, and an error if it failed, which it may do after it has changed them.
use a_hand.Base.{
  ℕ, ◌+◌, ◌≤◌, ◌≡◌, ◌⊎◌, Bool, true, false, Option, none, some, [], ◌++◌, length, ◌==◌,
}
use a_hand.Base.Text.{Text, text_eq}
use a_hand.Base.Map
use a_hand.FileManager.{FileErrorCode, Node, file, directory, symlink, Fs}

abbrev pub is_symlink : Option Node → Bool
is_symlink none = false
is_symlink (some (file s)) = false
is_symlink (some directory) = false
is_symlink (some symlink) = true

abbrev pub is_dir : Option Node → Bool
is_dir none = false
is_dir (some (file s)) = false
is_dir (some directory) = true
is_dir (some symlink) = false

abbrev pub bytes_of : Option Node → Text
bytes_of none = []
bytes_of (some (file s)) = s
bytes_of (some directory) = []
bytes_of (some symlink) = []

-- `follow` gives the path that is reached through the links at the end of a path, which is a link
-- still where they run in a circle.
pub record Os : Type 0 where
  pub follow : Fs → Text → Text
  pub parent : Text → Option Text
  pub create_dir_all : Fs → Text → Fs × Option FileErrorCode
  pub write_file : Fs → Text → Text → Fs × Option FileErrorCode
  pub append_file : Fs → Text → Text → Fs × Option FileErrorCode

-- What is at a path, links followed.
abbrev pub stat : Os → Fs → Text → Option Node
stat os fs path = Map.get (os.follow fs path) fs

-- The files as they are read at a path, links followed.
abbrev pub seen : Os → Fs → Text → Fs
seen os fs path = elim (stat os fs path) [
  | none ↦ Map.remove path fs
  | some node ↦ Map.insert path node fs
]

-- Nothing happened to a path, or a directory was made where there was nothing.
abbrev pub IsSpared : Fs → Fs → Text → Type 0
IsSpared fs fs' other =
    (Map.get other fs' ≡ Map.get other fs)
    ⊎ ((Map.get other fs ≡ none) × (Map.get other fs' ≡ some directory))

-- The node at a path is as it was, or a file of no more bytes than `most`.
abbrev pub IsWithin : Fs → Fs → Text → ℕ → Type 0
IsWithin fs fs' place most =
    (Map.get place fs' ≡ Map.get place fs)
    ⊎ ((bytes : Text) × (Map.get place fs' ≡ some (file bytes)) × (length bytes ≤ most))

-- The documented behaviour: what is not a link is reached at its own path; directories are made
-- only where there was nothing; a write changes only the path that is reached, which holds the
-- bytes, or on an error at most as many of them; an append likewise, behind the bytes there.
pub record IsOs (os : Os) : Type 0 where
  pub follow_own :
      (fs : Fs) (path : Text) → is_symlink (Map.get path fs) ≡ false → os.follow fs path ≡ path
  pub created : (fs : Fs) (path other : Text) → IsSpared fs (os.create_dir_all fs path).0 other
  pub write_elsewhere :
      (fs : Fs) (path bytes other : Text)
      → (os.follow fs path == other) ≡ false
      → Map.get other (os.write_file fs path bytes).0 ≡ Map.get other fs
  pub written :
      (fs : Fs) (path bytes : Text)
      → (os.write_file fs path bytes).1 ≡ none
      → Map.get (os.follow fs path) (os.write_file fs path bytes).0 ≡ some (file bytes)
  pub write_failed :
      (fs : Fs) (path bytes : Text)
      → IsWithin fs (os.write_file fs path bytes).0 (os.follow fs path) (length bytes)
  pub append_elsewhere :
      (fs : Fs) (path bytes other : Text)
      → (os.follow fs path == other) ≡ false
      → Map.get other (os.append_file fs path bytes).0 ≡ Map.get other fs
  pub appended :
      (fs : Fs) (path bytes : Text)
      → (os.append_file fs path bytes).1 ≡ none
      → Map.get (os.follow fs path) (os.append_file fs path bytes).0
        ≡ some (file (bytes_of (stat os fs path) ++ bytes))
  pub append_failed :
      (fs : Fs) (path bytes : Text)
      → IsWithin fs
          (os.append_file fs path bytes).0
          (os.follow fs path)
          (length (bytes_of (stat os fs path)) + length bytes)
  pub append_leads :
      (fs : Fs) (path bytes : Text)
      → os.follow (os.append_file fs path bytes).0 path ≡ os.follow fs path
