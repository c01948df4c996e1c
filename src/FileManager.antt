-- ===== src/FileManager.antt =====
-- The file operations of the daemon, crates/ahandd/src/file_manager. A file system is a map from
-- resolved paths to nodes; what the operating system answers beyond that is a parameter where it
-- matters. The texts of errors are left out.
pub mod Replace
pub mod Lines
pub mod Write
pub mod Os
mod PlainOs
pub mod Handlers
pub mod Download
pub mod Replaced
pub mod Spliced
pub mod Kept
pub mod Edited
pub mod ReadBinary
pub mod Covered
pub mod ReadText
pub mod Reading
pub mod Printed
pub mod Confined
pub mod Dispatch
pub mod Dispatched
pub mod Escalation
pub mod Requests
pub mod Permitted
pub mod Resolved
pub mod Paths
pub mod Policy
mod Examples
use a_hand.Base.{◌≡◌, ◌⊎◌, inl, inr, refl, ℕ, Bool, true, false, Option, none, some, List}
use a_hand.Base.Text.{Text}
use a_hand.Base.Map.{Map}

pub data FileErrorCode : Type 0 where
  unspecified not_found permission_denied already_exists not_a_directory is_a_directory :
      FileErrorCode
  not_empty too_large invalid_path io encoding multiple_matches policy_denied : FileErrorCode

-- The code and the path of a `FileError`.
pub record FileError : Type 0 where
  pub code : FileErrorCode
  pub path : Text

pub data Result {ℓ} (A : Type ℓ) : Type ℓ where
  ok : A → Result A
  err : FileError → Result A

pub Result-cases {ℓ} :
    {A : Type ℓ} (a : Result A) → ((e : FileError) × (a ≡ err e)) ⊎ ((x : A) × (a ≡ ok x))
Result-cases (ok x) = inr (x, refl)
Result-cases (err e) = inl (e, refl)

abbrev pub file_error {ℓ} : {A : Type ℓ} → FileErrorCode → Text → Result A
file_error code path = err (record { code = code; path = path })

pub data Node : Type 0 where
  file : Text → Node
  directory : Node
  symlink : Node

abbrev pub Fs : Type 0
Fs = Map Text Node

pub record StringReplace : Type 0 where
  pub old_string : Text
  pub new_string : Text
  pub replace_all : Bool

pub record LineRangeReplace : Type 0 where
  pub start_line : ℕ
  pub end_line : ℕ
  pub new_content : Text

pub record ByteRangeReplace : Type 0 where
  pub byte_offset : ℕ
  pub byte_length : ℕ
  pub new_content : Text
