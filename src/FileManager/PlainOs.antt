-- ===== src/FileManager/PlainOs.antt =====
-- An operating system in which no link leads anywhere and only the directory that is asked for is
-- made: a concrete one to run the handlers on.
use a_hand.Base.{
  ◌≡◌, ◌==◌, refl, subst, false, Bool-cases, Option, none, some, [], ◌++◌, length, length-append,
  arith, inl, inr,
}
use a_hand.Base.Text.{Text, text_eq}
use a_hand.Base.Map
use a_hand.FileManager.{FileErrorCode, is_a_directory, io, Node, file, directory, symlink, Fs}
use a_hand.FileManager.Os.{Os, IsOs, IsSpared, IsWithin, bytes_of}

abbrev put : Fs → Text → Text → Option Node → Fs × Option FileErrorCode
put fs path bytes none = (Map.insert path (file bytes) fs, none)
put fs path bytes (some (file s)) = (Map.insert path (file bytes) fs, none)
put fs path bytes (some directory) = (fs, some is_a_directory)
put fs path bytes (some symlink) = (fs, some io)

abbrev make : Fs → Text → Option Node → Fs × Option FileErrorCode
make fs path none = (Map.insert path directory fs, none)
make fs path (some node) = (fs, none)

unfoldable pub plain : Os
plain = record {
  follow = λ fs path. path;
  parent = λ path. some [];
  create_dir_all = λ fs path. make fs path (Map.get path fs);
  write_file = λ fs path bytes. put fs path bytes (Map.get path fs);
  append_file =
      λ fs path bytes. put fs path (bytes_of (Map.get path fs) ++ bytes) (Map.get path fs);
}

put_elsewhere :
    (fs : Fs) (path bytes other : Text) (node : Option Node)
    → (path == other) ≡ false
    → Map.get other (put fs path bytes node).0 ≡ Map.get other fs
put_elsewhere fs path bytes other none n =
    ground (arith, n, Map.get-insert path other (file bytes) fs)
put_elsewhere fs path bytes other (some (file s)) n =
    ground (arith, n, Map.get-insert path other (file bytes) fs)
put_elsewhere fs path bytes other (some directory) n = refl
put_elsewhere fs path bytes other (some symlink) n = refl

put_done :
    (fs : Fs) (path bytes : Text) (node : Option Node)
    → (put fs path bytes node).1 ≡ none
    → Map.get path (put fs path bytes node).0 ≡ some (file bytes)
put_done fs path bytes none h = Map.get-insert_self path (file bytes) fs
put_done fs path bytes (some (file s)) h = Map.get-insert_self path (file bytes) fs
put_done fs path bytes (some directory) h = cc
put_done fs path bytes (some symlink) h = cc

put-IsWithin :
    (fs : Fs) (path bytes : Text) (node : Option Node)
    → IsWithin fs (put fs path bytes node).0 path (length bytes)
put-IsWithin fs path bytes none = inr (bytes, Map.get-insert_self path (file bytes) fs, omega arith)
put-IsWithin fs path bytes (some (file s)) =
    inr (bytes, Map.get-insert_self path (file bytes) fs, omega arith)
put-IsWithin fs path bytes (some directory) = inl refl
put-IsWithin fs path bytes (some symlink) = inl refl

make-IsSpared :
    (fs : Fs) (path other : Text) (node : Option Node)
    → Map.get path fs ≡ node
    → IsSpared fs (make fs path node).0 other
make-IsSpared fs path other none h = elim (Bool-cases (path == other)) [
  | inl e ↦ ground (arith, h, e, text_eq.beq_iff path other, Map.get-insert path other directory fs)
  | inr n ↦ inl (ground (arith, n, Map.get-insert path other directory fs))
]
make-IsSpared fs path other (some node) h = inl refl

pub plain-IsOs : IsOs plain
unfolding plain
plain-IsOs = record {
  follow_own = λ fs path h. refl;
  created = λ fs path other. make-IsSpared fs path other (Map.get path fs) refl;
  write_elsewhere = λ fs path bytes other. put_elsewhere fs path bytes other (Map.get path fs);
  written = λ fs path bytes. put_done fs path bytes (Map.get path fs);
  write_failed = λ fs path bytes. put-IsWithin fs path bytes (Map.get path fs);
  append_elsewhere = λ fs path bytes other.
      put_elsewhere fs path (bytes_of (Map.get path fs) ++ bytes) other (Map.get path fs);
  appended =
      λ fs path bytes. put_done fs path (bytes_of (Map.get path fs) ++ bytes) (Map.get path fs);
  append_failed = λ fs path bytes.
      subst
        (IsWithin fs (put fs path (bytes_of (Map.get path fs) ++ bytes) (Map.get path fs)).0 path)
        (length-append (bytes_of (Map.get path fs)) bytes)
        (put-IsWithin fs path (bytes_of (Map.get path fs) ++ bytes) (Map.get path fs));
  append_leads = λ fs path bytes. refl;
}
