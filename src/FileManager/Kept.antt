-- ===== src/FileManager/Kept.antt =====
-- What a write request can do to the files, over every method and every error.
use a_hand.Base.{
  ℕ, ◌+◌, ◌≤◌, ◌<◌, ◌≡◌, ◌⊎◌, refl, ◌∙◌, ap, Bool, true, false, Option, none, some, ◌++◌, arith,
  length, length-append, ltb, ◌==◌, Option-cases, Bool-cases, inl, inr,
}
use a_hand.Base.Text.{Text, text_eq}
use a_hand.Base.Map
use a_hand.FileManager.{
  FileErrorCode, too_large, encoding, invalid_path, unspecified, FileError, Result, ok, err, Node,
  file, directory, symlink, Fs,
}
use a_hand.FileManager.Os.{bytes_of, Os, IsOs, IsSpared, IsWithin, stat, seen}
use a_hand.FileManager.Write.{
  WriteMethod, full_write, append, string_replace, line_range_replace, byte_range_replace,
  FileWrite, FileWriteResult, ensure_encoding_supported, size_of, size_or_zero, saturating_add,
  apply_string_replace, apply_line_range_replace, apply_byte_range_replace,
}
use a_hand.FileManager.Handlers.{
  is_rejected, answer, write_limited, with_bytes, make_parents, after_parents, full_write_bytes,
  handle_full_write, appended_to, handle_append, handle_method, handle_write,
}

-- What is at a path behind an answer: on success a file within the limit, of the size reported; on
-- an error what was there, or a file within the limit.
abbrev pub IsAnswered : Fs → Text → ℕ → Fs × Result FileWriteResult → Type 0
IsAnswered fs place max (fs', ok r) =
    (bytes : Text) × (Map.get place fs' ≡ some (file bytes))
    × (r.final_size ≡ length bytes)
    × (length bytes ≤ max)
IsAnswered fs place max (fs', err e) = IsWithin fs fs' place max

-- Every other path is as it was.
abbrev IsDone : Fs → Text → ℕ → Fs × Result FileWriteResult → Type 0
IsDone fs place max done =
    ((other : Text) → (place == other) ≡ false → Map.get other done.0 ≡ Map.get other fs)
    × IsAnswered fs place max done

-- A path is as it was, or a directory that was asked for where there was nothing.
abbrev pub IsKept : Bool → Fs → Fs → Text → Type 0
IsKept made fs fs' other =
    (Map.get other fs' ≡ Map.get other fs)
    ⊎ ((made ≡ true) × (Map.get other fs ≡ none) × (Map.get other fs' ≡ some directory))

-- Every other path is kept, and the place is, on an error, kept too or a file within the limit, and
-- on success a file within the limit, of the size reported.
abbrev pub IsLimited : Bool → Fs → Text → ℕ → Fs × Result FileWriteResult → Type 0
IsLimited made fs place max (fs', ok r) =
    ((other : Text) → (place == other) ≡ false → IsKept made fs fs' other)
    × IsAnswered fs place max (fs', ok r)
IsLimited made fs place max (fs', err e) =
    ((other : Text) → (place == other) ≡ false → IsKept made fs fs' other)
    × (IsKept made fs fs' place
        ⊎ ((bytes : Text) × (Map.get place fs' ≡ some (file bytes)) × (length bytes ≤ max)))

module _ (is_utf8 : Text → Bool) (os : Os) (lawful : IsOs os) (resolved : Text) (max : ℕ) where
  refused : (fs : Fs) (e : FileError) → IsDone fs (os.follow fs resolved) max (fs, err e)
  refused fs e = (λ other n. refl, inl refl)

  IsWithin-weaken :
      (fs fs' : Fs) (place : Text) (few : ℕ)
      → few ≤ max
      → IsWithin fs fs' place few
      → IsWithin fs fs' place max
  IsWithin-weaken fs fs' place few h (inl e) = inl e
  IsWithin-weaken fs fs' place few h (inr (bytes, e, small)) =
      inr (bytes, e, omega (arith, h, small))

  -- A call that changes only the place, and leaves there the bytes or as many at most.
  answer-IsDone :
      (fs : Fs) (bytes : Text) (r : FileWriteResult) (place : Text)
      (called : Fs × Option FileErrorCode)
      → r.final_size ≡ length bytes
      → length bytes ≤ max
      → ((other : Text) → (place == other) ≡ false → Map.get other called.0 ≡ Map.get other fs)
      → (called.1 ≡ none → Map.get place called.0 ≡ some (file bytes))
      → IsWithin fs called.0 place (length bytes)
      → IsDone fs place max (answer resolved called r)
  answer-IsDone fs bytes r place (fs', none) e h elsewhere done failed =
      (elsewhere, (bytes, done refl, e, h))
  answer-IsDone fs bytes r place (fs', some code) e h elsewhere done failed =
      (elsewhere, IsWithin-weaken fs fs' place (length bytes) h failed)

  write_limited-IsDone :
      (fs : Fs) (req_path bytes : Text) (r : FileWriteResult)
      → r.final_size ≡ length bytes
      → IsDone fs
          (os.follow fs resolved)
          max
          (write_limited is_utf8 os fs req_path resolved max bytes r)
  unfolding write_limited
  write_limited-IsDone fs req_path bytes r e = elim (Bool-cases (ltb max (length bytes))) [
    | inl b ↦ rw (write_limited, b) (refused fs (record { code = too_large; path = req_path }))
    | inr b ↦
        rw (write_limited, b)
          (answer-IsDone fs bytes r (os.follow fs resolved) (os.write_file fs resolved bytes) e
            (ground (arith, b)) (lawful.write_elsewhere fs resolved bytes)
            (lawful.written fs resolved bytes) (lawful.write_failed fs resolved bytes))
  ]

  with_bytes-IsDone :
      {A : Type 0} (fs : Fs) (a : Result A) (f : A → Fs × Result FileWriteResult)
      → ((x : A) → IsDone fs (os.follow fs resolved) max (f x))
      → IsDone fs (os.follow fs resolved) max (with_bytes is_utf8 os fs a f)
  with_bytes-IsDone fs (ok x) f h = h x
  with_bytes-IsDone fs (err e) f h = refused fs e

  -- A size that is within the limit when it is added up without a wrap.
  added_size :
      (node : Option Node) (added : Text)
      → max < 18446744073709551615
      → saturating_add (size_or_zero (size_of node)) (length added) ≤ max
      → length (bytes_of node) + length added ≤ max
  added_size none added m h = ground (arith, m, h)
  added_size (some (file s)) added m h = ground (arith, m, h)
  added_size (some directory) added m h = ground (arith, m, h)
  added_size (some symlink) added m h = ground (arith, m, h)

  appended_to-IsDone :
      (fetch : Text → ℕ → Text → Result Text) (fs : Fs) (added : Text)
      (called : Fs × Option FileErrorCode)
      → length (bytes_of (stat os fs resolved)) + length added ≤ max
      → ((other : Text)
          → (os.follow fs resolved == other) ≡ false
          → Map.get other called.0 ≡ Map.get other fs)
      → (called.1 ≡ none
          → Map.get (os.follow fs resolved) called.0
            ≡ some (file (bytes_of (stat os fs resolved) ++ added)))
      → IsWithin fs called.0
          (os.follow fs resolved)
          (length (bytes_of (stat os fs resolved)) + length added)
      → os.follow called.0 resolved ≡ os.follow fs resolved
      → IsDone fs (os.follow fs resolved) max (appended_to is_utf8 os fetch resolved added called)
  appended_to-IsDone fetch fs added (fs', none) h elsewhere done failed leads =
      rw (appended_to, ap (λ p. Map.get p fs') leads ∙ done refl)
        (
          elsewhere,
          (
            bytes_of (stat os fs resolved) ++ added,
            done refl,
            refl,
            omega (arith, h, length-append (bytes_of (stat os fs resolved)) added),
          ),
        )
  appended_to-IsDone fetch fs added (fs', some code) h elsewhere done failed leads =
      (elsewhere, IsWithin-weaken fs fs' (os.follow fs resolved) _ h failed)

  append-IsDone :
      (fetch : Text → ℕ → Text → Result Text) (fs : Fs) (req_path added : Text)
      → max < 18446744073709551615
      → IsDone fs
          (os.follow fs resolved)
          max
          (handle_append is_utf8 os fetch fs req_path resolved added max)
  unfolding handle_append
  append-IsDone fetch fs req_path added m =
      elim (Bool-cases
        (ltb max (saturating_add (size_or_zero (size_of (stat os fs resolved))) (length added)))) [
          | inl b ↦
              rw (handle_append, b) (refused fs (record { code = too_large; path = req_path }))
          | inr b ↦
              rw (handle_append, b)
                (appended_to-IsDone fetch fs added (os.append_file fs resolved added)
                  (added_size (stat os fs resolved) added m (ground (arith, b)))
                  (lawful.append_elsewhere fs resolved added) (lawful.appended fs resolved added)
                  (lawful.append_failed fs resolved added) (lawful.append_leads fs resolved added))
        ]

  module _ (fetch : Text → ℕ → Text → Result Text) where
    method-IsDone :
        (fs : Fs) (req_path : Text) (method : WriteMethod)
        → max < 18446744073709551615
        → IsDone fs
            (os.follow fs resolved)
            max
            (handle_method is_utf8 os fetch fs req_path resolved method max)
    unfolding handle_method handle_full_write
    method-IsDone fs req_path (full_write fw) m =
        with_bytes-IsDone fs (full_write_bytes is_utf8 os fetch req_path fw max) _
          (λ bytes. write_limited-IsDone fs req_path bytes _ refl)
    method-IsDone fs req_path (append added) m = append-IsDone fetch fs req_path added m
    method-IsDone fs req_path (string_replace sr) m =
        with_bytes-IsDone fs
          (apply_string_replace is_utf8 (seen os fs resolved) req_path resolved sr max) _
          (λ (bytes, count). write_limited-IsDone fs req_path bytes _ refl)
    method-IsDone fs req_path (line_range_replace lr) m =
        with_bytes-IsDone fs
          (apply_line_range_replace is_utf8 (seen os fs resolved) req_path resolved lr max) _
          (λ bytes. write_limited-IsDone fs req_path bytes _ refl)
    method-IsDone fs req_path (byte_range_replace br) m =
        with_bytes-IsDone fs
          (apply_byte_range_replace (seen os fs resolved) req_path resolved br max) _
          (λ bytes. write_limited-IsDone fs req_path bytes _ refl)

    untouched :
        (made : Bool) (fs : Fs) (place : Text) (e : FileError)
        → IsLimited made fs place max (fs, err e)
    untouched made fs place e = (λ other n. inl refl, inl (inl refl))

    IsKept-then :
        (made : Bool) (fs before after : Fs) (other : Text)
        → IsKept made fs before other
        → Map.get other after ≡ Map.get other before
        → IsKept made fs after other
    IsKept-then made fs before after other (inl same) e = inl (e ∙ same)
    IsKept-then made fs before after other (inr (m, gone, there)) e = inr (m, gone, e ∙ there)

    -- What is done behind the making of directories.
    done-IsLimited :
        (made : Bool) (fs before : Fs) (place : Text) (done : Fs × Result FileWriteResult)
        → ((other : Text) → IsKept made fs before other)
        → IsDone before place max done
        → IsLimited made fs place max done
    done-IsLimited made fs before place (fs', ok r) kept (elsewhere, there) =
        (λ other n. IsKept-then made fs before fs' other (kept other) (elsewhere other n), there)
    done-IsLimited made fs before place (fs', err e) kept (elsewhere, inl same) = (
      λ other n. IsKept-then made fs before fs' other (kept other) (elsewhere other n),
      inl (IsKept-then made fs before fs' place (kept place) same),
    )
    done-IsLimited made fs before place (fs', err e) kept (elsewhere, inr small) = (
      λ other n. IsKept-then made fs before fs' other (kept other) (elsewhere other n),
      inr small,
    )

    after_parents-IsLimited :
        (made : Bool) (fs : Fs) (parents : Fs × Result (Unit {0}))
        (f : Fs → Fs × Result FileWriteResult)
        → ((other : Text) → IsKept made fs parents.0 other)
        → ((before : Fs) → IsDone before (os.follow before resolved) max (f before))
        → IsLimited made fs (os.follow parents.0 resolved) max (after_parents is_utf8 os parents f)
    after_parents-IsLimited made fs (before, err e) f kept h =
        (λ other n. kept other, inl (kept (os.follow before resolved)))
    after_parents-IsLimited made fs (before, ok _) f kept h =
        done-IsLimited made fs before (os.follow before resolved) (f before) kept (h before)

    spared-IsKept : (fs fs' : Fs) (other : Text) → IsSpared fs fs' other → IsKept true fs fs' other
    spared-IsKept fs fs' other (inl e) = inl e
    spared-IsKept fs fs' other (inr (gone, there)) = inr (refl, gone, there)

    answer-fs :
        (path : Text) (called : Fs × Option FileErrorCode)
        → (answer {R = Unit {0}} path called tt).0 ≡ called.0
    answer-fs path (fs, none) = refl
    answer-fs path (fs, some code) = refl

    pub make_parents-IsKept :
        (made : Bool) (fs : Fs) (other : Text)
        → IsKept made fs (make_parents is_utf8 os made fs resolved).0 other
    unfolding make_parents
    make_parents-IsKept false fs other = inl refl
    make_parents-IsKept true fs other = elim (Option-cases (os.parent resolved)) [
      | inl e ↦ rw (make_parents, e) (inl refl)
      | inr (parent, e) ↦
          rw (make_parents, e, answer-fs parent (os.create_dir_all fs parent))
            (spared-IsKept fs (os.create_dir_all fs parent).0 other
              (lawful.created fs parent other))
    ]

    -- With a limit below 2^64 - 1, a write request of any method that succeeds leaves, where its
    -- path leads, a file within the limit, of the size that it reports; where it fails, that place
    -- is as it was, or holds a file within the limit. Every other path is as it was, but for
    -- directories that `create_parents` made where there was nothing, also where the request
    -- then fails.
    pub handle_write-IsLimited :
        (fs : Fs) (req : FileWrite)
        → max < 18446744073709551615
        → IsLimited req.create_parents fs
            (os.follow (make_parents is_utf8 os req.create_parents fs resolved).0 resolved)
            max
            (handle_write is_utf8 os fetch fs req resolved max)
    unfolding handle_write
    handle_write-IsLimited fs req m = elim (Bool-cases (ensure_encoding_supported req.encoding)) [
      | inr b ↦
          rw (handle_write, b)
            (untouched req.create_parents fs _ (record { code = encoding; path = req.path }))
      | inl b ↦ elim (Bool-cases (is_rejected fs resolved req.no_follow_symlink)) [
        | inl s ↦
            rw (handle_write, b, s)
              (untouched req.create_parents fs _ (record { code = invalid_path; path = req.path }))
        | inr s ↦ elim (Option-cases req.method) [
          | inl e ↦
              rw (handle_write, b, s, e)
                (untouched req.create_parents fs _ (record { code = unspecified; path = req.path }))
          | inr (method, e) ↦
              rw (handle_write, b, s, e)
                (after_parents-IsLimited req.create_parents fs
                  (make_parents is_utf8 os req.create_parents fs resolved) _
                  (make_parents-IsKept req.create_parents fs)
                  (λ before. method-IsDone before req.path method m))
        ]
      ]
    ]
