-- ===== src/FileManager/Download.antt =====
-- The download of an S3 object, `fetch_full_write_bytes` of
-- crates/ahandd/src/file_manager/write_ops.rs. Parsing a URL and the HTTP request are parameters.
use a_hand.Base.{
  append_nil, append_assoc, sym, ℕ, ◌≤◌, ◌<◌, ◌≡◌, refl, Bool, true, false, not, ◌&&◌, Option, none,
  some, List, [], ◌∷◌, ◌++◌, length, length-append, ltb, leb, if◌then◌else◌, ◌==◌, arith,
  Bool-cases, inl, inr,
}
use a_hand.Base.Text.{Text, text_eq, codes}
use a_hand.FileManager.{too_large, invalid_path, io, Result, ok, err, file_error}
use a_hand.FileManager.Write.{saturating_add, is_oversized}

-- The answer to a request; a chunk that is `none` could not be read.
pub record HttpResponse : Type 0 where
  pub is_success : Bool
  pub content_length : Option ℕ
  pub chunks : List (Option Text)

unfoldable pub accumulate : Text → ℕ → Text → List (Option Text) → Result Text
accumulate req_path max buf [] = ok buf
accumulate req_path max buf (none ∷ chunks) = file_error io req_path
accumulate req_path max buf (some chunk ∷ chunks) =
    let rest = accumulate req_path max (buf ++ chunk) chunks in
    if ltb max (saturating_add (length buf) (length chunk))
    then file_error too_large req_path
    else rest

module _ (scheme : Text → Option Text) (get : Text → Option HttpResponse) where
  unfoldable pub validate_download_url_scheme : Text → Bool
  validate_download_url_scheme url = elim (scheme url) [
    | none ↦ false
    | some s ↦ if s == codes "http" then true else s == codes "https"
  ]

  unfoldable pub fetch_full_write_bytes : Text → ℕ → Text → Result Text
  unfolding validate_download_url_scheme accumulate
  fetch_full_write_bytes url max req_path =
      if not (validate_download_url_scheme url)
      then file_error invalid_path req_path
      else elim (get url) [
        | none ↦ file_error io req_path
        | some resp ↦
            if not resp.is_success
            then file_error io req_path
            else if is_oversized resp.content_length max
            then file_error too_large req_path
            else accumulate req_path max [] resp.chunks
      ]

-- The chunks that could be read, put together.
abbrev pub body : List (Option Text) → Text
body [] = []
body (none ∷ chunks) = body chunks
body (some chunk ∷ chunks) = chunk ++ body chunks

abbrev pub is_whole : List (Option Text) → Bool
is_whole [] = true
is_whole (none ∷ chunks) = false
is_whole (some chunk ∷ chunks) = is_whole chunks

abbrev pub bytes_received : Result Text → Option Text
bytes_received (ok a) = some a
bytes_received (err e) = none

accumulate-body :
    (req_path : Text) (max : ℕ) (buf : Text) (chunks : List (Option Text))
    → max < 18446744073709551615
    → length buf ≤ max
    → bytes_received (accumulate req_path max buf chunks) ≡ (
        if is_whole chunks && leb (length (buf ++ body chunks)) max
        then some (buf ++ body chunks)
        else none)
unfolding accumulate
accumulate-body req_path max buf [] m h = ground (arith, append_nil buf)
accumulate-body req_path max buf (none ∷ chunks) m h = refl
accumulate-body req_path max buf (some chunk ∷ chunks) m h =
    elim (Bool-cases (ltb max (saturating_add (length buf) (length chunk)))) [
      | inl b ↦
          rw (accumulate, b)
            (ground (
              arith,
              b,
              length-append buf (chunk ++ body chunks),
              length-append chunk (body chunks),
            ))
      | inr b ↦
          rw (accumulate, b, sym (append_assoc buf chunk (body chunks)))
            (accumulate-body req_path max (buf ++ chunk) chunks m
              (ground (arith, b, length-append buf chunk)))
    ]

-- Where a request is answered and the limit is below 2^64 - 1, whatever a download hands on is
-- the whole body of the answer, and it is handed on exactly where the scheme of the URL is
-- accepted, the answer is a success that announces no more than the limit, every chunk could be
-- read and all of them together are within the limit.
pub fetch_full_write_bytes-body :
    (scheme : Text → Option Text) (get : Text → Option HttpResponse) (url : Text) (max : ℕ)
    (req_path : Text) (resp : HttpResponse)
    → max < 18446744073709551615
    → get url ≡ some resp
    → bytes_received (fetch_full_write_bytes scheme get url max req_path) ≡ (
        if validate_download_url_scheme scheme get url
          && (resp.is_success
              && (not (is_oversized resp.content_length max)
                  && (is_whole resp.chunks && leb (length (body resp.chunks)) max)))
        then some (body resp.chunks)
        else none)
unfolding fetch_full_write_bytes
fetch_full_write_bytes-body scheme get url max req_path resp m g =
    rw (fetch_full_write_bytes, g)
      (ground (arith, accumulate-body req_path max [] resp.chunks m (omega arith)))
