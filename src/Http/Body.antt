-- ===== src/Http/Body.antt =====
-- xotero/src/http/middleware.rs: reading a request's body within a limit. `gunzip raw n` stands for
-- flate2's decoder: the first `n` decoded bytes, or `none` if it meets corrupt data before them.
use zhost.Prelude.{
  ℕ, ◌+◌, ◌-◌, String, Bool, true, false, Option, none, some, if◌then◌else◌, List, [], ◌∷◌, ◌++◌,
  length, take, ltb, ◌≡◌, ◌⊎◌, inl, inr, refl,
}
use zhost.Prelude.Text.{eq_ignore_ascii_case}

-- What polling the body yields: bytes, trailers, or an error.
pub data Frame : Type 0 where
  bytes : List ℕ → Frame
  trailers broken : Frame

pub data Read : Type 0 where
  complete : List ℕ → Read
  failed : ℕ → Read

abbrev pub encoding_of : Option String → Option Bool
encoding_of none = some false
encoding_of (some value) =
    if eq_ignore_ascii_case value "gzip"
    then some true
    else if eq_ignore_ascii_case value "identity"
    then some false
    else none

unfoldable pub read_frames : ℕ → List ℕ → List Frame → Read
read_frames limit raw [] = complete raw
read_frames limit raw (broken ∷ frames) = failed 400
read_frames limit raw (trailers ∷ frames) = read_frames limit raw frames
read_frames limit raw (bytes b ∷ frames) =
    let raw' = raw ++ take (limit + 1 - length raw) b in
    let rest = read_frames limit raw' frames in if ltb limit (length raw') then failed 413 else rest

unfoldable pub decode_gzip : (List ℕ → ℕ → Option (List ℕ)) → ℕ → List ℕ → Read
decode_gzip gunzip limit raw = elim (gunzip raw (limit + 1)) [
  | none ↦ failed 400
  | some out ↦ if ltb limit (length out) then failed 413 else complete out
]

abbrev pub decoded : (List ℕ → ℕ → Option (List ℕ)) → ℕ → Bool → Read → Read
decoded gunzip limit gzip (failed status) = failed status
decoded gunzip limit false (complete raw) = complete raw
decoded gunzip limit true (complete raw) = decode_gzip gunzip limit raw

unfoldable pub buffered_body :
    (List ℕ → ℕ → Option (List ℕ)) → Option String → ℕ → List Frame → Read
unfolding read_frames decode_gzip
buffered_body gunzip content_encoding limit frames = elim (encoding_of content_encoding) [
  | none ↦ failed 415
  | some gzip ↦ decoded gunzip limit gzip (read_frames limit [] frames)
]

pub Read-cases :
    (r : Read) → ((status : ℕ) × (r ≡ failed status)) ⊎ ((raw : List ℕ) × (r ≡ complete raw))
Read-cases (failed status) = inl (status, refl)
Read-cases (complete raw) = inr (raw, refl)
