-- ===== src/Http/Limits.antt =====
-- The length of a body that is accepted.
use zhost.Prelude.{
  ℕ, ◌+◌, ◌-◌, ◌≤◌, ◌≡◌, inl, inr, Option, arith, Bool, true, false, String, List, [], ◌∷◌, ◌++◌,
  length, take, ltb, Bool-cases, Option-cases,
}
use zhost.Http.Body.{
  decoded, Frame, bytes, trailers, broken, Read, complete, failed, encoding_of, read_frames,
  decode_gzip, buffered_body,
}

read_frames-length :
    (limit : ℕ) (raw : List ℕ) (frames : List Frame) (out : List ℕ)
    → length raw ≤ limit
    → read_frames limit raw frames ≡ complete out
    → length out ≤ limit
unfolding read_frames
read_frames-length limit raw [] out short h = let q : raw ≡ out = cc in rw (← q) short
read_frames-length limit raw (broken ∷ frames) out short h = absurd (ground arith)
read_frames-length limit raw (trailers ∷ frames) out short h =
    read_frames-length limit raw frames out short h
read_frames-length limit raw (bytes b ∷ frames) out short h =
    let raw' = raw ++ take (limit + 1 - length raw) b in
    elim (Bool-cases (ltb limit (length raw'))) [
      | inl long ↦ absurd (ground arith)
      | inr fits ↦ read_frames-length limit raw' frames out (ground arith) (ground arith)
    ]

decode_gzip-length :
    (gunzip : List ℕ → ℕ → Option (List ℕ)) (limit : ℕ) (raw out : List ℕ)
    → decode_gzip gunzip limit raw ≡ complete out
    → length out ≤ limit
unfolding decode_gzip
decode_gzip-length gunzip limit raw out h = elim (Option-cases (gunzip raw (limit + 1))) [
  | inl corrupt ↦ absurd (ground arith)
  | inr (decoded, e) ↦ elim (Bool-cases (ltb limit (length decoded))) [
    | inl long ↦ absurd (ground arith)
    | inr fits ↦ let q : decoded ≡ out = ground arith in rw (← q) (ground arith)
  ]
]

decoded-length :
    (gunzip : List ℕ → ℕ → Option (List ℕ)) (limit : ℕ) (gzip : Bool) (r : Read) (out : List ℕ)
    → ((raw : List ℕ) → r ≡ complete raw → length raw ≤ limit)
    → decoded gunzip limit gzip r ≡ complete out
    → length out ≤ limit
decoded-length gunzip limit gzip (failed status) out short h = absurd (ground arith)
decoded-length gunzip limit false (complete raw) out short h = short out h
decoded-length gunzip limit true (complete raw) out short h =
    decode_gzip-length gunzip limit raw out h

-- A body that is read within a limit is at most that long, plain or decompressed, whatever the
-- decoder gives.
pub buffered_body-length :
    (gunzip : List ℕ → ℕ → Option (List ℕ)) (content_encoding : Option String) (limit : ℕ)
    (frames : List Frame) (out : List ℕ)
    → buffered_body gunzip content_encoding limit frames ≡ complete out
    → length out ≤ limit
unfolding buffered_body
buffered_body-length gunzip content_encoding limit frames out h =
    elim (Option-cases (encoding_of content_encoding)) [
      | inl unknown ↦ absurd (ground arith)
      | inr (gzip, e) ↦
          decoded-length gunzip limit gzip (read_frames limit [] frames) out
            (λ raw. read_frames-length limit [] frames raw (ground arith)) (ground arith)
    ]

read_frames-failed :
    (limit : ℕ) (raw : List ℕ) (frames : List Frame) (status : ℕ)
    → read_frames limit raw frames ≡ failed status
    → 400 ≤ status
unfolding read_frames
read_frames-failed limit raw [] status h = absurd (ground arith)
read_frames-failed limit raw (broken ∷ frames) status h = ground arith
read_frames-failed limit raw (trailers ∷ frames) status h =
    read_frames-failed limit raw frames status h
read_frames-failed limit raw (bytes b ∷ frames) status h =
    let raw' = raw ++ take (limit + 1 - length raw) b in
    elim (Bool-cases (ltb limit (length raw'))) [
      | inl long ↦ ground arith
      | inr fits ↦ read_frames-failed limit raw' frames status (ground arith)
    ]

decode_gzip-failed :
    (gunzip : List ℕ → ℕ → Option (List ℕ)) (limit : ℕ) (raw : List ℕ) (status : ℕ)
    → decode_gzip gunzip limit raw ≡ failed status
    → 400 ≤ status
unfolding decode_gzip
decode_gzip-failed gunzip limit raw status h = elim (Option-cases (gunzip raw (limit + 1))) [
  | inl corrupt ↦ ground arith
  | inr (out, e) ↦ elim (Bool-cases (ltb limit (length out))) [
    | inl long ↦ ground arith
    | inr fits ↦ absurd (ground arith)
  ]
]

decoded-failed :
    (gunzip : List ℕ → ℕ → Option (List ℕ)) (limit : ℕ) (gzip : Bool) (r : Read) (status : ℕ)
    → ((s : ℕ) → r ≡ failed s → 400 ≤ s)
    → decoded gunzip limit gzip r ≡ failed status
    → 400 ≤ status
decoded-failed gunzip limit gzip (failed s) status refused h = refused status h
decoded-failed gunzip limit false (complete raw) status refused h = absurd (ground arith)
decoded-failed gunzip limit true (complete raw) status refused h =
    decode_gzip-failed gunzip limit raw status h

-- A body that is refused is refused with an error's status.
pub buffered_body-failed :
    (gunzip : List ℕ → ℕ → Option (List ℕ)) (content_encoding : Option String) (limit : ℕ)
    (frames : List Frame) (status : ℕ)
    → buffered_body gunzip content_encoding limit frames ≡ failed status
    → 400 ≤ status
unfolding buffered_body
buffered_body-failed gunzip content_encoding limit frames status h =
    elim (Option-cases (encoding_of content_encoding)) [
      | inl unknown ↦ ground arith
      | inr (gzip, e) ↦
          decoded-failed gunzip limit gzip (read_frames limit [] frames) status
            (read_frames-failed limit [] frames) (ground arith)
    ]
