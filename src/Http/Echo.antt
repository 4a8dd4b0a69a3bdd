-- ===== src/Http/Echo.antt =====
-- Versions in the headers of responses and requests.
use zhost.Prelude.{◌≡◌, refl, some, ◌^◌, ◌-◌, string_eq}
use zhost.Prelude.Int.{ℤ, negsuc, ◌≤ℤ◌, i64_max}
use zhost.Prelude.Table.{lookup}
use zhost.Prelude.Format.{int_to_string}
use zhost.Prelude.Decimal.{parse_i64-int_to_string}
use zhost.Http.Headers.{
  HeaderMap, header_text, version_headers, if_unmodified, precondition, expect,
}

-- The request repeats the version that a response with these headers gave.
abbrev pub Echoes : HeaderMap → ℤ → Type 0
Echoes headers version =
    header_text "if-unmodified-since-version" headers
    ≡ lookup "last-modified-version" (version_headers version)

version_headers-lookup :
    (version : ℤ)
    → lookup "last-modified-version" (version_headers version) ≡ some (int_to_string version)
unfolding version_headers lookup
version_headers-lookup version = refl

-- A request whose `If-Unmodified-Since-Version` is the `Last-Modified-Version` of a response expects
-- the version of that response, for every number of the type.
pub precondition-echo :
    (version : ℤ) (headers : HeaderMap)
    → negsuc (2 ^ 63 - 1) ≤ℤ version
    → version ≤ℤ i64_max
    → Echoes headers version
    → precondition headers ≡ expect version
unfolding precondition if_unmodified
precondition-echo version headers low high echo =
    rw (echo, version_headers-lookup version, parse_i64-int_to_string version low high) refl
