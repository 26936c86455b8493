-- ===== src/Infra/Url/Laws.antt =====
-- The host that the guard checks, and the headers that survive a redirect.
use mathlib.Core.List.{append_assoc}
use mylobsterpp.Prelude.{
  ◌≡◌, ◌≢◌, refl, ◌∙◌, inl, inr, none, some, List, [], ◌∷◌, ◌++◌, arith, Bool-cases, All-append,
  Has, Text, codes, text_eq, text_eq_iff, starts_with, break_at, break_byte-Lacks,
  break_byte-append, Lacks, lookup, erase, lookup-erase,
}
use mylobsterpp.Infra.Url.{
  strip_scheme, extract_hostname, Headers, erase_all, sensitive_headers, extract_origin,
  strip_cross_origin_headers,
}

-- A byte of a host name, user name or password: none of the separators.
abbrev pub IsPlain : Text → Type 0
IsPlain s = Lacks b'/' s × Lacks b':' s × Lacks b'@' s

break_scheme :
    (scheme rest : Text)
    → Lacks b':' scheme
    → break_at (codes "://") (scheme ++ (codes "://" ++ rest)) ≡ some (scheme, rest)
unfolding break_at starts_with
break_scheme [] rest h = refl
break_scheme (c ∷ scheme) rest h = ground (arith, break_scheme scheme rest h.1)

-- Of a URL with a scheme, a host and a path the host is found.
pub extract_hostname_plain :
    (scheme host path : Text)
    → Lacks b':' scheme
    → IsPlain host
    → extract_hostname (scheme ++ (codes "://" ++ (host ++ b'/' ∷ path))) ≡ host
unfolding extract_hostname strip_scheme
extract_hostname_plain scheme host path hs hp = rw (
  break_scheme scheme (host ++ b'/' ∷ path) hs,
  break_byte-append b'/' host path hp.0,
  break_byte-Lacks b':' host hp.1,
  break_byte-Lacks b'@' host hp.2,
)

-- What stands in front of the path, between user name and host.
abbrev authority : (user password host : Text) → Text
authority user password host = user ++ b':' ∷ (password ++ b'@' ∷ host)

regroup :
    (user password host path : Text)
    → user ++ b':' ∷ (password ++ b'@' ∷ (host ++ path)) ≡ authority user password host ++ path
regroup user password host path = simp append_assoc

authority-Lacks :
    (user password host : Text)
    → Lacks b'/' user
    → Lacks b'/' password
    → Lacks b'/' host
    → Lacks b'/' (authority user password host)
authority-Lacks user password host hu hp hh =
    All-append (λ x. x ≢ b'/') user _ hu
      (omega arith, All-append (λ x. x ≢ b'/') password _ hp (omega arith, hh))

-- Of a URL with a scheme without colons and a user name, a password and a host without slashes,
-- colons and at signs, `extract_hostname` gives the user name, not the host.
pub extract_hostname_password :
    (scheme user password host path : Text)
    → Lacks b':' scheme
    → IsPlain user
    → IsPlain password
    → IsPlain host
    → extract_hostname
        (scheme ++ (codes "://" ++ (user ++ b':' ∷ (password ++ b'@' ∷ (host ++ b'/' ∷ path)))))
      ≡ user
unfolding extract_hostname strip_scheme
extract_hostname_password scheme user password host path hs hu hp hh = rw (
  regroup user password host (b'/' ∷ path),
  break_scheme scheme (authority user password host ++ b'/' ∷ path) hs,
  break_byte-append b'/' (authority user password host) path
      (authority-Lacks user password host hu.0 hp.0 hh.0),
  break_byte-append b':' user (password ++ b'@' ∷ host) hu.1,
  break_byte-Lacks b'@' user hu.2,
)

lookup-erase_all-none :
    (names : List Text) (name : Text) (headers : Headers)
    → lookup name headers ≡ none
    → lookup name (erase_all names headers) ≡ none
unfolding erase_all
lookup-erase_all-none [] name headers h = h
lookup-erase_all-none (s ∷ names) name headers h =
    lookup-erase_all-none names name (erase s headers) (ground (arith, lookup-erase s name headers))

lookup-erase_all-mem :
    (names : List Text) (name : Text) (headers : Headers)
    → Has (λ s. s ≡ name) names
    → lookup name (erase_all names headers) ≡ none
unfolding erase_all
lookup-erase_all-mem [] name headers h = elim h [ ]
lookup-erase_all-mem (s ∷ names) name headers (inl e) =
    lookup-erase_all-none names name (erase s headers)
      (ground (arith, lookup-erase s name headers, text_eq_iff s name))
lookup-erase_all-mem (s ∷ names) name headers (inr h) =
    lookup-erase_all-mem names name (erase s headers) h

lookup-erase_all-other :
    (names : List Text) (name : Text) (headers : Headers)
    → ¬ Has (λ s. s ≡ name) names
    → lookup name (erase_all names headers) ≡ lookup name headers
unfolding erase_all
lookup-erase_all-other [] name headers h = refl
lookup-erase_all-other (s ∷ names) name headers h =
    lookup-erase_all-other names name (erase s headers) (λ m. h (inr m))
    ∙ ground (arith, lookup-erase s name headers, text_eq_iff s name, λ (e : s ≡ name). h (inl e))

abbrev pub IsSensitive : Text → Type 0
IsSensitive name = Has (λ s. s ≡ name) sensitive_headers

-- On a redirect within one origin the headers stay as they are; on a redirect to another origin no
-- sensitive header is left, and every header that is not sensitive is kept.
pub strip_cross_origin_headers_lem :
    (headers : Headers) (from to name : Text)
    → (extract_origin from ≡ extract_origin to
        → strip_cross_origin_headers headers from to ≡ headers)
      × (extract_origin from ≢ extract_origin to
          → IsSensitive name
          → lookup name (strip_cross_origin_headers headers from to) ≡ none)
      × (extract_origin from ≢ extract_origin to
          → ¬ IsSensitive name
          → lookup name (strip_cross_origin_headers headers from to) ≡ lookup name headers)
unfolding strip_cross_origin_headers
strip_cross_origin_headers_lem headers from to name =
    let same = text_eq_iff (extract_origin from) (extract_origin to) in
    (
      λ e. rw (same.1 e),
      λ e h. elim (Bool-cases (text_eq (extract_origin from) (extract_origin to))) [
        | inl t ↦ absurd (e (same.0 t))
        | inr t ↦ rw t (lookup-erase_all-mem sensitive_headers name headers h)
      ],
      λ e h. elim (Bool-cases (text_eq (extract_origin from) (extract_origin to))) [
        | inl t ↦ absurd (e (same.0 t))
        | inr t ↦ rw t (lookup-erase_all-other sensitive_headers name headers h)
      ],
    )
