-- ===== src/Infra/FetchGuard/Redirects.antt =====
-- What is known of the URLs that a fetch requests, and of its answer.
use mylobsterpp.Prelude.{
  ℕ, zero, suc, ◌+◌, ◌≤◌, ◌≡◌, ◌≢◌, refl, sym, ◌∙◌, inl, inr, false, none, some, List, [], ◌∷◌,
  arith, Bool-cases, Option-cases, length, All, sort_by, All-sort_by_inv, Text, text_eq_iff, Result,
  VoidResult, ok, err, undefined,
}
use mylobsterpp.Infra.Url.{extract_hostname}
use mylobsterpp.Infra.FetchGuard.{
  World, AddressLib, any_private, is_private_ip, address_lt, Response, Fetch, validate_url,
  redirect_target, contains, follow, logged, fetch_loop, safe_fetch,
}

contains-All :
    (url : Text) (visited : List Text) → contains url visited ≡ false → All (λ u. url ≢ u) visited
unfolding contains
contains-All url [] h = tt
contains-All url (u ∷ visited) h = ground (arith, text_eq_iff url u, contains-All url visited)

-- What one round comes to.
data Round (w : World) (left round : ℕ) (url : Text) (visited : List Text) : Fetch → Type 0 where
  refused :
      (r : Result Response)
      → ((resp : Response) → r ≢ ok resp)
      → Round w left round url visited (r, [])
  answered :
      (r : Result Response)
      → validate_url w round url ≡ ok tt
      → All (λ u. url ≢ u) visited
      → w.get round url ≡ r
      → ((resp : Response) → r ≡ ok resp → redirect_target resp ≡ none)
      → Round w left round url visited (r, url ∷ [])
  followed :
      (resp : Response) (next : Text)
      → validate_url w round url ≡ ok tt
      → All (λ u. url ≢ u) visited
      → w.get round url ≡ ok resp
      → redirect_target resp ≡ some next
      → Round w left round url visited
          (logged url (fetch_loop w left (round + 1) next (url ∷ visited)))

follow-Round :
    (w : World) (left round : ℕ) (url : Text) (visited : List Text) (r : Result Response)
    → validate_url w round url ≡ ok tt
    → All (λ u. url ≢ u) visited
    → w.get round url ≡ r
    → Round w left round url visited
        (logged url (follow r (λ next. fetch_loop w left (round + 1) next (url ∷ visited))))
unfolding follow
follow-Round w left round url visited (err e) v fresh g = answered (err e) v fresh g (λ resp. cc)
follow-Round w left round url visited undefined v fresh g =
    answered undefined v fresh g (λ resp. cc)
follow-Round w left round url visited (ok resp) v fresh g =
    elim (Option-cases (redirect_target resp)) [
      | inl final ↦ rw (final, follow) (answered (ok resp) v fresh g (λ other same. cc))
      | inr (next, to) ↦ rw (to, follow) (followed resp next v fresh g to)
    ]

fetch_loop-Round :
    (w : World) (left round : ℕ) (url : Text) (visited : List Text)
    → Round w left round url visited (fetch_loop w (suc left) round url visited)
unfolding fetch_loop
fetch_loop-Round w left round url visited = go (validate_url w round url) refl
  where
    go :
        (v : VoidResult)
        → validate_url w round url ≡ v
        → Round w left round url visited (fetch_loop w (suc left) round url visited)
    go (err e) h = rw (h, fetch_loop) (refused (err e) (λ resp. cc))
    go undefined h = rw (h, fetch_loop) (refused undefined (λ resp. cc))
    go (ok _) h =
        rw (h, fetch_loop)
          (elim (Bool-cases (contains url visited)) [
            | inl seen ↦ rw (seen, fetch_loop) (refused _ (λ resp. cc))
            | inr fresh ↦
                rw (fresh, fetch_loop)
                  (follow-Round w left round url visited (w.get round url) h
                    (contains-All url visited fresh) refl)
          ])

-- The URLs were validated, each in its own round.
abbrev pub AreValidated : World → (round : ℕ) → List Text → Type 0
AreValidated w round [] = Unit
AreValidated w round (url ∷ urls) =
    (validate_url w round url ≡ ok tt) × AreValidated w (round + 1) urls

abbrev pub AreDistinct : List Text → Type 0
AreDistinct [] = Unit
AreDistinct (url ∷ urls) = All (λ u. url ≢ u) urls × AreDistinct urls

-- The response is the answer to the last request, and is no redirect to follow.
abbrev pub IsAnswer : World → (round : ℕ) → Response → List Text → Type 0
IsAnswer w round resp [] = ⊥
IsAnswer w round resp (url ∷ []) = (w.get round url ≡ ok resp) × (redirect_target resp ≡ none)
IsAnswer w round resp (url ∷ u ∷ urls) = IsAnswer w (round + 1) resp (u ∷ urls)

-- All that is claimed of a fetch.
pub record IsSafeFetch (w : World) (left round : ℕ) (visited : List Text) (f : Fetch) : Type 0 where
  pub validated : AreValidated w round f.1
  pub distinct : AreDistinct f.1
  pub fresh : All (λ url. All (λ u. url ≢ u) visited) f.1
  pub bounded : length f.1 ≤ left
  pub answer : (resp : Response) → f.0 ≡ ok resp → IsAnswer w round resp f.1

fresh-tail :
    (url : Text) (visited urls : List Text)
    → All (λ v. All (λ u. v ≢ u) (url ∷ visited)) urls
    → All (λ v. All (λ u. v ≢ u) visited) urls × All (λ v. url ≢ v) urls
fresh-tail url visited [] h = (tt, tt)
fresh-tail url visited (v ∷ urls) h =
    let (far, apart) = fresh-tail url visited urls h.1 in
    ((h.0.1, far), (λ e. h.0.0 (sym e), apart))

IsAnswer-cons :
    (w : World) (round : ℕ) (resp : Response) (url : Text) (urls : List Text)
    → IsAnswer w (round + 1) resp urls
    → IsAnswer w round resp (url ∷ urls)
IsAnswer-cons w round resp url [] h = absurd h
IsAnswer-cons w round resp url (u ∷ urls) h = h

Round-IsSafeFetch :
    (w : World) (left round : ℕ) (url : Text) (visited : List Text) (f : Fetch)
    → Round w left round url visited f
    → ((next : Text)
        → IsSafeFetch w left
            (round + 1)
            (url ∷ visited)
            (fetch_loop w left (round + 1) next (url ∷ visited)))
    → IsSafeFetch w (suc left) round visited f
Round-IsSafeFetch w left round url visited f (refused r bad) ih = record {
  validated = tt;
  distinct = tt;
  fresh = tt;
  bounded = omega arith;
  answer = λ resp e. absurd (bad resp e);
}
Round-IsSafeFetch w left round url visited f (answered r v apart g final) ih = record {
  validated = (v, tt);
  distinct = (tt, tt);
  fresh = (apart, tt);
  bounded = omega arith;
  answer = λ resp e. (g ∙ e, final resp e);
}
Round-IsSafeFetch w left round url visited f (followed resp next v apart g to) ih =
    let later = ih next in
    let rest = fetch_loop w left (round + 1) next (url ∷ visited) in
    let (far, here) = fresh-tail url visited rest.1 later.fresh in
    record {
      validated = (v, later.validated);
      distinct = (here, later.distinct);
      fresh = (apart, far);
      bounded = omega (arith, later.bounded);
      answer = λ r e. IsAnswer-cons w round r url rest.1 (later.answer r e);
    }

fetch_loop-IsSafeFetch :
    (w : World) (left round : ℕ) (url : Text) (visited : List Text)
    → IsSafeFetch w left round visited (fetch_loop w left round url visited)
unfolding fetch_loop
fetch_loop-IsSafeFetch w zero round url visited = record {
  validated = tt;
  distinct = tt;
  fresh = tt;
  bounded = omega arith;
  answer = λ resp e. cc;
}
fetch_loop-IsSafeFetch w (suc left) round url visited =
    Round-IsSafeFetch w left round url visited _ (fetch_loop-Round w left round url visited)
      (λ next. fetch_loop-IsSafeFetch w left (round + 1) next (url ∷ visited))

-- A fetch requests only URLs that were validated in the same round, none of them twice and at most
-- `max_redirects + 1` of them; a response that it returns is the client's answer to the last one and
-- is no redirect with a location.
pub safe_fetch-IsSafeFetch :
    (w : World) (url : Text) (max_redirects : ℕ)
    → IsSafeFetch w (max_redirects + 1) 0 [] (safe_fetch w url max_redirects)
unfolding safe_fetch
safe_fetch-IsSafeFetch w url max_redirects = fetch_loop-IsSafeFetch w (max_redirects + 1) 0 url []

any_private-All :
    (lib : AddressLib) (ips : List Text)
    → any_private lib ips ≡ false
    → All (λ ip. is_private_ip lib ip ≡ false) ips
unfolding any_private
any_private-All lib [] h = tt
any_private-All lib (ip ∷ ips) h = ground (arith, any_private-All lib ips)

-- A URL that is validated while private addresses are refused has a host, its host resolves, and none
-- of the resolved addresses is private.
pub validate_url-All :
    (w : World) (round : ℕ) (url : Text)
    → w.allow_private ≡ false
    → validate_url w round url ≡ ok tt
    → (extract_hostname url ≢ [])
      × ((ips : List Text) × (w.resolve round (extract_hostname url) ≡ some ips)
          × All (λ ip. is_private_ip w.lib ip ≡ false) ips)
unfolding validate_url
validate_url-All w round url strict h = (
  ground arith,
  elim (Option-cases (w.resolve round (extract_hostname url))) [
    | inl gone ↦ ground arith
    | inr (ips, found) ↦ (
      ips,
      found,
      All-sort_by_inv address_lt (λ ip. is_private_ip w.lib ip ≡ false) ips
          (any_private-All w.lib (sort_by address_lt ips) (ground arith)),
    )
  ],
)
