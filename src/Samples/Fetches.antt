-- ===== src/Samples/Fetches.antt =====
-- Samples for the fetch guard: a server that answers every URL, behind one public address.
use mylobsterpp.Prelude.{◌+◌, false, some, [], ◌∷◌, arith, Text, codes, ok}
use mylobsterpp.Infra.Url.Laws.{IsPlain}
use mylobsterpp.Infra.FetchGuard.{v4, AddressLib, World, safe_fetch}
use mylobsterpp.Infra.FetchGuard.Redirects.{IsSafeFetch, safe_fetch-IsSafeFetch}

abbrev one_address : AddressLib
one_address = record {
  make_address = λ _. some (v4 93 184 216 34);
  is_loopback = λ _. false;
  is_link_local = λ _. false;
  is_v4_mapped = λ _. false;
  is_unspecified = λ _. false;
}

abbrev one_server : World
one_server = record {
  lib = one_address;
  allow_private = false;
  resolve = λ _ _. some (codes "93.184.216.34" ∷ []);
  get = λ _ _. ok (record { status = 200; headers = []; body = codes "hello" });
}

abbrev url : Text
url = codes "http://host/"

safe_fetch-IsSafeFetch_example : IsSafeFetch one_server (3 + 1) 0 [] (safe_fetch one_server url 3)
safe_fetch-IsSafeFetch_example = safe_fetch-IsSafeFetch one_server url 3

user-IsPlain : IsPlain (codes "example.com")
user-IsPlain = omega arith
