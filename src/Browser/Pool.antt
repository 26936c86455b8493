-- ===== src/Browser/Pool.antt =====
-- browser/browser_pool.cpp and browser_pool.hpp: which browsers are lent out. A pointer to an instance
-- is its identifier. What starting a process and connecting to it gives is an argument, as is the clock;
-- the lock is held through every operation, so each is taken whole.
pub mod Reuse
pub mod Lending
pub mod Bounded
pub mod Within
use mylobsterpp.Prelude.{
  ℕ, suc, ◌+◌, Bool, true, false, not, ◌==◌, leb, Option, none, some, List, [], ◌∷◌, ◌++◌,
  if◌then◌else◌, length, keep, Text, codes, text_eq, Result, VoidResult, ok, err, undefined, fail,
  fail_with, browser_error, not_found,
}

pub record BrowserInstance : Type 0 where
  pub id : Text
  pub in_use : Bool
  pub last_used : ℕ

pub record BrowserPool : Type 0 where
  pub pool_size : ℕ
  pub instances : List BrowserInstance
  pub next_debug_port : ℕ

-- What `launch_browser` meets: no Chrome, or the port that it takes and what comes of it.
pub data Launch : Type 0 where
  no_chrome : Launch
  started : Result Text → Launch

unfoldable pub lend : (now : ℕ) → BrowserInstance → BrowserInstance
lend now b = record b { in_use = true; last_used = now }

-- The first idle instance, lent.
unfoldable pub reuse : (now : ℕ) → List BrowserInstance → Option (List BrowserInstance × Text)
unfolding lend
reuse now [] = none
reuse now (b ∷ rest) =
    let later = reuse now rest in
    if b.in_use
    then elim later [ none ↦ none | some r ↦ some (b ∷ r.0, r.1) ]
    else some (lend now b ∷ rest, b.id)

unfoldable pub launch_browser : BrowserPool → Launch → BrowserPool × Result Text
launch_browser p no_chrome = (p, fail browser_error "Chrome/Chromium not found")
launch_browser p (started result) = (record p { next_debug_port = p.next_debug_port + 1 }, result)

abbrev pub new_instance : (now : ℕ) → (id : Text) → BrowserInstance
new_instance now id = record { id = id; in_use = true; last_used = now }

-- The instance joins the pool once it is connected.
unfoldable pub adopted :
    BrowserPool → (now : ℕ) → Result Text → (connected : VoidResult) → BrowserPool × Result Text
adopted p now (err e) connected = (p, err e)
adopted p now undefined connected = (p, undefined)
adopted p now (ok id) (err e) = (p, err e)
adopted p now (ok id) undefined = (p, undefined)
adopted p now (ok id) (ok _) =
    (record p { instances = p.instances ++ new_instance now id ∷ [] }, ok id)

-- Without an idle instance: the capacity, the launch, the connection.
unfoldable pub grow :
    BrowserPool → (now : ℕ) → Launch → (connected : VoidResult) → BrowserPool × Result Text
unfolding launch_browser adopted
grow p now launch connected =
    if leb p.pool_size (length p.instances)
    then (p, fail browser_error "Browser pool exhausted")
    else let (q, id) = launch_browser p launch in adopted q now id connected

unfoldable pub acquire :
    BrowserPool → (now : ℕ) → Launch → (connected : VoidResult) → BrowserPool × Result Text
unfolding reuse grow
acquire p now launch connected = elim (reuse now p.instances) [
  | some r ↦ (record p { instances = r.0 }, ok r.1)
  | none ↦ grow p now launch connected
]

unfoldable pub given_back : (id : Text) → (now : ℕ) → List BrowserInstance → List BrowserInstance
given_back id now [] = []
given_back id now (b ∷ rest) =
    if text_eq b.id id
    then record b { in_use = false; last_used = now } ∷ rest
    else b ∷ given_back id now rest

unfoldable pub release : BrowserPool → (id : Text) → (now : ℕ) → BrowserPool
unfolding given_back
release p id now = record p { instances = given_back id now p.instances }

-- The first instance with the identifier, taken out.
unfoldable pub taken_out : (id : Text) → List BrowserInstance → Option (List BrowserInstance)
taken_out id [] = none
taken_out id (b ∷ rest) =
    let later = taken_out id rest in
    if text_eq b.id id then some rest else elim later [ none ↦ none | some left ↦ some (b ∷ left) ]

unfoldable pub close : BrowserPool → (id : Text) → BrowserPool × VoidResult
unfolding taken_out
close p id = elim (taken_out id p.instances) [
  | none ↦ (p, fail_with not_found (codes "Browser instance not found") id)
  | some left ↦ (record p { instances = left }, ok tt)
]

unfoldable pub close_all : BrowserPool → BrowserPool
close_all p = record p { instances = [] }

unfoldable pub active_count : BrowserPool → ℕ
unfolding keep
active_count p = length (keep (λ (b : BrowserInstance). b.in_use) p.instances)

unfoldable pub total_count : BrowserPool → ℕ
total_count p = length p.instances

unfoldable pub max_size : BrowserPool → ℕ
max_size p = p.pool_size
