-- ===== src/Gateway/Protocol.antt =====
-- gateway/protocol.cpp and protocol.hpp: the methods by their names, and their dispatch. A handler acts
-- on a world `W` and gives `none` where it throws. `std::unordered_map` keeps no order: here that of
-- insertion.
pub mod Builtins
pub mod Dispatch
use mylobsterpp.Prelude.{
  ℕ, length, Option, none, some, List, [], ◌∷◌, ◌++◌, Bool, true, false, if◌then◌else◌, map, keep,
  Text, codes, text_eq, Map, lookup, assign, Json, Result, ok, fail, fail_with, not_found,
  internal_error,
}
use mylobsterpp.Gateway.Frame.{RequestFrame}

abbrev pub MethodHandler : Type 0 → Type 0
MethodHandler W = W → Json → W × Option Json

pub record MethodInfo : Type 0 where
  pub name : Text
  pub description : Text
  pub group : Text

pub record Entry (W : Type 0) : Type 0 where
  pub handler : MethodHandler W
  pub info : MethodInfo

pub record Protocol (W : Type 0) : Type 0 where
  pub entries : Map (Entry W)

module _ {W : Type 0} where
  unfoldable pub register_method :
      Protocol W → (name : Text) → MethodHandler W → (description group : Text) → Protocol W
  register_method p name handler description group = record {
    entries =
        assign name
          (record {
            handler = handler;
            info = record { name = name; description = description; group = group };
          })
          p.entries;
  }

  unfoldable pub has_method : Protocol W → (name : Text) → Bool
  has_method p name = elim (lookup name p.entries) [ none ↦ false | some _ ↦ true ]

  unfoldable pub methods : Protocol W → List MethodInfo
  methods p = map (λ (e : Text × Entry W). e.1.info) p.entries

  unfoldable pub methods_in_group : Protocol W → (group : Text) → List MethodInfo
  unfolding methods keep
  methods_in_group p group = keep (λ (i : MethodInfo). text_eq i.group group) (methods p)

  abbrev pub finished : W × Option Json → W × Result Json
  finished (w, none) = (w, fail internal_error "Method execution failed")
  finished (w, some result) = (w, ok result)

  unfoldable pub dispatch : Protocol W → W → RequestFrame → W × Result Json
  dispatch p w request = elim (lookup request.method p.entries) [
    | none ↦ (w, fail_with not_found (codes "Method not found: " ++ request.method) [])
    | some entry ↦ finished (entry.handler w request.params)
  ]
