-- ===== src/Prelude/Documents.antt =====
-- JSON values as `nlohmann::json` holds them. A number is an integer here; the members of an object
-- are kept in the order of their insertion, which nothing modelled depends on.
use mathlib.Core.Path.{◌≡◌, refl}
use mathlib.Core.Bool.{Bool}
use mathlib.Core.Option.{Option, none, some}
use native.Mathlib.Omega.{arith}
use mylobsterpp.Prelude.Tests.{if◌then◌else◌}
use mylobsterpp.Prelude.Bytes.{Text, text_eq, text_eq_iff}
use mylobsterpp.Prelude.Int.{ℤ}

mutual
  pub data Json : Type 0 where
    null : Json
    boolean : Bool → Json
    number : ℤ → Json
    text : Text → Json
    array : Items → Json
    object : Members → Json

  pub data Items : Type 0 where
    no_items : Items
    item : Json → Items → Items

  pub data Members : Type 0 where
    no_members : Members
    member : Text → Json → Members → Members

-- `j.find(key)` in an object's members.
unfoldable pub find_member : Text → Members → Option Json
find_member key no_members = none
find_member key (member k v ms) = if text_eq k key then some v else find_member key ms

-- `j[key] = value` on an object's members.
unfoldable pub put_member : Text → Json → Members → Members
put_member key value no_members = member key value no_members
put_member key value (member k v ms) =
    if text_eq k key then member key value ms else member k v (put_member key value ms)

-- `j.erase(key)`
unfoldable pub drop_member : Text → Members → Members
drop_member key no_members = no_members
drop_member key (member k v ms) =
    if text_eq k key then drop_member key ms else member k v (drop_member key ms)

pub find_member-put_member :
    (key other : Text) (value : Json) (ms : Members)
    → find_member other (put_member key value ms)
      ≡ (if text_eq key other then some value else find_member other ms)
unfolding find_member put_member
find_member-put_member key other value no_members = refl
find_member-put_member key other value (member k v ms) = ground (
  arith,
  text_eq_iff k key,
  text_eq_iff k other,
  text_eq_iff key other,
  find_member-put_member key other value ms,
)

pub find_member-drop_member :
    (key other : Text) (ms : Members)
    → find_member other (drop_member key ms)
      ≡ (if text_eq key other then none else find_member other ms)
unfolding find_member drop_member
find_member-drop_member key other no_members = ground arith
find_member-drop_member key other (member k v ms) = ground (
  arith,
  text_eq_iff k key,
  text_eq_iff k other,
  text_eq_iff key other,
  find_member-drop_member key other ms,
)
