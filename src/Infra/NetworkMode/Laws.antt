-- ===== src/Infra/NetworkMode/Laws.antt =====
-- Which modes pass.
use mylobsterpp.Prelude.{
  ◌≡◌, ◌≢◌, ◌↔◌, ◌⊎◌, refl, inl, inr, Bool, true, false, if◌then◌else◌, Option, none, some, Text,
  codes, text_eq, text_eq_iff, starts_with,
}
use mylobsterpp.Infra.NetworkMode.{
  NetworkModeBlockReason, host, container_namespace_join, normalize_network_mode,
  get_blocked_network_mode_reason, validate_sandbox_network_mode, is_dangerous_network_mode,
}

-- In normal form (without blanks around it, in lower case) the mode is not `host`, and it joins no
-- container unless that is explicitly allowed.
abbrev pub Passes : Text → Bool → Type 0
Passes mode break_glass =
    (normalize_network_mode mode ≢ codes "host")
    × ((starts_with (normalize_network_mode mode) (codes "container:") ≡ false)
        ⊎ (break_glass ≡ true))

-- The reason by the two tests, and what becomes of it.
abbrev reason : (is_host joins : Bool) → Option NetworkModeBlockReason
reason is_host joins =
    if is_host then some host else if joins then some container_namespace_join else none

abbrev valid : Bool → Option NetworkModeBlockReason → Bool
valid break_glass o = elim o [
  | none ↦ true
  | some host ↦ false
  | some container_namespace_join ↦ break_glass
]

abbrev dangerous : Option NetworkModeBlockReason → Bool
dangerous o = elim o [ none ↦ false | some _ ↦ true ]

apart : false ≡ true → ⊥
apart e = cc

by_tests :
    (break_glass : Bool) (n : Text) (is_host joins : Bool)
    → (is_host ≡ true) ↔ (n ≡ codes "host")
    → ((valid break_glass (reason is_host joins) ≡ true)
        ↔ ((n ≢ codes "host") × ((joins ≡ false) ⊎ (break_glass ≡ true))))
      × ((dangerous (reason is_host joins) ≡ true) ↔ (valid false (reason is_host joins) ≡ false))
by_tests break_glass n true joins h =
    ((λ e. cc, λ k. absurd (k.0 (h.0 refl))), (λ e. refl, λ e. refl))
by_tests break_glass n false true h = (
  (λ e. (λ m. absurd (apart (h.1 m)), inr e), λ k. elim k.1 [ inl e ↦ cc | inr e ↦ e ]),
  (λ e. refl, λ e. refl),
)
by_tests break_glass n false false h =
    ((λ e. (λ m. absurd (apart (h.1 m)), inl refl), λ k. refl), (λ e. cc, λ e. cc))

-- A mode is valid exactly if, without blanks around it and in lower case, it is not `host`, and does not
-- begin with `container:` unless that is explicitly allowed. It is dangerous exactly if it is not valid
-- without that permission.
pub validate_sandbox_network_mode_iff :
    (mode : Text) (break_glass : Bool)
    → ((validate_sandbox_network_mode mode break_glass ≡ true) ↔ Passes mode break_glass)
      × ((is_dangerous_network_mode mode ≡ true)
          ↔ (validate_sandbox_network_mode mode false ≡ false))
unfolding validate_sandbox_network_mode is_dangerous_network_mode get_blocked_network_mode_reason
validate_sandbox_network_mode_iff mode break_glass =
    by_tests break_glass (normalize_network_mode mode)
      (text_eq (normalize_network_mode mode) (codes "host"))
      (starts_with (normalize_network_mode mode) (codes "container:"))
      (text_eq_iff (normalize_network_mode mode) (codes "host"))
