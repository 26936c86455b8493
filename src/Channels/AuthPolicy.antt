-- ===== src/Channels/AuthPolicy.antt =====
-- channels/auth_policy.hpp: who may send a direct message, and which groups may.
use mylobsterpp.Prelude.{
  ◌≡◌, ◌≢◌, refl, ◌↔◌, ◌⊎◌, inl, inr, Bool, true, false, not, ◌&&◌, List, [], ◌∷◌, arith,
  Bool-cases, if◌then◌else◌, Has, Text, codes, text_eq, text_eq_iff, starts_with, has_text,
  has_text_iff,
}

pub record ChannelAuthPolicy : Type 0 where
  pub dm_policy : Text
  pub dm_allowlist : List Text
  pub group_allowlist : List Text

unfoldable pub is_dm_authorized : ChannelAuthPolicy → (sender_id : Text) → Bool
is_dm_authorized p sender_id =
    if text_eq p.dm_policy (codes "open")
    then true
    else if text_eq p.dm_policy (codes "allowlist")
    then has_text sender_id p.dm_allowlist
    else false

unfoldable pub listed_or_all : (groups : List Text) → (group_id : Text) → Bool
listed_or_all [] group_id = true
listed_or_all (g ∷ groups) group_id = has_text group_id (g ∷ groups)

unfoldable pub is_group_authorized : ChannelAuthPolicy → (group_id : Text) → Bool
unfolding listed_or_all
is_group_authorized p group_id = listed_or_all p.group_allowlist group_id

abbrev is_empty : Text → Bool
is_empty [] = true
is_empty (_ ∷ _) = false

unfoldable pub authorize_event : ChannelAuthPolicy → (sender_id chat_id : Text) → Bool
unfolding is_dm_authorized is_group_authorized
authorize_event p sender_id chat_id =
    let group = starts_with chat_id (codes "-") in
    if (not (is_empty chat_id) && not group) && not (is_dm_authorized p sender_id)
    then false
    else if (not (is_empty chat_id) && group) && not (is_group_authorized p chat_id)
    then false
    else true

-- The promise of the policy, for each kind of chat.
abbrev pub MayDirect : ChannelAuthPolicy → (sender_id : Text) → Type 0
MayDirect p sender_id =
    (p.dm_policy ≡ codes "open")
    ⊎ ((p.dm_policy ≡ codes "allowlist") × Has (λ x. x ≡ sender_id) p.dm_allowlist)

abbrev pub MayGroup : ChannelAuthPolicy → (group_id : Text) → Type 0
MayGroup p group_id = (p.group_allowlist ≡ []) ⊎ Has (λ x. x ≡ group_id) p.group_allowlist

is_dm_authorized_iff :
    (p : ChannelAuthPolicy) (sender_id : Text)
    → (is_dm_authorized p sender_id ≡ true) ↔ MayDirect p sender_id
unfolding is_dm_authorized
is_dm_authorized_iff p sender_id = elim (Bool-cases (text_eq p.dm_policy (codes "open"))) [
  | inl e ↦ rw e (λ _. inl ((text_eq_iff p.dm_policy (codes "open")).0 e), λ _. refl)
  | inr e ↦ rw e (elim (Bool-cases (text_eq p.dm_policy (codes "allowlist"))) [
    | inl f ↦
        let listed = has_text_iff sender_id p.dm_allowlist in
        rw f (
          λ h. inr ((text_eq_iff p.dm_policy (codes "allowlist")).0 f, listed.0 h),
          λ m. elim m [
            | inl opened ↦ absurd (ground (arith, text_eq_iff p.dm_policy (codes "open")))
            | inr m ↦ listed.1 m.1
          ],
        )
    | inr f ↦ rw f (
      λ h. cc,
      λ m. elim m [
        | inl opened ↦ absurd (ground (arith, text_eq_iff p.dm_policy (codes "open")))
        | inr m ↦ absurd (ground (arith, text_eq_iff p.dm_policy (codes "allowlist")))
      ],
    )
  ])
]

listed_or_all_iff :
    (groups : List Text) (group_id : Text)
    → (listed_or_all groups group_id ≡ true) ↔ ((groups ≡ []) ⊎ Has (λ x. x ≡ group_id) groups)
unfolding listed_or_all
listed_or_all_iff [] group_id = (λ _. inl refl, λ _. refl)
listed_or_all_iff (g ∷ groups) group_id =
    let listed = has_text_iff group_id (g ∷ groups) in
    (λ e. inr (listed.0 e), λ m. elim m [ inl nothing ↦ absurd (cc) | inr n ↦ listed.1 n ])

-- An event is authorized exactly if its chat has no identifier, or the chat is a group (`-…`) that may
-- send, or it is a direct chat whose sender may.
pub authorize_event_iff :
    (p : ChannelAuthPolicy) (sender_id chat_id : Text)
    → (authorize_event p sender_id chat_id ≡ true) ↔ (
        (chat_id ≡ [])
        ⊎ (((starts_with chat_id (codes "-") ≡ true) × MayGroup p chat_id)
            ⊎ ((chat_id ≢ []) × (starts_with chat_id (codes "-") ≡ false) × MayDirect p sender_id)))
unfolding authorize_event is_group_authorized
authorize_event_iff p sender_id [] = (λ _. inl refl, λ _. refl)
authorize_event_iff p sender_id (c ∷ chat_id) =
    elim (Bool-cases (starts_with (c ∷ chat_id) (codes "-"))) [
      | inl group ↦
          let listed = listed_or_all_iff p.group_allowlist (c ∷ chat_id) in
          rw group (elim (Bool-cases (listed_or_all p.group_allowlist (c ∷ chat_id))) [
            | inl ok ↦ rw ok (λ _. inr (inl (refl, listed.0 ok)), λ _. refl)
            | inr bad ↦ rw bad (
              λ e. cc,
              λ m. elim m [
                | inl nothing ↦ cc
                | inr (inl (_, may)) ↦ let e = listed.1 may in cc
                | inr (inr (_, e, _)) ↦ cc
              ],
            )
          ])
      | inr direct ↦
          let may_send = is_dm_authorized_iff p sender_id in
          rw direct (elim (Bool-cases (is_dm_authorized p sender_id)) [
            | inl ok ↦ rw ok (λ _. inr (inr (λ e. cc, refl, may_send.0 ok)), λ _. refl)
            | inr bad ↦ rw bad (
              λ e. cc,
              λ m. elim m [
                | inl nothing ↦ cc
                | inr (inl (e, _)) ↦ cc
                | inr (inr (_, _, may)) ↦ let e = may_send.1 may in cc
              ],
            )
          ])
    ]
