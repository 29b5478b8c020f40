-- ===== src/Ban/Decisions/Reasons.antt =====
-- src/user_bans.py: who is banned, as the rows say.
use discord_fediverse_bridge.Base.{
  ℕ, ◌≡◌, ◌⊎◌, ◌↔◌, refl, String, Bool, true, false, ◌&&◌, Option, some, List, In, In-find, arith,
  ◌==◌, nat_eq, string_eq, option_eq, inl, inr, find, Option-cases,
}
use discord_fediverse_bridge.Base.Table.{In-find-none}
use discord_fediverse_bridge.Ban.{
  global, community, active, scope_eq, ban_status_eq, Ban, get_active_global_ban_by_discord_user_id,
  get_active_community_ban_by_discord_user_id,
}
use discord_fediverse_bridge.Ban.Decisions.{
  Community, decision, check_global_discord_user, check_discord_user,
}

-- an active row against a Discord account that counts in a community
pub record Against (user : String) (c : Community) (b : Ban) : Type 0 where
  pub target : b.target_discord_user_id ≡ some user
  pub is_active : b.status ≡ active
  pub where_it_counts :
      (b.scope ≡ global) ⊎ ((b.scope ≡ community) × (b.local_community_id ≡ some c.id))

abbrev is_global : String → Ban → Bool
is_global user b = b.scope == global && b.target_discord_user_id == some user && b.status == active

abbrev is_local : String → ℕ → Ban → Bool
is_local user k b =
    b.scope == community
    && b.local_community_id == some k
    && b.target_discord_user_id == some user
    && b.status == active

module _ (authority : Option String) (user : String) (c : Community) (bans : List Ban) where
  -- what the two queries find is against the account
  names :
      (check_discord_user authority user (some c) bans).banned ≡ true
      → (b : Ban) × In b bans × Against user c b
  unfolding check_discord_user check_global_discord_user decision
      get_active_global_ban_by_discord_user_id get_active_community_ban_by_discord_user_id
  names e = elim (Option-cases (find (is_global user) bans)) [
    | inr (b, found) ↦
        let (stored, is) = In-find (is_global user) bans b found in
        (
          b,
          stored,
          record {
            target = ground arith;
            is_active = ground arith;
            where_it_counts = ground arith;
          },
        )
    | inl no_global ↦ elim (Option-cases (find (is_local user c.id) bans)) [
      | inr (b, found) ↦
          let (stored, is) = In-find (is_local user c.id) bans b found in
          (
            b,
            stored,
            record {
              target = ground arith;
              is_active = ground arith;
              where_it_counts = ground arith;
            },
          )
      | inl no_local ↦
          let free : (check_discord_user authority user (some c) bans).banned ≡ false =
            rw (check_discord_user, check_global_discord_user, no_global) rw no_local refl in
          cc
    ]
  ]

  -- and a row against the account is found
  finds :
      (b : Ban)
      → In b bans
      → Against user c b
      → (check_discord_user authority user (some c) bans).banned ≡ true
  unfolding check_discord_user check_global_discord_user decision
      get_active_global_ban_by_discord_user_id get_active_community_ban_by_discord_user_id
  finds b stored a = elim (Option-cases (find (is_global user) bans)) [
    | inr (g, found) ↦ rw (check_discord_user, check_global_discord_user, found) refl
    | inl no_global ↦ elim (Option-cases (find (is_local user c.id) bans)) [
      | inr (l, found) ↦ rw (check_discord_user, check_global_discord_user, no_global) rw found refl
      | inl no_local ↦
          let not_global = In-find-none (is_global user) bans b no_global stored in
          let not_local = In-find-none (is_local user c.id) bans b no_local stored in
          elim a.where_it_counts [
            | inl g ↦ ground (arith, a.target, a.is_active)
            | inr l ↦ ground (arith, a.target, a.is_active)
          ]
    ]
  ]

  -- A Discord account is held to be banned in a community exactly if some active row names it and is
  -- global or of that community.
  pub check_discord_user-Against :
      ((check_discord_user authority user (some c) bans).banned ≡ true)
      ↔ ((b : Ban) × In b bans × Against user c b)
  check_discord_user-Against = (names, λ (b, stored, a). finds b stored a)
