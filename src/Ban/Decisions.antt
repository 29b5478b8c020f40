-- ===== src/Ban/Decisions.antt =====
-- src/user_bans.py: which ban decides, the global one first.
pub mod Reasons
use discord_fediverse_bridge.Base.{
  ℕ, String, ◌<>◌, Bool, true, false, Option, none, some, List, ◌==◌, string_eq, if◌then◌else◌,
}
use discord_fediverse_bridge.Ban.{
  Scope, global, community, Ban, get_active_global_ban_by_discord_user_id,
  get_active_community_ban_by_discord_user_id, find_active_ban_for_actor,
}

-- `BanDecision`
pub record BanDecision : Type 0 where
  pub banned : Bool
  pub scope : Option Scope
  pub reason : Option String
  pub community_handle : Option String
  pub ban : Option Ban

-- the columns of `LocalCommunity` that a decision reads
pub record Community : Type 0 where
  pub id : ℕ
  pub slug : String

abbrev pub not_banned : BanDecision
not_banned = record {
  banned = false;
  scope = none;
  reason = none;
  community_handle = none;
  ban = none;
}

-- `authority` is the host of the settings, if there are settings: `public_authority`
abbrev handle_in : Option String → Option Community → Scope → Option String
handle_in (some authority) (some c) community = some (c.slug <> "@" <> authority)
handle_in _ _ _ = none

-- `_decision`
unfoldable pub decision : Option String → Option Ban → Option Community → BanDecision
decision authority none c = not_banned
decision authority (some b) c = record {
  banned = true;
  scope = some b.scope;
  reason = b.reason;
  community_handle = handle_in authority c b.scope;
  ban = some b;
}

unfoldable pub check_global_discord_user : Option String → String → List Ban → BanDecision
check_global_discord_user authority user bans =
    decision authority (get_active_global_ban_by_discord_user_id user bans) none

unfoldable pub check_discord_user :
    Option String → String → Option Community → List Ban → BanDecision
check_discord_user authority user c bans =
    let first = check_global_discord_user authority user bans in
    elim c [
      | none ↦ first
      | some local ↦
          if first.banned
          then first
          else decision authority (get_active_community_ban_by_discord_user_id local.id user bans)
              (some local)
    ]

unfoldable pub check_global_activitypub_actor :
    Option String → String → Option String → List Ban → BanDecision
check_global_activitypub_actor authority url handle bans =
    decision authority (find_active_ban_for_actor none url handle bans) none

unfoldable pub check_local_community_activitypub_actor :
    Option String → ℕ → String → Option String → List Ban → BanDecision
check_local_community_activitypub_actor authority k url handle bans =
    decision authority (find_active_ban_for_actor (some k) url handle bans) none

unfoldable pub check_activitypub_actor :
    Option String → ℕ → String → Option String → List Ban → BanDecision
check_activitypub_actor authority k url handle bans =
    let first = check_global_activitypub_actor authority url handle bans in
    if first.banned
    then first
    else check_local_community_activitypub_actor authority k url handle bans

-- `reason_text` and `render_ban_message`; an f-string writes `None` for a missing handle
abbrev text_of : Option String → String
text_of none = "None"
text_of (some text) = text

abbrev pub reason_text : BanDecision → String
reason_text d = elim d.reason [
  | none ↦ "No reason provided."
  | some r ↦ if r == "" then "No reason provided." else r
]

abbrev heading : Option Scope → Option String → String
heading (some community) handle = "You were banned from community " <> text_of handle <> "."
heading _ handle = "You were banned from this bridge instance."

unfoldable pub render_ban_message : BanDecision → String
render_ban_message d = heading d.scope d.community_handle <> "\nReason: " <> reason_text d
