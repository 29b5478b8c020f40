-- ===== src/Ban/Tests.antt =====
-- src/db/repositories/community_actor_bans.py and src/user_bans.py: one account, banned in community 7.
use discord_fediverse_bridge.Base.{
  ◌≡◌, ◌↔◌, refl, sym, ap, ◌∙◌, true, none, some, List, [], ◌∷◌, In, inl, inr, nat_eq, string_eq,
  ok, transaction, find,
}
use discord_fediverse_bridge.Ban.{
  community, community_key, BanStatus, active, inactive, scope_eq, scope_key_eq, ban_status_eq, Ban,
  BanRequest, Activation, is_ban_of, deactivated, get_active_ban_by_handle,
  create_or_reactivate_active_ban, deactivate_active_ban_by_handle,
}
use discord_fediverse_bridge.Ban.Single.{IsSingle, create_bans}
use discord_fediverse_bridge.Ban.Lift.{deactivate_lifts}
use discord_fediverse_bridge.Ban.History.{BanStep, here, next, BanReach-IsSingle}
use discord_fediverse_bridge.Ban.Decisions.{Community, check_discord_user}
use discord_fediverse_bridge.Ban.Decisions.Reasons.{Against, check_discord_user-Against}

abbrev ann : BanStatus → Ban
ann st = record {
  id = 1;
  scope = community;
  scope_key = community_key 7;
  local_community_id = some 7;
  actor_handle = "ann@bridge.example";
  actor_url = none;
  target_discord_user_id = some "42";
  status = st;
  created_by_discord_user_id = some "1";
  reason = some "spam";
  created_at = 10;
  updated_at = 10;
}

abbrev request : BanRequest
request = record {
  community_id = some 7;
  handle = "ann@bridge.example";
  url = none;
  discord_user_id = some "42";
  moderator = "1";
  reason = none;
}

one-IsSingle : (st : BanStatus) → IsSingle (ann st ∷ [])
one-IsSingle st = record {
  keys = (tt, tt);
  single = λ b c hb hc l. elim hb [
    | inl x ↦ elim hc [ inl y ↦ ap (λ (z : Ban). z.id) (x ∙ sym y) | inr y ↦ absurd y ]
    | inr x ↦ absurd x
  ];
}

unbanned : get_active_ban_by_handle (some 7) "ann@bridge.example" (ann inactive ∷ []) ≡ none
unfolding get_active_ban_by_handle find scope_eq scope_key_eq string_eq ban_status_eq nat_eq
unbanned = refl

banned :
    get_active_ban_by_handle (some 7) "ann@bridge.example" (ann active ∷ []) ≡ some (ann active)
unfolding get_active_ban_by_handle find scope_eq scope_key_eq string_eq ban_status_eq nat_eq
banned = refl

create_bans_example :
    (a : Activation) × (after : List Ban) × (create_or_reactivate_active_ban 20 request
        (ann inactive ∷ [])
      ≡ ok (a, after))
    × In a.ban after
    × (is_ban_of (some 7) "ann@bridge.example" active a.ban ≡ true)
    × IsSingle after
create_bans_example = create_bans 20 request (ann inactive ∷ []) (one-IsSingle inactive) unbanned

deactivate_lifts_example :
    (after : List Ban) × (deactivate_active_ban_by_handle 20
        (some 7)
        "ann@bridge.example"
        (ann active ∷ [])
      ≡ ok (some (deactivated 20 (ann active)), after))
    × (get_active_ban_by_handle (some 7) "ann@bridge.example" after ≡ none)
    × IsSingle after
deactivate_lifts_example =
    deactivate_lifts 20 (ann active ∷ []) (one-IsSingle active) (some 7) "ann@bridge.example"
      (ann active) banned

BanReach-IsSingle_example :
    IsSingle
      (transaction
        (ann active ∷ [])
        (create_or_reactivate_active_ban 20 request (ann active ∷ []))).1
BanReach-IsSingle_example =
    BanReach-IsSingle (ann active ∷ [])
      (transaction (ann active ∷ [])
        (create_or_reactivate_active_ban 20 request (ann active ∷ []))).1
      (one-IsSingle active) (next here (BanStep.bans_user 20 request))

abbrev cats : Community
cats = record { id = 7; slug = "cats" }

check_discord_user-Against_example :
    ((check_discord_user none "42" (some cats) (ann active ∷ [])).banned ≡ true)
    ↔ ((b : Ban) × In b (ann active ∷ []) × Against "42" cats b)
check_discord_user-Against_example = check_discord_user-Against none "42" cats (ann active ∷ [])
