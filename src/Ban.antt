-- ===== src/Ban.antt =====
-- src/db/repositories/community_actor_bans.py: the bans of one community or of the whole bridge, with
-- the row of src/models.py.
pub mod Single
pub mod Lift
pub mod History
pub mod Decisions
pub mod Tests
use discord_fediverse_bridge.Base.{
  ℕ, zero, suc, String, Bool, true, false, ◌&&◌, ◌||◌, Option, none, some, List, [], ◌∷◌, ◌++◌, leb,
  ltb, ◌==◌, ◌!=◌, nat_eq, string_eq, option_eq, Eq, any, find, filter, take, drop, sort_by, length,
  or_else, text_or, is_some, if◌then◌else◌, Result, ok, raised, integrity_error,
}
use discord_fediverse_bridge.Base.Table.{update_where, get, next_id}

pub data Scope : Type 0 where
  global community : Scope

-- the text of a scope key: `global`, or the decimal digits of a community's id
pub data ScopeKey : Type 0 where
  global_key : ScopeKey
  community_key : ℕ → ScopeKey

pub data BanStatus : Type 0 where
  active inactive : BanStatus

Scope-discrete : Discrete Scope
Scope-discrete = hlevel

ScopeKey-discrete : Discrete ScopeKey
ScopeKey-discrete = hlevel (nat_eq.dec)

BanStatus-discrete : Discrete BanStatus
BanStatus-discrete = hlevel

instance unfoldable pub scope_eq : Eq Scope
unfolding Scope-discrete
scope_eq = record { dec = Scope-discrete }

instance unfoldable pub scope_key_eq : Eq ScopeKey
unfolding ScopeKey-discrete
scope_key_eq = record { dec = ScopeKey-discrete }

instance unfoldable pub ban_status_eq : Eq BanStatus
unfolding BanStatus-discrete
ban_status_eq = record { dec = BanStatus-discrete }

-- `CommunityActorBan`
pub record Ban : Type 0 where
  pub id : ℕ
  pub scope : Scope
  pub scope_key : ScopeKey
  pub local_community_id : Option ℕ
  pub actor_handle : String
  pub actor_url : Option String
  pub target_discord_user_id : Option String
  pub status : BanStatus
  pub created_by_discord_user_id : Option String
  pub reason : Option String
  pub created_at : ℕ
  pub updated_at : ℕ

pub data ActivationKind : Type 0 where
  created reactivated : ActivationKind

-- `BanActivationResult`; `before` and `after` are the rows that the audited fields are read from
pub record Activation : Type 0 where
  pub ban : Ban
  pub kind : ActivationKind
  pub before : Option Ban
  pub after : Ban

-- what a command asks for
pub record BanRequest : Type 0 where
  pub community_id : Option ℕ
  pub handle : String
  pub url : Option String
  pub discord_user_id : Option String
  pub moderator : String
  pub reason : Option String

abbrev pub scope_values : Option ℕ → Scope × ScopeKey
scope_values none = (global, global_key)
scope_values (some k) = (community, community_key k)

-- one ban of one account in one scope: the columns of UNIQUE without the status
abbrev pub in_lane : Option ℕ → String → Ban → Bool
in_lane community_id handle b =
    b.scope == (scope_values community_id).0
    && b.scope_key == (scope_values community_id).1
    && b.actor_handle == handle

-- WHERE scope = … AND scope_key = … AND actor_handle = … AND status = …
abbrev pub is_ban_of : Option ℕ → String → BanStatus → Ban → Bool
is_ban_of community_id handle st b = in_lane community_id handle b && b.status == st

unfoldable pub get_active_ban_by_handle : Option ℕ → String → List Ban → Option Ban
get_active_ban_by_handle community_id handle bans = find (is_ban_of community_id handle active) bans

unfoldable pub get_inactive_ban_by_handle : Option ℕ → String → List Ban → Option Ban
get_inactive_ban_by_handle community_id handle bans =
    find (is_ban_of community_id handle inactive) bans

abbrev pub reactivate : ℕ → BanRequest → Ban → Ban
reactivate now r b = record b {
  status = active;
  reason = r.reason;
  created_by_discord_user_id = some r.moderator;
  actor_url = text_or r.url b.actor_url;
  target_discord_user_id = text_or r.discord_user_id b.target_discord_user_id;
  updated_at = now;
}

abbrev pub new_ban : ℕ → ℕ → BanRequest → Ban
new_ban k now r = record {
  id = k;
  scope = (scope_values r.community_id).0;
  scope_key = (scope_values r.community_id).1;
  local_community_id = r.community_id;
  actor_handle = r.handle;
  actor_url = r.url;
  target_discord_user_id = r.discord_user_id;
  status = active;
  created_by_discord_user_id = some r.moderator;
  reason = r.reason;
  created_at = now;
  updated_at = now;
}

-- UPDATE of the one row with the id of `b`, under UNIQUE(scope, scope_key, actor_handle, status)
unfoldable pub flush_update : Ban → List Ban → Result (List Ban)
flush_update b bans =
    if any
      (λ c.
        c.id != b.id
        && c.scope == b.scope
        && c.scope_key == b.scope_key
        && c.actor_handle == b.actor_handle
        && c.status == b.status)
      bans
    then raised integrity_error
    else ok (update_where (λ c. c.id == b.id) (λ c. b) bans)

-- INSERT under the same constraint
unfoldable pub flush_insert : Ban → List Ban → Result (List Ban)
flush_insert b bans =
    if any
      (λ c.
        c.scope == b.scope
        && c.scope_key == b.scope_key
        && c.actor_handle == b.actor_handle
        && c.status == b.status)
      bans
    then raised integrity_error
    else ok (bans ++ b ∷ [])

abbrev pub activated :
    Ban → ActivationKind → Option Ban → Result (List Ban) → Result (Activation × List Ban)
activated b kind before (ok bans) =
    ok (record { ban = b; kind = kind; before = before; after = b }, bans)
activated b kind before (raised e) = raised e

unfoldable pub activate : ℕ → BanRequest → Option Ban → List Ban → Result (Activation × List Ban)
activate now r (some b) bans =
    activated (reactivate now r b) reactivated (some b) (flush_update (reactivate now r b) bans)
activate now r none bans =
    let b = new_ban (next_id (λ (c : Ban). c.id) bans) now r in
    activated b created none (flush_insert b bans)

unfoldable pub create_or_reactivate_active_ban :
    ℕ → BanRequest → List Ban → Result (Activation × List Ban)
create_or_reactivate_active_ban now r bans =
    activate now r (get_inactive_ban_by_handle r.community_id r.handle bans) bans

abbrev pub deactivated : ℕ → Ban → Ban
deactivated now b = record b { status = inactive; updated_at = now }

abbrev pub lifted : Ban → Result (List Ban) → Result (Option Ban × List Ban)
lifted b (ok after) = ok (some b, after)
lifted b (raised e) = raised e

unfoldable pub deactivate : ℕ → Option Ban → List Ban → Result (Option Ban × List Ban)
deactivate now none bans = ok (none, bans)
deactivate now (some b) bans = lifted (deactivated now b) (flush_update (deactivated now b) bans)

unfoldable pub deactivate_active_ban_by_handle :
    ℕ → Option ℕ → String → List Ban → Result (Option Ban × List Ban)
deactivate_active_ban_by_handle now community_id handle bans =
    deactivate now (get_active_ban_by_handle community_id handle bans) bans

unfoldable pub get_active_global_ban_by_discord_user_id : String → List Ban → Option Ban
get_active_global_ban_by_discord_user_id user bans =
    find (λ b. b.scope == global && b.target_discord_user_id == some user && b.status == active)
      bans

unfoldable pub get_active_community_ban_by_discord_user_id : ℕ → String → List Ban → Option Ban
get_active_community_ban_by_discord_user_id k user bans =
    find
      (λ b.
        b.scope == community
        && b.local_community_id == some k
        && b.target_discord_user_id == some user
        && b.status == active)
      bans

-- URL first, then the handle
unfoldable pub find_active_ban_for_actor : Option ℕ → String → Option String → List Ban → Option Ban
find_active_ban_for_actor community_id url handle bans =
    or_else
      (find
        (λ b.
          b.scope == (scope_values community_id).0
          && b.scope_key == (scope_values community_id).1
          && b.actor_url == some url
          && b.status == active)
        bans)
      (elim handle [ none ↦ none | some h ↦ get_active_ban_by_handle community_id h bans ])

abbrev pub is_listed : Scope → Option ℕ → Ban → Bool
is_listed scope community_id b =
    b.scope == scope && b.local_community_id == community_id && b.status == active

-- newest first
abbrev newest_leb : Ban → Ban → Bool
newest_leb a b =
    if a.created_at == b.created_at then leb b.id a.id else ltb b.created_at a.created_at

-- `_list`
unfoldable pub list_active : Scope → Option ℕ → Option ℕ → ℕ → List Ban → List Ban
list_active scope community_id limit offset bans =
    let rows = drop offset (sort_by newest_leb (filter (is_listed scope community_id) bans)) in
    elim limit [ none ↦ rows | some n ↦ take n rows ]

unfoldable pub count_active : Scope → Option ℕ → List Ban → ℕ
count_active scope community_id bans = length (filter (is_listed scope community_id) bans)

-- `if ban is None or ban.actor_url: return`
abbrev pub learn_url : ℕ → String → Ban → Ban
learn_url now url b =
    if text_or b.actor_url none == none
    then record b { actor_url = some url; updated_at = now }
    else b

unfoldable pub fill_actor_url_if_missing : ℕ → ℕ → String → List Ban → List Ban
fill_actor_url_if_missing now ban_id url bans =
    update_where (λ b. b.id == ban_id) (learn_url now url) bans
