-- ===== src/Ban/History.antt =====
-- src/db/repositories/community_actor_bans.py: any sequence of commands leaves an account at most one
-- row in a scope.
use discord_fediverse_bridge.Base.{
  ℕ, ◌≡◌, refl, sym, ◌∙◌, String, Option, List, arith, ◌==◌, nat_eq, string_eq, option_eq, inl, inr,
  Option-cases, transaction,
}
use discord_fediverse_bridge.Base.Distinct.{Distinct-Rows}
use discord_fediverse_bridge.Base.Table.{Rows, Rows-In, Rows-update_where}
use discord_fediverse_bridge.Ban.{
  Ban, BanRequest, get_active_ban_by_handle, create_or_reactivate_active_ban, deactivate,
  deactivate_active_ban_by_handle, learn_url, fill_actor_url_if_missing,
}
use discord_fediverse_bridge.Ban.Single.{SameLane, IsSingle, create_bans}
use discord_fediverse_bridge.Ban.Lift.{create_twice_raises, deactivate_lifts}

-- one command on the table; one that raises is rolled back
pub data BanStep (bans : List Ban) : List Ban → Type 0 where
  bans_user :
      (now : ℕ) (r : BanRequest)
      → BanStep bans (transaction bans (create_or_reactivate_active_ban now r bans)).1
  unbans_user :
      (now : ℕ) (community_id : Option ℕ) (handle : String)
      → BanStep bans
          (transaction bans (deactivate_active_ban_by_handle now community_id handle bans)).1
  sees_url :
      (now ban_id : ℕ) (url : String) → BanStep bans (fill_actor_url_if_missing now ban_id url bans)

pub data BanReach (bans : List Ban) : List Ban → Type 0 where
  here : BanReach bans bans
  next : {after last : List Ban} → BanReach bans after → BanStep after last → BanReach bans last

record Stays (b c : Ban) : Type 0 where
  pub same_id : c.id ≡ b.id
  pub lane : SameLane c b

Stays-refl : (b : Ban) → Stays b b
Stays-refl b = record {
  same_id = refl;
  lane = record { same_scope = refl; same_key = refl; same_handle = refl };
}

learn_url-Stays : (now : ℕ) (url : String) (b : Ban) → Stays b (learn_url now url b)
learn_url-Stays now url b = ground arith

IsSingle-Rows : (bans after : List Ban) → Rows Stays bans after → IsSingle bans → IsSingle after
IsSingle-Rows bans after rows h = record {
  keys = Distinct-Rows (λ (b : Ban). b.id) Stays (λ b c s. s.same_id) bans after rows h.keys;
  single = λ b c hb hc l.
      let (x, hx, sx) = Rows-In Stays bans after b rows hb in
      let (y, hy, sy) = Rows-In Stays bans after c rows hc in
      sx.same_id
      ∙ h.single x y hx hy (record {
        same_scope = sym sx.lane.same_scope ∙ l.same_scope ∙ sy.lane.same_scope;
        same_key = sym sx.lane.same_key ∙ l.same_key ∙ sy.lane.same_key;
        same_handle = sym sx.lane.same_handle ∙ l.same_handle ∙ sy.lane.same_handle;
      })
      ∙ sym sy.same_id;
}

step-IsSingle : {bans after : List Ban} → IsSingle bans → BanStep bans after → IsSingle after
unfolding fill_actor_url_if_missing deactivate_active_ban_by_handle deactivate
step-IsSingle {bans} h (BanStep.bans_user now r) =
    elim (Option-cases (get_active_ban_by_handle r.community_id r.handle bans)) [
      | inl unbanned ↦
          let (a, after, done, _, _, single) = create_bans now r bans h unbanned in rw done single
      | inr (b, found) ↦ rw (create_twice_raises now bans h r b found) h
    ]
step-IsSingle {bans} h (BanStep.unbans_user now community_id handle) =
    elim (Option-cases (get_active_ban_by_handle community_id handle bans)) [
      | inl unbanned ↦ rw unbanned h
      | inr (b, found) ↦
          let (after, done, _, single) = deactivate_lifts now bans h community_id handle b found in
          rw done single
    ]
step-IsSingle {bans} h (BanStep.sees_url now ban_id url) =
    IsSingle-Rows bans (fill_actor_url_if_missing now ban_id url bans)
      (Rows-update_where Stays (λ b. b.id == ban_id) (learn_url now url) bans Stays-refl
        (λ b m e. learn_url-Stays now url b))
      h

-- From a table where each account has at most one row in a scope, active or inactive, any sequence of
-- bans, unbans and observed URLs leads to such a table.
pub BanReach-IsSingle :
    (bans after : List Ban) → IsSingle bans → BanReach bans after → IsSingle after
BanReach-IsSingle bans last h here = h
BanReach-IsSingle bans last h (next {after} path step) =
    step-IsSingle (BanReach-IsSingle bans after h path) step
