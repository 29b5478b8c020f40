-- ===== src/Delivery/Render.antt =====
-- src/db/repositories/user_actor_deliveries.py: the rendering of sources.
pub mod Once
use discord_fediverse_bridge.Base.{
  ℕ, ◌+◌, String, Bool, ◌&&◌, ◌||◌, none, some, List, map, leb, ltb, if◌then◌else◌, is_none, ◌==◌,
  ◌!=◌, nat_eq, filter, take, sort_by, length,
}
use discord_fediverse_bridge.Base.Table.{update_where}
use discord_fediverse_bridge.Delivery.{
  render_pending, ready, render_failed, source_state_eq, Source, Store,
}
use discord_fediverse_bridge.Delivery.Claims.{is_due}
use discord_fediverse_bridge.Delivery.Diagnostics.{bound_delivery_error}
use discord_fediverse_bridge.Delivery.Outcomes.{backoff_seconds}

unfoldable pub awaits_render : Source → Bool
awaits_render src = src.state == render_pending || src.state == render_failed

source_leb : Source → Source → Bool
source_leb a b =
    if a.user_id != b.user_id
    then ltb a.user_id b.user_id
    else if a.logical_version != b.logical_version
    then ltb a.logical_version b.logical_version
    else leb a.id b.id

unfoldable pub due_source_ids : ℕ → ℕ → Store → List ℕ
unfolding source_leb
due_source_ids now limit s =
    map (λ (src : Source). src.id)
      (take limit (
        sort_by source_leb
          (filter (λ src. awaits_render src && is_due now src.next_attempt_at) s.sources)))

abbrev pub with_sources : Store → List Source → Store
with_sources s rows = record s { sources = rows }

-- WHERE id = … AND activity_json IS NULL AND state IN (…)
unfoldable pub is_renderable : ℕ → Source → Bool
is_renderable source_id src = src.id == source_id && is_none src.activity_json && awaits_render src

abbrev pub rendered : ℕ → String → Source → Source
rendered now encoded src = record src {
  activity_json = some encoded;
  state = ready;
  last_error = none;
  next_attempt_at = none;
  last_render_attempted_at = some now;
  render_attempt_count = src.render_attempt_count + 1;
}

-- `encoded` is the canonical text of the activity; the result is `rowcount == 1`
unfoldable pub record_rendered : ℕ → ℕ → String → Store → Bool × Store
record_rendered now source_id encoded s = (
  length (filter (is_renderable source_id) s.sources) == 1,
  with_sources s (update_where (is_renderable source_id) (rendered now encoded) s.sources),
)

abbrev pub render_failure : ℕ → String → Source → Source
render_failure now error src = record src {
  render_attempt_count = src.render_attempt_count + 1;
  last_render_attempted_at = some now;
  state = render_failed;
  last_error = some (bound_delivery_error error);
  next_attempt_at = some (now + backoff_seconds (src.render_attempt_count + 1));
}

unfoldable pub record_render_failure : ℕ → ℕ → String → Store → Store
record_render_failure now source_id error s = with_sources s (
    update_where (λ src. src.id == source_id && src.state != ready) (render_failure now error)
      s.sources)
