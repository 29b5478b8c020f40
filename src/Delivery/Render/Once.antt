-- ===== src/Delivery/Render/Once.antt =====
-- src/db/repositories/user_actor_deliveries.py: a source is rendered once.
use discord_fediverse_bridge.Base.{ℕ, ◌≡◌, refl, String, false, List, [], ◌∷◌, any, arith, nat_eq}
use discord_fediverse_bridge.Base.Table.{update_where, update_where_none, filter_none}
use discord_fediverse_bridge.Delivery.{Source, Store, source_state_eq}
use discord_fediverse_bridge.Delivery.Render.{is_renderable, rendered, record_rendered}

no_longer_renderable :
    (now source_id : ℕ) (encoded : String) (xs : List Source)
    → any
        (is_renderable source_id)
        (update_where (is_renderable source_id) (rendered now encoded) xs)
      ≡ false
unfolding any update_where is_renderable
no_longer_renderable now source_id encoded [] = refl
no_longer_renderable now source_id encoded (x ∷ xs) =
    ground (arith, no_longer_renderable now source_id encoded xs)

-- However the first call ends, a second rendering of the same source is refused and changes nothing:
-- the activity that a source was first given stays.
pub record_rendered_once :
    (now later source_id : ℕ) (encoded other : String) (s : Store)
    → let t = (record_rendered now source_id encoded s).1 in
      record_rendered later source_id other t ≡ (false, t)
unfolding record_rendered nat_eq
record_rendered_once now later source_id encoded other s =
    let written = update_where (is_renderable source_id) (rendered now encoded) s.sources in
    let none_left = no_longer_renderable now source_id encoded s.sources in
    rw (update_where_none (is_renderable source_id) (rendered later other) written none_left) rw
      (filter_none (is_renderable source_id) written none_left) refl
