-- ===== src/Delivery/Outcomes/Media.antt =====
-- src/db/repositories/user_actor_delivery_outcomes.py: when the media of a source are let go.
use discord_fediverse_bridge.Base.{
  ℕ, ◌≡◌, ◌⊎◌, false, some, In, any, arith, ◌==◌, ◌!=◌, nat_eq, ◌&&◌, filter, Bool, List, [], ◌∷◌,
}
use discord_fediverse_bridge.Delivery.{
  ready, Source, Delivery, Store, SourceMedia, is_unfinished, source_state_eq,
}
use discord_fediverse_bridge.Delivery.Claims.{source_of}
use discord_fediverse_bridge.Delivery.Outcomes.{release_terminal_source_media}

In-filter_or :
    {A : Type 0} (p : A → Bool) (xs : List A) (x : A) → In x xs → In x (filter p xs) ⊎ (p x ≡ false)
unfolding filter
In-filter_or p [] x m = absurd m
In-filter_or p (y ∷ ys) x m = ground (arith, In-filter_or p ys x)

-- A media reference goes only if it is one of the source in question, that source is ready and none
-- of its deliveries is pending, failed or sending.
pub release_terminal_source_media_safe :
    (source_id : ℕ) (s : Store) (m : SourceMedia)
    → In m s.media
    → In m (release_terminal_source_media source_id s).1.media
      ⊎ ((m.source_id ≡ source_id)
          × ((src : Source) × (source_of s source_id ≡ some src) × (src.state ≡ ready))
          × (any (λ (d : Delivery). d.source_id == source_id && is_unfinished d.status) s.deliveries
              ≡ false))
unfolding release_terminal_source_media
release_terminal_source_media_safe source_id s m h =
    ground (arith, In-filter_or (λ (n : SourceMedia). n.source_id != source_id) s.media m h)
