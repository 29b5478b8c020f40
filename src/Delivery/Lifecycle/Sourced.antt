-- ===== src/Delivery/Lifecycle/Sourced.antt =====
-- src/db/repositories/user_actor_delivery_sources.py: the source that is made stands in the table.
use discord_fediverse_bridge.Base.{
  ℕ, ◌≡◌, refl, sym, ap, ◌∙◌, subst, String, Option, List, [], ◌∷◌, map, some, In, In-last, inl,
  inr, ok, integrity_error, bind-ok,
}
use discord_fediverse_bridge.IdentityUrls.{Urllib}
use discord_fediverse_bridge.Delivery.{SourceKind, ready, Source, Follower, Store}
use discord_fediverse_bridge.Delivery.Sources.{
  delivery_endpoint, sorted_set, insert_delivery, insert_child, insert_children, insert_source,
  validate_all, insert_groups, insert_audience, insert_direct, insert_ready_content_source,
}
use discord_fediverse_bridge.Delivery.Lifecycle.Inserted.{
  ok-inj, unless-ok, unchanged, insert_direct-cases,
}

insert_children-sources :
    (id : ℕ) (endpoint : String) (fs : List Follower) (s t : Store)
    → insert_children id endpoint fs s ≡ ok t
    → t.sources ≡ s.sources
unfolding insert_children insert_child
insert_children-sources id endpoint [] s t e = cc
insert_children-sources id endpoint (f ∷ fs) s t e =
    let (u, one, rest) =
      bind-ok (insert_child id endpoint f s) (insert_children id endpoint fs) t e in
    insert_children-sources id endpoint fs u t rest
    ∙ ap (λ (v : Store). v.sources) (unchanged _ _ u one)

insert_delivery-sources :
    (id : ℕ) (endpoint : String) (s : Store) (r : ℕ × Store)
    → insert_delivery id endpoint s ≡ ok r
    → r.1.sources ≡ s.sources
unfolding insert_delivery
insert_delivery-sources id endpoint s r e =
    sym (ap (λ (q : ℕ × Store). q.1.sources) (ok-inj (unless-ok _ integrity_error _ r e)))

module _ (lib : Urllib) where
  insert_groups-sources :
      (id : ℕ) (followers : List Follower) (urls : List String) (s t : Store)
      → insert_groups lib id followers urls s ≡ ok t
      → t.sources ≡ s.sources
  unfolding insert_groups
  insert_groups-sources id followers [] s t e = cc
  insert_groups-sources id followers (url ∷ urls) s t e =
      let (made, one, e1) = bind-ok (insert_delivery id url s) _ t e in
      let (u, children, e2) = bind-ok (insert_children made.0 url _ made.1) _ t e1 in
      insert_groups-sources id followers urls u t e2
      ∙ insert_children-sources made.0 url _ made.1 u children
      ∙ insert_delivery-sources id url s made one

  insert_audience-sources :
      (id : ℕ) (followers : List Follower) (s t : Store)
      → insert_audience lib id followers s ≡ ok t
      → t.sources ≡ s.sources
  unfolding insert_audience
  insert_audience-sources id followers s t e =
      let (urls, valid, e1) = bind-ok (validate_all lib (map delivery_endpoint followers)) _ t e in
      insert_groups-sources id followers (sorted_set urls) s t e1

  insert_direct-sources :
      (id : ℕ) (seen urls : List String) (s t : Store)
      → insert_direct lib id seen urls s ≡ ok t
      → t.sources ≡ s.sources
  unfolding insert_direct
  insert_direct-sources id seen [] s t e = cc
  insert_direct-sources id seen (url ∷ urls) s t e =
      elim (insert_direct-cases lib id seen url urls s t e) [
        | inl rest ↦ insert_direct-sources id seen urls s t rest
        | inr (endpoint, made, one, rest) ↦
            insert_direct-sources id (endpoint ∷ seen) urls made.1 t rest
            ∙ insert_delivery-sources id endpoint s made one
      ]

-- the source of a content mutation, as it stands in the table
pub record IsSource (user_id : ℕ) (kind : SourceKind) (version : ℕ) (activity_id : String)
    (published_id : ℕ) (activity_json : String) (src : Source) (t : Store) : Type 0 where
  pub stored : In src t.sources
  pub same_user : src.user_id ≡ user_id
  pub same_kind : src.source_kind ≡ kind
  pub same_version : src.logical_version ≡ version
  pub same_activity : src.activity_id ≡ activity_id
  pub same_object : src.published_object_id ≡ some published_id
  pub same_json : src.activity_json ≡ some activity_json
  pub is_ready : src.state ≡ ready

pub insert_ready_content_source-IsSource :
    (lib : Urllib) (user_id : ℕ) (kind : SourceKind) (version : ℕ) (activity_id : String)
    (published_id : ℕ) (object_id activity_json snapshot : String) (followers : List Follower)
    (direct : Option (List String)) (s : Store) (src : Source) (t : Store)
    → insert_ready_content_source lib user_id kind version activity_id published_id object_id
        activity_json snapshot followers direct s
      ≡ ok (src, t)
    → IsSource user_id kind version activity_id published_id activity_json src t
unfolding insert_ready_content_source insert_source
insert_ready_content_source-IsSource lib user_id kind version activity_id published_id object_id
      activity_json snapshot followers direct s src t e =
    let (a, first, e1) = bind-ok (insert_source _ s) _ (src, t) e in
    let (b, second, e2) = bind-ok (insert_audience lib _ followers a) _ (src, t) e1 in
    let (c, third, e3) =
      bind-ok (insert_direct lib _ (map delivery_endpoint followers) _ b) _ (src, t) e2 in
    let kept =
      insert_direct-sources lib _ _ _ b c third
      ∙ insert_audience-sources lib _ followers a b second
      ∙ ap (λ (v : Store). v.sources) (unchanged _ _ a first) in
    subst
      (λ (q : Source × Store).
        IsSource user_id kind version activity_id published_id activity_json q.0 q.1)
      (ok-inj e3)
      (record {
        stored = rw kept (In-last s.sources _);
        same_user = refl;
        same_kind = refl;
        same_version = refl;
        same_activity = refl;
        same_object = refl;
        same_json = refl;
        is_ready = refl;
      })
