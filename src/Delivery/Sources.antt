-- ===== src/Delivery/Sources.antt =====
-- src/db/repositories/user_actor_delivery_sources.py: a source and the audience that it is sent to,
-- inside the transaction of the caller.
use discord_fediverse_bridge.Base.{
  ℕ, String, ◌<>◌, ◌&&◌, ◌||◌, Option, none, some, List, [], ◌∷◌, ◌++◌, map, leb, text_leb, ◌==◌,
  ◌!=◌, nat_eq, string_eq, contains, filter, any, sort_by, if◌then◌else◌, Result, ok, raised,
  integrity_error, ◌>>=◌, ◌>>◌,
}
use discord_fediverse_bridge.Base.Table.{next_id}
use discord_fediverse_bridge.IdentityUrls.{Urllib, require}
use discord_fediverse_bridge.Delivery.{
  SourceKind, profile_update, render_pending, ready, pending, Source, Delivery, Audience,
  SourceMedia, Follower, Store,
}

-- `follower.remote_shared_inbox_url or follower.remote_inbox_url`
abbrev pub delivery_endpoint : Follower → String
delivery_endpoint f = elim f.remote_shared_inbox_url [
  | none ↦ f.remote_inbox_url
  | some url ↦ if url == "" then f.remote_inbox_url else url
]

-- `sorted(set(…))`
unfoldable pub sorted_set : List String → List String
sorted_set [] = []
sorted_set (x ∷ xs) =
    let rest = sorted_set xs in if contains rest x then rest else sort_by text_leb (x ∷ rest)

abbrev pub new_delivery : ℕ → ℕ → String → Delivery
new_delivery k src endpoint = record {
  id = k;
  source_id = src;
  target_endpoint_url = endpoint;
  status = pending;
  claim_token = none;
  claimed_at = none;
  attempt_count = 0;
  last_attempted_at = none;
  delivered_at = none;
  last_error = none;
  next_attempt_at = none;
}

-- INSERT under UNIQUE(source_id, target_endpoint_url)
unfoldable pub insert_delivery : ℕ → String → Store → Result (ℕ × Store)
insert_delivery source_id endpoint s =
    let k = next_id (λ (d : Delivery). d.id) s.deliveries in
    if any (λ d. d.source_id == source_id && d.target_endpoint_url == endpoint) s.deliveries
    then raised integrity_error
    else ok (k, record s { deliveries = s.deliveries ++ new_delivery k source_id endpoint ∷ [] })

-- INSERT under UNIQUE(delivery_id, relationship_id_snapshot)
unfoldable pub insert_child : ℕ → String → Follower → Store → Result Store
insert_child delivery_id endpoint f s =
    if any (λ (c : Audience). c.delivery_id == delivery_id && c.relationship_id_snapshot == f.id)
      s.audience
    then raised integrity_error
    else ok (record s {
      audience =
          s.audience
          ++ record {
            id = next_id (λ (c : Audience). c.id) s.audience;
            delivery_id = delivery_id;
            relationship_id_snapshot = f.id;
            remote_actor_id = f.remote_actor_id;
            snapshotted_endpoint_url = endpoint;
          }
            ∷ [];
    })

unfoldable pub insert_children : ℕ → String → List Follower → Store → Result Store
insert_children delivery_id endpoint [] s = ok s
insert_children delivery_id endpoint (f ∷ fs) s =
    insert_child delivery_id endpoint f s >>= insert_children delivery_id endpoint fs

-- INSERT under UNIQUE(source_id, slot_kind)
unfoldable pub insert_media : ℕ → List (String × ℕ) → Store → Result Store
insert_media source_id [] s = ok s
insert_media source_id ((slot, asset_id) ∷ refs) s =
    let row : SourceMedia = record {
      id = next_id (λ (m : SourceMedia). m.id) s.media;
      source_id = source_id;
      media_asset_id = asset_id;
      slot_kind = slot;
    } in
    let more = insert_media source_id refs (record s { media = s.media ++ row ∷ [] }) in
    if any (λ (m : SourceMedia). m.source_id == source_id && m.slot_kind == slot) s.media
    then raised integrity_error
    else more

-- INSERT under UNIQUE(activity_id), UNIQUE(ordering_key, logical_version) and the checks on the
-- version and on the snapshot
unfoldable pub insert_source : Source → Store → Result Store
insert_source src s =
    if any
        (λ (t : Source).
          t.activity_id == src.activity_id
          || t.ordering_key == src.ordering_key && t.logical_version == src.logical_version)
        s.sources
      || src.logical_version == 0
      || src.snapshot_json == ""
    then raised integrity_error
    else ok (record s { sources = s.sources ++ src ∷ [] })

module _ (lib : Urllib) where
  unfoldable pub validate_endpoint : String → Result String
  validate_endpoint endpoint = do
    parsed ← lib.urlsplit endpoint
    require (parsed.scheme == "https" && parsed.netloc != "" && parsed.fragment == "")
    ok endpoint

  unfoldable pub validate_all : List String → Result (List String)
  validate_all [] = ok []
  validate_all (url ∷ urls) = do
    endpoint ← validate_endpoint url
    endpoints ← validate_all urls
    ok (endpoint ∷ endpoints)

  -- the loop of `_insert_audience` over the endpoints in their order
  unfoldable pub insert_groups : ℕ → List Follower → List String → Store → Result Store
  insert_groups source_id followers [] s = ok s
  insert_groups source_id followers (endpoint ∷ endpoints) s = do
    made ← insert_delivery source_id endpoint s
    t ←
        insert_children made.0 endpoint
          (sort_by (λ (f g : Follower). leb f.id g.id)
            (filter (λ f. delivery_endpoint f == endpoint) followers))
          made.1
    insert_groups source_id followers endpoints t

  -- `_insert_audience`
  unfoldable pub insert_audience : ℕ → List Follower → Store → Result Store
  insert_audience source_id followers s = do
    endpoints ← validate_all (map delivery_endpoint followers)
    insert_groups source_id followers (sorted_set endpoints) s

  -- the direct targets that no follower stands behind
  unfoldable pub insert_direct : ℕ → List String → List String → Store → Result Store
  insert_direct source_id seen [] s = ok s
  insert_direct source_id seen (url ∷ urls) s = do
    endpoint ← validate_endpoint url
    let made = insert_delivery source_id endpoint s >>= λ r.
        insert_direct source_id (endpoint ∷ seen) urls r.1
    let rest = insert_direct source_id seen urls s
    if contains seen endpoint then rest else made

  abbrev new_source : ℕ → ℕ → SourceKind → String → ℕ → String → String → Source
  new_source k user_id kind ordering_key version activity_id snapshot = record {
    id = k;
    user_id = user_id;
    source_kind = kind;
    ordering_key = ordering_key;
    logical_version = version;
    activity_id = activity_id;
    published_object_id = none;
    snapshot_json = snapshot;
    activity_json = none;
    state = render_pending;
    render_attempt_count = 0;
    last_render_attempted_at = none;
    last_error = none;
    next_attempt_at = none;
  }

  -- `profile_key` is `f"profile:{user_id}"`
  unfoldable pub insert_source_graph :
      String
      → ℕ
      → ℕ
      → String
      → String
      → List Follower
      → List (String × ℕ)
      → Store
      → Result (Source × Store)
  insert_source_graph profile_key user_id version activity_id snapshot followers media_refs s = do
    let k = next_id (λ (src : Source). src.id) s.sources
    let src = new_source k user_id profile_update profile_key version activity_id snapshot
    t ← insert_source src s
    u ← insert_audience k followers t
    v ← insert_media k media_refs u
    ok (src, v)

  unfoldable pub insert_ready_content_source :
      ℕ
      → SourceKind
      → ℕ
      → String
      → ℕ
      → String
      → String
      → String
      → List Follower
      → Option (List String)
      → Store
      → Result (Source × Store)
  insert_ready_content_source user_id kind version activity_id published_id object_id activity_json
        snapshot followers direct s =
      do
        let k = next_id (λ (src : Source). src.id) s.sources
        let src =
            record (new_source k user_id kind ("content:" <> object_id) version activity_id
              snapshot) {
                published_object_id = some published_id;
                activity_json = some activity_json;
                state = ready;
              }
        t ← insert_source src s
        u ← insert_audience k followers t
        let seen = map delivery_endpoint followers
        v ← insert_direct k seen (elim direct [ none ↦ [] | some urls ↦ sorted_set urls ]) u
        ok (src, v)
