-- ===== src/Delivery/Lifecycle/Inserted.antt =====
-- src/db/repositories/user_actor_delivery_sources.py: what making a source does to the deliveries.
use discord_fediverse_bridge.Base.{
  ℕ, ◌≡◌, ◌⊎◌, refl, sym, ap, ◌∙◌, subst, String, Bool, true, false, Option, List, [], ◌∷◌, ◌++◌,
  map, arith, nat_eq, string_eq, contains, In, In-before, All, All-concat, inl, inr, Result, ok,
  raised, ◌>>=◌, bind-ok, if◌then◌else◌, Error, integrity_error,
}
use discord_fediverse_bridge.Base.Table.{next_id, next_id-fresh}
use discord_fediverse_bridge.Base.Distinct.{Distinct, Distinct-concat}
use discord_fediverse_bridge.IdentityUrls.{Urllib}
use discord_fediverse_bridge.Delivery.{SourceKind, Delivery, Source, Follower, Store, status_eq}
use discord_fediverse_bridge.Delivery.Lease.{IsLeased}
use discord_fediverse_bridge.Delivery.Sources.{
  delivery_endpoint, sorted_set, new_delivery, insert_delivery, insert_child, insert_children,
  insert_media, insert_source, validate_endpoint, validate_all, insert_groups, insert_audience,
  insert_direct, insert_source_graph, insert_ready_content_source,
}

-- new deliveries behind those of a table
pub data Added (xs : List Delivery) : List Delivery → Type 0 where
  nothing : Added xs xs
  one_more :
      {ys : List Delivery}
      → Added xs ys
      → (source_id : ℕ) (endpoint : String)
      → Added xs (ys ++ new_delivery (next_id (λ (d : Delivery). d.id) ys) source_id endpoint ∷ [])

pub Added-In : {xs ys : List Delivery} → Added xs ys → (d : Delivery) → In d xs → In d ys
Added-In nothing d m = m
Added-In (one_more {ys} more source_id endpoint) d m = In-before ys _ d (Added-In more d m)

pub Added-Distinct :
    {xs ys : List Delivery}
    → Added xs ys
    → Distinct (λ (d : Delivery). d.id) xs
    → Distinct (λ (d : Delivery). d.id) ys
Added-Distinct nothing h = h
Added-Distinct (one_more {ys} more source_id endpoint) h =
    Distinct-concat (λ (d : Delivery). d.id) ys _ (Added-Distinct more h)
      λ d m e. let fresh = next_id-fresh (λ (d : Delivery). d.id) ys d m in omega arith

pub Added-IsLeased : {xs ys : List Delivery} → Added xs ys → All IsLeased xs → All IsLeased ys
unfolding status_eq
Added-IsLeased nothing h = h
Added-IsLeased (one_more {ys} more source_id endpoint) h =
    All-concat IsLeased ys _ (Added-IsLeased more h)
      (record { token = refl; time = refl; error = tt })

-- a result of an insertion
abbrev Adds : {A : Type 0} → (A → Store) → Store → Result A → Type 0
Adds {A} store s r = (a : A) → r ≡ ok a → Added s.deliveries (store a).deliveries

pub ok-inj : {A : Type 0} {a b : A} → ok a ≡ ok b → a ≡ b
ok-inj e = cc

pub unless-ok :
    {B : Type 0} (b : Bool) (x : Error) (r : Result B) (t : B)
    → (if b then raised x else r) ≡ ok t
    → r ≡ ok t
unless-ok true x r t e = cc
unless-ok false x r t e = e

pub unchanged :
    (b : Bool) (u t : Store) → (if b then raised integrity_error else ok u) ≡ ok t → t ≡ u
unchanged b u t e = let made : ok u ≡ ok t = unless-ok b integrity_error (ok u) t e in cc

insert_child-same :
    (id : ℕ) (endpoint : String) (f : Follower) (s t : Store)
    → insert_child id endpoint f s ≡ ok t
    → t.deliveries ≡ s.deliveries
unfolding insert_child
insert_child-same id endpoint f s t e = ap (λ (u : Store). u.deliveries) (unchanged _ _ t e)

insert_children-same :
    (id : ℕ) (endpoint : String) (fs : List Follower) (s t : Store)
    → insert_children id endpoint fs s ≡ ok t
    → t.deliveries ≡ s.deliveries
unfolding insert_children
insert_children-same id endpoint [] s t e = cc
insert_children-same id endpoint (f ∷ fs) s t e =
    let (u, one, rest) =
      bind-ok (insert_child id endpoint f s) (insert_children id endpoint fs) t e in
    insert_children-same id endpoint fs u t rest ∙ insert_child-same id endpoint f s u one

insert_media-same :
    (id : ℕ) (refs : List (String × ℕ)) (s t : Store)
    → insert_media id refs s ≡ ok t
    → t.deliveries ≡ s.deliveries
unfolding insert_media
insert_media-same id [] s t e = cc
insert_media-same id ((slot, asset_id) ∷ refs) s t e =
    insert_media-same id refs _ t (unless-ok _ integrity_error _ t e)

insert_source-same :
    (src : Source) (s t : Store) → insert_source src s ≡ ok t → t.deliveries ≡ s.deliveries
unfolding insert_source
insert_source-same src s t e = ap (λ (u : Store). u.deliveries) (unchanged _ _ t e)

insert_delivery-Added :
    (xs : List Delivery) (id : ℕ) (endpoint : String) (s : Store) (r : ℕ × Store)
    → Added xs s.deliveries
    → insert_delivery id endpoint s ≡ ok r
    → Added xs r.1.deliveries
unfolding insert_delivery
insert_delivery-Added xs id endpoint s r more e =
    subst (λ (q : ℕ × Store). Added xs q.1.deliveries) (ok-inj (unless-ok _ integrity_error _ r e))
      (one_more more id endpoint)

-- a target that is there already, or one for which a delivery is made
pub insert_direct-cases :
    (lib : Urllib) (id : ℕ) (seen : List String) (url : String) (urls : List String) (s t : Store)
    → insert_direct lib id seen (url ∷ urls) s ≡ ok t
    → (insert_direct lib id seen urls s ≡ ok t)
      ⊎ ((endpoint : String) × (made : ℕ × Store) × (insert_delivery id endpoint s ≡ ok made)
          × (insert_direct lib id (endpoint ∷ seen) urls made.1 ≡ ok t))
unfolding insert_direct
insert_direct-cases lib id seen url urls s t e =
    let (endpoint, valid, e1) = bind-ok (validate_endpoint lib url) _ t e in
    go endpoint (contains seen endpoint) e1
  where
    go :
        (endpoint : String) (b : Bool)
        → (if b
            then insert_direct lib id seen urls s
            else (insert_delivery id endpoint s >>= λ r.
                insert_direct lib id (endpoint ∷ seen) urls r.1))
          ≡ ok t
        → (insert_direct lib id seen urls s ≡ ok t)
          ⊎ ((endpoint : String) × (made : ℕ × Store) × (insert_delivery id endpoint s ≡ ok made)
              × (insert_direct lib id (endpoint ∷ seen) urls made.1 ≡ ok t))
    go endpoint true h = inl h
    go endpoint false h =
        let (made, one, rest) = bind-ok (insert_delivery id endpoint s) _ t h in
        inr (endpoint, made, one, rest)

module _ (lib : Urllib) (xs : List Delivery) where
  insert_groups-Added :
      (id : ℕ) (followers : List Follower) (urls : List String) (s t : Store)
      → Added xs s.deliveries
      → insert_groups lib id followers urls s ≡ ok t
      → Added xs t.deliveries
  unfolding insert_groups
  insert_groups-Added id followers [] s t more e =
      subst (λ (u : Store). Added xs u.deliveries) (ok-inj e) more
  insert_groups-Added id followers (url ∷ urls) s t more e =
      let (made, one, e1) = bind-ok (insert_delivery id url s) _ t e in
      let (u, children, e2) = bind-ok (insert_children made.0 url _ made.1) _ t e1 in
      insert_groups-Added id followers urls u t
        (subst (Added xs) (sym (insert_children-same made.0 url _ made.1 u children))
          (insert_delivery-Added xs id url s made more one))
        e2

  insert_audience-Added :
      (id : ℕ) (followers : List Follower) (s t : Store)
      → Added xs s.deliveries
      → insert_audience lib id followers s ≡ ok t
      → Added xs t.deliveries
  unfolding insert_audience
  insert_audience-Added id followers s t more e =
      let (urls, valid, e1) = bind-ok (validate_all lib (map delivery_endpoint followers)) _ t e in
      insert_groups-Added id followers (sorted_set urls) s t more e1

  insert_direct-Added :
      (id : ℕ) (seen urls : List String) (s t : Store)
      → Added xs s.deliveries
      → insert_direct lib id seen urls s ≡ ok t
      → Added xs t.deliveries
  unfolding insert_direct
  insert_direct-Added id seen [] s t more e =
      subst (λ (u : Store). Added xs u.deliveries) (ok-inj e) more
  insert_direct-Added id seen (url ∷ urls) s t more e =
      elim (insert_direct-cases lib id seen url urls s t e) [
        | inl rest ↦ insert_direct-Added id seen urls s t more rest
        | inr (endpoint, made, one, rest) ↦
            insert_direct-Added id (endpoint ∷ seen) urls made.1 t
              (insert_delivery-Added xs id endpoint s made more one) rest
      ]

module _ (lib : Urllib) (s : Store) where
  pub insert_source_graph-Added :
      (profile_key : String) (user_id version : ℕ) (activity_id snapshot : String)
      (followers : List Follower) (media_refs : List (String × ℕ)) (src : Source) (t : Store)
      → insert_source_graph lib profile_key user_id version activity_id snapshot followers
          media_refs s
        ≡ ok (src, t)
      → Added s.deliveries t.deliveries
  unfolding insert_source_graph
  insert_source_graph-Added profile_key user_id version activity_id snapshot followers media_refs
        src t e =
      let (a, first, e1) = bind-ok (insert_source _ s) _ (src, t) e in
      let (b, second, e2) = bind-ok (insert_audience lib _ followers a) _ (src, t) e1 in
      let (c, third, e3) = bind-ok (insert_media _ media_refs b) _ (src, t) e2 in
      let last = ap (λ (q : Source × Store). q.1.deliveries) (ok-inj e3) in
      subst (Added s.deliveries) (sym (insert_media-same _ media_refs b c third) ∙ last) (
        insert_audience-Added lib s.deliveries _ followers a b
          (subst (Added s.deliveries) (sym (insert_source-same _ s a first)) nothing) second)

  pub insert_ready_content_source-Added :
      (user_id : ℕ) (kind : SourceKind) (version : ℕ) (activity_id : String) (published_id : ℕ)
      (object_id activity_json snapshot : String) (followers : List Follower)
      (direct : Option (List String)) (src : Source) (t : Store)
      → insert_ready_content_source lib user_id kind version activity_id published_id object_id
          activity_json snapshot followers direct s
        ≡ ok (src, t)
      → Added s.deliveries t.deliveries
  unfolding insert_ready_content_source
  insert_ready_content_source-Added user_id kind version activity_id published_id object_id
        activity_json snapshot followers direct src t e =
      let (a, first, e1) = bind-ok (insert_source _ s) _ (src, t) e in
      let (b, second, e2) = bind-ok (insert_audience lib _ followers a) _ (src, t) e1 in
      let (c, third, e3) =
        bind-ok (insert_direct lib _ (map delivery_endpoint followers) _ b) _ (src, t) e2 in
      subst (λ (q : Source × Store). Added s.deliveries q.1.deliveries) (ok-inj e3)
        (insert_direct-Added lib s.deliveries _ _ _ b c
          (insert_audience-Added lib s.deliveries _ followers a b
            (subst (Added s.deliveries) (sym (insert_source-same _ s a first)) nothing) second)
          third)
