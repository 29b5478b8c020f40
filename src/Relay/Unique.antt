-- ===== src/Relay/Unique.antt =====
-- src/db/repositories/remote_subscribers.py: an accepted Follow never breaks the UNIQUE constraints.
use discord_fediverse_bridge.Base.{
  ℕ, ◌≡◌, refl, sym, subst, arith, String, Bool, true, false, none, some, List, [], ◌∷◌, ◌++◌, ◌==◌,
  nat_eq, string_eq, any, find, In, In-find, In-last, In-before, inl, inr, any-false, any-none,
  Result, ok, raised, value_error, Bool-cases, Option-cases,
}
use discord_fediverse_bridge.Base.Unique.{concat_unique, updated_unique}
use discord_fediverse_bridge.Base.Table.{
  update_where, In-update_where, absent-free, In-find-none, next_id, next_id-fresh,
}
use discord_fediverse_bridge.Relay.Subscribers.{
  SubscriberStatus, accepted, RemoteSubscriber, is_relation, has_follow, new_subscriber,
  create_remote_subscriber, refreshed_row, clashes, refresh, Transition, is_owned_elsewhere,
  write_accepted, create_or_refresh_accepted,
}

-- the primary key and the two UNIQUE constraints of the table
pub record IsUnique (rows : List RemoteSubscriber) : Type 0 where
  pub by_id : (x y : RemoteSubscriber) → In x rows → In y rows → x.id ≡ y.id → x ≡ y
  pub by_relation :
      (x y : RemoteSubscriber)
      → In x rows
      → In y rows
      → x.local_community_id ≡ y.local_community_id
      → x.remote_actor_id ≡ y.remote_actor_id
      → x ≡ y
  pub by_follow :
      (x y : RemoteSubscriber)
      → In x rows
      → In y rows
      → x.follow_activity_id ≡ y.follow_activity_id
      → x ≡ y

abbrev SameId : RemoteSubscriber → RemoteSubscriber → Type 0
SameId x y = x.id ≡ y.id

abbrev SameRelation : RemoteSubscriber → RemoteSubscriber → Type 0
SameRelation x y =
    (x.local_community_id ≡ y.local_community_id) × (x.remote_actor_id ≡ y.remote_actor_id)

abbrev SameFollow : RemoteSubscriber → RemoteSubscriber → Type 0
SameFollow x y = x.follow_activity_id ≡ y.follow_activity_id

-- a new row
created-IsUnique :
    (rows : List RemoteSubscriber) (row : RemoteSubscriber)
    → IsUnique rows
    → row.id ≡ next_id (λ (r : RemoteSubscriber). r.id) rows
    → any (is_relation row.local_community_id row.remote_actor_id) rows ≡ false
    → any (has_follow row.follow_activity_id) rows ≡ false
    → IsUnique (rows ++ row ∷ [])
created-IsUnique rows row u key free unowned = record {
  by_id =
      concat_unique SameId rows row (λ x y k. sym k) u.by_id
        (λ x m k.
          let less = next_id-fresh (λ (r : RemoteSubscriber). r.id) rows x m in
          omega (arith, less, k, key));
  by_relation = λ x y m n k l.
      concat_unique SameRelation rows row (λ a b h. (sym h.0, sym h.1))
        (λ a b i j h. u.by_relation a b i j h.0 h.1)
        (λ a i h.
          let miss =
            any-false (is_relation row.local_community_id row.remote_actor_id) rows a free i in
          ground (arith, miss, h.0, h.1))
        x y m n (k, l);
  by_follow =
      concat_unique SameFollow rows row (λ x y k. sym k) u.by_follow
        (λ x m k.
          let miss = any-false (has_follow row.follow_activity_id) rows x unowned m in
          ground (arith, miss, k));
}

-- a row that is written again
refreshed-IsUnique :
    (now : ℕ) (inbox activity : String) (st : SubscriberStatus) (r : RemoteSubscriber)
    (rows : List RemoteSubscriber)
    → IsUnique rows
    → In r rows
    → any (clashes r.id activity) rows ≡ false
    → IsUnique (
        update_where
          (λ (x : RemoteSubscriber). x.id == r.id)
          (refreshed_row now inbox activity st)
          rows)
refreshed-IsUnique now inbox activity st r rows u here free =
    let p : RemoteSubscriber → Bool = λ (x : RemoteSubscriber). x.id == r.id in
    let f = refreshed_row now inbox activity st in
    let one : (x y : RemoteSubscriber) → In x rows → In y rows → p x ≡ true → p y ≡ true → x ≡ y =
      λ x y m n a b. u.by_id x y m n (ground (arith, a, b)) in
    record {
      by_id =
          updated_unique SameId p f rows (λ x y k. sym k) u.by_id one
            (λ x y m n a b k. ground (arith, a, b, k));
      by_relation = λ x y m n k l.
          updated_unique SameRelation p f rows (λ a b h. (sym h.0, sym h.1))
            (λ a b i j h. u.by_relation a b i j h.0 h.1) one
            (λ a b i j hit miss h.
              let e = u.by_relation a b i j h.0 h.1 in ground (arith, hit, miss, e))
            x y m n (k, l);
      by_follow =
          updated_unique SameFollow p f rows (λ x y k. sym k) u.by_follow one
            (λ x y m n hit miss k.
              let clash = any-false (clashes r.id activity) rows y free n in
              ground (arith, clash, miss, k));
    }

-- What an accepted Follow is answered with.
pub data Answered (community : ℕ) (actor inbox activity : String) (rows : List RemoteSubscriber)
    : Result (Transition × List RemoteSubscriber) → Type 0 where
  collides :
      (owner : RemoteSubscriber)
      → In owner rows
      → owner.follow_activity_id ≡ activity
      → is_relation community actor owner ≡ false
      → Answered community actor inbox activity rows (raised value_error)
  accepts :
      (t : Transition) (after : List RemoteSubscriber) (row : RemoteSubscriber)
      → IsUnique after
      → In row after
      → t.remote_subscriber_id ≡ row.id
      → is_relation community actor row ≡ true
      → row.remote_inbox_url ≡ inbox
      → row.follow_activity_id ≡ activity
      → row.status ≡ accepted
      → ((x : RemoteSubscriber) → In x rows → is_relation community actor x ≡ false → In x after)
      → Answered community actor inbox activity rows (ok (t, after))

creates :
    (now community : ℕ) (actor inbox activity : String) (rows : List RemoteSubscriber)
    → IsUnique rows
    → any (is_relation community actor) rows ≡ false
    → any (has_follow activity) rows ≡ false
    → Answered community actor inbox activity rows
        (write_accepted now community actor inbox activity none rows)
unfolding create_remote_subscriber
creates now community actor inbox activity rows u free unowned =
    let row =
      new_subscriber now (next_id (λ (r : RemoteSubscriber). r.id) rows) community actor inbox
        activity accepted in
    rw free (
      rw unowned (
        Answered.accepts _ (rows ++ row ∷ []) row (created-IsUnique rows row u refl free unowned)
          (In-last rows row) refl (ground arith) refl refl refl
          (λ x m miss. In-before rows row x m)))

-- the row of the relationship is the only one that may have the Follow
refreshes :
    (now community : ℕ) (actor inbox activity : String) (rows : List RemoteSubscriber)
    (r : RemoteSubscriber)
    → IsUnique rows
    → In r rows
    → is_relation community actor r ≡ true
    → any (clashes r.id activity) rows ≡ false
    → Answered community actor inbox activity rows
        (write_accepted now community actor inbox activity (some r) rows)
unfolding refresh
refreshes now community actor inbox activity rows r u here mine free =
    let p : RemoteSubscriber → Bool = λ (x : RemoteSubscriber). x.id == r.id in
    let f = refreshed_row now inbox activity accepted in
    let own : In (f r) (update_where p f rows) =
      subst (λ (x : RemoteSubscriber). In x (update_where p f rows)) (ground arith)
        (In-update_where p f rows r here) in
    rw free (
      Answered.accepts _ (update_where p f rows) (f r)
        (refreshed-IsUnique now inbox activity accepted r rows u here free) own refl mine refl refl
        refl
        (λ x m miss.
          let other : p x ≡ false = elim (Bool-cases (p x)) [
            | inl e ↦
                let same = u.by_id x r m here (ground (arith, e)) in
                ground (arith, same, miss, mine)
            | inr e ↦ e
          ] in
          subst (λ (y : RemoteSubscriber). In y (update_where p f rows)) (ground (arith, other))
            (In-update_where p f rows x m)))

-- no row but that of the relationship has the Follow
unclashed :
    (community : ℕ) (actor activity : String) (rows : List RemoteSubscriber) (r : RemoteSubscriber)
    → IsUnique rows
    → In r rows
    → is_relation community actor r ≡ true
    → is_owned_elsewhere community actor (find (has_follow activity) rows) ≡ false
    → any (clashes r.id activity) rows ≡ false
unclashed community actor activity rows r u here mine unowned =
    let none_clashes : (x : RemoteSubscriber) → In x rows → clashes r.id activity x ≡ false = λ x m.
      elim (Option-cases (find (has_follow activity) rows)) [
        | inl e ↦ let miss = In-find-none (has_follow activity) rows x e m in ground (arith, miss)
        | inr (o, e) ↦ elim (Bool-cases (has_follow activity x)) [
          | inr miss ↦ ground (arith, miss)
          | inl hit ↦
              let (at, has) = In-find (has_follow activity) rows o e in
              let owned : is_relation community actor o ≡ true = ground (arith, rw e at unowned) in
              let same = u.by_follow x o m at (ground (arith, hit, has)) in
              let one =
                u.by_relation o r at here (ground (arith, owned, mine))
                  (ground (arith, owned, mine)) in
              ground (arith, same, one)
        ]
      ] in
    any-none (clashes r.id activity) rows none_clashes

-- an owner elsewhere is the collision
elsewhere :
    (community : ℕ) (actor inbox activity : String) (rows : List RemoteSubscriber)
    → is_owned_elsewhere community actor (find (has_follow activity) rows) ≡ true
    → Answered community actor inbox activity rows (raised value_error)
elsewhere community actor inbox activity rows h =
    elim (Option-cases (find (has_follow activity) rows)) [
      | inl e ↦ absurd (let g = rw e at h in ground (arith, g))
      | inr (o, e) ↦
          let (here, has) = In-find (has_follow activity) rows o e in
          Answered.collides o here (ground (arith, has)) (ground (arith, rw e at h))
    ]

-- without a row of the relationship, no row has the Follow
unowned :
    (community : ℕ) (actor activity : String) (rows : List RemoteSubscriber)
    → any (is_relation community actor) rows ≡ false
    → is_owned_elsewhere community actor (find (has_follow activity) rows) ≡ false
    → any (has_follow activity) rows ≡ false
unowned community actor activity rows free h =
    elim (Option-cases (find (has_follow activity) rows)) [
      | inl e ↦ absent-free (has_follow activity) rows e
      | inr (o, e) ↦
          let here = (In-find (has_follow activity) rows o e).0 in
          let miss = any-false (is_relation community actor) rows o free here in
          absurd (ground (arith, miss, rw e at h))
    ]

-- A Follow of a local community by a remote actor, on a table whose rows are unique in id,
-- relationship and Follow id. If the Follow id belongs to another relationship, the collision is
-- raised. Otherwise the relationship has an accepted row with the inbox and the Follow id of the
-- request, the rows are unique again, and those of the other relationships are still there. The
-- UNIQUE constraints refuse none of it.
pub create_or_refresh_accepted-Answered :
    (now community : ℕ) (actor inbox activity : String) (rows : List RemoteSubscriber)
    → IsUnique rows
    → Answered community actor inbox activity rows
        (create_or_refresh_accepted now community actor inbox activity rows)
unfolding create_or_refresh_accepted
create_or_refresh_accepted-Answered now community actor inbox activity rows u =
    elim (Bool-cases (is_owned_elsewhere community actor (find (has_follow activity) rows))) [
      | inl e ↦ rw e (elsewhere community actor inbox activity rows e)
      | inr e ↦ rw e (elim (Option-cases (find (is_relation community actor) rows)) [
        | inl none_yet ↦
            let free = absent-free (is_relation community actor) rows none_yet in
            rw none_yet (
              creates now community actor inbox activity rows u free
                (unowned community actor activity rows free e))
        | inr (r, found) ↦
            let (here, mine) = In-find (is_relation community actor) rows r found in
            rw found (
              refreshes now community actor inbox activity rows r u here mine
                (unclashed community actor activity rows r u here mine e))
      ])
    ]
