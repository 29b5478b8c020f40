-- ===== src/Remote/Linked.antt =====
-- src/db/repositories/remote_subscriptions.py and bridge_actor_follows.py: what the status of a
-- subscription has to do with the Follow of its community.
use discord_fediverse_bridge.Base.{
  In-concat, ℕ, ◌≡◌, ◌≢◌, refl, sym, ◌∙◌, subst, arith, String, true, false, Option, some, List, [],
  ◌∷◌, ◌++◌, In, nat_eq, string_eq, any, ok, Bool-cases, inl, inr,
}
use discord_fediverse_bridge.Base.Table.{
  update_first, delete_first, update_where, In-delete_first, In-of_update, next_id,
}
use discord_fediverse_bridge.Remote.{
  FollowStatus, pending, accepted, failed, follow_status_eq, Follow, Subscription, NewSubscription,
  RemoteStore, in_channel, of_community, is_pending_of, follows_community, create_subscription,
  delete_subscription, create_bridge_actor_follow, delete_bridge_actor_follow,
  mark_bridge_actor_follow_accepted, new_follow, new_subscription, accept_follow,
  accept_subscription,
}
use discord_fediverse_bridge.Remote.Follows.{
  follow_status, follow_status-append, follow_status-new, follow_status-absent,
  follow_status-deleted, follow_status-accepted, follow_status-accepted_self,
}

-- An accepted subscription stands on an accepted Follow, and a pending one on a pending Follow.
pub record Linked (follows : List Follow) (sub : Subscription) : Type 0 where
  pub active :
      sub.status ≡ accepted → follow_status sub.lemmy_community_actor_id follows ≡ some accepted
  pub waiting :
      sub.status ≡ pending → follow_status sub.lemmy_community_actor_id follows ≡ some pending

pub record IsLinked (s : RemoteStore) : Type 0 where
  pub links : (sub : Subscription) → In sub s.subscriptions → Linked s.follows sub

-- the Follow of the subscription's community may change only where the subscription allows it
Linked-follows :
    (before after : List Follow) (sub : Subscription)
    → (sub.status ≢ failed
        → follow_status sub.lemmy_community_actor_id after
          ≡ follow_status sub.lemmy_community_actor_id before)
    → Linked before sub
    → Linked after sub
Linked-follows before after sub same l = record {
  active = λ e. same (λ f. ground (arith, e, f)) ∙ l.active e;
  waiting = λ e. same (λ f. ground (arith, e, f)) ∙ l.waiting e;
}

-- what a new row needs
abbrev pub NewLinked : List Follow → NewSubscription → Type 0
NewLinked follows n =
    (n.status ≡ accepted → follow_status n.lemmy_community_actor_id follows ≡ some accepted)
    × (n.status ≡ pending → follow_status n.lemmy_community_actor_id follows ≡ some pending)

pub create_subscription-IsLinked :
    (now : ℕ) (n : NewSubscription) (s t : RemoteStore)
    → IsLinked s
    → NewLinked s.follows n
    → create_subscription now n s ≡ ok t
    → IsLinked t
unfolding create_subscription
create_subscription-IsLinked now n s t h new made =
    let row = new_subscription now (next_id (λ (r : Subscription). r.id) s.subscriptions) n in
    let added : record s { subscriptions = s.subscriptions ++ row ∷ [] } ≡ t =
      ground (arith, made) in
    subst IsLinked added (record {
      links = λ sub m. elim (In-concat s.subscriptions row sub m) [
        | inl old ↦ h.links sub old
        | inr e ↦ subst (Linked s.follows) (sym e) (record { active = new.0; waiting = new.1 })
      ];
    })

pub delete_subscription-IsLinked :
    (channel : ℕ) (s : RemoteStore) → IsLinked s → IsLinked (delete_subscription channel s).1
unfolding delete_subscription
delete_subscription-IsLinked channel s h = record {
  links = λ sub m. h.links sub (In-delete_first (in_channel channel) s.subscriptions sub m);
}

-- no subscription that is not failed stands on the Follow of a community
abbrev pub Unused : String → RemoteStore → Type 0
Unused community s =
    (sub : Subscription)
    → In sub s.subscriptions
    → sub.status ≢ failed
    → sub.lemmy_community_actor_id ≢ community

pub absent-Unused :
    (community : String) (s : RemoteStore)
    → IsLinked s
    → follow_status community s.follows ≢ some accepted
    → follow_status community s.follows ≢ some pending
    → Unused community s
absent-Unused community s h no_accepted no_pending sub m live e =
    let l = h.links sub m in
    elim sub.status as (λ st. sub.status ≡ st → ⊥) [
      | pending ↦
          λ p. no_pending (subst (λ c. follow_status c s.follows ≡ some pending) e (l.waiting p))
      | accepted ↦
          λ p. no_accepted (subst (λ c. follow_status c s.follows ≡ some accepted) e (l.active p))
      | failed ↦ λ p. live p
    ]
      refl

pub create_bridge_actor_follow-IsLinked :
    (now : ℕ) (community : String) (activity inbox : Option String) (st : FollowStatus)
    (s t : RemoteStore)
    → IsLinked s
    → create_bridge_actor_follow now community activity inbox st s ≡ ok t
    → IsLinked t
      × (follow_status community t.follows ≡ some st)
      × (t.subscriptions ≡ s.subscriptions)
unfolding create_bridge_actor_follow
create_bridge_actor_follow-IsLinked now community activity inbox st s t h made =
    let f = new_follow now (next_id (λ (r : Follow). r.id) s.follows) community activity inbox st in
    let free : any (follows_community community) s.follows ≡ false = ground (arith, made) in
    let added : record s { follows = s.follows ++ f ∷ [] } ≡ t = ground (arith, made) in
    let none_yet = follow_status-absent community s.follows free in
    let unused =
      absent-Unused community s h (λ e. ground (arith, e, none_yet))
        (λ e. ground (arith, e, none_yet)) in
    subst
      (λ (u : RemoteStore).
        IsLinked u
        × (follow_status community u.follows ≡ some st)
        × (u.subscriptions ≡ s.subscriptions))
      added
      (
        record {
          links = λ sub m.
              Linked-follows s.follows (s.follows ++ f ∷ []) sub
                (λ live.
                  follow_status-append sub.lemmy_community_actor_id s.follows f
                    (λ e. unused sub m live (sym e)))
                (h.links sub m);
        },
        follow_status-new s.follows f free,
        refl,
      )

pub delete_bridge_actor_follow-IsLinked :
    (community : String) (s : RemoteStore)
    → IsLinked s
    → Unused community s
    → IsLinked (delete_bridge_actor_follow community s).1
unfolding delete_bridge_actor_follow
delete_bridge_actor_follow-IsLinked community s h unused = record {
  links = λ sub m.
      Linked-follows s.follows (delete_first (follows_community community) s.follows) sub
        (λ live.
          follow_status-deleted community sub.lemmy_community_actor_id s.follows
            (unused sub m live))
        (h.links sub m);
}

-- every pending subscription of the community is accepted with its Follow
accepted-Linked :
    (now : ℕ) (community : String) (s : RemoteStore) (sub : Subscription)
    → IsLinked s
    → any (follows_community community) s.follows ≡ true
    → In sub (update_where (is_pending_of community) (accept_subscription now) s.subscriptions)
    → Linked (update_first (follows_community community) (accept_follow now) s.follows) sub
accepted-Linked now community s sub h present m =
    let after = update_first (follows_community community) (accept_follow now) s.follows in
    let own = follow_status-accepted_self now community s.follows present in
    let (x, here, c) =
      In-of_update (is_pending_of community) (accept_subscription now) s.subscriptions sub m in
    elim c [
      | inl (hit, e) ↦
          let same : sub.lemmy_community_actor_id ≡ community = ground (arith, hit, e) in
          record { active = λ a. rw same own; waiting = λ p. ground (arith, e, p) }
      | inr (miss, e) ↦ elim (Bool-cases (of_community community x)) [
        | inl mine ↦
            let same : sub.lemmy_community_actor_id ≡ community = ground (arith, mine, e) in
            record { active = λ a. rw same own; waiting = λ p. ground (arith, miss, mine, e, p) }
        | inr other ↦
            let differs : sub.lemmy_community_actor_id ≢ community =
              λ p. ground (arith, p, other, e) in
            Linked-follows s.follows after sub
              (λ live.
                follow_status-accepted now community sub.lemmy_community_actor_id s.follows differs)
              (subst (Linked s.follows) (sym e) (h.links x here))
      ]
    ]

pub mark_bridge_actor_follow_accepted-IsLinked :
    (now : ℕ) (community : String) (s t : RemoteStore)
    → IsLinked s
    → mark_bridge_actor_follow_accepted now community s ≡ ok t
    → IsLinked t
unfolding mark_bridge_actor_follow_accepted
mark_bridge_actor_follow_accepted-IsLinked now community s t h made =
    let present : any (follows_community community) s.follows ≡ true = ground (arith, made) in
    let written : record {
      follows = update_first (follows_community community) (accept_follow now) s.follows;
      subscriptions =
          update_where (is_pending_of community) (accept_subscription now) s.subscriptions;
    }
        ≡ t =
      ground (arith, made) in
    subst IsLinked written
      (record { links = λ sub m. accepted-Linked now community s sub h present m })
