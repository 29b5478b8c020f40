-- ===== src/Remote/Steps.antt =====
-- src/operations/subscribe.py and unsubscribe.py: what commands and Accepts, each of them undisturbed,
-- keep of the two tables.
use discord_fediverse_bridge.Base.{
  ℕ, ◌≡◌, subst, arith, String, Bool, Option, none, some, ◌==◌, nat_eq, string_eq, ok, bind-ok,
  Bool-cases, inl, inr, transaction, transaction-cases,
}
use discord_fediverse_bridge.Remote.{
  pending, accepted, follow_status_eq, Follow, RemoteStore, mark_bridge_actor_follow_accepted,
}
use discord_fediverse_bridge.Remote.Operations.{
  SubscribeInput, FollowResult, subscribe, unsubscribe, accept_with, handle_follow_accepted,
  promote, maybe_implicit_accept,
}
use discord_fediverse_bridge.Remote.Linked.{IsLinked, mark_bridge_actor_follow_accepted-IsLinked}
use discord_fediverse_bridge.Remote.Commands.{subscribe-IsLinked, unsubscribe-IsLinked}

accept_with-IsLinked :
    (now : ℕ) (f : Option Follow) (s : RemoteStore) (n : ℕ) (t : RemoteStore)
    → IsLinked s
    → accept_with now f s ≡ ok (n, t)
    → IsLinked t
accept_with-IsLinked now none s n t h e = subst IsLinked (ground (arith, e)) h
accept_with-IsLinked now (some f) s n t h e = elim (Bool-cases (f.status == accepted)) [
  | inl a ↦ subst IsLinked (ground (arith, a, e)) h
  | inr a ↦
      let marked = rw a at e in
      let (u, made, same) =
        bind-ok (mark_bridge_actor_follow_accepted now f.community_actor_id s) _ (n, t) marked in
      subst IsLinked (ground (arith, same))
        (mark_bridge_actor_follow_accepted-IsLinked now f.community_actor_id s u h made)
]

promote-IsLinked :
    (now : ℕ) (community : String) (f : Option Follow) (s : RemoteStore) (n : ℕ) (t : RemoteStore)
    → IsLinked s
    → promote now community f s ≡ ok (n, t)
    → IsLinked t
promote-IsLinked now community none s n t h e = subst IsLinked (ground (arith, e)) h
promote-IsLinked now community (some f) s n t h e = elim (Bool-cases (f.status == pending)) [
  | inl a ↦
      let marked = rw a at e in
      let (u, made, same) =
        bind-ok (mark_bridge_actor_follow_accepted now community s) _ (n, t) marked in
      subst IsLinked (ground (arith, same))
        (mark_bridge_actor_follow_accepted-IsLinked now community s u h made)
  | inr a ↦ subst IsLinked (ground (arith, a, e)) h
]

-- One command, Accept or event of a community, from its start to its end.
pub data RemoteStep (s : RemoteStore) : RemoteStore → Type 0 where
  subscribes :
      (now : ℕ) (registered allowed : Bool) (answer : Option FollowResult) (i : SubscribeInput)
      → RemoteStep s (subscribe now registered allowed answer i s).1
  unsubscribes :
      (allowed answer : Bool) (channel : ℕ) → RemoteStep s (unsubscribe allowed answer channel s).1
  accepts :
      (now : ℕ) (activity : String)
      → RemoteStep s (transaction s (handle_follow_accepted now activity s)).1
  implicitly_accepts :
      (now : ℕ) (community : String)
      → RemoteStep s (transaction s (maybe_implicit_accept now community s)).1

pub data RemoteReach (s : RemoteStore) : RemoteStore → Type 0 where
  here : RemoteReach s s
  next : {t u : RemoteStore} → RemoteReach s t → RemoteStep t u → RemoteReach s u

step-IsLinked : {s t : RemoteStore} → IsLinked s → RemoteStep s t → IsLinked t
unfolding handle_follow_accepted maybe_implicit_accept
step-IsLinked {s} h (RemoteStep.subscribes now registered allowed answer i) =
    subscribe-IsLinked now registered allowed answer i s h
step-IsLinked {s} h (RemoteStep.unsubscribes allowed answer channel) =
    unsubscribe-IsLinked allowed answer channel s h
step-IsLinked {s} h (RemoteStep.accepts now activity) =
    transaction-cases IsLinked s (handle_follow_accepted now activity s) h
      (λ n t e. accept_with-IsLinked now _ s n t h e)
step-IsLinked {s} h (RemoteStep.implicitly_accepts now community) =
    transaction-cases IsLinked s (maybe_implicit_accept now community s) h
      (λ n t e. promote-IsLinked now community _ s n t h e)

-- Whatever commands, Accepts and events of communities come in one after the other, with any answers of the policy and of the
-- gateway: an accepted subscription always stands on an accepted Follow of its community, and a pending
-- one on a pending Follow.
pub RemoteReach-IsLinked : {s t : RemoteStore} → IsLinked s → RemoteReach s t → IsLinked t
RemoteReach-IsLinked h here = h
RemoteReach-IsLinked h (next path step) = step-IsLinked (RemoteReach-IsLinked h path) step
