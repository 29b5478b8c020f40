-- ===== src/Remote/Follows.antt =====
-- src/db/repositories/bridge_actor_follows.py: how its operations change the status of a Follow.
use discord_fediverse_bridge.Base.{
  ℕ, ◌≡◌, ◌≢◌, refl, ap, arith, String, true, false, Option, none, some, List, [], ◌∷◌, ◌++◌,
  nat_eq, string_eq, any, find,
}
use discord_fediverse_bridge.Base.Table.{update_first, delete_first, find-delete_first}
use discord_fediverse_bridge.Remote.{
  FollowStatus, accepted, follow_status_eq, Follow, follows_community, accept_follow,
}

-- the status of the bridge's Follow of a community
abbrev pub status_of : Option Follow → Option FollowStatus
status_of none = none
status_of (some f) = some f.status

abbrev pub follow_status : String → List Follow → Option FollowStatus
follow_status community follows = status_of (find (follows_community community) follows)

-- a new Follow is that of its community, and no other's changes
pub follow_status-append :
    (community : String) (follows : List Follow) (f : Follow)
    → f.community_actor_id ≢ community
    → follow_status community (follows ++ f ∷ []) ≡ follow_status community follows
unfolding find
follow_status-append community [] f h = ground arith
follow_status-append community (g ∷ gs) f h = ground (arith, follow_status-append community gs f h)

pub follow_status-new :
    (follows : List Follow) (f : Follow)
    → any (follows_community f.community_actor_id) follows ≡ false
    → follow_status f.community_actor_id (follows ++ f ∷ []) ≡ some f.status
unfolding find any
follow_status-new [] f h = ground arith
follow_status-new (g ∷ gs) f h = ground (arith, follow_status-new gs f)

pub follow_status-absent :
    (community : String) (follows : List Follow)
    → any (follows_community community) follows ≡ false
    → follow_status community follows ≡ none
unfolding find any
follow_status-absent community [] h = refl
follow_status-absent community (g ∷ gs) h = ground (arith, follow_status-absent community gs)

pub follow_status-deleted :
    (community other : String) (follows : List Follow)
    → other ≢ community
    → follow_status other (delete_first (follows_community community) follows)
      ≡ follow_status other follows
follow_status-deleted community other follows h = ap status_of (
    find-delete_first (follows_community community) (follows_community other) follows
      (λ f e. ground (arith, e, h)))

pub follow_status-accepted :
    (now : ℕ) (community other : String) (follows : List Follow)
    → other ≢ community
    → follow_status other (update_first (follows_community community) (accept_follow now) follows)
      ≡ follow_status other follows
unfolding find update_first
follow_status-accepted now community other [] h = refl
follow_status-accepted now community other (g ∷ gs) h =
    ground (arith, follow_status-accepted now community other gs h)

pub follow_status-accepted_self :
    (now : ℕ) (community : String) (follows : List Follow)
    → any (follows_community community) follows ≡ true
    → follow_status community
        (update_first (follows_community community) (accept_follow now) follows)
      ≡ some accepted
unfolding find update_first any
follow_status-accepted_self now community [] h = cc
follow_status-accepted_self now community (g ∷ gs) h =
    ground (arith, follow_status-accepted_self now community gs)
