-- ===== src/Delivery/Claims.antt =====
-- src/db/repositories/user_actor_delivery_claims.py: which deliveries one batch claims.
pub mod Batch
pub mod Candidates
pub mod Narrowing
pub mod Progress
pub mod Induction
pub mod Ownership
pub mod Order
pub mod Barrier
pub mod Limits
use discord_fediverse_bridge.Base.{
  ℕ, zero, suc, ◌+◌, String, Bool, true, false, ◌&&◌, ◌||◌, not, Option, none, some, List, [], ◌∷◌,
  ◌++◌, map, ltb, leb, text_leb, if◌then◌else◌, is_some, or_else, ◌==◌, ◌!=◌, contains, nat_eq,
  string_eq, filter, any, sort_by, length,
}
use discord_fediverse_bridge.Base.Table.{update_where, get}
use discord_fediverse_bridge.Delivery.{
  SourceKind, SourceState, profile_update, content_create, content_update, content_delete, Status,
  pending, sending, delivered, failed, ineligible, superseded, source_kind_eq, source_state_eq,
  status_eq, Source, is_unfinished, Delivery, Audience, Follower, User, Store, Claim,
}

-- the row with the id, `session.get(UserActorOutboundSource, …)`, also the inner join on it
unfoldable pub source_of : Store → ℕ → Option Source
source_of s k = get (λ r. r.id) k s.sources

-- a due time that has come: `next_attempt_at IS NULL OR next_attempt_at <= now`
abbrev pub is_due : ℕ → Option ℕ → Bool
is_due now none = true
is_due now (some t) = leb t now

-- `claimed_at <= now - stale_after_seconds`; a NULL `claimed_at` is no match
abbrev pub is_stale : ℕ → ℕ → Option ℕ → Bool
is_stale now stale_after none = false
is_stale now stale_after (some t) = leb (t + stale_after) now

unfoldable pub is_candidate : ℕ → ℕ → Delivery → Source → Bool
is_candidate now stale_after d src =
    src.state == SourceState.ready
    && ((d.status == pending || d.status == failed) && is_due now d.next_attempt_at
        || d.status == sending && is_stale now stale_after d.claimed_at)

abbrev kind_rank : SourceKind → ℕ
kind_rank content_delete = 0
kind_rank _ = 1

-- ORDER BY: the later keys decide where the earlier ones are equal
candidate_leb : Delivery × Source → Delivery × Source → Bool
candidate_leb (d, s) (e, t) =
    if s.user_id != t.user_id
    then ltb s.user_id t.user_id
    else if d.target_endpoint_url != e.target_endpoint_url
    then text_leb d.target_endpoint_url e.target_endpoint_url
    else if kind_rank s.source_kind != kind_rank t.source_kind
    then ltb (kind_rank s.source_kind) (kind_rank t.source_kind)
    else if s.logical_version != t.logical_version
    then ltb s.logical_version t.logical_version
    else if s.id != t.id
    then ltb s.id t.id
    else leb d.id e.id

joined_candidates : ℕ → ℕ → Store → List Delivery → List (Delivery × Source)
joined_candidates now stale_after s [] = []
joined_candidates now stale_after s (d ∷ ds) =
    let rest = joined_candidates now stale_after s ds in
    elim (source_of s d.source_id) [
      | none ↦ rest
      | some src ↦ if is_candidate now stale_after d src then (d, src) ∷ rest else rest
    ]

unfoldable pub load_due_candidates : ℕ → ℕ → Store → List (Delivery × Source)
unfolding joined_candidates candidate_leb
load_due_candidates now stale_after s =
    sort_by candidate_leb (joined_candidates now stale_after s s.deliveries)

-- `dict.get(user_id, 0)` and the increment, on an association list
abbrev pub claimed_count : ℕ → List (ℕ × ℕ) → ℕ
claimed_count u [] = 0
claimed_count u ((v, n) ∷ rest) = let others = claimed_count u rest in if v == u then n else others

abbrev pub count_claim : ℕ → List (ℕ × ℕ) → List (ℕ × ℕ)
count_claim u per_user = (u, claimed_count u per_user + 1) ∷ per_user

-- the set of endpoint keys (user id, endpoint) of this batch
abbrev pub seen_endpoint : ℕ → String → List (ℕ × String) → Bool
seen_endpoint u url [] = false
seen_endpoint u url ((v, w) ∷ rest) = (v == u && w == url) || seen_endpoint u url rest

unfoldable pub within_claim_limits : ℕ → String → List (ℕ × String) → List (ℕ × ℕ) → ℕ → Bool
within_claim_limits user_id url seen per_user limit =
    not (seen_endpoint user_id url seen) && ltb (claimed_count user_id per_user) limit

-- `other` competes with the candidate: same ordering key and endpoint, another version
abbrev pub same_lane : Source → Delivery → Source → Delivery → Bool
same_lane src d other_src other =
    other_src.ordering_key == src.ordering_key && other.target_endpoint_url == d.target_endpoint_url

abbrev is_visible_delete_status : Status → Bool
is_visible_delete_status pending = true
is_visible_delete_status failed = true
is_visible_delete_status sending = true
is_visible_delete_status delivered = true
is_visible_delete_status _ = false

-- ORDER BY logical_version DESC LIMIT 1 over the matching rows
newest_delete : Store → Source → Delivery → List Delivery → Option (ℕ × Status)
newest_delete s src d [] = none
newest_delete s src d (o ∷ os) =
    let rest = newest_delete s src d os in
    elim (source_of s o.source_id) [
      | none ↦ rest
      | some t ↦
          if same_lane src d t o
            && ltb src.logical_version t.logical_version
            && t.source_kind == content_delete
            && is_visible_delete_status o.status
          then (elim rest [
            | none ↦ some (t.logical_version, o.status)
            | some (v, st) ↦
                if ltb t.logical_version v then some (v, st) else some (t.logical_version, o.status)
          ])
          else rest
    ]

unfoldable pub newer_delete_status : Store → Delivery → Source → Option Status
unfolding newest_delete
newer_delete_status s d src =
    if src.source_kind == content_create || src.source_kind == content_update
    then (elim (newest_delete s src d s.deliveries) [ none ↦ none | some (v, st) ↦ some st ])
    else none

-- the kind of source whose delivery makes an older one obsolete
abbrev obsoleting_kind : SourceKind → SourceKind
obsoleting_kind profile_update = profile_update
obsoleting_kind _ = content_delete

unfoldable pub has_newer_delivered : Store → Delivery → Source → Bool
has_newer_delivered s d src =
    any
      (λ o. elim (source_of s o.source_id) [
        | none ↦ false
        | some t ↦
            same_lane src d t o
            && t.source_kind == obsoleting_kind src.source_kind
            && ltb src.logical_version t.logical_version
            && o.status == delivered
      ])
      s.deliveries

abbrev pub is_blocking : SourceKind → Status → Bool
is_blocking content_delete sending = true
is_blocking content_delete _ = false
is_blocking _ st = is_unfinished st

-- the row of a lower version that blocks the candidate
abbrev pub blocks : Store → Delivery → Source → Delivery → Bool
blocks s d src o = elim (source_of s o.source_id) [
  | none ↦ false
  | some t ↦
      same_lane src d t o
      && ltb t.logical_version src.logical_version
      && is_blocking src.source_kind o.status
]

unfoldable pub has_lower_unfinished : Store → Delivery → Source → Bool
has_lower_unfinished s d src = any (blocks s d src) s.deliveries

abbrev endpoint_of : Follower → String
endpoint_of f = elim f.remote_shared_inbox_url [ none ↦ f.remote_inbox_url | some url ↦ url ]

-- the audience row still stands for the follower that it was taken from
abbrev is_current : Store → ℕ → ℕ → Audience → Bool
is_current s delivery_id user_id child =
    child.delivery_id == delivery_id
    && (elim (get (λ (f : Follower). f.id) child.relationship_id_snapshot s.followers) [
      | none ↦ false
      | some f ↦
          f.user_id == user_id
          && f.remote_actor_id == child.remote_actor_id
          && endpoint_of f == child.snapshotted_endpoint_url
    ])

unfoldable pub eligible_actor_ids : Store → ℕ → ℕ → List String
eligible_actor_ids s delivery_id user_id =
    map (λ (c : Audience). c.remote_actor_id)
      (sort_by (λ a b. leb a.relationship_id_snapshot b.relationship_id_snapshot)
        (filter (is_current s delivery_id user_id) s.audience))
