-- ===== src/Delivery/Admin.antt =====
-- src/db/repositories/user_actor_delivery_admin.py: the retries and diagnostics of the operator.
pub mod Owner
use discord_fediverse_bridge.Base.{
  ℕ, ◌-◌, String, Bool, true, false, ◌&&◌, ◌||◌, Option, none, some, List, [], ◌∷◌, map, leb, ltb,
  if◌then◌else◌, ◌==◌, ◌!=◌, nat_eq, string_eq, Eq, contains, filter, any, take, sort_by, length,
  Result, ok, raised, value_error,
}
use discord_fediverse_bridge.Base.Table.{update_where, get}
use discord_fediverse_bridge.Delivery.{
  pending, failed, status_eq, Status, SourceKind, Delivery, Source, Audience, Store, User,
}
use discord_fediverse_bridge.Delivery.Diagnostics.{bound_delivery_error}
use discord_fediverse_bridge.Delivery.Claims.{source_of}
use discord_fediverse_bridge.Delivery.Outcomes.{with_deliveries}

pub data Outcome : Type 0 where
  success not_found ownership_mismatch not_retryable : Outcome

-- `DeliveryRetryResult`
pub record RetryResult : Type 0 where
  pub matched : ℕ
  pub reset : ℕ
  pub skipped : ℕ
  pub remaining : ℕ
  pub outcome : Outcome

-- the owner of a delivery, by the joins on its source and that source's user
unfoldable pub owner_of : Store → Delivery → Option String
owner_of s d = elim (source_of s d.source_id) [
  | none ↦ none
  | some src ↦ elim (get (λ (u : User). u.id) src.user_id s.users) [
    | none ↦ none
    | some user ↦ some user.activitypub_username
  ]
]

abbrev pub matches_id : Option ℕ → ℕ → Bool
matches_id none k = true
matches_id (some wanted) k = k == wanted

-- the selected rows, with their owners; only their number and their ids matter, not their order
unfoldable pub selected : Option ℕ → Option ℕ → Store → List Delivery → List (ℕ × String)
selected delivery_id source_id s [] = []
selected delivery_id source_id s (d ∷ ds) =
    let rest = selected delivery_id source_id s ds in
    elim (owner_of s d) [
      | none ↦ rest
      | some owner ↦
          if matches_id delivery_id d.id && matches_id source_id d.source_id
          then (d.id, owner) ∷ rest
          else rest
    ]

abbrev pub ids_of : List (ℕ × String) → List ℕ
ids_of = map (λ (k, owner). k)

-- WHERE id IN ids AND status = 'failed'
unfoldable pub is_retryable : List ℕ → Delivery → Bool
is_retryable ids d = contains ids d.id && d.status == failed

abbrev pub reset : Delivery → Delivery
reset d = record d {
  status = pending;
  claim_token = Option.none;
  claimed_at = Option.none;
  next_attempt_at = Option.none;
  last_error = Option.none;
}

abbrev pub is_other_owner : Option String → ℕ × String → Bool
is_other_owner none row = false
is_other_owner (some username) (k, owner) = owner != username

unfoldable pub retry_failed : Option ℕ → Option ℕ → Option String → Store → RetryResult × Store
retry_failed delivery_id source_id username s =
    let rows = selected delivery_id source_id s s.deliveries in
    let n = length rows in
    let k = length (filter (is_retryable (ids_of rows)) s.deliveries) in
    if n == 0
    then (record { matched = 0; reset = 0; skipped = 0; remaining = 0; outcome = not_found }, s)
    else if any (is_other_owner username) rows
    then (
      record { matched = n; reset = 0; skipped = n; remaining = 0; outcome = ownership_mismatch },
      s,
    )
    else if k == 0
    then (record { matched = n; reset = 0; skipped = n; remaining = 0; outcome = not_retryable }, s)
    else (
      record { matched = n; reset = k; skipped = n - k; remaining = 0; outcome = success },
      with_deliveries s (update_where (is_retryable (ids_of rows)) reset s.deliveries),
    )

abbrev is_failed_of : Store → String → Delivery → Bool
is_failed_of s username d =
    d.status == failed && (elim (owner_of s d) [ none ↦ false | some owner ↦ owner == username ])

-- the failed rows of one user, in the order of their ids
unfoldable pub failed_ids : Store → String → List ℕ
failed_ids s username =
    map (λ (d : Delivery). d.id)
      (sort_by (λ d e. leb d.id e.id) (filter (is_failed_of s username) s.deliveries))

unfoldable pub retry_failed_batch : String → ℕ → Store → Result (RetryResult × Store)
retry_failed_batch username limit s =
    let all = failed_ids s username in
    let ids = take limit all in
    if ltb limit 1 || ltb 100 limit
    then raised value_error
    else ok (
      record {
        matched = length all;
        reset = length ids;
        skipped = 0;
        remaining = length all - length ids;
        outcome = success;
      },
      with_deliveries s (update_where (is_retryable ids) reset s.deliveries),
    )

-- `DeliveryDiagnostic`
pub record Diagnostic : Type 0 where
  pub delivery_id : ℕ
  pub source_id : ℕ
  pub username : String
  pub source_kind : SourceKind
  pub logical_version : ℕ
  pub activity_id : String
  pub target_endpoint_url : String
  pub represented_actor_ids : List String
  pub status : Status
  pub attempt_count : ℕ
  pub last_attempted_at : Option ℕ
  pub next_attempt_at : Option ℕ
  pub last_error : Option String

abbrev shown_error : Option String → Option String
shown_error none = none
shown_error (some text) = if text == "" then none else some (bound_delivery_error text)

abbrev by_audience_id : Audience → Audience → Bool
by_audience_id a b = leb a.id b.id

abbrev actors_of : Store → Delivery → List String
actors_of s d =
    map (λ (a : Audience). a.remote_actor_id)
      (sort_by by_audience_id (filter (λ (a : Audience). a.delivery_id == d.id) s.audience))

abbrev diagnostic_of : Store → Delivery → Source → User → Diagnostic
diagnostic_of s d src user = record {
  delivery_id = d.id;
  source_id = src.id;
  username = user.activitypub_username;
  source_kind = src.source_kind;
  logical_version = src.logical_version;
  activity_id = src.activity_id;
  target_endpoint_url = d.target_endpoint_url;
  represented_actor_ids = actors_of s d;
  status = d.status;
  attempt_count = d.attempt_count;
  last_attempted_at = d.last_attempted_at;
  next_attempt_at = d.next_attempt_at;
  last_error = shown_error d.last_error;
}

-- the joined row of a delivery that the filters let through
abbrev is_wanted {ℓ} : {A : Type ℓ} → ⦃e : Eq A⦄ → Option A → A → Bool
is_wanted none x = true
is_wanted (some wanted) x = x == wanted

diagnose : Option String → Option Status → Store → Delivery → Option Diagnostic
diagnose username st s d = elim (source_of s d.source_id) [
  | none ↦ none
  | some src ↦ elim (get (λ (u : User). u.id) src.user_id s.users) [
    | none ↦ none
    | some user ↦
        if is_wanted username user.activitypub_username && is_wanted st d.status
        then some (diagnostic_of s d src user)
        else none
  ]
]

diagnoses : Option String → Option Status → Store → List Delivery → List Diagnostic
diagnoses username st s [] = []
diagnoses username st s (d ∷ ds) = elim (diagnose username st s d) [
  | none ↦ diagnoses username st s ds
  | some x ↦ x ∷ diagnoses username st s ds
]

abbrev by_row_id : Delivery → Delivery → Bool
by_row_id a b = leb a.id b.id

unfoldable pub list_diagnostics :
    Option String → Option Status → ℕ → Store → Result (List Diagnostic)
unfolding diagnoses diagnose
list_diagnostics username st limit s =
    let rows = diagnoses username st s (sort_by by_row_id s.deliveries) in
    if ltb limit 1 || ltb 500 limit then raised value_error else ok (take limit rows)
