-- ===== src/Delivery/Lifecycle/History.antt =====
-- src/db/repositories/user_actor_deliveries.py: what any number of calls, in any order and by any
-- workers, keeps of the delivery rows.
use discord_fediverse_bridge.Base.{◌≤◌, ◌≡◌, false, In, All, subst, transaction-cases}
use discord_fediverse_bridge.Base.Distinct.{Distinct, Distinct-Rows}
use discord_fediverse_bridge.Base.Table.{Rows, Rows-refl, Rows-trans, In-Rows, All-Rows}
use discord_fediverse_bridge.Delivery.{Delivery, Store, is_unfinished}
use discord_fediverse_bridge.Delivery.Lease.{IsLeased}
use discord_fediverse_bridge.Delivery.Lifecycle.{
  Reach, here, next, Moves, Call, Run, start, then_call,
}
use discord_fediverse_bridge.Delivery.Lifecycle.Inserted.{
  Added, nothing, Added-In, Added-Distinct, Added-IsLeased, insert_source_graph-Added,
  insert_ready_content_source-Added,
}
use discord_fediverse_bridge.Delivery.Sources.{insert_source_graph, insert_ready_content_source}
use discord_fediverse_bridge.Delivery.Lifecycle.Settled.{Moves-refl, Moves-trans, Step-Moves}

abbrev pub HasKeys : Store → Type 0
HasKeys s = Distinct (λ (d : Delivery). d.id) s.deliveries

pub Reach-Moves :
    {s t : Store} → HasKeys s → Reach s t → Rows Moves s.deliveries t.deliveries × HasKeys t
Reach-Moves {s} unique here = (Rows-refl Moves Moves-refl s.deliveries, unique)
Reach-Moves {s} unique (next {t} {u} path step) =
    let (moved, keys) = Reach-Moves unique path in
    let last = Step-Moves keys step in
    (
      Rows-trans Moves Moves-trans s.deliveries t.deliveries u.deliveries moved last,
      Distinct-Rows (λ d. d.id) Moves (λ d e m. m.same_id) t.deliveries u.deliveries last keys,
    )

-- what a call does to the rows: the ids stay distinct, each row moves, and the leases stay right
record Keeps (s t : Store) : Type 0 where
  keys : HasKeys t
  moved : (d : Delivery) → In d s.deliveries → (e : Delivery) × In e t.deliveries × Moves d e
  leased : All IsLeased s.deliveries → All IsLeased t.deliveries

Keeps-Added : {s t : Store} → HasKeys s → Added s.deliveries t.deliveries → Keeps s t
Keeps-Added unique more = record {
  keys = Added-Distinct more unique;
  moved = λ d m. (d, Added-In more d m, Moves-refl d);
  leased = Added-IsLeased more;
}

Keeps-refl : {s : Store} → HasKeys s → Keeps s s
Keeps-refl unique = Keeps-Added unique nothing

Keeps-trans : {s t u : Store} → Keeps s t → Keeps t u → Keeps s u
Keeps-trans a b = record {
  keys = b.keys;
  moved = λ d m.
      let (e, there, first) = a.moved d m in
      let (f, last, second) = b.moved e there in (f, last, Moves-trans d e f first second);
  leased = λ h. b.leased (a.leased h);
}

Call-Keeps : {s t : Store} → HasKeys s → Call s t → Keeps s t
Call-Keeps {s} {t} unique (Call.steps step) =
    let rows = Step-Moves unique step in
    record {
      keys =
          Distinct-Rows (λ d. d.id) Moves (λ d e m. m.same_id) s.deliveries t.deliveries rows
            unique;
      moved = λ d m. In-Rows Moves s.deliveries t.deliveries d rows m;
      leased = All-Rows Moves IsLeased (λ d e m. m.leased) s.deliveries t.deliveries rows;
    }
Call-Keeps {s} unique
      (Call.makes_profile lib profile_key user_id version activity_id snapshot followers
        media_refs) =
    transaction-cases (Keeps s) s
      (insert_source_graph lib profile_key user_id version activity_id snapshot followers media_refs
        s)
      (Keeps-refl unique)
      λ src t e. Keeps-Added unique (
        insert_source_graph-Added lib s profile_key user_id version activity_id snapshot followers
          media_refs src t e)
Call-Keeps {s} unique
      (Call.makes_content lib user_id kind version activity_id published_id object_id activity_json
        snapshot followers direct) =
    transaction-cases (Keeps s) s
      (insert_ready_content_source lib user_id kind version activity_id published_id object_id
        activity_json snapshot followers direct s)
      (Keeps-refl unique)
      λ src t e. Keeps-Added unique (
        insert_ready_content_source-Added lib s user_id kind version activity_id published_id
          object_id activity_json snapshot followers direct src t e)

Run-Keeps : {s t : Store} → HasKeys s → Run s t → Keeps s t
Run-Keeps unique start = Keeps-refl unique
Run-Keeps unique (then_call run call) =
    let before = Run-Keeps unique run in Keeps-trans before (Call-Keeps before.keys call)

-- From tables with distinct ids, a delivery that is delivered, ineligible or superseded is still in
-- the table, unchanged in every column, after any sequence of writing calls of the facade, those that
-- make sources included.
pub Run-settled :
    {s t : Store}
    → Distinct (λ (d : Delivery). d.id) s.deliveries
    → Run s t
    → (d : Delivery) → In d s.deliveries
    → is_unfinished d.status ≡ false
    → In d t.deliveries
Run-settled {s} {t} unique run d m settled =
    let (e, there, moved) = (Run-Keeps unique run).moved d m in
    subst (λ r. In r t.deliveries) (moved.settled settled) there

-- From tables with distinct ids, each delivery keeps a row with its id, source and endpoint through
-- any sequence of writing calls of the facade, the count of its attempts never falls, and the ids stay
-- distinct.
pub Run-attempts :
    {s t : Store}
    → Distinct (λ (d : Delivery). d.id) s.deliveries
    → Run s t
    → (d : Delivery) → In d s.deliveries
    → ((e : Delivery) × In e t.deliveries
        × (e.id ≡ d.id)
        × (e.source_id ≡ d.source_id)
        × (e.target_endpoint_url ≡ d.target_endpoint_url)
        × (d.attempt_count ≤ e.attempt_count))
      × Distinct (λ (e : Delivery). e.id) t.deliveries
Run-attempts unique run d m =
    let kept = Run-Keeps unique run in
    let (e, there, moved) = kept.moved d m in
    ((e, there, moved.same_id, moved.same_source, moved.same_endpoint, moved.attempts), kept.keys)

-- From tables with distinct ids where it holds of every row, any sequence of writing calls of the
-- facade leaves every row, a new one included, with a token and a claim time exactly while it is
-- sending, and with an error within its bound.
pub Run-IsLeased :
    {s t : Store}
    → Distinct (λ (d : Delivery). d.id) s.deliveries
    → All IsLeased s.deliveries
    → Run s t
    → All IsLeased t.deliveries
Run-IsLeased unique leased run = (Run-Keeps unique run).leased leased
