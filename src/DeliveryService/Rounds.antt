-- ===== src/DeliveryService/Rounds.antt =====
-- src/user_actor_delivery.py: a round of the service, and the immediate attempt for one source. The
-- call that renders a source is an argument, and so is what other tasks do to the tables while it is
-- awaited.
use discord_fediverse_bridge.DeliveryService.Requests.{
  Outside, invalid, cancelled, failure, Attempt, returns, raises,
}
use discord_fediverse_bridge.Base.{
  ℕ, ◌+◌, String, Bool, true, false, Option, none, some, List, [], ◌∷◌, ◌==◌, nat_eq, if◌then◌else◌,
}
use discord_fediverse_bridge.Delivery.{Source, Store, source_state_eq}
use discord_fediverse_bridge.Delivery
use discord_fediverse_bridge.Delivery.Claims.{source_of}
use discord_fediverse_bridge.Delivery.Render.{
  due_source_ids, record_rendered, record_render_failure,
}
use discord_fediverse_bridge.Delivery.Outcomes.{release_terminal_source_media, source_summary}
use discord_fediverse_bridge.Mutation.{MutationStore, Library}
use discord_fediverse_bridge.DeliveryService.{World, drain_deliveries}
use discord_fediverse_bridge.DeliveryService.Mutations.{drain_mutations}
use discord_fediverse_bridge.DeliveryService.Reconciliations.{Surroundings, drain_reconciliations}

-- `ProfileFanoutSummary`
pub record ProfileFanoutSummary : Type 0 where
  pub source_id : ℕ
  pub total : ℕ
  pub delivered : ℕ
  pub outstanding : ℕ
  pub render_pending : Bool

-- `render_user_actor_profile_update` reads the text of the snapshot and answers with that of the
-- activity.
pub record Renderer : Type 0 where
  pub render_user_actor_profile_update : String → String → Attempt String
  pub meanwhile : ℕ → MutationStore → MutationStore
  pub rendered_at : ℕ → ℕ

-- how the rendering of a source ends: recorded, recorded as a failure, or left by a cancellation
pub data Rendering : Type 0 where
  recorded unrendered left : Rendering

abbrev pub with_outbound : MutationStore → Store → MutationStore
with_outbound s outbound = record s { outbound = outbound }

unfoldable pub after_rendering : Renderer → ℕ → Attempt String → Store → Rendering × Store
after_rendering r id (returns activity) s = (
  recorded,
  (release_terminal_source_media id (record_rendered (r.rendered_at id) id activity s).1).1,
)
after_rendering r id (raises cancelled) s = (left, s)
after_rendering r id (raises (invalid text)) s =
    (unrendered, record_render_failure (r.rendered_at id) id text s)
after_rendering r id (raises (failure text)) s =
    (unrendered, record_render_failure (r.rendered_at id) id text s)

unfoldable pub render_source : Renderer → Source → MutationStore → Rendering × MutationStore
render_source r src s =
    let t = r.meanwhile src.id s in
    let (ended, outbound) =
      after_rendering r src.id
        (r.render_user_actor_profile_update src.activity_id src.snapshot_json) t.outbound in
    (ended, with_outbound t outbound)

-- the loop over the sources that are due: whether a cancellation left it, and the number of sources
unfoldable pub render_sources : Renderer → List ℕ → MutationStore → Bool × ℕ × MutationStore
render_sources r [] s = (false, 0, s)
render_sources r (id ∷ ids) s = elim (source_of s.outbound id) [
  | none ↦ render_sources r ids s
  | some src ↦
      let (ended, t) = render_source r src s in
      let (stop, n, u) = render_sources r ids t in
      elim ended [
        | recorded ↦ (stop, 1 + n, u)
        | unrendered ↦ (stop, 1 + n, u)
        | left ↦ (true, n, t)
      ]
]

module _ (w : World) (r : Renderer) (token_hex : ℕ → String) (now : ℕ) where
  abbrev pub fanout_summary : ℕ → Bool → MutationStore → ProfileFanoutSummary
  fanout_summary id pending s =
      let (delivered, outstanding, total) = source_summary id s.outbound in
      record {
        source_id = id;
        total = total;
        delivered = delivered;
        outstanding = outstanding;
        render_pending = pending;
      }

  -- `drain_deliveries` with its batch of 20, and the summary
  unfoldable pub drain_and_summarize :
      ℕ → MutationStore → Attempt ProfileFanoutSummary × MutationStore
  drain_and_summarize id s =
      let t = with_outbound s (drain_deliveries w token_hex now 20 s.outbound).store in
      (returns (fanout_summary id false t), t)

  abbrev pub after_source :
      ℕ → Rendering × MutationStore → Attempt ProfileFanoutSummary × MutationStore
  after_source id (recorded, s) = drain_and_summarize id s
  after_source id (unrendered, s) = (returns (fanout_summary id true s), s)
  after_source id (left, s) = (raises cancelled, s)

  unfoldable pub process_source : ℕ → MutationStore → Attempt ProfileFanoutSummary × MutationStore
  process_source id s = elim (source_of s.outbound id) [
    | none ↦ (raises (failure "outbound source not found"), s)
    | some src ↦
        let now_ready = drain_and_summarize id s in
        let rendering = after_source id (render_source r src s) in
        if src.state == discord_fediverse_bridge.Delivery.SourceState.ready
        then now_ready
        else rendering
  ]

-- The outside of a round: a drain of each kind at its own time, with its own draws of tokens.
pub record Round : Type 0 where
  pub outside : Outside
  pub surroundings : Surroundings
  pub renderer : Renderer
  pub world : World
  pub mutation_tokens : ℕ → String
  pub delivery_tokens : ℕ → String
  pub reconciled_at : ℕ
  pub mutated_at : ℕ
  pub scanned_at : ℕ
  pub claimed_at : ℕ

module _ (lib : Library) (o : Round) (source_limit delivery_limit : ℕ) where
  abbrev pub transport : ℕ → Bool × ℕ × MutationStore → Option ℕ × MutationStore
  transport processed (true, n, s) = (none, s)
  transport processed (false, n, s) =
      let d = drain_deliveries o.world o.delivery_tokens o.claimed_at delivery_limit s.outbound in
      (some (processed + n + d.processed), with_outbound s d.store)

  abbrev pub after_mutations : ℕ → Option ℕ × MutationStore → Option ℕ × MutationStore
  after_mutations processed (none, s) = (none, s)
  after_mutations processed (some n, s) =
      transport (processed + n)
        (render_sources o.renderer (due_source_ids o.scanned_at source_limit s.outbound) s)

  abbrev pub after_reconciliations : Option ℕ × MutationStore → Option ℕ × MutationStore
  after_reconciliations (none, s) = (none, s)
  after_reconciliations (some n, s) =
      after_mutations n
        (drain_mutations lib o.outside o.mutation_tokens o.mutated_at source_limit s)

  -- the number of rows processed; `none` is an exception, with what was done before it
  unfoldable pub drain_once : MutationStore → Option ℕ × MutationStore
  drain_once s =
      after_reconciliations
        (drain_reconciliations lib o.surroundings o.reconciled_at source_limit s)
