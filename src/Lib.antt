-- ===== src/Lib.antt =====
-- A model of the Discord-Fediverse bridge: the durable state that it keeps in SQLite, and the
-- operations on it that decide what is sent, to whom, how often and in which order.
--
-- Base is what the other parts share: equality tests, lists as query results, tables as lists of
-- rows
-- in the order of their ids, UPDATE statements and what they do row by row, and calls that may
-- raise.
--
-- Delivery models the outbound deliveries of User Actors (src/db/repositories/user_actor_*.py, the
-- rows of src/models.py). `Store` holds the tables. Claims and its children are
-- `UserActorDeliveryClaimRepository`: Claims has the queries, Claims/Batch the loop of `claim_due`
-- as
-- a fold over the candidates, the rest what is shown of a batch. Outcomes is
-- `UserActorDeliveryOutcomeRepository`, Admin the calls of `UserActorDeliveryAdminRepository`,
-- Render the rendering calls of `UserActorDeliveryRepository`, Diagnostics
-- `bound_delivery_error` with its regular expressions written out. Lifecycle puts the calls
-- together
-- as a step relation, those that make a source (Sources) included, with what any sequence of them
-- keeps. A worker holds a claim by its token:
-- `claim_due` gives it out, the calls of Outcomes compare it.
--
-- Sources makes a source with its audience (`UserActorDeliverySourceRepository`).
--
-- DeliveryService is `UserActorDeliveryService` (src/user_actor_delivery.py) over those calls and
-- the ones of Mutation. Its own file is `drain_deliveries`: it claims, asks the policy, groups by
-- actor, calls the gateway and reports. The record `World` has the policy, the gateway and the
-- times of the calls; each may answer or raise. DeliveryService/Mutations is `drain_mutations` with
-- the two submissions (DeliveryService/Requests has what they ask of the gateway),
-- DeliveryService/Reconciliations `drain_reconciliations`, DeliveryService/Rounds `drain_once` and
-- `process_source`, which render sources. There the calls that the service awaits may raise a
-- ValueError, a cancellation or another exception, and let other tasks change the tables
-- (`meanwhile`). In `drain_deliveries` what other tasks do while it waits, and a cancelled worker,
-- which leaves its claims to the next stale scan, are not modelled.
--
-- IdentityUrls has the URLs of actors, objects and activities (src/activitypub_identity_urls.py),
-- IdentityUrls/Address the address family and its parser. What is known of `urllib.parse` is the
-- record `Documented` of IdentityUrls/Origins.
--
-- Mutation models the edits and deletions of published objects
-- (src/db/repositories/content_mutations.py). `MutationStore` holds the published objects, the
-- reservations and the tables of Delivery. Desired is what Discord asks for, Reserve the
-- reservation
-- of the next transition, Claims and Reports the work of a recovery owner, Commit the commit that
-- makes the source of the followers, Reconcile the convergence to a fetched message. Lifecycle is
-- the
-- step relation over all of it, with the invariant that reservations are single and current.
--
-- Ban models the bans of an account in a community or on the whole bridge
-- (src/db/repositories/community_actor_bans.py), Ban/Decisions who is held to be banned
-- (src/user_bans.py). A scope key is a data type for the two forms of its text.
--
-- Policy models who may use the bridge (src/bridge_policy.py): Policy has the snapshot, its merge
-- of
-- settings and rows and the decisions, Policy/Subjects the normalization, Policy/Entries the rows
-- (src/db/repositories/bridge_policy_entries.py). The other modules are what is shown of them. The
-- record `Python` has the library functions that normalization calls.
--
-- Remote models the remote communities that channels show: the two tables and their repositories
-- (src/db/repositories/remote_subscriptions.py, bridge_actor_follows.py), and in Remote/Operations
-- what changes them (src/operations/subscribe.py, unsubscribe.py and `handle_follow_accepted` of
-- src/activitypub_handlers.py, with its implicit acceptance). An operation that calls the gateway
-- is two functions, up to the call
-- and after it, so that what runs in between can be put there. Remote/Steps has the operations that
-- nothing disturbs, Remote/Release what an applied unsubscribe leaves, Remote/Race an operation
-- that is
-- disturbed. Remote/Follows, Linked and Commands are lemmas.
--
-- Relay models what the remote subscribers of a local community get of an inbound activity:
-- Relay/Subscribers and Relay/Deliveries are the repositories
-- (src/db/repositories/remote_subscribers.py, local_community_relay.py), Relay/Fanout
-- `LocalCommunityFederationFanout` (src/local_communities/federation_fanout.py). `plan` is
-- `_relay_to_targets` up to the gateway, `send` the call and its outcomes. The policy, the renderer
-- (src/local_communities/activitypub_renderers.py, not modelled) and the gateway are the record
-- `World`.
--
-- Forum chooses the names of new forum channels (src/discord_forum_placement.py), with Python's
-- `re`
-- written out on texts. Its loop runs over the 99 suffixes.
--
-- Times are numbers of seconds; the current time and the draws of `secrets.token_hex` are
-- arguments,
-- and so are SHA-256, JSON texts and `urllib.parse`, in the record `Library`. A JSON column holds
-- the
-- text that is stored in it. A transaction is one function on the store, as the writer reservation
-- makes it in SQLite; one that raises leaves the store as it was. The loops run over lists of rows,
-- so
-- no fuel is needed. Text is compared by its UTF-8 bytes, which is SQLite's order. Not modelled:
-- Discord and HTTP calls, migrations, and in Delivery and Mutation the times of rows
-- (`created_at`, `updated_at`) that no modelled call reads.
pub mod Base
pub mod Delivery
pub mod Mutation
pub mod Ban
pub mod Policy
pub mod DeliveryService
pub mod Forum
pub mod IdentityUrls
pub mod Relay
pub mod Remote
