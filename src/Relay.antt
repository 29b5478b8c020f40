-- ===== src/Relay.antt =====
-- src/local_communities/federation_fanout.py and the repositories it calls: what remote subscribers of
-- a local community get of an inbound activity.
pub mod Subscribers
mod Unique
pub mod Deliveries
pub mod Fanout
mod Sent
mod Reaches
mod Stale
mod Tests
