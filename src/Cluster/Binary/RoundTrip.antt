-- ===== src/Cluster/Binary/RoundTrip.antt =====
-- What a reader makes of what the writer of the same side of the protocol sent.
pub mod Steps
pub mod Request
pub mod Response
