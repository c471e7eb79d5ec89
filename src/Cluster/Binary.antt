-- ===== src/Cluster/Binary.antt =====
-- pkg/cluster/binary.go: the framing of inter-query requests and responses.
-- A writer returns the one buffer that it hands to `w.Write`, whose error the code passes on. A
-- reader takes the bytes that the stream still holds, and returns those that it left. A nil slice
-- and an empty one are the same list. Signed 64-bit fields are their bit patterns.
pub mod Buffer
pub mod Write
pub mod Read
pub mod RoundTrip
pub mod Oversized
mod Tests
