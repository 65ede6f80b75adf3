-- ===== src/Adapters/Fix.antt =====
-- wingfoil/src/adapters/fix/mod.rs: the FIX tag-value codec and sessions.
pub mod Decimal
pub mod Codec
pub mod RoundTrip
pub mod Message
pub mod Frame
pub mod Session
pub mod Drain
pub mod Stream
pub mod Delivery
pub mod Rounds
pub mod Spin
pub mod Reads
pub mod Thread
pub mod Forward
pub mod Sender
pub mod Subscribe
pub mod Unique
pub mod Requested
pub mod Subscribed
mod Tests
