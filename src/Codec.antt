-- ===== src/Codec.antt =====
-- The codec of the canonical history (src/context/context-codec.ts).
pub mod Json
pub mod Schemas
pub mod Encode
pub mod Decode
pub mod Blocks
pub mod View
pub mod RoundTrip
pub mod Readers
pub mod Casts
pub mod Usage
pub mod Typed
mod Tests
