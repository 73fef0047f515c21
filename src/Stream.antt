-- ===== src/Stream.antt =====
-- The bytes that go in and out: body_reader.rs, utils/reader_stream.rs and body.rs.
pub mod Poll
pub mod BodyReader
pub mod BodyReaderLaws
pub mod ReaderStream
pub mod Body
pub mod Bounds
pub mod Drain
pub mod Receive
pub mod Fused
pub mod ReadAll
