-- ===== src/Privacy.antt =====
-- app/privacy: output DLP, for finished answers and for streams.
pub mod Dlp
pub mod Streaming
