-- ===== src/UrlEncoder.antt =====
-- down_parse_client/utils/URLEncoder.cpp: its tables and replies, the two encoders, the two decoders,
-- and what they are worth.
pub mod Table
pub mod Encode
pub mod Decode
mod Tests
