-- ===== src/Utils.antt =====
-- core/utils: the retry policy of network calls and the coercion of loosely typed values.
pub mod Net
pub mod Coerce
