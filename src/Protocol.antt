-- ===== src/Protocol.antt =====
-- internal/protocol: the errors, the vocabulary of the consumer protocol and its validation rules.
pub mod Errors
pub mod Status
pub mod Identifier
pub mod Clock
pub mod Callback
pub mod Civil
