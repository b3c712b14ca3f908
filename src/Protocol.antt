-- ===== src/Protocol.antt =====
-- client/aimless/protocol.py: invites, envelopes and file chunks. Bytes are numbers below 256, a text is a
-- list of code points, and a function that may raise `ValueError` returns a `Result`.
pub mod Crypto
pub mod Envelope
pub mod Files
pub mod Hex
pub mod Invite
pub mod RoomId
