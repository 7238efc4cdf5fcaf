-- ===== src/Ipc.antt =====
-- The transport of ipc/framing.cpp and ipc/pipe_service.cpp: authenticated frames, the guard
-- against replays, and the loop that serves one connection.
pub mod Framing
pub mod Fields
pub mod RoundTrip
pub mod Replay
pub mod Serving
pub mod Closing
