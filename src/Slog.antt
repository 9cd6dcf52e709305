-- ===== src/Slog.antt =====
-- log/slog: the levels that the program sets and logs at.
pub data Level : Type 0 where
  debug info warn error : Level
