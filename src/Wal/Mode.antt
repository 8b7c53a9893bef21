-- ===== src/Wal/Mode.antt =====
-- `WalMode`: no log, a log that is written, or one that is also synced before a write returns.

pub data WalMode : Type 0 where
  none async sync : WalMode
