-- ===== src/Server/Cli.antt =====
-- mem_etcd/src/main.rs: the mode of the log as the command line names it.
use k8s_1m.Wal.Mode.{WalMode, async, sync}

pub data CliWalMode : Type 0 where
  none buffered fsync : CliWalMode

-- `From<CliWalMode> for WalMode`
abbrev pub wal_mode : CliWalMode → WalMode
wal_mode none = WalMode.none
wal_mode buffered = async
wal_mode fsync = sync
