-- ===== src/ConfigBackup/Rollback.antt =====
-- A rollback of internal/configbackup/manager.go brings back what was there before a mutation.
use longhub_manager.Common.{◌≤◌, ◌≡◌, ◌≢◌, true, some, Text}
use longhub_manager.System.Rely.{Has}
use longhub_manager.ConfigBackup.{Manager, Backend, Snapshot, MutationCheckpoint, Env}
use longhub_manager.ConfigBackup.Operations.{backup}
use longhub_manager.ConfigBackup.Rely.{IsBackend, max_int64}
use longhub_manager.ConfigBackup.RoundTrip.{Made}
use longhub_manager.ConfigBackup.Restore.{IsApart}

module _ (b : Backend) (R : IsBackend b) (m : Manager) (apart : IsApart b R m)
    (sized : m.max_bytes ≤ max_int64) where
  abbrev Config : Text → Env b → Type 0
  Config = Has b.fs m.config_path

  -- What a begun mutation has of a configuration that was there.
  abbrev Covers : Text → MutationCheckpoint → Env b → Type 0
  Covers d cp env =
      (snapshot : Snapshot) × (cp ≡ record { config_existed = true; backup = some snapshot })
      × Made b R m d snapshot env

  -- The files but the configuration are left as they are.
  abbrev pub Others : Env b → Env b → Type 0
  Others env env' = (q d : Text) → q ≢ m.config_path → Has b.fs q d env → Has b.fs q d env'
