-- ===== src/Lib.antt =====
-- LongHub Manager is a local process that installs, watches and repairs an OpenClaw gateway. This
-- library models the parts of it that decide: the built-in agent, which lets a language model call a
-- fixed set of tools, the updates of the manager itself, the lifecycle of the gateway, and the backups
-- of its configuration.
--
-- The agent (internal/manageragent). A user's message opens or continues a session; the engine asks
-- the model in up to 12 rounds, runs the tools that the model calls and hands their results back, and
-- pauses at the first tool that changes the system until the user approves or rejects the call.
--   Agent.Message: the messages of model.go and `validateModelMessage`.
--   Agent.Session: the types and limits of engine.go; `Ports` is what an engine is given.
--   Agent.Turn: what a turn does to a session: `compactLocked`, the cut of a tool result, events.
--   Agent.Rounds: `executeTool`, `processCallsLocked`, `continueLocked`, `finalizeAtRoundLimit`.
--   Agent.Engine: the table of sessions (`session`, `sessionExisting`, `pruneExpiredLocked`,
--     `evictForNewSessionLocked`, `Reset`) and `TurnWithEvents`, `ResolveApprovalWithEvents`.
--   Agent.Message.Validity, Agent.Turn.Limits, Agent.Rounds.Transcript, Agent.Rounds.Conversation,
--   Agent.Rounds.Budget, Agent.Engine.Table, Agent.Engine.Order, Agent.Engine.Approval and
--   Agent.Engine.Limits hold the proofs, Agent.Examples a scripted engine.
--
-- The updates (internal/managerupdate).
--   Update.Version: `versionPattern` and `CompareVersions` of manifest.go; Update.Version.Rank and
--   Update.Version.Canonical hold the proofs.
--   Update.Manifest: `ValidateManifest`, `SignaturePayload`, `ParseAndVerify` and `RolloutEligible` of
--   manifest.go; Update.Manifest.Validity, Update.Manifest.Canonical, Update.Manifest.Trust and
--   Update.Manifest.Share hold the proofs. `Formats` stands for JSON, base64, times, ed25519 and SHA-256.
--   Update.Recovery: `RecoveryStore` of state.go, which keeps the record of an update until its
--   target version has proved itself: `Read`, `write`, `RecordTargetStartup`, `BeginRollback` and
--   `MarkHealthy`. `Storage` stands for its files, paths and JSON. Update.Recovery.Files says what
--   is relied on of the files (`IsStorage`); it and Update.Recovery.Changes hold the proofs.
--   Update.Recovery.Prepare: `Prepare`; Update.Recovery.Prepared proves what it writes.
--   Update.Client: `NewClient`, `Check`, `Exact`, `fetchEnvelope` of client.go; Update.Download:
--   `Download`, `preparePrivateRoot`, `verifyInstaller`, Update.Download.Verified the
--   proof, and Update.Download.Examples a download to a disk in memory. `Host` (Update.Host) stands for URLs, HTTP,
--   files, the clock and the start of a process.
--   Update.Coordinator: `Coordinator` of coordinator.go, which drives the client and the recovery
--   store: `Refresh`, `Download`, `Apply`, `RecoverOnStartup`, as calls that no other comes between.
--   Update.Coordinator.Sections cuts the first three where the code lets go of its lock, so that their
--   sections interleave. Update.Coordinator.Quiet and Update.Coordinator.Launches prove what it
--   starts, Update.Coordinator.Told, Update.Coordinator.Flags and
--   Update.Coordinator.Calm what its status says.
--   Update.Installation: the directories, the identity and `LaunchInstaller`.
--   Update.Trial: an update at concrete values, in the world of Update.Trial.Disk.
--   Update.Errors: the errors of the package. Update.Examples: the examples.
--
-- The gateway (internal/runtime/gateway.go, process_control.go).
--   Gateway.Task: the scheduled task that starts the gateway: how its XML is built, read and told
--   from another's. Gateway.Scheduler: `InspectOwnership`, `EnsureScheduledTask` and
--   `RemoveScheduledTask` of `WindowsProcessController` over a runner of queries (`Scheduler`);
--   Gateway.Scheduler.Knowledge, Gateway.Scheduler.Ensuring and Gateway.Scheduler.Removal hold the
--   proofs, Gateway.Scheduler.Examples a scheduler in memory.
--   Gateway.Control: `inspect`, `probeScheduledTaskOwnership` and `control` of `GatewayManager`, which
--   starts, stops and restarts the gateway through a `Controller`. Gateway.Confirmation and
--   Gateway.Coherence hold the proofs, Gateway.Examples the examples.
--   Gateway.Enrollment: `ScheduledTaskStatus`, `EnrollScheduledTask` and `RemoveScheduledTask` of the
--   manager; Gateway.Enrollment.Confirmation holds the proof.
--   Gateway.OpenClaw: the parsers of OpenClaw's output; Gateway.OpenClaw.Commands: the controller over
--   its command line (`OpenClawGatewayController`); Gateway.OpenClaw.ReadOnly holds the proof and
--   Gateway.OpenClaw.Examples a runner.
--
-- The backups of the native configuration (internal/configbackup/manager.go).
--   ConfigBackup: the types, `New`, `readBounded`, `writeAtomic`, `writeTempConfig`, `atomicRename`.
--   ConfigBackup.Operations: `Backup`, `BeginMutation`, `ValidateActive`, `RollbackMutation`,
--   `Restore`, `List` and what they call. ConfigBackup.Rely says what is relied on of
--   JSON, paths and ids (`IsBackend`); ConfigBackup.Keeping, ConfigBackup.RoundTrip,
--   ConfigBackup.Restore and ConfigBackup.Rollback hold the proofs, ConfigBackup.Examples a manager
--   in memory.
--
-- System is the calls of the operating system on files. System.Rely says what is relied on of them
-- (`IsFileSystem`), for clean paths that name different files where they differ, System.Kept what an action keeps, System.Memory is a file system that meets it.
--
-- Common holds Go's results and errors (Common.Errors), strings as lists of bytes (Common.Bytes),
-- `length`, `take` and `drop` over the native numbers (Common.Lists), signed integers
-- (Common.Integers), lemmas on tests (Common.Tests), and the format in which the examples keep what
-- the program keeps as JSON (Common.Frames).
--
-- How the code is read. A Go string is the list of its bytes. A method that changes its receiver is
-- an `Action`: it takes the state and gives a result or an error with the state it leaves. The
-- session that the code changes through a pointer is taken out of the table, changed, and shown in
-- the table again while it is in it. The model client, the tool executor, the clock, the source of
-- random ids, the saved credentials, the JSON test of a call's arguments and the regular expressions
-- of the redaction are fields of `Ports` and share one state `Env`. Where a theorem relies on them
-- it assumes `IsReliable`: the client returns messages that pass `validateModelMessage`, as its two
-- callers in model.go make sure, and random ids are not refused. The loops over lists are structural
-- recursions; the rounds count down from `maxAgentRounds`, the eviction from the size of the table,
-- and the search for the end of a valid UTF-8 prefix from `maxToolResultBytes`, each the number of
-- rounds that the loop can make.
--
-- Not modelled: the locks of the engine (requests of one session are taken one after the other), the
-- order in which Go walks a map (the table's order stands for it), processes, windows and the tray;
-- and, so far, the model client and the configuration store of the agent, the runner that calls the
-- Windows scheduler, the adapter of the runtime (adapter.go and its neighbours) and the HTTP API. A
-- method called on a nil receiver is not modelled.
pub mod Common
pub mod System
pub mod Agent
pub mod Update
pub mod Gateway
pub mod ConfigBackup
