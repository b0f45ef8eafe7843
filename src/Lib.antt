-- ===== src/Lib.antt =====
-- Sextant is the control plane of a fleet of NixOS devices. A fleet document, kept in git, says which
-- groups and devices there are and which settings each scope has; edits of it are change requests
-- that a gate builds before they are merged; a rollout takes a revision through waves of devices; and
-- devices report back, are imaged and provisioned, and ask for privileged actions. This library models
-- the domain layer of the program, the Go packages under internal/domain, which hold its rules and
-- have no input or output, and three services of internal/app over it: the one that writes the fleet
-- document, the one that carries out a rollout, and the one that takes changes through the gate.
--
-- The parts, and the files that model them:
--   internal/domain/rollout/rollout.go           Rollout: Ring (a wave and its thresholds), State (the
--     record of a run), Decide (the next action of a run, `Decide`)
--   internal/domain/change/change.go             Change
--   internal/domain/elevation/elevation.go       Elevation
--   internal/domain/imaging, and AdvanceFromDevice and Report of internal/app/imaging.go   Imaging
--   internal/domain/identity/identity.go         Identity
--   internal/domain/token/token.go               Token, without Verify and decodeHash
--   internal/domain/fleet/model.go               Fleet/Model
--   internal/domain/fleet/groups.go              Fleet/Groups
--   internal/domain/fleet/filter.go              Fleet/Filter
--   internal/domain/fleet/chain.go               Fleet/Chain
--   internal/domain/fleet/resolve.go             Fleet/Resolve
--   internal/domain/fleet/device.go, intent.go   Fleet/Device
--   internal/domain/fleet/device.go              Fleet/Memberships (`UpdateDevice`, `CreateGroupWithDevices`)
--   internal/domain/fleet/redundant_groups.go    Fleet/Redundancy
--   internal/domain/fleet/mutate.go, device.go   Fleet/Edit
--   internal/domain/fleet/groups.go, internal/app/hosts.go   Fleet/Populations (the devices of a group, of
--     a rollout and of a change, `ConvergingGroupDevices`, `ReleasedGroupDevices`, `AffectedHosts`)
--   internal/domain/fleet/mutate.go, access.go   Fleet/Scopes (the settings, locks and acceptances of a scope,
--     `SetScopeSetting`, `SetScopeEnforce`, and `Grant`, `Revoke`)
--   internal/domain/fleet/classes.go             Service/Config/Shapes (`SampleHosts`, `Representatives`)
--   internal/app/verdicts.go                     Service/Config/Verdicts (`record`, `partitionHosts`)
--   internal/app/config.go                       Service/Config/Transaction (`applyTx`, `applyWithGate`)
--   internal/app/rollout.go                      Service/Rollouts: World (the state and the ports), Plan
--     (`StartWith`, `planRings`), Waves (`ensureRingBuilt`, `releaseCohort`), Tick (`Tick`), Control
--     (`Pause`, `Resume`, `Approve`, `Cancel`), Flow (`FollowHead`, `maybeAutoStart`)
--   internal/app/change.go                       Service/Changes: World (the store, git and ports), Tree
--     (worktrees, the gate and its scope, `cleanup`), Draft (`Open`, `Edit`, `EditFile`, `Abandon`),
--     Submit (`beginSubmit`, `finishSubmit`), Merge (`Merge`, `Reconcile`), Ops (all of them as one
--     type, with the moves that each makes), Machine (the store of changes as a machine, which they
--     refine)
-- The modules below a part's file hold what is proved of it. Examples holds the theorems at concrete
-- inputs, and Common what the parts share.
--
-- How they interact: the resolution of a device's settings (Fleet/Resolve) goes over the contributors
-- that Fleet/Chain collects from the scopes, the group tree (Fleet/Groups) and the assignments whose
-- filters (Fleet/Filter) select the device. A rollout plan that Fleet/Edit accepts gives the waves
-- that Rollout decides on. The role of a user at a scope (Identity) takes the ancestry of groups as
-- an argument, as the source does.
--
-- The rollout service (Service/Rollouts) reads the fleet document for its waves, asks Rollout.Decide for
-- the next action, and carries it out: the pins and the cohorts of Fleet/Edit and Fleet/Populations go
-- through the write transaction, which is a port of the service, and the branches that devices follow
-- are moved after that. The write transaction (Service/Config) changes the document, asks the gate about
-- one device of each shape that the memo of verdicts does not have, and commits.
--
-- The change service (Service/Changes) keeps a record of each change (Change) beside the branch
-- that is the change. An edit runs the write transaction of Service/Config in the worktree of the
-- branch, the gate is asked about a sample of the hosts that the edits touched, and a merge asks
-- it once more about what main has become. The branches, the worktrees and main are part of its
-- state; what a merge makes of two branches, and whether one contains another, are ports. A merge
-- that fails is taken to leave the files of main as they were.
--
-- A method of a service is a function from a state to a result and a state (Service/Action): what
-- was written before an error stays written. The calls that leave the program are ports, functions
-- of an unknown rest of the world, and each of them may fail at any time. The locks are left out:
-- a method runs alone. Submit is in three parts, since it gives its lock back while the gate runs:
-- the theorems on sequences of operations let any other operation run between them. Log lines are
-- left out.
--
-- How the code is read: a pointer receiver that a method changes is a record that a function takes
-- and returns, and an `error` is a value of an error type of its own for each part, whose
-- constructors are the messages. A Go map with text keys is a list of entries with the first entry
-- of a key in force. A map that may be nil is an option where a write would panic. `int` is signed
-- and wraps at 64 bits where the code multiplies or adds what an operator writes; counts are
-- lengths of lists. A time is a number of nanoseconds. A JSON value is a type parameter, and
-- `time.Time.Format` is a parameter of the texts of an action.
--
-- Fuel: the two walks up the group tree, `climb` and `reaches`, run on fuel, because the parents may
-- form a cycle. Both stop at a group that they have seen, so a few rounds more than there are groups
-- are enough. The write transaction is tried 5 times where a push is refused, as in the source; a try
-- that is left out is the error of the last refusal.
--
-- Not modelled: the services of internal/app but for those above and the check-in and the
-- station's report of an image job; of the rollout service, `Status`, `Stragglers` and the timer
-- of `Run`; of the configuration service, the files beside fleet.json and the loop that follows
-- the remote; the adapters to git, PostgreSQL, nix and the identity providers, the HTTP handlers,
-- the commands, the agent on the device; in the domain layer, the hash that stands for a device's
-- configuration and the text that `DistillGateError` makes of a failed build (both parameters),
-- the catalogue of packages, hardware capture, policies and profiles, the observed plane, the
-- check of a secret against its hash and the other secrets. Regular expressions of the source are
-- written out as tests on texts. Sorting for display is left out where the result is a set.
pub mod Common
pub mod Rollout
pub mod Service
pub mod Token
pub mod Change
pub mod Elevation
pub mod Imaging
pub mod Identity
pub mod Examples
pub mod Fleet
