-- ===== src/Lib.antt =====
-- Verification library of YZ-Agent, the node program of a proxy panel.
--
-- The program takes settings and users from a panel, runs a proxy kernel with them, counts the traffic
-- and reports it. Modelled are the parts that decide something and keep state:
--
-- - PortSet: internal/portset/ports.go. Range is a record of numbers; Merge is a sort and a loop
--   (merge, merge_loop), Without is without, and Parse and parsePort read the code points of a text,
--   which String writes (print_range).
-- - AutoSpeed: internal/autospeed/manager.go, the automatic speed limits. Manager holds a State for each
--   user with the rule, the hits and the Penalty. UpdateSample is update_sample, with update_state for
--   the body of its loop; Restore is restore and Snapshot is snapshot.
-- - MachineTraffic: internal/machinetraffic/meter.go, the traffic quota of a server. Meter holds the
--   policy, the sample and the reading before; Apply is apply, Tick is tick, and blockedLocked is
--   blocked. Each call that writes the file takes the outcome of the write as an argument.
-- - Tracker: internal/tracker, the traffic of the users and of the relays. A Book is the pair of maps of
--   the counters last seen and of what is pending; Process, ProcessRelay and ProcessRelayUser run the
--   same loop (process_all) on different books; the flush and restore methods move batches;
--   RetireConfirmed is retire_confirmed.
-- - Limiter: internal/limiter. Limiter holds the users and their indexes (Users), counts rejections
--   (Events), and SpeedTracker (Speed) keeps a bucket for each user with a speed limit.
-- - Mailbox: internal/controlplane/mailbox.go with VersionGate of internal/panel/version.go. Apply,
--   SeedBaseline, MarkReady and DrainIfReady are apply, seed_baseline, mark_ready and drain_if_ready.
-- - Pending: pending_report.go, pending_journal.go and pending_state.go of internal/service, the traffic
--   that the panel has not confirmed, on the disk. save, load and compact are save, load and compact,
--   diffPending is diff_pending and replayJournal is replay_journal; the outcomes of the calls of the
--   file system are arguments (Outcomes), and a save that is cut short is one of its prefixes.
-- - DeviceGate: internal/devicegate, the leases of devices. Manager is a record with a heap of sources
--   and of permits; each function is the part of a method that holds the lock (revokeLocked is
--   revoke_locked, installLeaseLocked is install, SetUsers is set_users, acceptLeases is accept_leases,
--   Acquire is acquire, leave and claim), and Run puts them in any order.
-- - Firewall: plan.go, manager.go, recovery.go and state.go of internal/firewall, with ManagesFirewall and IsLanding
--   of internal/model, Validate and Enabled of internal/sourcepolicy and IsH3 of internal/xhttp. PlanForNode
--   is plan_for_node, combinePlans is combine_plans, mergeRules is merge_rules; Manager holds the plans by
--   owner, those that wait for a confirmation, and the back end, whose records of its rules (state.go) are
--   written by remember and forget with the outcome of the write as an argument; apply, Release, reconcile, Close,
--   BeginDiscovery and ExpectNodes are apply, release, reconcile, close_manager, begin_discovery and
--   expect_nodes, and Call puts them in any order.
-- - Selector: internal/balancer/selector.go, the choice of a target for a connection. Update is update
--   and Pick is pick.
--
-- How the parts meet: the mailbox hands the service users and settings; the service gives the users to
-- the limiter, the kernel's counters to the tracker, and the tracker's rates to the automatic limits,
-- whose snapshot is the temporary limits of the SpeedTracker; the meter blocks the proxy of a server;
-- what the panel has not confirmed of the tracker's batches is kept by Pending; the kernels ask the gate
-- for a permit for each connection; the service hands each node to the manager of the firewall, whose
-- ranges of ports are those of PortSet.
--
-- Conventions. A Go map is an association list (Prelude.Dict); a Go map is iterated in any order, and
-- each loop of these parts treats the entries on their own. A nil that means something is an Option. An
-- int64 that can wrap is a number below 2 ^ 64 (Tracker.Word). Elsewhere numbers that the code checks to
-- be in a range, or that it treats alike when they are not positive, are natural numbers, with the
-- negative ones written 0; sequence numbers of the device gate do not wrap. Each method holds its mutex
-- throughout, so that it is one step, but for those of the device gate, which are cut where they let go
-- of it; theorems on sequences of steps cover any interleaving of them. Several cuts of one method that
-- no call of the panel parts are one step of DeviceGate.Run, and its parts that stand alone elsewhere
-- are steps as well. All loops are by recursion on lists, but for the
-- digits of a number (PortSet.Print), which have as many rounds as the number: more than it has digits.
--
-- Parameters: net/netip, the back end that writes rules to the system, the calendar of a time zone with the laws of midnights, the reader of the network cards,
-- the digests of a rule and of a saved state, the comparison of JSON texts, rate.Limiter, the callback
-- of RetireConfirmed, PublicAddress of internal/deviceip, the sort of texts, and the divisions in float64 that give rates.
--
-- Not modelled: input and output (internal/panel, internal/service, internal/machine but for the parts
-- named above), the translation of settings for the kernels (internal/kernel), what the
-- firewall's back end runs (internal/firewall but for plan.go, manager.go, recovery.go and state.go),
-- certificates, the command line, and the copies of protocol libraries in compat.
mod Prelude
pub mod PortSet
pub mod AutoSpeed
pub mod MachineTraffic
pub mod Tracker
pub mod Limiter
pub mod Mailbox
pub mod Selector
pub mod Pending
pub mod DeviceGate
pub mod Firewall
