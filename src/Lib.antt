-- ===== src/Lib.antt =====
-- Verification library of ClashPulse, a desktop client for the Mihomo proxy core.
--
-- The program is one service with clients over local IPC. Its own logic decides when to switch
-- proxies: package monitor measures latency and downloads of the nodes of each group and returns
-- decisions, which package app carries out. Package subscriptions refreshes the subscriptions in the
-- background, package ipc carries the protocol, and package core says what clients may see of a
-- failed activation. Of these parts, the refresh of a subscription calls the store of subscriptions;
-- the others that are modelled do not call each other.
--
-- Base: lists, sorting, maps and names that the modules share.
-- Monitor/Model: monitor/model.go, its structs as records and its enumerations as data types.
-- Monitor/Window, Monitor/Policy, Monitor/Decide, Monitor/Alert: monitor/policy.go, which is
-- `recent`, `MeasureStability`, `Policy.Validate`, `guard`, `Decide` and `UpdateLatencyAlert`. The
-- loops of `Decide` are functions of their own (`group_samples`, `bad_streak`, `best_from`), and its
-- early returns are the branches of `decide_with`, `decide_unguarded`, `assess` and `finish`.
-- Monitor/Steady: monitor/steady.go, `DecideSteady` and `MeasureStreams`.
-- Monitor/Scheduler: the lock-protected state of monitor/scheduler.go and the methods that callers
-- use (`SetGroups`, `Request`, `SetStreamMembers`, `ReportDialFailure`).
-- Monitor/Streams: `streamTargets` and `pruneStreams` of monitor/scheduler.go.
-- Monitor/Loop: the goroutine `Run` of monitor/scheduler.go. Its local variables are the record
-- `Loop`; `refresh` takes in what callers changed, `prepare` is the part of an iteration before the
-- select and `handle` has a clause for each of its cases.
-- Subscriptions/Due: `dueIDs` of subscriptions/store.go. Subscriptions/Scheduler: `run` of
-- subscriptions/scheduler.go with its two channels and its workers; `step` takes one `Event`, a round
-- of the goroutine, a case of its select or a step of a worker, and `run` takes a list of them in any
-- order. The sends of one round are one step.
-- Subscriptions/Model: `config.Subscription` and `normalizeSubscription` of subscriptions/store.go with
-- the checks that it calls. Subscriptions/Store: the structs of subscriptions/store.go, its directory
-- and the operations on records; below it Generations has `promote`, `rollbackPromotion` and the
-- clean-ups, Applied the pointer of the activation and its recovery, Open `NewStore`. The modules of
-- Subscriptions/Store/Sound say when a store agrees with its directory and show which operations keep it.
-- Subscriptions/Refresh: `refresh` and `installLatestLocked` of subscriptions/fetch.go, which call the
-- store. Subscriptions/Activate: `Activate` of subscriptions/fetch.go; its state is the store and the
-- profile that the runtime runs. Subscriptions/Operations: sequences of all these operations from an
-- empty directory on, with Promised on what the store can then give out.
-- Ipc/Frame: ipc/frame.go, its readers and its writer, over bytes that are there and a writer that
-- takes part of what it is given.
-- Core/Activation: core/activation.go. An error is the chain that `errors.As` walks.
-- The modules below each part (Laws, Sound, Calls, Ends, Stable, RoundTrip, ...) hold the proofs; the modules
-- named Tests, and those below them, hold runs on concrete inputs and an instance of each theorem.
--
-- Conventions. Instants are nanoseconds as natural numbers, 0 being the zero time; durations are
-- nanoseconds. int64 durations and counters do not come near their limits and are not cut to a
-- width; the generation counter, which wraps, is. Counts and durations that the code tests only
-- against a positive bound are natural numbers, since a negative value acts there as 0; the cooldown
-- and the jitter, whose sign is tested, are integers. A Go map is an association list or, where it is
-- only read, a function. Error texts are constructors. Throughput is exact where the code rounds in
-- float64. Each step of the loop reads the clock once.
--
-- In the store of subscriptions, whether a call of the operating system succeeds is an argument of the
-- operation, and `config.Write` is all or nothing. The files of a directory are functions from hashes to
-- contents, and record.json, active.json and the marker of a pending activation are the values that were
-- marshalled. Operations under one lock are one step, and operations on one identifier, which `lockID`
-- separates, are not interleaved.
--
-- Parameters. The length of a record in JSON, which `NewStore` compares with 1 MiB, is the argument
-- `size` of `new_store`; active.json and the marker of a pending activation cannot come near that limit.
-- SHA-256 is the argument `hash` of the store, of which only is asked, where it matters, that
-- it gives 64 hexadecimal digits; `validProfileYAML`, which asks yaml.v3, the network, the renderer and
-- the validator are arguments of the refresh. `url.Parse` is an argument of `validate`. `sort.Slice`
-- is an argument of `decide_steady`, of which only is asked that it rearranges; `sort.SliceStable` is an insertion
-- sort, and so is `sort.Slice` on plain numbers, where every sort gives the same list.
-- `encoding/json` is the record `Codec` of Ipc/Frame, of which only is asked that an encoding decodes
-- to its value with nothing behind it. All recursion is structural, so no fuel is used; the loop of
-- `writeFull` consumes the answers of its writer.
--
-- Not modelled: the workers, the timer and the cancellation of the monitor's scheduler, the checks of
-- its constructor, Start, Stop and ConfigureResources of the subscriptions' scheduler,
-- Update, Rename and the cancellation of refreshes of the subscriptions' service, deadlines of
-- connections, and the other packages: configuration, resources, DNS, the runtime of the core, the
-- operating system's proxy and TUN, the interfaces and the command line.
mod Base
pub mod Monitor
pub mod Ipc
pub mod Subscriptions
pub mod Core
