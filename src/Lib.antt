-- ===== src/Lib.antt =====
-- The release gate for People-chain proofs of personhood: a comparison of two runtimes as the SDK
-- sees them (environments/runtime-diff), the manifests that pin what a network runs and the builds
-- to test (environments/*.mjs), and the tests of a live network (packages/chain-tests).
--
-- RuntimeDiff models environments/runtime-diff. RuntimeDiff/Entries is entries.ts: sdkLevel,
-- isBreaking, severityOf, changedPaths and diffEntries are sdk_level, is_breaking, severity_of,
-- changed_paths and diff_entries; RuntimeDiff/Views is its runtimeCtx and descriptorCtx.
-- RuntimeDiff/Extensions is extensions.ts: emptyIn, diffPipelines and pipelineSummary, with
-- compare_row for the body of its loop. RuntimeDiff/Surfaces is missingSurfaces of sdk.ts, and
-- RuntimeDiff/Links is links.ts. The metadata packages and the host's collation are the
-- records Papi and Collation of RuntimeDiff/Papi; their laws are the order of the compatibility
-- levels and of localeCompare. Lists stand for the objects with integer keys and for the sets of the
-- source.
--
-- ReleaseGate models the modules of environments. A manifest pins a binary for each slot, a runtime
-- for each chain and a pin for each service. release-map.mjs: ReleaseGate/Chains and Services are its
-- tables, Pins is parseReleaseRef and assertNoLocalPins, Plans is runtimePlan, binaryPlan and
-- validateManifest, Sources is allowedSources, ppnOverrides and envTagPins, Overlay is mergeTarget
-- and transitions, Candidates is candidateMatrix. Upgrades is plan-upgrades.mjs, Artifacts is
-- artifact-pins.mjs, Scan is baseline-scan.mjs, Engine is assert-engine.mjs, Sections and Form are
-- gate-form.mjs, Builds is client-builds.mjs, and Wasm is wasm-spec.mjs, whose runtime_spec_of gives
-- the plan, the artifacts and the scan the version of a blob. An object is the list of its own keys
-- with their values, as written, and mergeTarget, assertEngineAgrees and selectNetwork also accept the
-- names that every object inherits, as their tests do; calls of files, nodes and releases are a record Io, and an error's text
-- is a constructor of the values it names.
--
-- ChainTests models packages/chain-tests/src. ChainTests/Task is the sequence of awaited calls: a
-- task runs in a world with a clock and the number of calls made, and a Network chooses latency and
-- rejection of each call. ChainTests/Ring is lib/ring.ts: fetchRingMembers, encodeMembers, isInRoot
-- and takeRingSnapshot there, waitForInclusion in Ring/Inclusion, the timeout's report in
-- Ring/Diagnostic. ChainTests/Contexts is lib/allowances.ts with the contexts of
-- lib/individuality-compat.ts and lib/alias-claim.ts, ChainTests/Identity is lib/truapi-identity.ts,
-- ChainTests/Caches is lib/ring-cascade.ts and lib/chain-cascade.ts. ChainTests/Claims/Alias is
-- setAliasAccount of lib/alias-claim.ts, ChainTests/Claims/LongTermStorage is claimLongTermStorage
-- of lib/lts-claim.ts with lib/people-claim.ts; both look up the ring through the cache or the wait,
-- and take a snapshot for every attempt. ChainTests/Attested is lib/attested-fixture.ts, the account
-- that the files of a run share. ChainTests/RuntimeReads is ringRootsWindow and aliasFee of
-- lib/individuality-compat.ts, ChainTests/Host is claimPgas of lib/truapi-host.ts,
-- ChainTests/Requests is trackStatementRequests of lib/statement-transport.ts, ChainTests/Networks
-- is config/stack-config.ts, and ChainTests/Probes is rpc-node-fingerprint.mjs beside the sources: a
-- socket's messages and its timer are a sequence of events.
--
-- Loops: the pages of a ring are read on fuel, and more fuel than the number of an empty page is
-- enough; the sections of a blob are read on fuel above its length, since every section takes a byte;
-- the inclusion wait runs on fuel above its timeout in milliseconds, since every round but
-- the last takes a poll of at least one; the search of a user name needs 49 rounds of five seconds.
-- The claim of PGAS has no bound but its own test, which three rounds of fuel are enough for.
-- The failure out_of_fuel is the model's own. Loops with a fixed number of rounds are structural.
-- Two reads that the source starts together are made one after the other. Numbers of the source that
-- count or index are natural numbers; the words of 32 and 64 bits have their wrap-around.
--
-- Not modelled: log lines and the text of reports; files, processes and sockets; the command lines of
-- environments (resolve.mjs, the ends of the other modules), github.mjs and the lookup at npm, while
-- JSON.parse and the decompression of a blob are parameters; rpc-diagnostic.mjs; the construction of
-- transactions (lib/claim-signer.ts, lib/revive.ts), the clients and contracts, the rest of
-- lib/truapi-host.ts, the transport around the statement requests, and the other files of
-- environments/runtime-diff, which read the packages and print the report. Hashes, key derivation,
-- ring proofs and encodings of packages are parameters.
pub mod Common
pub mod RuntimeDiff
pub mod ReleaseGate
pub mod ChainTests
