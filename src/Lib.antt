-- ===== src/Lib.antt =====
-- A verification library of passivediscovery, a program that watches a network without sending
-- packets and keeps a list of the hosts on it.
--
-- The program. A capture source delivers packets; the pipeline (internal/pipeline/runner.go) hands
-- each to the analyzers of a registry (internal/analyzer), which turn it into observations of hosts.
-- The manager (internal/asset/manager.go) applies each observation to the asset of the observed MAC
-- address, in one of 16 shards, and marks the asset dirty. A tracker (internal/lifecycle/tracker.go)
-- sweeps assets that were not seen for a while and evicts old ones; the persister (internal/persist)
-- drains the dirty assets and saves them in batches, through the storage (internal/storage), into an
-- SQLite database, which the program loads when it starts and asks for assets that it no longer holds.
-- An HTTP API (internal/api) lists what the database has. The configuration (internal/config) comes
-- from the environment and from flags; cmd/discovery/main.go puts the parts together.
--
-- Where it is modelled:
-- - Asset/Types: internal/asset/asset.go, observation.go, snapshot.go. A text that is no status of
--   the program is Status.unset. Asset/Identity: identity.go, resolver.go and the ShardedResolver.
-- - Asset/Merge, Asset/Extra, Asset/Observe: mergeStrings, mergeServices, mergeIPMap, mergeExtras and
--   touchTimestamps of internal/asset/util.go, mergeObservation of merge.go.
-- - Asset/Infer, Asset/Shard, Asset/Lifecycle, Asset/Manager: the Manager. A call is a function from a
--   manager to its result and the next manager; a panic on a nil pointer is a value. A mutex makes the
--   part that it guards one step. Apply resolves the address before it takes the lock: Asset/Manager
--   has the two parts (apply_resolved is the second), Asset/Interleaved runs the parts of any number
--   of callers in any order, as the workers of internal/pipeline/workerpool.go do, and Asset/Race is
--   about single calls between them.
-- - Analyzer: internal/analyzer, with internal/utils/dhcp.go. A packet is a record of the layers that
--   gopacket decoded. Analyzer/Registry is registry.go: the analyzers run in their order, the Ethernet
--   analyzer's maps are the state, and a panic is none. Analyzer/Ethernet, Arp, Dhcpv4, Dhcpv6, Mdns
--   and Ssdp are the files of these names; Analyzer/Net, Ipv6 and Names are util.go and the address
--   helpers of internal/asset/util.go.
-- - Pipeline: Run of runner.go with one worker, and ShutdownFlush of shutdown.go.
-- - Tracker: Run of internal/lifecycle/tracker.go, over the list of what its select receives.
-- - Persist: Run as a sequence of ticks, Flush, collectBatch and saveWithRetry over an Environment, the
--   record of what the persister calls of the repository, the source and the clock.
-- - Storage: the tables of internal/storage/schema.sql, as maps from primary keys to rows, and sqlite.go:
--   Storage has what each statement does to the tables, Save SaveBatch as a list of statements in a
--   transaction, Load the queries, Mac net.ParseMAC, Statistics and Open the rest.
-- - Capture: internal/capture; Capture has the sources, their counters and their filter, Capture/Pump
--   pump as a function of the cases that its selects take.
-- - Output: the summary of internal/output/stdout.go, and multi.go.
-- - Command: what `run` of cmd/discovery/main.go makes of the database before the first packet.
-- - Config: internal/config/config.go; Environment is applyEnvDefaults, Validate is Validate and Parse.
-- - Api: internal/api; Api has the conditions of ListAssets, Query its order and its page, Detail the
--   other queries of query.go, Handlers the handlers' status codes and GetStats of stats_adapter.go.
-- - Stats: internal/stats/packet_rate.go. Oui, Oui/Parser: internal/oui/lookup.go and parser.go.
-- - Prelude: tests on numbers, lists, Go strings and maps, time.
--
-- Conventions. A string is its list of bytes; letters are mapped for ASCII only. A map is an
-- association list, a set a list without repeats; Go's order of iteration is left open. A time is its
-- nanoseconds since the zero time; durations are int64 and saturate or wrap as in Go. Counters wrap at
-- 2 ^ 64. Nil slices and maps are empty ones.
--
-- Parameters. url.Parse (UrlParser), the CSV row reader (CsvReader), the vendor resolver, the hydrator
-- of the database and the persister's Environment are arguments. What is asked of the hydrator is that
-- a row carries the address that was asked for and its id (HydratorLaw); Storage/Laws/Hydrate shows
-- that the tables keep this. Of the storage the parameters are the printed forms of times and extras
-- and SQLite's LIKE (Codec), of which CodecLaw, NanoLaw and LikeLaw state what is documented, and which
-- calls of the driver fail; of the configuration os.Getenv, time.ParseDuration, the flag parser and the
-- file system; of the capture what libpcap answers; of the output the layouts of
-- times and fmt's %v. Statements and queries without ORDER BY use the order of the
-- association lists, which SQL leaves open.
--
-- Fuel. decode_labels and address_lifetime run on the length of their input plus one; each round
-- takes at least one byte. The walk over DHCPv6 options reports a lack of fuel as `unfinished`. The
-- digits of a number run on the number plus one.
--
-- Not modelled: logging, the JSON output, the HTTP server and its JSON, which are mostly I/O;
-- goroutines and tickers as such, whose bodies are modelled; DecodePacketCtx, which copies the layers
-- of gopacket; the columns created_at and updated_at, which nothing reads; log lines and the texts of
-- errors.
pub mod Prelude
pub mod Asset
pub mod Stats
pub mod Persist
pub mod Oui
pub mod Analyzer
pub mod Pipeline
pub mod Storage
pub mod Tracker
pub mod Command
pub mod Config
pub mod Api
pub mod Capture
pub mod Output
