-- ===== src/Lib.antt =====
-- bouine is an HTTP cache: a reverse proxy that stores the origin's responses, decides for each
-- request whether a stored response may be served, and spreads invalidations over a cluster of
-- nodes. This library models the parts that take those decisions.
--
-- Parts and files:
--
-- - Header: pkg/header. Header/Text.antt, CacheControl.antt and CacheControlBytes.antt are the two
--   copies of the Cache-Control tokenizer of cachedirectives.go, over a string and over a byte slice
--   (ParseCacheControl, ParseCacheControlBytes and every function below them). Header/Canonical.antt
--   and HeaderMap.antt are the header map of headermap.go (Map: Get, Set, Del, AppendEntry and so on).
--   The proofs stand in Scan, Copies, Render, Durations, Lookup and Validity.
-- - Api: pkg/api. Api/Object.antt is the stored object (storage.go) with its freshness windows, less
--   the heads that the serving layer computes ahead; Api/StatusTtl.antt the policy of negative caching (status_ttl.go); Resolution has its proofs.
-- - Cache: internal/cache. Cache/HttpDate.antt is httpdate.go, Cache/Cacheable.antt is cacheable.go
--   (what may be stored), Cache/Engine.antt is engine.go (what is served). The proofs stand in
--   OriginAge, Storable and Serving. Cache/Range.antt is the parser of one range of range.go, with its
--   proofs in RangeBounds.
-- - Cluster: internal/cluster/codec.go. Cluster/Wire.antt has the buffer, the frame and the times,
--   Cluster/Events.antt the purge, ban and refresh frames. Cursor, Reads and Frames say what the
--   writes and reads do; PurgeFrames, RefreshFrames, BanFrames and Decoding hold the results.
--   Cluster/Digest.antt is the frame of the ring digest. Cluster/Batches.antt is codec_batch.go, whose
--   codec is over any events that meet the record Carries of BatchFrames; BatchSplits and BatchBudgets
--   have the results.
--   Cluster/SeqWindow.antt and SeqTracker.antt are internal/cluster/seqtracker.go, which drops events
--   that were applied already; Dedup and Issuers have the proofs.
-- - Cloudflare: internal/cloudflare. Cloudflare/Circuit.antt is circuit_breaker.go (Allow,
--   RecordSuccess, RecordFailure, transitionTo) and the way recordFlush of
--   cmd/bouine/cmd/cloudflare.go uses it from several goroutines. CircuitSteps, CircuitWaits and
--   CircuitRuns hold the results. Cloudflare/RetryQueue.antt is retry_queue.go (Enqueue, processReady),
--   and RetryBounds its result.
-- - Storage: internal/storage. Storage/Codec.antt is codec.go, the binary form of a stored object
--   (encodeObjectInto, decodeObject and the objReader methods), over Go's varints in Varint. Parses
--   says what each reader makes of what was written for it, Objects what the parts of a blob give, and
--   Blobs and HeaderOrder hold the results. Storage/Sieve.antt is sieve/sieve.go with the entries of
--   evictor/evictor.go: Access, EvictBounded, Remove and Clear over a heap of doubly linked entries.
--   Chains and Links say what the assignments make of the list; Sweeps, Evictions, Progress and
--   Accesses hold the results. Storage/Cachaner.antt is cachaner/cachaner.go, the same list with a
--   frequency counter to an entry, and Chances its result. Storage/EvictLists.antt is the interface
--   List of evictor/evictor.go with what a client relies on, Sieve/Policy.antt the SIEVE list as one,
--   with what its operations leave of keys and visited bits in Sieve/Fields.antt and Pairs.antt. Storage/HotShard.antt is a shard of hot.go over any such list: putStored, Get, Delete,
--   evictPreferBacked, the loops of the sweeper and of the reaper, banShard, SetBacked and ClearBacked.
--   Held, Changes and Shards say how the map and the list go together; Victims, Operations and Puts
--   take the operations one by one, and Lives, Reaches and Sweeper hold the results.
--   Storage/Bans.antt has the bans of bans.go and their predicates in hot.go: classifyBan,
--   literalOfBody, compileBanPredicate. Bans/Snapshots.antt is the compiled snapshot,
--   Bans/Surrogates.antt the surrogate set and Bans/BanList.antt the list with register and matches.
--   Literals and Lookups lead to the result in Classes, Registrations and Views to those in
--   Invariants; Escapes has one more. Bans/Pruning.antt is pruneExpired and the descriptors that the
--   explain plane asks for, against the snapshot.
-- - Prelude: what the parts share. Tests: the theorems at concrete inputs.
--
-- How they interact: the engine and the storability rules read the header map through Get and GetAll
-- and the directives through the tokenizer; the storability rules ask the negative policy last; the
-- engine reads the object's windows and the origin's age. The storage tiers and the peers exchange the
-- object as a blob, whose header is sorted again as it is read. A shard asks its eviction list for
-- victims, and Get evicts an object that the ban list matches.
--
-- Representation: a Go string or byte slice is the list of its bytes. An int64 and a time.Duration
-- are integers with wrap64 after each operation that can leave the range. A time.Time is the integer
-- of its nanoseconds from the zero time, and Sub saturates. The tokenizer's index into the value is
-- the rest of the value. A Go map of the negative policy is an association list. A write into a
-- buffer, or a read of it, that panics in Go is an outcome of its own in the wire format. A pointer to an entry of an eviction
-- list is an address in a heap. The address that sync.Pool hands out is a parameter, which has to lie
-- outside the list: it may be a new one or one that was put back (IsPool of Sieve/Policy.antt). time.Parse is a parameter,
-- time_parse, of the definitions that read dates: nothing is assumed of it. Go's regular expressions
-- are a parameter of the bans, of which IsRegexp assumes what their package documents of ^literal and
-- ^literal$. A shard's lock is held by each operation, so a shard is changed by one after another; its
-- map of entries is a function. Sums of sizes are taken to fit in an int64.
--
-- Bounds and fuel: the tokenizer's loop runs on fuel, one more than the bytes of the value, and
-- each round takes at least one byte. The loop that slides a window of numbers runs on fuel too, one
-- more than the 4096 rounds it can need below the last uint64, since its counter can wrap. The loop
-- that splits a batch has one round for each event, since each frame takes one at least, and the loop
-- that clears an eviction list one for each entry, and so does the sweeper's loop, since an eviction
-- takes one out. The doubling that sizes the surrogate table has 54 rounds, which pass any int. Every
-- other loop is structural; a sweep of the hand is over its number of probes, as in the code.
--
-- Not modelled: network and file I/O, fasthttp conversions, logging and metrics, the texts of errors,
-- locks, the warm tier, the slab allocator and the choice of a shard, key building, Vary, membership, the client, the batcher and the token pool of Cloudflare.
pub mod Prelude
pub mod Header
pub mod Api
pub mod Cache
pub mod Cloudflare
pub mod Cluster
pub mod Storage
pub mod Tests
