-- ===== src/Lib.antt =====
-- Verification of the core logic of inferflux, a server for language-model inference.
--
-- The parts that are modelled, and how they interact. The scheduler ties a request to a slot (Slots),
-- which stands for a sequence of the KV cache, and to pages of that cache (KvCache). A client's
-- session keeps a slot and its blocks between requests (Session), and the prefix cache keeps those of
-- finished requests for others that begin with the same tokens (Radix). Batches run in two lanes, each
-- with a worker thread (Lanes). Which model a request runs on is chosen by the features that it needs
-- (Selection). The fairness controller says when a queued request takes the place of one in the
-- running batch (Fairness). The speculative decoder drafts tokens and validates them against the
-- target model (Speculative), the bytes of the decoded tokens become text piece by piece (Utf8), of
-- which the reasoning is taken out (Reasoning), and a prefill worker hands the KV pages of a request
-- to a decode worker through a channel (Channel). The server's front end asks the rate limiter whether
-- to admit a request (RateLimiter). A class that threads share holds its mutex for a whole method, so
-- that a method is a function from a state to a state, and a history of calls by any threads is a list
-- of calls; ReleaseLease of the slots, which takes the mutex twice, is two such steps. So are the two
-- sections of a lane's worker and those of Stop, between which the other threads go on. The
-- speculative decoder, the assembler, the splitter and the fairness controller have no mutex and
-- belong to one thread at a time.
--
-- Files and code. Paths are from the repository's root.
--   Slots, Slots/Defs, Slots/Ops, Slots/Query, Slots/Run:
--     runtime/scheduler/sequence_slot_manager.{h,cpp}. `Manager` is the members `slots_`, `max_slots_` and
--     `idle_timeout_ms_`; AcquireLease is `acquire_lease`, RetireLease `retire_lease`, and so on by name;
--     the functions that end in Locked are the loops that their callers share.
--   Speculative, Speculative/Defs: runtime/speculative/speculative_decoder.{h,cpp}. Draft is `make_draft`,
--     Validate is `validate`.
--   Utf8, Utf8/Defs: runtime/text/incremental_utf8.{h,cpp}. Append is `append` and Finish `finish`;
--     `consume` is the loop over the pending bytes and `classify` its decisions.
--   KvCache, KvCache/Defs, KvCache/Ops: runtime/kv_cache/paged_kv_cache.{h,cpp}. The methods have the
--     names of the source; a method that throws returns `throws` with the cache as the throw leaves it.
--   Channel, Channel/Defs: runtime/disaggregated/kv_channel.{h,cpp}.
--   Session, Session/Defs, Session/Run: scheduler/session_handle_manager.{h,cpp}.
--   RateLimiter, RateLimiter/Defs: server/auth/rate_limiter.{h,cpp}.
--   Fairness, Fairness/Defs: scheduler/fairness_controller.{h,cpp}, with the fairness fields of
--     scheduler/request_batch.h.
--   Radix, Radix/Defs, Radix/Ops, Radix/Run: runtime/prefix_cache/radix_prefix_cache.{h,cpp}. `Forest` is
--     the children of a node in the order of an iteration, `Cache` the members; EvictOneSequenceLocked is
--     `evict_sequence`, CollectNodes `collect`, SplitEdge `split_children`. What the cache calls is a list
--     of effects.
--   Reasoning, Reasoning/Defs: runtime/text/reasoning_splitter.{h,cpp}. Feed is `feed`, a round of its loop
--     `round`.
--   Lanes, Lanes/Defs, Lanes/Steps: runtime/execution/unified_batch_lane_dispatcher.{h,cpp}. The sections of
--     Stop are `stop` and `stopped`, those of WorkerLoop `pick` and `complete`.
--   Selection, Selection/Defs, Selection/Ops: scheduler/model_selection.{h,cpp},
--     runtime/backends/backend_capabilities.{h,cpp}. SelectModelForRequest is `select_model`,
--     PickFallbackCandidate `pick_fallback`. `Router` is the queries of scheduler/model_router.h.
--   Prelude and its children: the names, the Boolean tests, the lists, the signed integers and the strings
--     that all parts share. The other children of a part hold its proofs, and its Tests the runs on small
--     inputs.
--
-- Numbers. Counters that wrap are taken modulo 2 ^ 64 where the source's type does so; a signed
-- integer is a ℤ of the native numbers; the 64-bit clock and node count of the prefix cache, and the
-- handles of the lanes where a theorem says so, are taken not to wrap; a time is a number of
-- nanoseconds of the steady clock, which does not go back. The rate limiter's double tokens are exact
-- shares of a token: the rounding of doubles is not modelled, by which the code may reject a request
-- at the moment that its token is complete. An unordered map is a list in the order of an iteration
-- over it, with a new entry where the comment at its definition says.
--
-- Loops and fuel. All loops recurse on the lists that they walk. The clock hand of the KV cache goes round
-- at most twice the number of pages, as in the source, and the writing of a decimal number has as many
-- digits as its type can need (20 for 64 bits). Insert of the prefix cache descends at most as many times
-- as there are tokens, and its evictions are at most as many as sequences and nodes; the loop of the
-- splitter's Feed has at most as many rounds as there are pending bytes.
--
-- Not modelled. The device's memory, the file system, the asynchronous writer and the tokenizer and backend
-- calls, which are arguments or a log in the state; logging and metrics. Of the repository the HTTP server,
-- the scheduler's worker loop, the model registry, the harmony splitter, the tokenizers, the policy store,
-- the compute backends and the vendored libraries are not covered.
pub mod Prelude
pub mod Slots
pub mod Speculative
pub mod Utf8
pub mod KvCache
pub mod Channel
pub mod Session
pub mod RateLimiter
pub mod Fairness
pub mod Radix
pub mod Reasoning
pub mod Lanes
pub mod Selection
