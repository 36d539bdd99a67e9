-- ===== src/Lib.antt =====
-- A model of the inference gateway of this repository (the Python package gateway/), with the
-- theorems that make its components correct.
--
-- A request to the server is authenticated, takes a place of its tenant's quotas, and gets the
-- candidates of its model whose circuit is not open; a pin of its session, its chunks and the pools by
-- phase narrow them down, and admission control may shed it. It waits for a slot of the dispatch gate
-- and is routed by the hashes of its prompt against a prefix tree of what the backends have cached; a
-- backend that refuses the connection feeds the circuit breaker and leaves the candidates, and the
-- others are tried. The request is counted in flight until its stream ends, which gives back what it
-- held. Replicas of the gateway exchange prefixes, drain flags, memberships and load: a coordinator
-- publishes what happens on its replica and applies what its peers publish.
--
-- Files, and the code that they model:
--   Base         the shared types: text, dictionaries, least-recently-used tables, integers
--   Circuit      gateway/circuit.py, class CircuitBreaker
--   Session      gateway/session_affinity.py, class SessionAffinity
--   Radix        gateway/radix_tree.py, class RadixTree
--   Load         gateway/load_tracker.py and gateway/cluster/fleet.py (Load/Fleet)
--   Registry     gateway/backends.py, gateway/extensions/lora.py
--   Lww          gateway/cluster/drain_state.py (Drain), membership_state.py (Members), over one
--                algebra of versions (Version, Join, Converge, Exchange)
--   Hashing      gateway/hashing.py, gateway/extensions/bpe_hashing.py (Hashing/Bpe)
--   Router       gateway/router.py, and the features and the blend of
--                gateway/extensions/ttft_predictor.py
--   Tenancy      gateway/tenancy.py
--   Fair         gateway/fairqueue.py, gateway/fairsched.py (Fair/Sched)
--   Admission    gateway/admission/policy.py
--   Autoscale    gateway/autoscale/queueing.py, gateway/autoscale/planner.py
--   Affinity     gateway/rag/index.py, gateway/rag/router.py
--   Disagg       gateway/disagg/pools.py, kv_transfer.py, router.py
--   Bus          gateway/cluster/bus.py, the transport in memory
--   Auth         gateway/auth.py
--   Media        gateway/multimodal/index.py
--   Speculative  gateway/extensions/speculative.py, the choice of the candidates
--   Server       gateway/server.py: the objects of the module as one state (State), the failover loop
--                of `chat_completions` (Dispatch), its stages and the end of its stream (Stages), the
--                whole handler (Handler) with its requests and answers (Request), and the admin
--                endpoints, the health scrape and the replication loop (Admin)
--   Cluster      gateway/cluster/events.py (Event, and Json and Codec for to_json and from_json),
--                coordinator.py (Coordinator, Sync, and receive_gossip in Wire), and the store in
--                memory of snapshot.py (Coordinator)
--   Dag          gateway/dag/graph.py, and gateway/dag/scheduler.py (Schedule)
-- A class is a record of its fields, a method a function from the record and its arguments to the new
-- record and what the method returns, under the method's name; an exception is `none`. Below a file,
-- a folder of its name holds its theorems, and Tests the concrete runs.
--
-- Conventions. Strings are lists of code points, dictionaries are association lists in insertion
-- order, sets are lists of which only membership is used. Python's integers are natural numbers, or
-- integers where they may be negative; the 64-bit hashes keep their wrap-around. The floats of the
-- source are non-negative: they are numbers in units of 10^-9 (1.0 is `one` of Load), and a quotient
-- is truncated to such a unit, which is where the model rounds differently from the source; those of
-- Tenancy are exact, with negative tokens as integers. A time is an argument, and `now - t >= c` is
-- `t + c ≤ now`. A loop over a range of indices is a recursion on the elements that are left.
-- The walks of the prefix tree run on fuel, one unit for each block of the prompt, since every round
-- consumes a block; Radix.Runs.match-ends states that more fuel changes nothing. The sizing loop of
-- the autoscaler has as much fuel as it has counts to try. The failover loop has max_retries + 1
-- rounds, as in the source. The layering of a graph runs on fuel, one unit for each node;
-- Dag.Layers.kahn_loop-ends states that more fuel changes nothing.
--
-- Concurrency. A function of the model is a span of the code that no other task interrupts; the
-- handler of the server, up to its stream or to its wait for a dispatch slot, is one such span,
-- although the source awaits the connections in it, and a task that ran meanwhile could change the
-- registry, the load or the tables under it. The theorems on the handler and on the failover loop are about
-- runs without such an interruption.
--
-- Parameters: the tokenizer of the tokenizers library, as a loading function and an encoding function
-- (Hashing/Bpe, Router), the learned predictor, as a function from features to an estimate (Router),
-- and SHA-256 (Auth). Whether a backend accepts a connection, and when, are arguments of the server's
-- functions (World of Server/Dispatch), and so are the events that the bus has for a replica. A
-- request reaches the server's functions parsed: its model, the text of its messages, its headers.
--
-- Not modelled: of the server, the semantic cache (it rests on an embedding model of a third-party
-- library), the multi-modal step and its router (gateway/multimodal/router.py), the race of the
-- speculative strategy, headers, metrics, logs and spans, the endpoints that only read, and the start
-- of the process; the structure of retrieval prompts (gateway/rag/structure.py), the bus and the
-- store over Redis and the HTTP of the gossip transport, the text of JSON, the reading of the environment,
-- and the texts of reasons in decisions; the mock backend, the benchmarks and the implementation in
-- Rust.
pub mod Base
pub mod Circuit
pub mod Cluster
pub mod Lww
pub mod Server
pub mod Session
pub mod Radix
pub mod Load
pub mod Registry
pub mod Hashing
pub mod Router
pub mod Tenancy
pub mod Fair
pub mod Admission
pub mod Autoscale
pub mod Affinity
pub mod Dag
pub mod Disagg
pub mod Bus
pub mod Auth
pub mod Media
pub mod Speculative
