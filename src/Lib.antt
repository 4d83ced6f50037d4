-- ===== src/Lib.antt =====
-- Context Brain Memory Lab: the deterministic core of the memory store.
--
-- A submitted body is split into chunks (memory_lab/ingestion/chunking.py), which are written to
-- the table of chunks (memory_lab/persistence/body_chunks.py) and later put back together and
-- checked against the stored hash (memory_lab/content/canonical_body.py) when the API adapter
-- reads the body (memory_lab/api/services/api_adapter.py). Beside the bodies stand the governance
-- of content (memory_lab/governance: states, tiers, workspaces, events, circuit breaker), the
-- in-memory backend that stores states and events, and the gate that decides whether a provider's
-- wording is shown. After a save, the tier of content moves by overrides, rollbacks, escalations
-- and the clean-up, each with an event in an append-only log (memory_lab/api/routers,
-- memory_lab/conflicts/escalation.py), and the resolver of memory_lab/current_state keeps one
-- current content for each named state. Decisions supersede each other in chains
-- (memory_lab/decisions), and a query is expanded along the edges between terms
-- (memory_lab/graph).
--
-- Files:
--   Prelude and its children: lists over native numbers, texts, dicts, Boolean tests.
--   Chunking: chunking.py. Config is ChunkerConfig and the results of interfaces.py, Boundaries is
--     _boundary_candidates and _normalize_line_endings, Choice is _choose_end, Identity is _chunk_id
--     and _quality_flags, Loop is chunk_content and chunk_text, Positions its invariant.
--   CanonicalBody: canonical_body.py; Read is the chunk write of create_content_minimal and
--     get_canonical_body; Soundness, Stitching, Ranges and RoundTrip hold proofs.
--   ChunkStore: body_chunks.py; Rows is about the rows of one item.
--   Governance.State: state.py, with Lifecycle and Validity. Governance.Transition:
--     transition_matrix.py, with Lives. Governance.CircuitBreaker: circuit_breaker.py, with Sorting,
--     Safety and Recovery. Governance.Workspace: workspace.py, with Boundary.
--     Governance.StateEvents: state_events.py, with Contract. Governance.TierRoutingPlan:
--     tier_routing_plan.py, with Guards.
--   MemoryBackend: persistence/memory_backend.py and results.py, with Records and Events.
--   TierAdmin: the operations that move tiers. Tables holds the tables content_items, cb_escalations
--     and cb_governance_events; Override is api/routers/tier_override.py, Escalations is
--     conflicts/escalation.py, Resolution is _resolve of api/routers/escalations.py, Cleanup is
--     api/routers/cleanup.py. Logged and the three Keeps hold what each operation keeps, History the
--     step relation; Rollbacks, Undo, Reviews, Spares, Untouched, Settled, Final and Planning hold the
--     other proofs.
--     Governance.Events: governance/events.py.
--   CurrentState: current_state/resolver.py. Tables holds the anchors and items, Resolver
--     resolve_current_state_after_ingest, View the abstract map; Single, Updates, Refines and Effects
--     hold proofs.
--   Decisions: decisions/store.py. Store is create_decision, explain_decision and update_status,
--     Lineage is get_lineage; Chains, Links, Falls and Creation hold proofs.
--   Graph: graph/store.py, edge.py and alias_store.py in Store, graph/expansion.py in Expansion;
--     Layers and Within hold proofs.
--   AnswerGate: providers/answer_gate.py, llm_backend.py and noop.py, with Gating.
--   Examples: the theorems at concrete inputs.
--
-- State is a record that an operation takes and returns with its result; a raised error is `none`
-- or a constructor. Texts are lists of code points where the code walks them and native texts
-- where it compares them. The database tables are lists of rows.
--
-- Bounds and fuel: the chunking loop recurs on the chunks that the limit still allows, and as
-- every round moves on, a limit of the text's length is enough; decimal digits have the number
-- plus one as fuel. The walk of a lineage has the ten rows of the query as its own bound. The
-- circuit breaker counts time in whole nanoseconds from 0 on, with exact differences where the
-- source has floats, the tier routing plan scores in whole millionths, the resolver and the edges
-- confidences in whole ten-thousandths; the tables of the tiers and anchors count time in whole
-- seconds.
--
-- Parameters: SHA-256, `str.lower`, the database's LOWER, the character classes of Unicode
-- beside white space, the embedding backend and the language-model backend, the test for a uuid,
-- the ids and times that the database or the clock draws, the days that the environment
-- configures, and the scope pipeline, which each call of the resolver runs on the anchors of its
-- tables, each without any hypothesis but that drawn ids and times are not empty.
--
-- Not modelled: the tiers inside the scope pipeline, the conflict detector, the
-- endpoints and the SQL of the other reads, the PostgreSQL backend, the ranking and scoring with
-- floating-point weights, the command line, the MCP server and the scripts.
pub mod Prelude
pub mod Chunking
pub mod CanonicalBody
pub mod ChunkStore
pub mod Governance
pub mod AnswerGate
pub mod MemoryBackend
pub mod TierAdmin
pub mod CurrentState
pub mod Decisions
pub mod Graph
pub mod Examples
