-- ===== src/Lib.antt =====
-- GHC Gateway: a local HTTP gateway that serves the OpenAI Chat Completions, OpenAI Responses and
-- Anthropic Messages interfaces from GitHub Copilot models.
--
-- A request passes through admission control (src/gateway/admission.ts), its body is read as JSON
-- that keeps number lexemes and member order (src/serialization/wire_json.ts), the planner picks the
-- protocol to serve it by (src/protocols/conversion/planner.ts), and whatever fails on the way ends
-- as one gateway failure with a status, a message and an outcome (src/gateway/failures.ts). The
-- upstream request goes over a bounded pool of connections (src/copilot/inference_pool.ts), and the
-- changes of the accounts whose credentials it uses are put in line by
-- src/accounts/account_coordinator.ts.
--
-- Which file models what:
--   Base                 names that the other modules share; strings as UTF-16 code units.
--   WireJson             src/serialization/wire_json.ts. Syntax: the values (`WireJson`,
--                        `memberValues`, `duplicateMemberNames`). Outcome: a value or a raised
--                        `WireJsonError`; a reader passes the bytes from `pos` on. Utf8, Strings,
--                        Numbers, Parser: the class `Parser`, method by method. Writer:
--                        `serializeWireJson`. Characters, StringTrip, NumberTrip, RoundTrip,
--                        NumberSound, StringSound, Parsed, Termination: proofs. Canonical:
--                        src/serialization/canonical_json.ts, with the relation Alike of values
--                        that differ in member order.
--   Gateway.Failures     src/gateway/failures.ts; children Policy and RetryAfter.
--   Gateway.Admission    src/gateway/admission.ts: a controller's state and one function for each
--                        turn of the event loop; children Limits, Waiting and Answers.
--   Conversion.Routing   src/protocols/conversion/routing.ts.
--   Conversion.Planner   src/protocols/conversion/planner.ts, with what it calls of
--                        src/copilot/model_capabilities.ts; child Plans.
--   Gateway.BodyReader   src/gateway/body_reader.ts; child Accepted.
--   Conversion.Ledger    src/protocols/conversion/ledger.ts, with the types it uses of types.ts beside
--                        it: Messages, Reasoning, ReasoningItems and Tools hold the methods, each a
--                        function that returns the new state with its result, so that what a
--                        method changed before it threw is kept; Encoding holds the bytes that are
--                        charged; Budget, OpaqueBudget, ReasoningBudget, Runs, Texts, Finishing and
--                        ReasoningFinished hold proofs.
--   Conversion.StreamKeys  src/protocols/conversion/stream_keys.ts; child Trips.
--   Conversion.Sse       src/protocols/conversion/sse.ts; Lines reads a whole text, Lines.Whole
--                        compares the two.
--   Config.Startup       src/config/startup_config.ts; Flags holds the proofs.
--   Accounts.Lane        src/accounts/account_coordinator.ts, `CoordinationLane`; Laws, Order and
--                        Finishing hold proofs.
--   Accounts.Coordinator  src/accounts/account_coordinator.ts, `AccountCoordinator`: a state and one
--                        function for each turn of the event loop; children Kept and Draining.
--   Copilot.PoolEntry    src/copilot/inference_pool.ts, `InferencePoolEntry`: a state and one function
--                        for each turn of the event loop; children Slots and Closing.
--   Copilot.Registry     src/copilot/inference_pool.ts, `BoundedInferencePoolRegistry`, over the entries'
--                        steps; children Bounds and Eviction.
--   The modules called Tests hold runs at concrete inputs.
--
-- Fuel. `parse_value` and its two loops take fuel; `parse_document` gives them one unit more than
-- twice the length of the input, since each call but two consumes a byte. A string's loop consumes a
-- byte each round, and is given one round more than there are bytes. The digits of an index are
-- written with one round more than the index, which is divided by ten in each.
--
-- Numbers are natural numbers. A byte is a number, and the bit operations on bytes and code points
-- are written as the divisions and remainders that they are on disjoint bit fields.
--
-- Not modelled: the byte buffer behind the writer, which is represented by the bytes it holds;
-- the codecs of src/protocols/conversion/request, a parameter of the planner; diagnostics, which
-- only record; the ledger's sorted list of items; UTF-8 decoding of event streams, whose results
-- are inputs; the path library, a parameter of the configuration; `Date.parse`, a parameter of
-- `safe_retry_after`; the work that a lane runs and the dispatchers of the pool, which are
-- names; HTTP, files and the database. A timer is an event that may happen at any time. A
-- history of admissions has one set of limits, and what a change of the configuration does to it
-- is left out. What the planner hands on without looking at it, the semantic request and the
-- carrier records, is a type that the codecs choose.
pub mod Base
pub mod WireJson
pub mod Gateway
pub mod Conversion
pub mod Accounts
pub mod Config
pub mod Copilot
