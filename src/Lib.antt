-- ===== src/Lib.antt =====
-- The control plane of qiven-runtime: what the runtime decides about an action that a harness
-- proposes, and what may happen after the decision.
--
-- The program's parts and their files. An adapter's proposal enters the bounded queue (Ingress:
-- include/qiven/runtime/ingress.hpp, src/ingress.cpp). One thread drains the queue into the
-- control core (Core: state.hpp and state.cpp), which classifies the action (Intent: intent.cpp
-- and observed_action.cpp), derives its requirements (Requirement: requirement.cpp), lets receipts
-- of injected cognition pre-satisfy some (Activation: port/activation.cpp), and submits one task
-- for each blocking requirement to the executor (Executor: executor.cpp), for the binding that the
-- registry names (Resolver: resolver.cpp). Receipt has the evidence receipts of resolver.cpp. The
-- tasks report through the queue; the last report runs the two gates (Transaction:
-- transaction.cpp). From an allowed transaction a decision is bound and later spent once
-- (Decision: decision.cpp, over Preimage, the canonical byte layouts of decision.cpp, and Auth,
-- auth.cpp). Admission (admission.cpp and port/execution_authority.cpp) composes the decision with
-- the execution authority and the barrier (Reconciliation: reconciliation.cpp); Outcome
-- (outcome.cpp) takes the one observation of the effect, and Failure (failure.cpp) remembers the
-- failures for the next classification. Scope (scope.cpp) has the governed paths, whose digest a
-- decision binds. Identity (identity.cpp) has the keys and the minter. Journal
-- (journal/runtime_journal.cpp, journal/schema.cpp, recovery.hpp) is the durable form of all this:
-- sessions, leases, transactions, decisions, dispatches, outcomes, barriers, generations and
-- deferred events in tables, each command together with its event in a chain of digests.
-- Journal.Command has the shared steps of a command, Journal.Control, Journal.Decisions,
-- Journal.Effects, Journal.Barriers and Journal.Reads the commands and queries, Journal.Audit the
-- chain and its check, Journal.Opening, Journal.Recovery and Journal.Resolution the start of a
-- boot. Ipc.Framing (ipc/framing.cpp) seals and checks a frame, and Ipc.Serving
-- (ipc/pipe_service.cpp) serves one connection. StateStore (state_store.cpp) writes and reads the
-- persisted state. Sources stand under src/, headers under include/qiven/runtime/.
--
-- State and operations. Each class with state is a record or a list, and each member function that
-- changes it a function from state to state: ControlCore with handle_proposal, handle_evidence,
-- handle_failure and drain (Core.State, Core.Steps, Core.Handlers, Core.Draining), DecisionLedger
-- with consume, ActivationLedger with try_spend, BoundedQueue with try_push and pop, and so on,
-- under the source's names. Where threads meet, each block under a lock is one step of a relation
-- (QueueStep, RunStep). An unordered map is an association list, an unordered set a list without
-- repetition; the code reads them by key only. Unsigned counters keep their wrap-around where they
-- can be observed. The counts of a DrainResult, of exceptions, of reports and of conflicts are
-- plain numbers, since none of them is compared with a bound. Every loop is structural recursion
-- but two: the decimal digits of a number (Base.Text), where 20 digits are enough for 64 bits, and
-- the loop of serve_connection, whose fuel is one more than the bound on frames, since each turn
-- serves a frame or ends the loop.
--
-- What is assumed. qiven-foundation (digests, codecs, the byte builder) and qiven-context (the
-- frozen cognition types, the derivation and the two gate predicates) are other repositories: they
-- are the records Foundation and Context, and the laws that a theorem needs of them are its
-- hypotheses IsLawful and IsFrozen. Clock readings, random bytes and the resolver mechanism are
-- arguments. The drain loop takes any list of arrivals: each is a message, the clock's reading,
-- and what the workers did to the executor since the message before; during one dispatch the
-- workers take nothing. The retry of a report while the queue is full is not modelled, but each
-- message that it can leave in the queue is among the arrivals.
--
-- The database of the journal. A table is a list of rows, and each SQL statement is read by its
-- documented meaning: an insert on a present key or outside a constraint fails, an update of no
-- row changes nothing. Whether a transaction can be begun and committed is an input of each
-- command (Engine); a statement that fails for the engine's own reasons leaves what a failed
-- commit leaves. Rows and events have fewer than 2 ^ 63 ids, the range of the column. The
-- inspector of in-flight dispatches is a function. The protocol and the handler of a connection
-- are parameters of Ipc.Serving.
--
-- What is not modelled. The rendering of ids as text, the clearing of the failure memory, the
-- statement wrappers, pragmas and crash hooks of the journal, the message codec of the pipes,
-- profiles and claims, the JSON codec, the cognition bundle with its policy, the adapters, the
-- host and the command lines. Pipes and processes are calls of the operating system.
pub mod Base
pub mod Foundation
pub mod Context
pub mod Identity
pub mod Intent
pub mod Ipc
pub mod Journal
pub mod Requirement
pub mod StateStore
pub mod Transaction
pub mod Resolver
pub mod Receipt
pub mod Preimage
pub mod Activation
pub mod Ingress
pub mod Executor
pub mod Core
pub mod Auth
pub mod Decision
pub mod Outcome
pub mod Reconciliation
pub mod Admission
pub mod Failure
pub mod Scope
pub mod Tests
