-- ===== src/Lib.antt =====
-- Verification of the realtime core of HumanFlow, a German realtime voice agent (src/humanflow), and of
-- the registry, the scheduler and the supervisor of its engineering loop.
--
-- A conversation is driven by a state machine that numbers its events and issues tokens for asynchronous
-- operations. Synthesised audio is sent to a browser, which acknowledges what was heard; a ledger keeps
-- the state of every chunk, so that the agent knows which of its words were delivered. A turn policy
-- decides from the signals of the speaker. Tools run under a limit of attempts over the state machine, and
-- a failed attempt invalidates the operations. German expressions of time are resolved to dates. Offline,
-- tasks pass through a registry with roles and gates, a scheduler picks those that may run at once, and a
-- supervisor tries each under a circuit breaker.
--
-- Files and the code they model:
--   Conversation          src/humanflow/domain/conversation.py: ConversationState, OperationToken
--   Telemetry/Payload     src/humanflow/telemetry/events.py: _sanitize over payloads
--   Telemetry/Event       src/humanflow/telemetry/events.py: TelemetryEvent and its checks
--   Controller/Graph      src/humanflow/controller/state_machine.py: ALLOWED_TRANSITIONS
--   Controller/Machine    the same file: every method of ConversationStateMachine over the in-memory sink
--                         of src/humanflow/telemetry/sinks.py
--   Audio/Models          src/humanflow/audio/models.py: AudioFrame, AudioChunk, PlaybackReceipt
--   Audio/Ledger, /Views  src/humanflow/audio/ledger.py: the calls and the readings of PlayedAudioLedger
--   Playback/Pending      src/humanflow/web/transport.py: _PendingPlayback and what a message makes of it
--   Playback/Browser      the same file: BrowserAcknowledgedAudioOutput
--   Tools/Models          src/humanflow/tools/models.py
--   Tools/Calls, Executor src/humanflow/tools/executor.py: ResilientToolExecutor
--   Tools/Bookings        src/humanflow/tools/providers.py
--   Turns/Signals         src/humanflow/turns/models.py
--   Turns/Normalize       src/humanflow/turns/policies.py: _normalized
--   Turns/Policies        the same file: FixedSilencePolicy, HybridTurnPolicy
--   Temporal/Placing, Resolver
--                         src/humanflow/runtime/temporal.py: GermanTemporalResolver on the matches
--                         (Temporal/Scan) of its patterns, over dates (Temporal/Calendar)
--   Runtime/BargeIn       src/humanflow/runtime/acoustic_barge_in.py: AcousticBargeInDetector
--   Engineering/Tasks     src/humanflow/engineering/registry.py: EngineeringTaskRecord, statuses, roles
--   Engineering/Registry  the same file: the calls of TaskRegistry
--   Engineering/Scheduler src/humanflow/engineering/scheduler.py: plan and the conflict test
--   Engineering/Breaker   src/humanflow/engineering/failures.py: IterationObservation, FailureCircuitBreaker
--   Engineering/Supervisor src/humanflow/engineering/supervisor.py: run_task_bounded
-- The other files of these folders hold proofs, Shared the helpers, Examples concrete runs.
--
-- Correspondence. A method of a mutable object is a function from the object's state to a result, a value
-- or an exception, and the state it leaves (Shared/Action): what was written before a raise stays written.
-- A dictionary is an association list in the order of insertion. The checks of __post_init__ are a list of
-- tests in the order of the source. A finite float is a dyadic number, exactly compared; the rounding of
-- sums and products, float() of an integer, which raises OverflowError beyond the doubles, and the case
-- folding beyond Latin-1 are parameters. Clocks, fresh identifiers and what git answers are arguments.
-- Numbers that Python does not bound are integers of any size. No definition uses fuel: every loop is a
-- recursion on a list, or on a number of attempts, years or days that are left.
--
-- Not modelled: infinities and NaN; the levels of a frame of samples, which the detector is given; locks,
-- which guard single calls; the files that the registry loads and saves, and the JSON forms of records;
-- the time that play waits, of which only the outcome counts; external speech and language services; the
-- patterns that search an utterance for dates, whose matches are inputs; the runs of the engineering
-- harness, which are inputs of the supervisor; the web application and the browser's JavaScript; the
-- session, appointments, costs and the rest of the engineering loop.
pub mod Shared
pub mod Conversation
pub mod Telemetry
pub mod Controller
pub mod Audio
pub mod Examples
pub mod Engineering
pub mod Playback
pub mod Runtime
pub mod Temporal
pub mod Tools
pub mod Turns
