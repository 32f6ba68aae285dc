-- ===== src/Lib.antt =====
-- Aurora AI Native plans work as graphs of goals and tasks, schedules the nodes whose dependencies
-- have ended well, holds every execution to a budget, and puts a circuit breaker and a kill switch in
-- front of what reaches the outside. This library models that core and proves what its parts promise
-- each other.
--
-- Parts, files and sources:
--   Lifecycle    packages/control/src/lifecycle. createLifecycleRecord and transitionLifecycle are
--                create_lifecycle_record and transition_lifecycle; Lifecycle/Diagram states the diagram
--                as a relation, Lifecycle/Transition and Lifecycle/History prove.
--   Budget       packages/control/src/budget. Types in Budget/Types, the functions of budget.ts in
--                Budget; Budget/Project, Budget/Child and Budget/Account prove.
--   GoalGraph    packages/control/src/goal-graph. Types in GoalGraph/Types; createGoalGraph with its
--                topological order in GoalGraph/Create; assessGoalGraphDependencies in
--                GoalGraph/Assess. GoalGraph/Counting, GoalGraph/Adjacency, GoalGraph/Order and
--                GoalGraph/Exhaustion follow the loop of the order, which GoalGraph/Created,
--                GoalGraph/Listing and GoalGraph/Acyclic draw on; GoalGraph/Readiness is about the assessment.
--   Scheduler    packages/control/src/scheduler. planSchedulerTick is plan_scheduler_tick. It reads the
--                node states of a GoalGraph, which are lifecycle states, and asks Budget for what is left.
--                Scheduler/Queue and Scheduler/Ready hold the lemmas, Scheduler/Plan and
--                Scheduler/Capacity the theorems.
--   Containment  services/executors/src/failure-containment. Containment/Circuit is transitionCircuit,
--                Containment/KillSwitch transitionKillSwitch, Containment/Gate
--                evaluateFailureContainment, Containment/Time timestampMs; their children prove.
--   Lanes        packages/control/src/lanes. resolvePlanningLane is resolve_planning_lane; Lanes/Eligibility
--                proves.
--   CapabilityPlan  packages/control/src/capability-plan, and of
--                packages/registries/src/capabilities/registry.ts what a plan reads. planCapabilities is
--                plan_capabilities; CapabilityPlan/Current and CapabilityPlan/Tenancy prove.
--   Templates    packages/control/src/templates. bindPlanTemplate is Templates/Bind, which reads a plan and
--                its registry; Templates/Listed and Templates/Binding prove.
--   Events       packages/events/src/replay. ReplayCoordinator is Events/Replay; Events/Replay/Order and
--                Events/Replay/Quarantine prove.
--   WorkerPool   services/agent-runtime/src/runtime. BoundedAgentWorkerPool: the state in WorkerPool/Store,
--                what does not wait in WorkerPool/Calls, terminalRelease in WorkerPool/Release,
--                acquireOwnership in WorkerPool/Acquire, heartbeat and cancel in WorkerPool/Control; runs in
--                WorkerPool/Perform. WorkerPool/Capacity, Safety, ControlSafety, Tracking and Runs prove.
--   AdaptiveLoop services/agent-runtime/src/loop. startAdaptiveLoop in AdaptiveLoop/Frame,
--                advanceAdaptiveLoop in AdaptiveLoop/Advance and AdaptiveLoop/Phases, a function for each
--                phase. A frame holds a worker of the pool and states of a budget. AdaptiveLoop/Steps,
--                PhaseSteps and Progress follow one advance, AdaptiveLoop/WellFormed says what a frame is
--                checked for, AdaptiveLoop/Runs and AdaptiveLoop/Safety
--                hold the theorems.
--   Executors    services/executors/src/safeguards, reconciliation and target-resolution.
--                evaluateExecutionSafeguards is in Executors/Safeguards, its parseTime in Executors/Times,
--                classifyExecutionAmbiguity in Executors/Ambiguity, reconcileExecutionUncertainty in
--                Executors/Reconciliation, which reads the safeguards' result, resolveExecutionTarget in
--                Executors/Target; Executors/Uncertainty, Settled, Retry, Guards, Accepted and Resolution
--                prove.
--   Intelligence packages/intelligence/src: evaluateConfidence in Intelligence/Confidence,
--                resolveReasoningLevel in Intelligence/Reasoning, which reads the states of a budget;
--                Intelligence/Disposition and Intelligence/Levels prove.
--   Prelude      what all of them share: tests on numbers, lists measured by native numbers, the array
--                methods of the source, stable sorting, texts, and Outcome for code that may throw.
--
-- How the source is read: a readonly object is a record, a tagged union a data type, an optional field
-- an Option, an array a List. A name in camelCase is the same name in snake_case. Identifiers are
-- texts compared by equality. Numbers are natural numbers: where the sources check a number they refuse
-- negative and fractional ones (the age limit of an availability, which may be a fraction there, is natural here
-- too), and of the budgets' check for safe integers the bound 2 ^ 53 - 1 is left. An instant is what the
-- platform's Date.parse gives, a parameter of type DateParse; localeCompare is a parameter of type
-- LocaleLe, the order that it sorts by. No law of either is assumed where a theorem does not say so.
--
-- Waiting: an asynchronous method that awaits a port once is two functions, one up to the await, which
-- leaves a pending call with the locals, and one that goes on with the port's answer; `none` stands for
-- a port that throws. Records that a pending call may still hold live in a heap behind references. A Map
-- is a list of keys and values in the order of insertion.
--
-- Fuel: the loop `kahn` over the queue of ready nodes runs on fuel, one unit for each node; every turn
-- takes one node out of the queue, and a node comes into the queue once (GoalGraph/Exhaustion). All else
-- is structural.
--
-- Not modelled: the telemetry snapshot of a budget, which copies fields; sorted listings for display;
-- the creation of plan templates; the transport and the delivery rules of packages/events; the
-- readback, the SDK and the voice intake of the executors; the classification
-- and the router of packages/intelligence; the other packages and services, of which the adapters,
-- schemas and database access are input and output.
pub mod Prelude
pub mod Lifecycle
pub mod Budget
pub mod GoalGraph
pub mod Scheduler
pub mod Containment
pub mod AdaptiveLoop
pub mod CapabilityPlan
pub mod Events
pub mod Executors
pub mod Intelligence
pub mod Lanes
pub mod Templates
pub mod WorkerPool
