-- ===== src/Lib.antt =====
-- A model of the rules engine of the repository, the Go package internal/rules, and of the parts of
-- internal/app that keep rules of their own, with the theorems about them. The engine has exact
-- decimals, typed mechanics that are inputs or derived by expressions, override records of the
-- inputs of an entity, status instances whose modifiers change what a mechanic evaluates to, and
-- transitions that apply an ordered plan of effects to a snapshot of records and instances. The
-- parts of internal/app are the life of an interaction, the throttle of the attempts to sign in,
-- the stored hashes of passwords and the search for the dependents of a mechanic.
--
-- Which file models which part:
--   Decimal      internal/rules/decimal.go: Parse has ParseDecimal, Ops the arithmetic and order,
--                Rat the rationals of math/big that it uses. A decimal is the list of the code
--                points of its canonical text. Digits, Written, Range and Arithmetic are about
--                what the arithmetic fails with.
--   Errors       internal/rules/errors.go: a Go pair of a value and an error is a Result.
--   Types        internal/rules/types.go: structs are records, enumerations data types with a last
--                constructor for any other text, and Types/Expressions has the expression trees.
--   Values       internal/rules/values.go
--   Definitions  internal/rules/definitions.go, and pathForNestedValidation of scalar_effects.go
--   State        internal/rules/logical_state.go; State/Validity says what its checks mean, and
--                State/Normalize what normalization does.
--   Effects      internal/rules/scalar_effects.go; Effects/Keeps and Effects/Frame have the
--                theorems on one effect.
--   Statuses     internal/rules/statuses.go
--   Graph        internal/rules/expressions.go: Infer has inferExpressionType, with its cases
--                in Infer/Cases, Cycles the two
--                depth-first walks and Compile ValidateMechanicGraph and CompileMechanicGraph.
--                Terminates and Ordered are about the fuel of the walks, Total about compilation.
--   Evaluation   internal/rules/evaluation.go: Operations and Modifiers have the pure functions,
--                Evaluator the methods of entityEvaluator as functions on an explicit state, and
--                Entity the two entry points. Plain, Measure, Total and Terminates are about the
--                end of an evaluation, Complete about what it lists, and Kinds about the kinds of
--                the values: Operators, Inside and Inferred have one node, Expressions, Modifiers,
--                Caches and Mechanics the evaluator, Checked, Sources and Accepted what the
--                checks in front of it ensure, and Entities the whole.
--   Transition   internal/rules/runtime_transitions.go: Plan has the checks on a plan, those of
--                the operands in Plan/Operands, Instances
--                those on the instances and the search among them, Apply the loop over the effects
--                and Run ApplyRuntimeTransition. Accepted, Checks, Loop, Orders, Validity, Untouched
--                and Lifecycle have the theorems.
--   App          internal/app. Failures has handleAppError of support.go. Lifecycle has
--                the rows and guards of interactions_core.go and terra.go, and in Handler
--                handleInteractionLifecycle; Steps, Runs, Locking, Shape and Ends are about it.
--                Throttle has authThrottle and Passwords the stored hashes of auth.go, in Base64
--                the encoding of their bytes. Dependents has the search of mechanics.go in front of archiving.
--   Base         Boolean tests, lists, integers, texts, sorting and maps that the parts share.
--   Samples      a small world, runs of the model on it, and the theorems at it.
--
-- A Go map is an association list, searched from the front; a loop over a map runs in the order of
-- the list, where Go leaves the order open. A missing key reads the zero value, as in Go. sort.Slice
-- is a stable insertion sort. IDs and texts are Unicode strings. A clone of a value is the value,
-- since nothing is shared. Integers are unbounded; nextAppliedOrder, where the source looks at
-- their bound, does so here too, and the numbers of a stored hash keep their wrap-around.
--
-- The handler of the lifecycle works on a store of the rows of one world and answers with the store
-- that a commit leaves; the item that it sends is loaded again behind the commit, and so a
-- parameter. What it meets outside is a record of the answers of the queries on other
-- tables and of the failures of the database at each statement. Two requests on one interaction
-- follow each other, since the row is locked. A throttle is the map of its entries, under its
-- lock; a stored hash is the list of its bytes. DerivesKeys states what argon2 documents of IDKey.
--
-- The evaluator takes one unit of fuel for each mechanic that may be open, at the call one more
-- than there are definitions, and so do the two walks of the graph, which answer `none` without
-- fuel; the walk of dependencyOrder takes one more, since it also visits what is not defined. This
-- is enough, since a mechanic is marked before what it refers to is visited, and a marked one is
-- not visited again.
--
-- Not modelled: the quoted input in the error texts of ParseDecimal, the quotes that %q puts around
-- an unsupported operation, and MustDecimal, which panics. A nil pointer that the source would dereference behind its checks reads as an error of
-- the model. The rest of internal/app, the packages internal/openai and internal/migrations, the
-- command cmd/wrought and the web frontend, which store, transport and show what the engine
-- computes.
pub mod Base
pub mod Decimal
pub mod Errors
pub mod Types
pub mod Values
pub mod Definitions
pub mod State
pub mod Effects
pub mod Statuses
pub mod Transition
pub mod Graph
pub mod Evaluation
pub mod App
pub mod Samples
