-- ===== src/Lib.antt =====
-- Models of sandbar, a terminal coding agent, with the theorems that make its core correct.
--
-- Strings of the source are lists of bytes (`Str`), numbers are natural numbers, maps are association
-- lists in insertion order. A definition carries the source's name in snake case. What only formats
-- text for a person, and all input and output, is left out unless a file's header says otherwise.
--
--   Base           shared: tests, lists, strings, maps
--   Agent          internal/agent
--     Messages         chat messages and indexedMessage
--     Sanitize         sanitizeProviderMessages (sanitize.go); its nested loops are one pass with a phase
--     SanitizeIndexed  sanitizeIndexedMessages, trailingUnansweredToolCalls (sanitize.go)
--     Payload          validateProviderPayload (compression.go)
--     Groups           groupMessagesForCompression, alignCompressionBoundary (compression.go); the fuel
--                      is the length of the list, of which every round takes at least one message
--     Truncate         toRawMessages, truncateIndexedToBudget, minimalSafeIndexedPayload (compression.go);
--                      token counting is a parameter
--     Prune            pruneOldToolOutputs (compression.go)
--     Steering         steeringQueues (steering.go): every operation is one step, as the mutex makes it
--     Retry            runWithLLMRetry and the classification of errors (retry.go); the loop has fuel
--                      six, one for each attempt of the longest schedule
--     ToolLoopGuard    toolLoopGuard.Observe (tool_loop_guard.go)
--     Turn             Chat and streamAndPersist (agent.go), over a record of what the loop asks of the
--                      rest of the program
--       Calls          executeToolCallBatchWith (tool_execution.go), and the closing of a batch; the
--                      order of its workers is a parameter, and each call is one step
--       Rounds         a round of the loop, drainSteering (steering.go)
--       Chat           the turn from the lock of its thread on. The loop may run for ever, so it has fuel,
--                      of which one unit for each round and one more is enough where rounds are limited
--       Store          the tables of Threads as the store of the loop
--     TextTools        text_tool_parser.go; the fuel of a loop is the number of bytes left, and one, which
--                      is enough since every step takes a byte
--       Scan, Tables, Ids    the loops, the tables of names, the ids
--   Tools          internal/tools
--     Diff             splitLines, lcsOps, lcsMiddle (diff.go)
--     Hunks            buildHunks, makeHunk (diff.go)
--     DiffText         unifiedDiff, countAddsRemoves, fileDiffSummary (diff.go)
--     Hashline         hashline.go; SHA-256 is a parameter
--     Mutation         mutateFile, atomicReplaceFile (file_mutation.go)
--     Patch            levenshtein, findClosestLine (patch.go), strings.Count and strings.Replace
--     FileTools        FileWrite, FileAppend (file.go) and FilePatch (patch.go); the path functions and
--                      the digests are parameters
--     Capture          boundedCapture (jobs.go); the fuel of its loop is the number of bytes
--     ShellJob, Jobs   shellJob and JobSupervisor (jobs.go), with the operations, process ends and
--                      timers as a step relation
--     Approval         tiers, policies, modes (approval.go) and resolveApprovalPolicy (registry.go)
--     Json, Schema     schema_validation.go, by recursion on the schema; floats and patterns are
--                      parameters, and Execute takes the check as a parameter
--     Execute          Registry.Execute (registry.go), with the events it causes as a list
--   Memory         internal/memory
--     Todo             todo items, validation, id allocation (plan.go); the allocation loop counts the
--                      numbers left up to math.MaxInt64, so it needs no fuel
--     Plan             the tables of migrations/0006_thread_plans.sql, loadPlan, insertTodos,
--                      prepareReplacement (plan.go); strconv and TrimSpace are parameters
--     PlanStore        CreatePlan, GetPlan, ListTodos, DeletePlan, CreateTodos, ReplaceTodos,
--                      UpdateTodos, DeleteTodos as transactions on the tables (plan.go)
--     TodoTable        the todos table of all threads, and the statements of plan.go on it: what they do to
--                      the rows of a thread is what PlanStore does to its plan
--     Threads          thread.go and compression.go on the tables of migrations/0001 to 0007; the
--                      attempts of an append are counted down from maxRetries
--       Tables, History    what the tables say together, and the sequences of writes
--
-- The agent's loop repairs a message list before every model call (Sanitize), checks it (Payload), and
-- prunes it (Prune) or cuts it at group boundaries when it grows too long (Groups, Truncate); messages
-- and undos are writes on the tables of Threads. A tool call of the model, native or read from its text
-- by TextTools, goes through Execute, which asks Approval for the policy; the file tools (FileTools)
-- commit through Mutation, report an edit through Diff and anchor edits through Hashline; a command in
-- the background is a ShellJob of Jobs, with its output in a Capture. A turn takes messages of the user
-- from Steering, retries model calls with Retry and stops a repeating model with ToolLoopGuard. The
-- todo tool works on the plan of PlanStore, which a fork of Threads copies.
--
-- Chat of the turn loop (Turn) puts these together: a round is a repaired and checked payload, a model
-- call, and either an answer or a group of tool calls, which is stored before it runs and closed whatever
-- happens then. What the loop asks of the others is the record `Host`; the tables of Threads are shown to
-- be a store of the kind that it assumes.
--
-- Not modelled: the terminal front end (cmd/sandbar) and its widgets, which draw; the first messages of
-- a turn (buildMessages), titles, subagents, and the summaries of a model; the HTTP clients
-- (internal/llm), the MCP client, and the tools that call other programs or services; configuration
-- files, the catalog, personas and themes. Failures of the file system and the database are values only
-- where the code acts on them.
pub mod Base
pub mod Agent
pub mod Tools
pub mod Memory
mod Tests
