-- ===== src/Lib.antt =====
-- Verification of the OJS conformance suite: the library that decides whether a response of a server
-- is what a test case expects, the two runners that execute test cases and report on them, the portal that
-- hands out certificates, and the debug adapter for traces of jobs.
--
-- How the program works. A runner (runner/http, runner/grpc) loads the test cases of suites/ (lib/
-- schema.go), executes their steps, and asks lib/assertions.go for each assertion: ResolveJSONPath
-- finds a value in the parsed body, MatchAssertion compares it with a matcher. buildReport counts the
-- results and finds the conformance level. The gRPC runner first maps the HTTP action and path of a
-- step to a method and a gRPC code back to an HTTP status (adapter.go, assertions.go). The portal
-- (badge/portal.go) issues certificates for such results.
--
-- Common: texts as lists of code points, ints as ℤ with the range of int64 where strconv.Atoi checks it, and
--   the functions of strings and strconv that the source calls.
-- Json: what encoding/json reads. Value is Go's `any`, Raw a json.RawMessage by the value it spells, an
--   object a list of entries; Json.Unmarshal is json.Unmarshal into the types that occur. Runtime holds
--   the operations of float64 and regexp, which are parameters.
-- Assertions (lib/assertions.go): Assertions.Strings is matchStringAssertion, Assertions.Match the
--   matchers of objects and arrays and MatchAssertion itself. A Verdict is the error or nil; the texts
--   of errors are constructors. The regular expressions that the source compiles from literals are
--   scanners in Assertions.Patterns. The bodies take the recursive call as an argument; match_assertion
--   ties the knot with the size of the matcher as fuel, which is enough because every recursive call is
--   on a part of the matcher.
-- JsonPath (lib/assertions.go): ResolveJSONPath and splitJSONPath. The fuel of resolve_json_path is one
--   more than the length of the path, since every recursive call is on a shorter one; the loop over
--   brackets has the length of the rest as fuel.
-- Schema (lib/schema.go): the records, ParseLevel, LevelName, ParsedHeaders, ParsedHeaderMatchers.
-- Report: buildReport of runner/http/runner.go, and in Report.Grpc that of runner/grpc/runner.go. The
--   map from levels to summaries is a list of entries; time, duration and environment are left out.
-- Runner (runner/http/runner.go, runner/grpc/runner.go): filterTests, collectParallelGroup,
--   executeStepsWithParallel and runTest. What executes a step is a parameter (Exchange); the steps of a
--   parallel group run at the same time, so the answer of each may depend on the whole group.
-- Evaluate (runner/http/runner.go, runner/grpc/runner.go, runner/grpc/assertions.go): Evaluate.Templates
--   replaces references to earlier steps, Evaluate.Status is evaluateStatusAssertion, Evaluate.Checks and
--   Evaluate.Body have the other parts of evaluateAssertions, which Evaluate.Steps puts together for each
--   runner. The pattern of the templates is a scanner. Codec holds encoding/json, the wording of errors
--   and the canonical form of header keys. Evaluate.Expectations and Evaluate.Paths say what the
--   assertions that the runner evaluates ask for, without the lists of failures.
-- Execute: executeStep of the HTTP runner, and in Execute.Grpc that of the gRPC runner. What net/http
--   or CallRPC return is an argument; Execute.Cases makes the Exchange of each runner from it.
-- Timing (lib/timing.go): the comparisons of durations, and WaitForCondition over a clock, a sleep and a
--   check that are arguments. Its loop has one round of fuel more than the timeout in nanoseconds, which
--   is enough where every round takes time.
-- Dap (cmd/exec-history-dap): Dap.Server and Dap.Handlers are the server of serve.go, Dap.Emitter the
--   stream of main.go, Dap.Framing the messages on the wire, where a stream is a list of bytes, and the
--   two readers; an error keeps whether it is or wraps io.EOF, which Run asks for. A Session is the state
--   that the server and the emitter have in common, and Dap.Closed is about the predicates of it that all
--   its operations keep; the map of a message is a Content. What an event of a trace is, lib.Replay,
--   fmt.Sscanf and encoding/json are fields of Trace and Format. The loop that reads a stream has fuel
--   for each message and one round more. Dap.Commands has main and its commands.
-- Adapter: the route table, ResolveRoute, the choice of executeStep between ambiguous methods, and the
--   tables of status codes of runner/grpc.
-- Client (runner/grpc/client.go): Client.Messages has the messages of the generated code with the fields
--   that are used, Client.Bodies and Client.Options (buildEnqueueOptions) what is read from the body of a
--   step, Client.Requests the request of each method, Client.Maps protoJobToMap and protoWorkflowToMap,
--   Client.Services the type of the service behind the connection (the argument Service), Client.Calls
--   the results of the calls and CallRPC. Client.Settings is the idiom of optional settings with a flag.
--   The functions of google.protobuf and of package time are fields of Protobuf.
-- Suite (runner/http/runner.go, runner/grpc/main.go): main of both runners, from the flags to the exit
--   code, and loadTests. Report.Table is outputTable, as the list of its calls of package fmt. Files,
--   Redis, the server and the writing of the report are fields of Environment.
-- Portal (badge/portal.go): the store of certificates and its handlers; SHA-256, the format of times,
--   the division of floats and sort.Slice are fields of Platform, the time is an argument.
-- Badge (badge/badge.go): the SVG of a badge and ServeBadge.
-- Examples: a runtime over whole numbers, tests, and each theorem at a concrete input.
--
-- Not modelled: the parsing of flags, outputJSON, the dialling of the gRPC client, the constant page of
-- /status, and the server of cmd/portal, which are input and output only. Strings are taken to be valid
-- UTF-8, and writing to stdout to succeed. The goroutines of a parallel group are one after another,
-- each with the results from before the group.
pub mod Common
pub mod Json
pub mod Assertions
pub mod JsonPath
pub mod Schema
pub mod Timing
pub mod Evaluate
pub mod Execute
pub mod Dap
pub mod Client
pub mod Report
pub mod Suite
pub mod Adapter
pub mod Runner
pub mod Portal
pub mod Badge
pub mod Examples
