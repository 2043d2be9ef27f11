-- ===== src/Lib.antt =====
-- DepotFlux: a software demonstrator that plans the charging of an electric-bus depot, keeps the
-- planning runs in a database, and sends approved intervals of a plan over Modbus/TCP to a synthetic
-- site controller. The development models the parts that decide: the frame codec and its client, the
-- controller, the supervisory gateway in front of it, the repository of runs with its lifecycle,
-- idempotency keys and worker claims, the worker, the operator's decisions, notices and simulated
-- writes on runs, the evidence of dispatches, the authentication in front of them, the registry of
-- inputs, the routes of the HTTP service that put these together, the backup of its tables, and the
-- preparation of the horizon that the optimizers plan on.
--
-- Prelude.antt and its children pass the library's names on and add tests on the native numbers,
-- lists, signed integers and `Result` (a call that may raise). A method that changes an object takes
-- and returns it beside its result, since what was written before a raise stays written.
-- Floats.antt states what the program uses of Python's float as a record of operations, and as a
-- second record the facts about IEEE 754 doubles on the 0.1 kW scale that some theorems assume;
-- Floats/Fixed.antt is a fixed-point instance for tests.
--
-- Modbus (aggregator_demo/modbus_tcp.py): Registers has the register map and the exceptions, Bytes
-- the fields of `struct`, Frames the encoders and decoders of requests and responses, Commands the
-- power registers and `encode_dispatch_request`/`decode_dispatch_request`, Stream the readers
-- `receive_exact` and `receive_frame`, Client the class `ModbusTcpClient` over a network that is a
-- parameter. Its `receive_exact` takes fuel, one unit for each byte asked for, which is enough since
-- each round adds a byte or ends; the retry loop recurs on the rounds that are left.
--
-- Plc (aggregator_demo/plc_simulator.py): `SimulatedSiteController`, its seven registers as a record
-- and `handle_request` with its handlers. The lock makes a request one step. The membership of a peer
-- in the allowed networks is a parameter, as are the site's capacity and the heartbeat flag.
--
-- Gateway (aggregator_demo/ot_gateway.py): `DispatchGateway`, over a client that is an interface
-- (`ControllerClient`), with its replay cache and its watch on the heartbeat. Fence has the checks in
-- front of the controller, Routes the internal routes with their key, HttpClient the client of
-- these routes, Replay the cache over a sequence of calls, Fallback the failures. Settings
-- and times are whole microseconds; each method is one step.
--
-- Runs (aggregator_demo/run_repository.py, with `RunStatus` of contracts.py and `RunRow` of
-- database.py): Status has the states and the allowed transitions, Json the payloads, Row the table,
-- Repository the methods that move a run, Claim `claim_next`, Create `create`, Listing `list`;
-- History is any sequence of calls. What other sessions commit inside `create` and `claim_next` is a
-- function argument. The digests of requests and of results (canonical JSON and SHA-256) are parameters, and so are new
-- UUIDs and the clock. Times are microseconds. The texts of failures and the solver name have the
-- bounds of their columns, which PostgreSQL enforces; SQLite would store longer ones. The other columns
-- of a run take the texts that they are given, which the request or the program has bounded.
--
-- Approvals (aggregator_demo/approval_repository.py, with `ApprovalRow` of database.py): the operator's
-- decisions on runs, `create` and `get`. Binding and Final follow any sequence of calls on the table of
-- runs and the table of decisions together, Timeline has the events of a run.
--
-- Control (aggregator_demo/ot_security.py): the key, the setpoint policy and the codec of simulated
-- control writes, at their default register and scale.
--
-- Schedule (aggregator_demo/dispatch_repository.py): what is read of a result and of an input, which is the
-- setpoint of an interval and the capacity of the site. Python's conversions of JSON values and its sum
-- are an interface (`Conversions`).
--
-- Dispatch (aggregator_demo/dispatch_repository.py): `DispatchEvidenceRepository`, over a gateway that
-- is an interface (`SupervisoryGateway`). Evidence has the two tables and `_persist`, Gate the steps
-- and `safe_state`, the parent `dispatch`; Audit follows the tables, Clearance the gateway,
-- over the facts of Checks and Gated.
--
-- Notices (aggregator_demo/notice_repository.py, with `OperationalNoticeRow` of database.py): the
-- simulated notices, `create_simulated` with the candidate run that it submits through Runs; Linked
-- has the link of the two, Replan an answered submission, Retry a repeated one. Python's `len` of a text is a parameter.
--
-- Worker (aggregator_demo/worker.py): `execute_one` and the rounds of the loop of `main`, over the
-- optimizers and the input registry as an interface (`Optimizers`). Texts has what these must keep to
-- for the columns to take their texts. The model has no `agent_backend`,
-- which has one value. Settles follows a claimed run to its end, Drain the queue; a round of the loop is
-- one unit of fuel, and the queued runs bound the rounds that a worker alone needs.
--
-- Simulations (aggregator_demo/control_repository.py, with `ControlSimulationRow` of database.py): the
-- simulated control writes, `create` with its checks, which use Schedule, Control and the tests on the
-- approval of Dispatch. Policy has the checks, Once the one row of a run and an interval.
--
-- Auth (aggregator_demo/auth.py): the accounts from the environment, `authenticate` and
-- `require_role`; Python's operations on texts are an interface (`Texts`). Keys follows a key.
--
-- AuditTrail (aggregator_demo/gridtwin/security.py): the hash chain of the experiments, `append` and
-- `verify`; the canonical JSON of a record and its SHA-256 are a parameter. Chain follows the hashes.
--
-- Registry (aggregator_demo/input_registry.py): the manifest, the lookup, `verify` and `load`, over a
-- file system that is an interface (`InputFiles`), one for each of the two reads of `load`.
--
-- Http (aggregator_demo/app.py): the service that the routes share (`Service`, `Application`), the
-- dependencies on a principal and on its role; Routes has the handlers with the status code and the
-- code of every exception they catch, and `serve`, which gives each request its route. Each handler
-- is the composition of Auth, Registry and the repositories that the source calls. A request is one
-- step, so no other session commits inside it. Confined has who changes what, Submitted what
-- stands behind an accepted run and behind a command to the site, Refines the routes as
-- calls of Runs and Approvals, Lists the routes that list rows with the queries behind them, Status the
-- route that reads the controller, and with it may command its safe state. FastAPI's validation of
-- the parameters has happened.
--
-- Backup (aggregator_demo/admin.py): `create_backup` and `restore_backup`, over the texts of times, the
-- digest and the constraints of the database as an interface (`Environment`); Models has the
-- tables of database.py and their columns.
--
-- Horizon (aggregator_demo/optimization/day_ahead.py and real_time.py): the parent has the series, the
-- boundaries and the multiplier schedules, Times the steps of clock times and durations, Align the
-- series with steps of their own, which only real_time.py has. The two files share the code
-- of the others. Steps are naturals. The floor of a float quotient of two counts is taken as the
-- quotient of naturals, which is exact below 2^53; `ExactSteps` has what else doubles guarantee of
-- such counts. For other floats the arithmetic is Floats, and what pandas and `float()` make of a
-- value is a parameter.
--
-- Samples.antt has concrete rows for the tests.
--
-- Not modelled: the mixed-integer programs of the optimizers and their solver, the grid simulation
-- (numeric code over Pyomo and pandapower), the security monitor, the routes that
-- report health, metrics, meta and the session, the routes of the grid twin, the responses that
-- rows are copied into, texts for the operator, logging, metrics, settings, the files of a backup,
-- the command line, the dashboard, migrations and scripts.
pub mod Prelude
pub mod Floats
pub mod Modbus
pub mod Gateway
pub mod Plc
pub mod Approvals
pub mod Control
pub mod Schedule
pub mod Dispatch
pub mod Runs
pub mod Notices
pub mod Worker
pub mod Simulations
pub mod Samples
pub mod Backup
pub mod Http
pub mod Registry
pub mod Horizon
pub mod Auth
pub mod AuditTrail
