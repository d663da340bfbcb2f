-- ===== src/Lib.antt =====
-- Sphere Platform: the backend of a service that manages fleets of Android devices.
--
-- The library models the parts of `backend/` in which the program's own rules live, as pure functions
-- over records: what a method reads and writes of the database, of Redis or of its object is the
-- record that the function takes and returns.
--
-- Dag (backend/schemas/dag.py): scenario graphs. `Dag/Node.antt` has the node and its validator,
-- `Dag/Search.antt` has `_build_adj` and `_get_reachable` (fuel: one unit for each pop, and one pop
-- for each edge), `Dag/Validate.antt` has `validate_dag` and the checks around it. The pattern for
-- node ids and the lengths of names and descriptions, which pydantic checks, are left out, and so is
-- `_check_no_infinite_loops`, which nothing calls; the regular expressions of
-- backend/services/lua_safety.py are an argument.
--
-- Pipeline (backend/services/orchestrator/*.py, backend/models/pipeline.py): `Pipeline/Run.antt` has
-- the row of a run, `Pipeline/Requests.antt` the requests of users and the poll for queued rows,
-- `Pipeline/Executor.antt` the loop of `_execute_run` and its wrapper, `Pipeline/Steps.antt` the
-- registry and the handlers of condition, delay, parallel and loop steps, `Pipeline/Condition.antt`
-- the operators of conditions. The executor runs in a `World`: a clock that is read once for each
-- round, the pipeline's timeout, the requests that other sessions write before and during each
-- round, and the handler. The loop has no bound of its own, and takes fuel for each round; its
-- timeout gives the bound. The handlers that wait for other systems are an argument of the registry.
--
-- Accounts (backend/services/game_account_service.py, account_session_service.py and event_reactor.py in
-- the same folder, backend/services/orchestrator/step_handlers.py): `Accounts/Account.antt` has the
-- tables, `Accounts/Service.antt` the requests, `Accounts/Sessions.antt` the sessions of accounts,
-- `Accounts/Reactor.antt` what an event of a device does to accounts, sessions and the rotation, and
-- `Accounts/Steps.antt` the two account steps of pipelines. Rows stand in the order of creation; the
-- ids of new rows are arguments. The triggers of events are left out, and so are rows that another
-- transaction has locked.
--
-- Auth (backend/services/auth_service.py, backend/services/cache_service.py): `Auth.antt` has the rows
-- and the answers, `Auth/CacheService.antt` the keys in Redis with their expiry, `Auth/Service.antt` the
-- two steps of a login, the rotation of refresh tokens and the logout, and `Auth/Access.antt` has
-- `get_current_user` (backend/core/dependencies.py), where what jwt decodes is an argument. Hashes,
-- TOTP, the encoding of access tokens and what is drawn at random are arguments too.
--
-- Rbac (backend/core/rbac.py): the whole matrix of permissions and `has_permission`.
--
-- Scheduler (backend/services/scheduler/*.py, backend/models/schedule.py): `Scheduler/Service.antt` has
-- the requests and `_compute_next_fire`; `Scheduler/Engine.antt` has `_process_schedule` and `_tick`,
-- and its children the devices, the conflict policies and what a firing creates. It enqueues into the
-- queue of `Tasks/Queue.antt`. A tick reads one clock when it begins and one for each schedule;
-- croniter, the cache of device states, the publisher and the ids of new rows are arguments, and
-- exceptions of the database inside a tick are left out.
--
-- Redis (a service that the backend calls): `Redis.antt` states the documented behaviour of sorted
-- sets as laws of a record, which the clients take as a parameter, and `Redis/Memory.antt` meets them
-- with a dict.
--
-- Tasks (backend/services/task_queue.py, backend/services/task_service.py, backend/models/task*.py):
-- `Tasks/Queue.antt` has the priority queue of a device and its lock, `Tasks/Queue/Refines.antt` the
-- abstract queue that it implements, `Tasks/Batch.antt` the counters of a batch, `Tasks/Service.antt`
-- cancelling, stopping and the results of agents, `Tasks/Dispatch.antt` the creation of tasks and the
-- dispatcher, and `Tasks/Watchdog.antt` a cycle of backend/tasks/task_heartbeat_watchdog.py. The tables
-- are dicts from ids, in the order of insertion. Scores are whole: the fraction of a second and the
-- rounding of floats are left out, and so are the content of a command, the events, the webhooks and
-- the listing of tasks. A lock stands until it is released: its expiry after an hour is left out.
--
-- Vpn (backend/services/vpn/ip_pool.py, backend/services/vpn/pool_service.py, backend/models/vpn_peer.py):
-- `Vpn/Pool.antt` has the pool of an organisation's addresses, and assigning and revoking peers. The
-- hosts of the subnet and the outcome of provisioning (keys, the WireGuard router, the insert) are
-- arguments. The text of a configuration and the obfuscation parameters are left out.
--
-- Websocket (backend/websocket/*.py): `Websocket/Connections.antt` has the registry of connections
-- (connection_manager.py), with a send as one step and the outcome of writing to a socket as an
-- argument. `Websocket/Video.antt` has the frame types and the bounded queue of a video stream
-- (frames.py, video_queue.py), with a clock in whole milliseconds. `Websocket/Offline.antt` has the
-- commands that wait for a device that is offline (offline_queue.py); how far Redis trims a stream, and
-- what becomes of a command that is sent, are arguments.
--
-- Not modelled: the HTTP handlers and the settings, which pass values on; the orchestration engine, the
-- triggers of events, the batches of pipelines and the waves of tasks; the registration and discovery
-- of devices, API keys and webhooks; the agents and the scripts that fill the database. Redis, SQL,
-- cryptography and the router of the VPN are other programs, and stand as arguments or laws.
pub mod Accounts
pub mod Auth
pub mod Base
pub mod Dag
pub mod Pipeline
pub mod Rbac
pub mod Redis
pub mod Scheduler
pub mod Tasks
pub mod Vpn
pub mod Websocket
