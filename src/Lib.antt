-- ===== src/Lib.antt =====
-- AWS SSM Kit is a Windows application that keeps AWS profiles with their protected keys, issues
-- temporary sessions with MFA, and runs tunnels, transfers and secret lookups with them. This library
-- models its core: the values of the domain, the rows that the store keeps, and the services that
-- hand out credentials, with the two coordinators that park an operation until the user has typed
-- an MFA code. All paths below are relative to src/aws_connect/ of the repository.
--
-- The parts and their files:
--   * Base, Errors, Text: comparisons, lists and dictionaries (a Python `dict` or a table is an
--     association list in insertion order); the errors of domain/errors.py with the monad `Exec` of a
--     call that changes a state and returns or raises, what it wrote before being kept; the `str`
--     operations that the code uses, and its regular expressions with a matcher by derivatives
--     (Text/Regex) and their meaning as a relation (Text/Regex/Language). Errors/Keeps has the
--     invariants of calls, Errors/Ends the outcomes of calls, Errors/Runs triples that relate the
--     state before a call, its outcome and the state after it, Errors/Typed calls that raise typed
--     errors only, Errors/Yields what calls return.
--   * Domain: one module for each file of domain/. A constructor with `__post_init__` is a function
--     from the given fields to a result: `aws_profile` (domain/aws_profile.py), `tunnel_session`,
--     `s3_location`, `s3_drive`, `saved_secret`, `app_settings`. The modules Validity say what they
--     accept.
--   * Store: infrastructure/sqlite_profile_store.py. `Db` is the database, Store/Profiles the profile
--     table with its transactions (`create`, `update`, `delete`, `set_default`) and the cascade to
--     the tables of other objects, Store/Sessions the temporary sessions.
--   * Application/Env: the state of a service, that is the database, the execution log and the world
--     behind the ports of application/ports.py.
--   * Application/Logging: the decorator of application/execution_logging.py.
--   * Application/Operations, Profiles, Sessions: application/operations.py, profile_service.py, and
--     the services `SessionGuard` and `AuthenticationService` of authentication_service.py.
--   * Application/Refresh: `OperationCoordinator` of authentication_service.py.
--   * Application/Authenticated: application/authenticated_operation.py, over the former.
--   * Application/Tunnels: application/rds_tunnel_service.py. The module itself has the saved tunnels
--     (`TunnelSessionService`), over Store/Tunnels; Managed has the values of the tunnel service with
--     its table of managed tunnels, Managed/Start its checks and both ways to start a tunnel,
--     Managed/Stop the polls and the stops. The runners of the plugin, the probe of the local port
--     and the list of online instances are the parameter `TunnelPorts`.
--   * Application/Ssm: application/ssm_session.py. The module itself has the plugin checks and the stop
--     of a process, Foreground the `ForegroundSsmSessionRunner`, Managed the `ManagedSsmSessionRunner`
--     with its table of owned sessions. A call `start`, `status` or `stop` is one step of
--     Managed/Reach. Counted adds to a world the weights of the sessions started and of the requests
--     to end one, for any weight of session ids. The gateway, the plugin and its processes are the parameter `SsmPorts`.
--   * Application/Tunnels/Managed/Runner: bootstrap.py where it gives the runners of the SSM sessions to
--     the tunnel service.
--   * Application/S3: application/s3_service.py. Objects has the listings, renames and removals of
--     `S3Service`, Upload and Download its transfers. The gateway and the local files are the
--     parameter `S3Ports`; a transfer returns the numbers of bytes that it would report. Contents
--     and Download/Kept say which calls change which objects and files.
--   * Store/Named: the tables whose rows belong to a profile and have a name, with Store/Locations,
--     Store/Drives and Store/Secrets; Named/Writes ranges over the writes of these tables.
--     Store/Settings has the settings and the favorite instances.
--   * Application/S3/Locations: `S3LocationService`. Owned compares the locations of two profiles.
--   * Application/Drives: application/s3_drive_service.py. The mounts are the parameter `DrivePorts`;
--     Shutdown and Attempts say what their calls do, as laws on a view of the world.
--   * Application/Lifecycle: application/connection_lifecycle.py. The sessions of EC2 and the tunnels
--     are the interface `Owners`.
--   * Store/Drives/Refines: the table of drives beside a function from keys to drives.
--   * Domain/SensitiveData: domain/sensitive_data.py. Application/Secrets:
--     application/secrets_service.py. It has the documents of secrets and their fields, Commands
--     the commands of relays, Saved and Lookups the operations of `SecretsService`. The gateways are
--     the parameter `SecretPorts`, the JSON modules `JsonPorts`; Lookups/Confirmed reads the commands
--     that were run off the world.
--   * Tests: runs at sample values.
--
-- How they interact: a coordinator calls the authentication service, which resolves a profile in the
-- store, asks the gateway of AWS for its identity or a session, and writes the session back. Each
-- layer runs on the state of the layer below, which is a field of its own: `within` runs a call of
-- a service inside a coordinator, and `below` a call of the coordinator inside the next one.
--
-- Parameters: `Runtime` holds the Unicode tables and the address parser of Python. `Ports` holds the
-- clock, `uuid4`, the calls of AWS and of the data protection, and the writer of the shared
-- credentials, each of which may change the world and may raise. `Feature` holds the actions that
-- wait: a closure of the source is a value that `perform` runs.
--
-- Choices: identifiers and operation ids are natural numbers, times are microseconds, and a profile
-- id of the source that is not positive is 0. Lists of pending entries are bounded by 128, the
-- constant of the source. Only the decimal text of a number takes fuel, one more than the number,
-- which Text/Digits reads back. A lock of the source makes a call one step here; interleavings are
-- the sequences of calls that the invariants range over.
--
-- Not modelled: correlation identifiers and AWS diagnostics of log records, progress reports, rows
-- of sessions whose dates do not parse, SQLite errors other than a broken uniqueness and the id of a
-- selector that is too large for the driver, the lower case of a Greek sigma at the end of a word,
-- migrations and file permissions; the command line, the graphical interface, the gateways of AWS
-- and of Windows,
-- and the services of endpoints, EC2 and the dashboard; the plans of transfers over
-- local folders; keyboard interrupts, and the technical causes that name a Python exception.
pub mod Base
pub mod Errors
pub mod Text
pub mod Domain
pub mod Store
pub mod Application
pub mod Tests
