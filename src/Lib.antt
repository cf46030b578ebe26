-- ===== src/Lib.antt =====
-- The Rust gateway (rust_gateway/src), which makes, heals and deletes workspaces, each a Docker
-- container with three published ports, and which forwards authenticated requests to them.
--
-- Prelude: machine-independent helpers. Text is a list of code points with the string functions
-- that the code calls (`strip_prefix`, `split`, `split_once`, `trim`); Exec is stateful code that
-- can fail, with the state kept on the error path; Keeps, Post and Ends are the rules for
-- invariants and for postconditions of such code; Decimal prints numbers; Maps are association
-- lists keyed by text.
--
-- Workspaces (rust_gateway/src/workspaces): Rows is the table `workspace_creations` and the types
-- read out of it; Db the database, whose answers are the environment's choice (a list of faults);
-- Reads and Writes the functions of `WorkspaceStore` (store.rs); Host the trait `ContainerLauncher`
-- (container/mod.rs) with the health checks, as a record of actions on a state of its own, and a
-- log of the calls; Docker the implementation of that trait by the docker command
-- (container/docker_launcher.rs, docker_cli.rs, health.rs, inspect.rs, desktop.rs and the delivery
-- in boot_script.rs), over a machine that is a parameter; Lifecycle `create_workspace`,
-- `launch_and_record` and `delete_workspace` (mod.rs); Creation the route `POST /workspaces`
-- (route/create.rs); Listing `GET /workspaces` (route/list.rs); Resolve resolve.rs; Diagnosis
-- diagnosis.rs; AgentCookie proxy/agent_cookie.rs; WrapperProxy the routes of
-- wrapper_prefix_proxy.rs, commands_proxy.rs and onboarding_proxy.rs, over Resolve, AgentCookie and
-- Proxy; Watch daemon_watch.rs; Operations any sequence of these on one table. Invariant states
-- what holds of the table between any two statements. Files below a component (Lifecycle/Retry,
-- Resolve/Laws and so on) hold its proofs.
--
-- Proxy (rust_gateway/src/proxy/forward.rs): `forward_to`, by which the proxy routes reach a
-- backend.
--
-- Response (rust_gateway/src/response.rs): status and code of the gateway's own answers.
--
-- Auth (rust_gateway/src/auth): Sessions is `SessionStore` (store.rs) over the tables of users and
-- sessions; Login the routes of route.rs, with Google's answers as parameters and the pending
-- states as a map; Middleware `require_session` (middleware.rs), which decides what reaches the
-- handlers, over the sessions and the workspace rows; Paths its path tests.
--
-- Integrations (rust_gateway/src/integrations): Lockout is `McpBearerLockout`, Bearer
-- `require_workspace_bearer`, Sanitize `sanitize_request` (all mcp_proxy.rs, with `Provider` of
-- providers.rs); Providers the validation of `load_providers` (providers.rs); Rows, Connections and
-- Tokens are `IntegrationStore` (store.rs); Remote what the routes work on, with the trait
-- `OpenConnectorApi` (openconnector.rs), the cipher and the delivery of the token file as an
-- interface and a list of the calls made; Rotation, Connect and Disconnect the handlers of route.rs
-- that rotate a workspace's token, connect a provider and disconnect one, Listing the one that
-- lists them; McpRoute `integration_mcp_route` (mcp_proxy.rs); Json the JSON values that the proxy
-- rewrites.
--
-- Bounds and fuel: `launch_loop` has fuel for the rounds behind the current one and is started with
-- `max_attempts`, one more than the loop can use, so that its `break` is always reached first. The
-- loops of health.rs have fuel for `timeout / 500 + 2` rounds: each round sleeps half a second, so
-- that the deadline is reached first. The loop of `percent_decode` has fuel for one round more than
-- there are bytes, and every round moves on. `run` (daemon_watch.rs) never ends; its model is the
-- first n rounds. Ports are stored as numbers and cast by `as u16` where the code does.
--
-- Not modelled: Docker, HTTP, SQLite, the cookie parser and SHA-256 themselves (they are parameters
-- or lists of answers), logging, messages of error answers, the text of the boot script, the other
-- files of workspaces/proxy, the configuration, and the frontend and the Python backend. A future
-- that is dropped half way is not modelled; two requests that interleave are, as the halves of a
-- creation in Operations.
pub mod Prelude
pub mod Auth
pub mod Integrations
pub mod Proxy
pub mod Response
pub mod Workspaces
