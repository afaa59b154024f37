-- ===== src/Lib.antt =====
-- Drukbox (README.md) hands out sandbox hosts: virtual machines of several vendors, kept as rows of a
-- database, reached over SSH, with secrets that a proxy puts into their requests. This library models
-- the host service and the parts under it, and proves what they keep.
--
-- The parts, and the files that model them:
--
--   src/hosts/models.py, src/hosts/exceptions.py: Hosts/Model (the rows of hosts and of idempotency keys, the
--     statuses, the exceptions), Hosts/Name (Host.build_name).
--   The world of a request: Hosts/World (the database as lists of rows, the clock, the log of events,
--     the settings of src/core/settings.py, the tailnet of src/networking/tailscale.py, and `Env`, what a run
--     takes from outside), Hosts/Session (queries, commits and awaited calls).
--   src/hosts/service.py, `HostService`: Hosts/Create (create_host), Hosts/Provision (provision,
--     put_secrets, mark_failed), Hosts/KeyScan (scan_known_hosts), Hosts/Claim (_try_claim_pool_host),
--     Hosts/Request (get_or_create_host and the idempotency keys), Hosts/Lifecycle (renew_host,
--     refresh_secret, delete_host).
--   src/hosts/pool.py: Hosts/Pool (maintain_pool), Hosts/Pool/Batch (the round-robin batch).
--   src/hosts/janitor.py: Hosts/Janitor (reap_expired_hosts).
--   Calls from the API, the pool's cron and the janitor, one after the other: Hosts/Service.
--   src/providers/base.py, src/providers/registry.py: Providers (what HostService asks of a provider).
--   src/providers/environment.py: Providers/Environment (all of its functions).
--   src/secrets_exchange/secrets.py: Exchange/Secret (Secret.fetch), Exchange/Refreshable
--     (RefreshableSecret), Exchange/Table (Secrets).
--   src/secrets_exchange/app.py: Exchange/Authorize (authorize, push_active_hosts).
--   src/host_secrets/catalog.py, src/host_secrets/placeholder.py: HostSecrets/Catalog,
--     HostSecrets/Placeholder.
--   deploy/proxy/swap.py: Proxy/Header (placeholder_in and the authority of a request), Proxy/Client (the
--     client of the exchange), Proxy/Addon (the hooks and their state), Proxy/Swap (requestheaders and
--     swap). Proxy/Swap/Backed puts Exchange/Authorize behind the client.
--   src/networking/tailscale.py: Networking/Api (TailscaleAPI and Tailscale), Networking/Waiter
--     (_DeviceWaiter, as a step relation).
--   src/service_accounts, src/hosts/auth.py: Accounts.
--   src/http_proxies: HttpProxies.
--   src/providers/exe: Vendors/Exe/Api (ExeAPI), Vendors/Exe/Commands (its command lines),
--     Vendors/Exe/Script (its setup script), Vendors/Exe/Reply (what it makes of a reply),
--     Vendors/Exe/Provider (ExeProvider).
--   src/providers/hetzner: Vendors/Hetzner/Api (HetznerAPI), Vendors/Hetzner/Provider
--     (HetznerProvider).
--   src/hosts/schemas.py, src/host_secrets/schemas.py: Requests/HostCreate, Requests/SecretEntry,
--     Requests/Patterns (their regular expressions).
--   src/templates: Templates/Model (models.py), Templates/Service (service.py), Templates/Janitor
--     (janitor.py).
--
-- The proxy asks the exchange (Proxy/Swap/Backed), the exchange reads the placeholder and the rows
-- (HostSecrets/Placeholder, Hosts/World) and serves a secret of its table (Exchange/Table).
--
-- How the code is modelled. An operation is a function from a world to a result or an exception and
-- the world after it (Base/Op); what was written before a raise stays written. The database is
-- shared: at every commit and every awaited call the other requests may change it in any way
-- (`Env.others`), so one run is followed through all interleavings at its statements. The clock goes
-- on by any amount at each reading. Providers, the tailnet, the issuers, ssh-keyscan, random tokens,
-- uuid7 and SHA-256 are fields of `Provider`, `Tailscale` and `Env`. Statuses committed, machines
-- created and rows deleted are noted in the log, and so are the calls that delete a machine, its
-- secrets or a device, each with its answer. Base/Keeps and Base/Yields have one rule for each way
-- to build an operation.
--
-- The parts beside HostService have a state of their own: the addon with the hook's request and
-- connection, the tailnet's API object, the waiters with the poller, the rows of the accounts. Their
-- calls run one after the other, and the waiter's steps in any order. mitmproxy's headers, the
-- resolver, the HTTP client, the replies of exe.dev and Hetzner, exe.dev's calls and `str.lower` of
-- a registered host are parameters; the laws of mitmproxy's multidict are a hypothesis, and
-- Tests/Headers has a multidict that keeps them.
--
-- Times are milliseconds (seconds in Networking), a UUID is a number, and numbers have no upper bound,
-- as in Python. Three loops run on fuel: the rounds of scan_known_hosts, one for each half second of the
-- provider's limit and two more, the while loop of the batch, whose budget is its fuel, and Hetzner's
-- wait_for_running_with_ip, with one question for each pause that fits into its limit and one more. All
-- three are proved to end by themselves.
--
-- The texts of exceptions are given in full where provision or a template's build keeps them in a row;
-- elsewhere a text has only the part that varies.
--
-- Not modelled: the PostgreSQL advisory locks of the counts (the other requests run between a count
-- and its insert), row locks, sessions and rollbacks of the ORM, logging, the adapters of the other
-- vendors, the template images of exe.dev, the SSH gateway, the HTTP applications, the shutdown of
-- clients and tasks, and what pydantic does by itself: the parsing of JSON, of URLs and of settings,
-- and the text of its errors. Of a request with several faults the first is reported. The checks of
-- `urlsplit` that brackets hold an IP address and that NFKC adds no delimiter are left out. An
-- idempotency key is not empty, as the API's pattern has it. `uuid.UUID` is modelled without the
-- sign, blanks, underscores and 0x that its `int` takes. The clock is read in delete_host whether or
-- not expired_only asks for it.
pub mod Base
pub mod Exchange
pub mod Providers
pub mod Proxy
pub mod Networking
pub mod HttpProxies
pub mod Vendors
pub mod Requests
pub mod Accounts
pub mod Templates
pub mod HostSecrets
pub mod Hosts
pub mod Tests
