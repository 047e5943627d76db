-- ===== src/Lib.antt =====
-- YouWol's local server: its document database and the services that stand on it.
--
-- The parts and how they interact. The backends of src/youwol/backends keep their data in tables;
-- on a local server a table is a `LocalDocDbClient` of src/youwol/utils/clients/docdb, a list of
-- documents in memory that every write puts in a file. The tree_db backend keeps drives, folders,
-- items and a trash in four such tables. The assets backend keeps assets and the policies of groups
-- on them in two, and answers what a user may do with an asset. The cdn backend puts resolved libraries in an order in
-- which they can be loaded. The accounts backend keeps the tokens of users and the state of their
-- logins in a cache.
--
-- - Prelude: the libraries' names, lists, dictionaries (`Dict`, in insertion order), the operations
--   of Python's `str` (`Text`), and code with state and exceptions (`Exec`).
-- - DocDb: src/youwol/utils/clients/docdb. `Models` and `Parse` are models.py (`QueryBody.parse`);
--   `Local` and `Write` are the methods of `LocalDocDbClient`, under their names; `Table` says what
--   a table promises (`Rows`) and proves that the methods keep it (`Reads`, `Writes`, `Store`);
--   `Pairs` does so for tables that are found by two columns.
-- - Groups: src/youwol/utils/clients/utils.py, and the functions on the groups of a user of
--   src/youwol/utils/utils.py.
-- - TreeDb: src/youwol/backends/tree_db. `Models` is
--   src/youwol/utils/http_clients/tree_db_backend/models.py; `Docs`, `Access`, `Listing` and
--   `DefaultDrive` are utils.py; `Handlers` has the endpoints of routers/, a module for each file,
--   each under the name of its function (a private helper that is the whole body of an endpoint,
--   as `_create_item`, under the name of the endpoint). `Invariant` shows that the tables stay
--   well-formed, `Laws` what the endpoints do.
-- - Assets: src/youwol/backends/assets. `Models` is
--   src/youwol/utils/http_clients/assets_backend/models.py; `Docs` and `Store` are utils.py;
--   `Access`, `Permissions` and `Handlers` are access.py, permissions.py and assets.py of routers/.
--   `Handlers` has the two methods of src/youwol/utils/clients/file_system/local_file_system.py that
--   the deletion of an asset calls, too.
--   `Invariant` shows that the tables stay well-formed, `Laws` what the endpoints do.
-- - Cdn: src/youwol/backends/cdn. `Models` has the queries and the resolved libraries of
--   src/youwol/utils/http_clients/cdn_backend/models.py; `Graph` is `loading_graph` of
--   loading_graph_implementation.py, with a definition for each of its local variables: what one
--   round loads (`Rounds`), what the answer promises (`Order`), and that it does (`Step`,
--   `Correct`, `Acyclic`).
--   `Versions` has the numbers of versions of utils_indexing.py, with semantic_version as a parameter
--   (`SemanticVersion`); its floating point sum is taken as exact, as it is below 2^53.
-- - Cache: src/youwol/utils/clients/cache, `CacheClient` over `LocalCacheClient`; the time is an
--   argument.
-- - Accounts: the sessions of users, in the cache that a local server has for them. `Tokens` is
--   `TokensStorageCache`, `Tokens` and `TokensManager` of
--   src/youwol/utils/clients/oidc/tokens_manager.py; `Flows` is `OpenidFlowsService` and the flows
--   of src/youwol/backends/accounts/openid_rp; `SessionLess` is `SessionLessTokenManager`, the
--   tokens of services. `Laws` has what is proved of them.
-- - Examples: concrete tables, and the theorems at them.
--
-- How code becomes definitions. A method that reads and writes is an `Exec S A`: it takes the state
-- and returns the value or the exception, with the state as it was left. `asyncio.gather` runs its
-- tasks one after the other, all of them, and raises the first exception at the end; other
-- interleavings of the tasks are not modelled. A `while` loop and a recursion over the tables take
-- fuel, and `out_of_fuel` stands for a run that has not ended. The fuel of `get_path_folder` is
-- enough when there is a unit for each folder of the path; that of `loading_graph` is more than the
-- number of libraries, since each round that does not end the loop loads one. A call that draws a
-- uuid has it as an argument. Columns hold text (a column of numbers holds them in decimal, a column
-- of lists of texts the JSON text), so the branch of `is_matching` for numbers is left out. `int` reads texts of decimal digits; the signs, spaces and
-- underscores that Python's `int` takes too are an error here.
--
-- What the code calls and this repository does not hold is a parameter: base64 and JSON
-- (`TreeDb.Models.Codec`, `Groups.Base64`, `Assets.Models.Json`, of which the last reads the period
-- of a policy as a whole number), the order of `list(set(...))` (`distinct`, of which only the
-- members are known), the date of a second (`date`), and the identity provider (`Accounts.Tokens.OidcClient`), whose answers
-- come with the calls of `OidcForClient`. A time of the sessions is a number of microseconds, the
-- precision of Python's clock, and the clock stands still within a call.
--
-- Not modelled: HTTP, the tracing context, the lock of a table (a method is one step), the removal
-- of a table's folder, the remote database client, the files, media and packages of assets (of which
-- only the paths are kept, for the deletion of an asset; a path that `glob` expands is `unmodelled`),
-- exceptions of the file system, the thread that cleans the caches, and the
-- other services of src/youwol.
pub mod Prelude
pub mod Groups
pub mod DocDb
pub mod TreeDb
pub mod Assets
pub mod Cdn
pub mod Cache
pub mod Accounts
pub mod Examples
