-- ===== src/Lib.antt =====
-- swosh: short links for Swish payments, a web service in Go with a PostgreSQL database.
--
-- A visitor makes a link with POST /api/create; its page shows a payment until the link expires.
-- Admins log in, with a session cookie or HTTP Basic credentials, to list, edit and delete links.
-- A job deletes expired links. The page of a link, a redirect and a QR code open the payment in the
-- Swish app.
--
-- The parts, and the files that model them:
-- Db: internal/db/sqlc (swosh.sql.go, users.sql.go, models.go). A table is a list of rows; each
--   statement of `Queries` is a function of the table, as its SQL text says. Db/Keys and Db/Rename
--   treat the primary key; Db/Refine has the map from ids to links that a table stands for,
--   and Db/Listing the order of a listing.
--   Db/Migrate: internal/db/migrate.go.
-- World: the state that handlers share, which is the two tables and the counters of
--   internal/metrics, with the number of answers asked for from outside. `Outside` gives these
--   answers: the clock, the database's clock, whether a statement fails, the random numbers. A
--   statement that fails has no effect. A handler is a function from a world to an answer and a
--   world. World/Store are the methods of `Store` in internal/web/web.go and of the interfaces of
--   internal/auth and internal/expiry.
-- Linkid: internal/linkid, the ids of three random words.
-- Auth/Users: internal/auth/auth.go. Auth/Session: internal/auth/session.go, with Auth/Base64
--   for encoding/base64.
-- Expiry: internal/expiry/expiry.go; `Run` is a number of ticks of its timer here, and a function
--   that ticks and ends in Cmd/Run.
-- Swish: internal/swish/swish.go, with Swish/Json and Swish/Escape for what it uses of
--   encoding/json and net/url, and Swish/Uri for how an app reads a link. Swish/Qr:
--   internal/swish/qr.go; its state is the cache and the number of requests made.
-- Config: internal/config/config.go. Cmd: the commands of cmd/swosh, with `Connect` of
--   internal/db/db.go. Cmd/Run: the group of `serve` in cmd/swosh/cmd_serve.go, which is two calls
--   of `runServer` and the expiry job, as steps that they take in any order, with requests,
--   ticks, failures of the listeners and the interrupt between them. Cmd/Serve: the site that `serve` makes.
--   Cmd/Execute: the root command and its subcommands, up to the exit code.
-- Web/Create: internal/web/create.go. Web/Api: `create` and `insert` of internal/web/web.go.
--   Web/Links: `lookup` and `touch` there. Web/Pages: `index`, `preview`, `redirect` and `qr`
--   there. Web/Mux: the patterns of `routes` there, its choice of a mux, and `instrument`, with
--   Web/Mux/Match for how net/http finds the pattern of a path. Web/Routes: the handlers of
--   `routes`; a request is served on the state of the tables and of the
--   cache of QR codes, and Web/Routes/Reach has the states that requests and ticks of the expiry
--   job lead to. Web/Server and Web/Http: the server, requests,
--   responses and rendering. Web/Authn and Web/Login: internal/web/authn.go, and the switches
--   of the language and the theme. Web/Admin: internal/web/admin.go.
--   Web/I18n: internal/web/i18n.go, with Web/I18n/Script for `jsMessages` and `parseTemplates`.
-- Common: what these use of Go's strings, strconv and integers, on native texts and numbers, with
--   Common/Text/Location for what http.Redirect makes of a URL.
-- Tests: a small site on which the theorems are applied.
--
-- Numbers: a time is a natural number of nanoseconds since Go's zero time; amounts are integers.
-- The conversion to int32 and the products with time.Second and time.Millisecond keep their
-- wrap-around. The loop of
-- `insert` has five rounds, as in the source. Other recursion is on lists and texts.
--
-- Parameters, since their code is not in the repository: HMAC-SHA256 and encoding/json (`Crypto`),
-- bcrypt (`Bcrypt`), phonenumbers (`Phonenumbers`), html/template, the matching of languages, the
-- text of times and quoting (fields of `Server`), the cache of golang-lru and the answers of Swish
-- (Swish/Qr), envconfig (Config), golang-migrate and the database's connections (Db/Migrate, Cmd),
-- cobra's reading of arguments (`Shell` in Cmd/Execute), errgroup (`Group` in Cmd/Run), and the
-- serving of static files (`files` in Web/Mux).
--
-- Not modelled: logging, the HTTP server with its parsing of requests and bodies and its cleaning
-- of paths, the rounding of a stored time to microseconds, the contents of static files and of
-- templates, the lengths of timers and of timeouts, transactions that run at the same time, and the
-- registration of metrics.
pub mod Common
pub mod Db
pub mod World
pub mod Linkid
pub mod Auth
pub mod Expiry
pub mod Swish
pub mod Config
pub mod Cmd
pub mod Web
pub mod Tests
