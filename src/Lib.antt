-- ===== src/Lib.antt =====
-- lxc-hosting: a host manager for LXD containers, with a user panel, an admin panel and a command
-- line. One Go program keeps its state in SQLite (src/internal/db) and mirrors it into LXD
-- (src/internal/lx), nftables files (src/internal/fw) and traefik files (src/internal/tfx); the
-- manager (src/internal/mgr) does this, and both panels and the command line call the manager.
--
-- Which module models which part:
--   Version   the version order and the adoption gate        src/internal/ver/ver.go
--   Quota     CPU quotas, traffic quotas, memory and disk    src/internal/mgr/{cpu,traffic}.go,
--             sizes                                          src/internal/admin/handlers.go, src/main.go
--   Names     user names and domains                         src/internal/mgr/mgr.go, tfx/tfx.go
--   Address   ports, IPv4, free indexes, the IPv6 scheme     src/internal/mgr/{mgr,ipv6}.go, cfg, db
--   Db        the tables and every statement on them         src/internal/db
--   Web       admin sessions, login limiter, banners, the    src/internal/{admin,panel,csrf}
--             same-origin test and the secret prefix
--   Host      the calls of LXD, files and systemd as an      src/internal/{lx,tfx,fw}
--             interface, and the requests and files over it
--   Mgr       quotas with their rollback, domains, traffic   src/internal/mgr/{mgr,traffic,batch}.go
--             samples and limits, Add, Del, Reinstall,
--             passwords, forwarding, the script for a new
--             container
--   Config    panel paths and addresses, the registry of     src/internal/cfg, src/main.go
--             keys, the fixed fields, `vps config set`
--   Panels    requests and answers, languages, the handlers  src/internal/{panel,admin}, src/main.go
--             and routes of both panels, the dispatcher
--   Cli       the commands for users and the admin password  src/main.go
--   Std       what the Go library does on integers and texts that the source relies on
--   Base      lists, maps, rows and texts that the modules share
--
-- How code corresponds to definitions: a Go function has the name of its definition in snake case
-- (`NextFreeIdx` is `next_free_idx`), a struct is a record, an error return is a constructor of a
-- result type. A table is the list of its rows in the order of insertion, and a statement is a
-- function on `Db`. A text is the list of its code points. Numbers are natural numbers; where the
-- code's int or uint64 can wrap, the definition has the remainder mod 2 ^ 64 written out, and a
-- negative int is its two's complement (`int_lt` compares them). The lifetime of a session is a
-- time.Duration, whose nanoseconds wrap (`days_later` in Std.Time). Time, tokens, random draws, SHA-256
-- and the addresses in use on the link are arguments.
--
-- The host is a state `S` and a record `Calls S` of the calls on it: a call answers success or failure
-- and the new state, so that a failure can come at every call. `Host.Laws.IsLawful` says what the
-- manager relies on of LXD: a request that succeeds has its documented effect on its own instance,
-- and one that LXD refuses has none. A request also fails when its response is lost, and then may
-- have had its effect; `heard` says that this has not happened. `Mgr.Fake` is a host that keeps these
-- laws, for the examples. `Mgr.Limits.Rates` reads the limits of a container's NIC off such a host. An
-- operation of the manager maps a `State S`, the database, the host and the map of throttled
-- containers, to an outcome and a new one. The locks of the manager serialize these operations.
--
-- Loops with a bound in the source recurse on that bound: 32 draws and 2000 ports for the SSH port,
-- 200 indexes, 65535 gateway candidates. `emit` prints a number on fuel that is larger than the
-- number of its digits, as `value-itoa` shows. The loop of humanBytes has fuel for six tests, since an
-- int64 is smaller than 1024 ^ 7.
--
-- A request to a panel is a record of its parts as net/http parses them, `Fresh` holds what a handler
-- draws or reads beside it (a token, the time, passwords, the month), and an answer is a status with
-- a location, cookies and a body; a page is the data that the template gets. `Panels.Serve` puts both
-- panels over one manager. The redirects that the mux makes by itself (`moved`), the password hash
-- and its comparison are arguments.
--
-- The modules Db.Others, Mgr.Others and Panels.UserPanel.Isolation follow one user's rows through the
-- statements, the manager and the handlers; Panels.UserPanel.Gate, Panels.AdminPanel.Gate and
-- Panels.Serve.Gate follow the tests that stand before a handler.
--
-- Parameters of the host interface also stand for the program's own scripts inside containers, the
-- readiness probe, the ndppd rules and the pool usage.
--
-- Not modelled: what is printed, templates, the host statistics, the installation, the REST transport
-- to LXD, YAML and JSON, certificates, password hashes, and errors of SQLite's own I/O, except where
-- UpdateQuotas commits.
pub mod Base
pub mod Std
pub mod Version
pub mod Quota
pub mod Names
pub mod Address
pub mod Db
pub mod Web
pub mod Host
pub mod Mgr
pub mod Config
pub mod Panels
pub mod Cli
