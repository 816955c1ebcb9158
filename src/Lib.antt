-- ===== src/Lib.antt =====
-- A browser and terminal strategy game in Go: a player's planets produce resources, buildings, ships
-- and research are ordered and paid for, a scheduler completes what is due, and fleets fly and fight.
-- `internal/game` holds the rules as tables and pure functions, `internal/store` the queries on
-- Postgres, `internal/svc` the commands, each of which is one transaction over those queries, and
-- `internal/scheduler` the sweeps that complete the queue and move the fleets.
--
-- The modules, and the code that each is about:
--   Base, Int, Dict, Sum: shared names, Go's integers, Go's maps with string keys, and sums.
--   Float: Go's `float64` as a parameter. The theorems that need it assume a few IEEE 754 facts,
--     which are stated so that NaN and the infinities satisfy them.
--   Game: `internal/game`. Techs, Buildings, Ships and Defenses are the tables of `constants.go` and
--     `tech_tree.go`; Formulas is `formulas.go`; Production is `production.go`; TechTree is
--     `tech_tree.go`; Colonization is `colonization.go` with `colonizeRejection` of
--     `internal/scheduler/fleet.go`; Fleet and Combat are `fleet.go`.
--   Store: `internal/store`. Tx is the transaction monad (`InTx`), Rows the rows and the database as
--     one state, Planets, Queue, Fleets, Messages, Colonies and Users the queries (`planets.go`,
--     `buildings.go`, `researches.go`, `planet_ships.go`, `universes.go`, `build_queue.go`,
--     `fleets.go`, `messages.go`, `reports.go`, `users.go`), Alliances those of `alliances.go`;
--     Counts is about stocks of ships.
--   Svc: `internal/svc`. Resources is `refreshTx` of `resources.go`; Orders is what the commands
--     share; Build, Shipyard, Research and Fleet are `build.go`, `shipyard.go`, `research.go` and
--     `fleet.go`. Fleet has the checks of a request, Fleet/Dispatch and Fleet/Recall the commands.
--     Messages is `messages.go`, the inbox; Universe is `JoinUniverse` of `universe.go`; Alliance is
--     `alliance.go`, on a state of its own (Store/Alliances); Planet and Galaxy are `planet.go` and
--     `galaxy.go`, the views of planets and of a solar system.
--   Scheduler: `queueSweep` of `internal/scheduler/scheduler.go`. Scheduler/Fleet is
--     `internal/scheduler/fleet.go`: the resolvers of arrivals (Colonize, Espionage and Attack have
--     theirs), the return handler, and the two sweeps (Arrivals); Codes is `generatePlanetCode`. Others,
--     Bystanders and Undisturbed are about the rows of other fleets, the rest about these handlers.
--   Tests: concrete inputs and an arithmetic in which every assumption holds.
-- A Go function `someName` is the definition `some_name`. A handler that reads and writes the
-- database is a function from the state to a result and a new state, or an error; an error leaves
-- the state of before, as the rollback does (`in_tx`). The views of planets give a state in both cases,
-- since a refresh there is a transaction of its own. Each reading of the clock is an argument:
-- `refreshed_at` for the one in the refresh, `now` for the one in the command, `db_now` for `NOW()`.
--
-- An error of Postgres inside a sweep rolls back the whole sweep; another error skips one fleet.
--
-- Bounds: integers are unbounded except where an overflow can be provoked. The duration of a queue
-- item or a flight, the product of seconds and nanoseconds, and the sums of the cargo of a dispatch
-- wrap around as signed 64-bit numbers, and the row of a new fleet must fit its INTEGER
-- columns. Every loop goes over a list, but for the 60 attempts of a join, which the code bounds
-- (`max_attempts`), and the digits of a number, for which the number itself is the fuel.
--
-- Not modelled: queries that fail for a reason of the database, such as a lost connection; what a
-- second transaction does between two statements (each command is one atomic step here, which row
-- locks make it for the rows that are read `FOR UPDATE`, but `Cancel` and `Recall` read their row
-- without a lock); the width of the INTEGER columns in the other writes; the texts of messages
-- and reports, for which the values stand that they show; the events that are broadcast;
-- authentication and the other read models; the HTTP interface and the clients.
-- `strings.ToLower` after `strings.TrimSpace` is a parameter, and so are the random generator,
-- the clock and `float64`. Times are exact nanoseconds, while a TIMESTAMPTZ column keeps microseconds:
-- a stored time may be up to a microsecond earlier than the one here.
pub mod Base
pub mod Int
pub mod Dict
pub mod Float
pub mod Sum
pub mod Game
pub mod Store
pub mod Svc
pub mod Scheduler
pub mod Tests
