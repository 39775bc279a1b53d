-- ===== src/Lib.antt =====
-- dnsanity: a model of the checker of DNS servers, and what is proved of it.
--
-- The program asks each server of a list the questions of a template and keeps the servers whose answers
-- match. A scheduler (internal/dnsanitize) moves servers from a queue into a pool, starts a worker for
-- each query, and applies the results that workers send over a channel; a token bucket bounds the rate of
-- queries. A worker asks the resolver (internal/dns/resolver.go) and compares the answer with the
-- template's entry (internal/dns/template.go). A status reporter (internal/report) counts checks, servers
-- and requests, and writes the finished servers.
--
-- The files:
--   Common       shared names, tests on numbers, lists, results, integers
--   Text         texts as lists of bytes, and the functions of Go's `strings` that the program uses,
--                on ASCII text, where case and space are those of single bytes
--   Dns          Answer: internal/dns/dnsanswer.go (`NewDNSAnswerData`, `ToString`, `IsWorthRetrying`)
--                Glob: `globMatch`, and Records: `matchRecords` and `tryAugment`, of internal/dns/template.go
--                Template: entries, their parser and `Matches`, of internal/dns/template.go
--                Resolver: `ResolveDNS` and `mapResolveError` of internal/dns/resolver.go
--                Server: internal/dns/servercontext.go
--                Template/Load: `loadTemplate`, `NewTemplate` and `NewTemplateFromFile`
--   Config       Options: internal/config/options.go and the default template of constants.go
--                ServerList: internal/config/serverlist.go; Init: internal/config/config.go
--   Dnsanitize   Slots: the maps with a slot as key
--                Pool: internal/dnsanitize/serverpool.go
--                RateLimiter: internal/dnsanitize/ratelimiter.go, each operation as one atomic step and
--                as its loop of compare-and-swap with the operations of others in between
--                System, Collect, Dispatch, Scheduler: internal/dnsanitize/dnsanitize.go: the shared
--                state and `runDNSWorker`; the loop of receives and `applyResults`; the two passes;
--                the whole loop and `DNSanitize`
--                Invariant, Induction, Limits, Conservation, Once, Crashes, Trusted, Waiting, Failures,
--                Displayed: the proofs about them
--   Report       Metrics: internal/report/logging.go
--                Dump: the texts of servers and templates; Status: internal/report/status.go;
--                Bar: `renderBrailleBar`; Redraw: the lines that wait for the next redraw;
--                Redraw/Stopping: `Stop` beside the redraws, whose lock it does not take, and
--                Redraw/Shown: what it shows
--   Main         main.go: the validation with the trusted servers, the run on the list, the exit codes
--   Tests        runs on concrete inputs, and each theorem applied there
--
-- State is passed explicitly. The scheduler's goroutine is a function of a list of turns; a turn holds the
-- time, the order in which a map is ranged over, and the events of other goroutines between its steps
-- (a worker is answered and sends, a worker gives its slot back, the ticker refills the bucket). A run may
-- stop after any number of turns, so that a statement about all lists of turns is about all prefixes of
-- all runs. What is not the program's own code is a parameter: the outcome of an exchange, the names of
-- response codes, the regular expression of `StripAnsi`, `net.ParseIP`, the order of a map, and the results
-- in `float64` of `NewRateLimiter`, of the interval between the queries of a server and of the bar's scale.
--
-- Loops are structural. `tryAugment` takes fuel, one unit for each value and one more: every call of the
-- recursion marks a value as visited. Counts of servers, checks and requests are natural numbers
-- without a bound, as they stay far below 2^63; the tokens of the bucket wrap at 2^64. `Avg` and
-- `OneSecAvg` take the quotient exactly, where the code rounds in `float64`.
--
-- A text that is read by lines follows `bufio.Scanner` with its limit of 64 KiB. The options are integers
-- that may be negative; a product that wraps is written out.
--
-- An index of the scheduler out of range, where Go panics, is noted in the state, and the run counts as
-- panicked.
--
-- Not modelled: the parsing of the command line and the texts of help and version; the title, times and
-- debug block above the bar; the terminal (internal/tty) and the file system, whose answers are parameters.
pub mod Common
pub mod Text
pub mod Dns
pub mod Config
pub mod Dnsanitize
pub mod Report
pub mod Main
pub mod Tests
