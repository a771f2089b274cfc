-- ===== src/Lib.antt =====
-- The matchmaking service of Overload Party, which pairs the players who wait in a queue on Redis and
-- publishes each pair. Paths are from the root of the repository.
--
-- Parts and files:
--   Domain, Port, Presenter: internal/domain, internal/port and internal/presenter. `Ports` is one record
--     of functions over a world, for the queue, the publisher, the clock, the match ids and
--     json.Marshal; `Port.Traced` adds a record of the calls to any ports.
--   Circuit: internal/usecase/matcher/circuit.go. A method is a function from a breaker to the next one,
--     as the mutex makes it one step. Trip and Runs compare it with its history, Cooldown with the clock.
--   Matcher: internal/usecase/matcher/matcher.go. `tick`, `reenqueue_with_retry` and
--     `best_effort_reenqueue` are written over a state of world, breaker and log; the helpers in between
--     are the branches of these functions. Loop is `Run`, as a relation of interleaved steps.
--   Abandon: internal/usecase/abandon/abandon.go.
--   RedisQueue: internal/adapter/redisqueue. Member is the encoding of an entry, Scripts the Lua scripts,
--     Queue the methods of RedisQueue; the other files hold what is proved of them.
--   Redis: the server behind it, as the commands with the laws of their documentation, and a sample
--     server that meets them.
--   Http: internal/adapter/httphandler (Handler, Router), the request types of
--     packages/api-matchmaking/openapi_gen.go (Messages) and the status mapping of
--     packages/api-matchmaking/apimatchmakingclient/client.go (Client).
--   Rest, Rest.Calls: the generated client of packages/api-matchmaking/openapi_gen.go. Rest.Build: `New`
--     and the calls of apimatchmakingclient. Rest.Service puts these calls over the router.
--   RedisQueue.Room: what internal/port/queue.go promises of any queue, as a waiting room.
--   Config: internal/config/config.go. Startup: what cmd/server/main.go builds of a configuration, with
--     `Options` and `New` of the matcher. Pubsub, Secrets, MatchId: internal/adapter/pubsub,
--     internal/adapter/secretmanager and internal/adapter/matchid, over their libraries.
--   Server: `main`, `run` and `newRedisClient` of cmd/server/main.go, as the events that they cause.
--   System: `run` of cmd/server/main.go, the matcher over the Redis queue. System.Match, on
--     System.Admit, and System.Report put the handlers over the same queue; System.Shared puts both
--     over a Redis that others use as well. Port.Kept, Matcher.Kept and Http.Kept are
--     what a tick and a request keep.
--   Logging: `newCloudLoggingHandler` of cmd/server/main.go.
--   MatcherTest, AbandonTest: the fakes of internal/usecase/matcher/matchertest and
--     internal/usecase/abandon/abandontest. Clock.Waits has the waits of the clock, as turns of goroutines,
--     and Run the loops of run.go. ServerFake: packages/api-matchmaking/apimatchmakingserverfake.
--   ConfigTest: internal/config/configtest. UsecaseTest: internal/usecase/usecasetest. HttpTest:
--     internal/adapter/httphandler/httphandlertest. RedisQueueTest and PubsubTest: the test support beside
--     internal/adapter/redisqueue and internal/adapter/pubsub, as the events that it causes;
--     PubsubTest.Receive has the goroutine of a subscription as a relation between its states.
--   Std: strconv, the conversion to float64, encoding/base64 and strings, as far as the parts above
--     compute with them.
--   Prelude: the shared names. Tests: concrete worlds, and each result at one of them.
--
-- How they interact: the handlers and the matcher call the queue through `Ports`; the abandon use case
-- cancels through the same queue; the health handler reads the breaker of the matcher; PopPair gives the
-- instance under which Reenqueue may write the pair back.
--
-- Numbers and bounds: a Go string is the list of its bytes; an int64 is an integer, with its range as a
-- hypothesis where it matters, and the product of a duration wraps around at 64 bits; times are
-- nanoseconds of the clock, scores of the queue milliseconds. Std.Float64 has the conversion of an
-- int64 to a float64 that Enqueue and Reenqueue make of a time, which takes at most eleven units; it
-- is exact within 2 ^ 53 milliseconds of 1970, a hypothesis of the results on what the queue holds, and
-- Redis keeps a score as a double. The failure counts of the breaker have no upper bound here. Printing
-- a number has 20 digits as its fuel, which holds every number below 2 ^ 64. The loop of the write-back
-- recurses on the five attempts that are left. The loop of Advance of the test clock takes a number of
-- rounds, which is counted from its timers and tickers and is enough if every ticker has an interval.
-- The polling loops of the tests take 2500 rounds of two milliseconds, which fill their limit of five
-- seconds. No other definition takes fuel.
-- The times of that clock are not negative.
--
-- Not modelled: the texts of errors and logs (they are data), the log lines of the breaker, the
-- cancellation inside a call of a port (it shows in the answer), time.Now of Enqueue (an argument), the
-- connection to Redis (how often a script runs, and whether its reply arrives, is an argument), the
-- verification of tokens and the reading of JSON (parameters), the Pub/Sub, Secret Manager and ULID
-- libraries (parameters), the system clock (calls of the time package), and of the test support what
-- only calls testify, testcontainers or a client library: the fakes of the abandoner and the breaker with
-- the NewServer functions, and Flush.
pub mod Prelude
pub mod Domain
pub mod Circuit
pub mod Std
pub mod Redis
pub mod RedisQueue
pub mod Port
pub mod Presenter
pub mod Matcher
pub mod Abandon
pub mod Http
pub mod Rest
pub mod Config
pub mod ConfigTest
pub mod RedisQueueTest
pub mod HttpTest
pub mod PubsubTest
pub mod UsecaseTest
pub mod AbandonTest
pub mod MatcherTest
pub mod Logging
pub mod MatchId
pub mod Pubsub
pub mod Secrets
pub mod Startup
pub mod Server
pub mod ServerFake
pub mod System
pub mod Tests
