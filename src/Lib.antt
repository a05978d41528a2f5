-- ===== src/Lib.antt =====
-- The key pool, the rate limits, the upstream loops, the protocol translations, the accounts and the
-- settings of nano-llm-proxy, a gateway before language-model providers.
--
-- A client's request names a model of a provider. The gateway (internal/gateway) takes a key from the
-- provider's pool, forwards the request with it, and on a failure goes on to the next key. What an
-- answer other than 200 says of the key is the matter of `classify`; a 429 also goes to the breaker of
-- the (provider, model), which stops the rotation when several keys are limited. When no key is left
-- the client gets a 429 with the time after which one is free, or a 400 or 503.
--
-- The files:
--   Prelude: shared names, lists, integers, Go's maps and texts.
--   Time: instants, durations and the local calendar.
--   Pool: internal/gateway/pool.go. A pool is a record, a key a position in it. Pool/Keys is KeyState
--     with the tests on one key, Pool/Choice the loops of pickAt, Pool/Waits the loop of
--     rateLimitedFor; Pool itself has one function per method. Pool/Picks, Usable and Order are about one
--     pick, Pool/Calls and Pool/Quota about runs of calls, Pool/RateLimit about rateLimitedFor,
--     Pool/Cooldowns about cooldowns and rebuilds.
--   Breaker: rateBreaker of internal/gateway/ratelimit.go, one function per method. Breaker/Entry is
--     about one entry, Breaker/Answers about one call, Breaker/Calls, Runs, Keys and Trips about runs.
--   Classify: classify of internal/gateway/gateway.go with what it calls in keycheck.go and
--     providerspec.go. Classify/Blame says what blames the key, Verdicts is about the verdicts.
--   Rotation: keyRotation of internal/gateway/ratelimit.go. Rotation/Failures is upstreamFailure, its
--     response and reqTrace; Rotation/Loops has the loops of generic.go, anthropic_handler.go,
--     anthropic_native.go, anthropic_outbound.go and responses_endpoint.go, Rotation/Zen the loops over
--     zen's two surfaces. Rotation/Walks and Scope are about the loops over one surface, Flips and
--     Endless about those over two, Retries and Ends about all.
--   Accounts: internal/gateway/roles.go and api_users.go, with the statements of
--     internal/store/store.go that they run. Accounts/Changes says how a request changes the users
--     table, Guards and Powers what the guards keep.
--   Login: the password sign-in and its lockout, internal/gateway/auth.go. A sign-in is two steps;
--     Login/SignIns is about one step, Calls, Counting and Lockout about any mixture of them.
--   Catalog: catalogGet of internal/gateway/routes.go, the request for a provider's models.
--     Catalog/Fetches is about its effect on the pool.
--   Access: which providers a user reaches, internal/gateway/useraccess.go with the statements of
--     internal/store/store.go. Access/Rules is about the cached rules, Grants about their changes,
--     Listing about the models that a caller is shown.
--   Usage: the token counts of a request and the buffer of usage events, internal/gateway/usage.go with
--     the usage blocks of sse.go. Usage/Totals is about the counts, Usage/Buffer about the buffer.
--   Stream: anthropicStreamWriter of internal/gateway/anthropic.go. Stream/Readers has the readers of a
--     chat stream and of a Responses stream; Grammar and Streams are about the order of the events,
--     Calls about the fragments of tool calls, Content, Reading and Telling about what the events say.
--   Responses: translateResponses of internal/gateway/responses.go. Responses/Events has a body as the
--     list of its events, Streamed and Whole are about the two kinds of clients.
--   Json: decoded JSON as the gateway reads it. Outbound: chatToAnthropicBody of
--     internal/gateway/anthropic_outbound.go, the blocks in Outbound, the conversation and the body in
--     Outbound/Requests; Blocks, Contents and Kept are about what the messages hold, Alternation about
--     their roles.
--   Inbound: anthropicToChatBody of internal/gateway/anthropic.go, the messages in Inbound, the body in
--     Inbound/Bodies; Contents says what messages hold, Kept is about the translation.
--   Replies: whole answers, chatJSONToAnthropic of internal/gateway/anthropic.go and anthropicJSONToChat
--     of anthropic_outbound.go; Replies/RoundTrip is about the two in a row.
--   ChatStream: streamAnthropicSSEToChat of internal/gateway/anthropic_outbound.go. ChatStream/Calls is
--     about the indices of the tool calls, Hearing has what a client hears of the chunks and sees in the
--     events, and Told compares the two.
--   Settings: internal/settings/settings.go. Settings has the settings and their defaults, Versions the
--     user agent's floor, Checks the validation; Defaults, Parts and Valid are about the two.
--   WebTools: internal/webtools/ssrf.go; WebTools/Reading has reader.go, escalate.go and webtools.go.
--     Ranges is about the blocked addresses, Refusals about what is handed to the network and to the
--     browser.
--   Bootstrap: the configuration from the environment, internal/config/config.go and dotenv.go;
--     Bootstrap/Loading is about what is loaded. Dotenv: LoadDotEnv and SetDotEnv of dotenv.go;
--     Dotenv/Settled is about the lines of the file, RoundTrip about the file.
--   Activity: the ring of recent requests, internal/gateway/clientkeys.go. Activity/Ring says what it
--     shows.
--
-- A mutex held for a whole method makes the method one step; the change of an account is taken as one
-- step too. A loop is a list of such steps, and between any two of them the other requests may do
-- anything to the pool and the breakers: a `Turn` holds what they do, the clock and the upstream's
-- answer. The settings are those at the start of the request. A rotation loop is structural in the
-- attempts left. The loop over zen's surfaces is on fuel, since a change of surface is no attempt; one
-- unit of fuel is one upstream call.
--
-- Numbers are natural numbers: the settings' counts are validated to be in range, and the counters are
-- 64 bits wide and count events; a number that comes from outside is an integer. Not modelled, since
-- they are input and output: the log lines, the copying of answers, the search and the child process of
-- the browser, the rest of the admin API and of the store, the sign-in with Google, the sessions and the
-- local mode.
pub mod Prelude
pub mod Time
pub mod Pool
pub mod Breaker
pub mod Classify
pub mod Rotation
pub mod Accounts
pub mod Login
pub mod Activity
pub mod Access
pub mod Catalog
pub mod Usage
pub mod Stream
pub mod Responses
pub mod Json
pub mod Outbound
pub mod Replies
pub mod ChatStream
pub mod Inbound
pub mod Settings
pub mod WebTools
pub mod Bootstrap
pub mod Dotenv
