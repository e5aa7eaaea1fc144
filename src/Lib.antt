-- ===== src/Lib.antt =====
-- A model of CodeTrace, which indexes a repository, answers questions about it and reviews its pull
-- requests. This library follows one review of a pull request through the backend, from the job to the
-- comments on GitHub, and one question of the chat, with the retrieval and the language model that the
-- two share, from the socket that it comes in by to the stored answer; and it has the graphs of a
-- repository, the sessions of a user, the guards of the requests and their rate limit, the claims of the
-- webhooks, the start of an index job, and the evaluation of reviews and searches.
--
-- The parts, with the paths under backend/src/modules:
--   Review.Pipeline    pr-review/services/pr-review.service.ts: `processPrReviewJob`,
--                      `claimOrCreateReview`, `runPrReview`, `postWritebackAndRecordFailure`
--   Review.Material    the part of `runPrReview` between the claim and the update: which chunks it
--                      gathers, what it asks, what it computes; Review.Prompt has the prompts
--   Review.Store       the table pr_reviews of backend/prisma/schema.prisma
--   Review.Services    what the pipeline calls: database, GitHub, search, language model
--   Review.Diff        pr-review/services/github-diff.service.ts: `parseUnifiedDiff`, `getPrDiff`
--   Review.Chunks      diff-analyzer.service.ts and dependency-retrieval.service.ts
--   Review.Risk        risk-score.service.ts
--   Review.Findings    `parseRawFindings` and the mapping of the findings in pr-review.service.ts
--   Review.Writeback   github-writeback.service.ts: `postReviewToGitHub`
--   Retrieval.Context  retrieval/services: `vectorSearch`, `keywordSearch`, `retrieveContext`
--   Retrieval.Merge    rrf-merge.service.ts: `classifyQuery`, `mergeRankings`
--   Retrieval.Rerank   reranker.service.ts: `rerank`
--   Chat.Citations     chat/services/citation-validator.service.ts
--   Chat.Pricing       chat/services/pricing.service.ts
--   Chat.Ask           chat/services/chat.service.ts: `askQuestion`; Chat.Pattern has the pattern of a
--                      citation, and Chat.Ask.Citing what it finds in an answer that has several
--   Chat.Llm           chat/services/llm.service.ts: the key pool, `withRetry` and the two calls
--   Repositories.Graph repositories/services/graph.service.ts: `aggregateFileGraph`, and
--                      `buildSymbolGraph` in its child Symbols
--   Repositories.Connection, Repositories.Installations
--                      repositories/services/repository.service.ts and installation.service.ts
--   Auth.Sessions      auth/services/session.service.ts; Auth.Sessions.Tokens has what the sessions
--                      promise without their rows, which token is good for whom
--   Middlewares.Guards auth.middleware.ts, operator.middleware.ts, internal-auth.middleware.ts and
--                      webhook-signature.middleware.ts of backend/src/core/middlewares
--   Middlewares.RateLimit
--                      rate-limit.middleware.ts there: `checkRateLimit`
--   Webhooks           webhooks/controllers/webhooks.controller.ts and idempotency.service.ts;
--                      Webhooks.Dispatcher has webhook-dispatcher.service.ts
--   Websocket.Progress backend/src/websocket/handlers: index-progress.handler.ts and
--                      pr-review-progress.handler.ts
--   Websocket.Chat     chat-stream.handler.ts there; Websocket.Gateway has gateway.ts
--   Evaluation.Pr      evaluation/services/evaluation.service.ts: `runPrEval`; Evaluation.Search has
--                      `runConfigSearch` and the score of one question, Evaluation.Retrieval has
--                      `runRetrievalEval`
--   Indexing           indexing/services/index-job.service.ts: `createAndEnqueueIndexJob`
--   Errors             backend/src/core/errors; Database has the reads that Prisma answers, Exec the
--                      functions that change a state and may throw, Prelude the shared helpers.
--
-- A job claims the row of its pull request and commit, fetches the diff, and hands the changed ranges
-- to `runPrReview`, which finds the chunks that they touch and the neighbours of those, retrieves more by
-- `retrieveContext`, asks the model, keeps the citations that name a chunk it was given, scores the
-- risk and completes the row. The completed review goes to GitHub: a finding becomes an inline comment
-- if the position table of the diff has its line, and else a line of the summary.
--
-- A webhook delivery is claimed by its id in webhook_events before its handler runs, and released if the
-- handler fails; a delivery whose id is claimed is not handled. The handlers start an index job, queue a
-- review or revoke an installation.
--
-- How the code is modelled:
--   * An async function that changes the database is a function from a state to a result and a state
--     (`Exec`); what was written before a throw stays written. The state is abstract: `ReviewTable` is
--     the table of reviews with the laws that Prisma and the unique constraint give, `Services` the
--     other calls. The table of reviews may refuse any call. Calls run one after the other; two jobs
--     that interleave are not modelled.
--   * The tables that a review only reads are `Query` records. A failed read of these is not modelled. The
--     filter `contains` is taken as a literal part of a text; SQL reads "_" and "%" in it as wildcards.
--   * `fetch`, the SQL of the two searches, the embedding, the model, the reranker's API, `JSON.parse`
--     and the clock are parameters. A finding that the model returns has the fields of
--     `RawLlmFinding`, with lines that are not negative; a null in the list of findings, or in the list of
--     the reranker's results, is not modelled.
--   * Numbers are the natural numbers; none of the modelled counts comes near 2 ^ 53. A fused score is
--     of an abstract type with a total order and an addition (`Score`), since the source adds
--     floating-point numbers; a cost is a whole number of nanodollars.
--   * A patch and a reply are lists of code points, where JavaScript has UTF-16 code units; the patterns,
--     written out as functions, look for characters that are one of either.
--   * Loops are structural recursion on the list that the source walks. The retry loop counts down the
--     attempts that are left from the number that is allowed, so it always ends.
--   * The two progress handlers are a step relation: an interval that fires, a callback that gets its row, a
--     socket that closes. Callbacks overlap, up to a limit that the relation names.
--   * The state of `withRetry` is that of its caller; a wait is known by the longest delay that its jitter
--     can draw.
--   * Redis is a parameter with a clock: a command runs at some time between its call and its end, and a key
--     whose time has passed is as if it were not there.
--   * A message over the socket is known by its fields; JSON.parse, which makes them of a text, is a
--     parameter, and a field of the wrong type is not modelled.
--   * A mean is kept as the terms of its sum and their number, since the source divides floating-point
--     numbers.
--   * Logging and the headers of requests are left out.
--
-- Not modelled: the rest of indexing, the calls of the GitHub App, the OAuth login, the encryption of
-- tokens, the HTTP controllers and their limiter (express-rate-limit), usage, the queues, the frontend, and
-- the worker in Python. Most of these are calls of a library or of another service, or a user interface.
-- Operations run one after the other, so that two exchanges of one refresh token, or two connections of one
-- user, that interleave between a read and the write behind it are not covered.
pub mod Prelude
pub mod Errors
pub mod Evaluation
pub mod Database
pub mod Exec
pub mod Auth
pub mod Repositories
pub mod Retrieval
pub mod Chat
pub mod Review
pub mod Webhooks
pub mod Middlewares
pub mod Websocket
pub mod Indexing
