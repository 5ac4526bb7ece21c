-- ===== src/Lib.antt =====
-- gov-jobs-backend: crawling Thai government job announcements, searching them, and telling users
-- of new announcements that match their alerts.
--
-- The parts modelled and how they meet. A crawl gives a listing of normalised announcements, which
-- `persist` of src/modules/crawler/crawler.service.ts stores: new rows, changed rows and
-- sightings, and the attachments of a changed row. It hands the ids of new and changed rows to
-- `matchJobs` of src/modules/job-alerts/alert-matching.service.ts, which records a match for each
-- active alert the announcement satisfies. The worker of matching hands new matches to
-- `dispatchImmediate`, a digest collects what is pending, and the worker of emails renders, sends and
-- marks them. A document that was read is offered to matching again. The API pages through rows with `paginate`, shows a
-- status computed from the dates, and all texts pass through the canonicalisation of Thai.
--
-- Files, each with the code it models:
--   Base           shared helpers: lists, texts, membership, tests on native numbers
--   Models         src/models/*/entities, src/shared/enums
--   Pagination     src/shared/utils/pagination.util.ts (Bounds, Windows, Sorting: its theorems)
--   Dates          src/shared/utils/date.util.ts, `toDateString` (Calendar: `getLocalDateString` and the
--                  ISO week of a digest; Thai: `parseThaiDate` and `parseSlashDate`; Rolled: what
--                  they accept)
--   JobStatus      src/shared/utils/job-status.util.ts (Sql: the SQL expression; Progress: over days)
--   ThaiText       src/shared/utils/thai-text.util.ts (Composition, Marks)
--   Matching       alert-matching.service.ts (Like, LikeMatcher: ILIKE; Criteria: the query; Records
--                  and Runs: the match table)
--   Crawler        `persist` and `replaceAttachments` of crawler.service.ts (Stored, Rounds, Persist:
--                  the table of announcements; Hashes, Again: storing a listing twice)
--   Alerts         job-alerts.service.ts, (Links) unsubscribe.service.ts and (Pages)
--                  unsubscribe.controller.ts of src/modules/job-alerts (Requests, Floors: sequences
--                  of requests; Owners, Apart: ownership; Silenced, Confirmed: the link)
--   Notifications  src/modules/notifications/notification-dispatch.service.ts (Groups, Chosen, Immediate: one
--                  email for an announcement; Digests), the ids of src/constants/queue.constants.ts;
--                  Worker: src/modules/job-alerts/job-matching.processor.ts
--   Sending        email-notification.processor.ts and src/modules/email/email.service.ts (Again)
--   Emails         src/modules/email/templates/job-alert.template.ts (Escaping)
--   Jobs           src/modules/jobs/jobs.service.ts and its dto (Filters: what is shown)
--   SavedJobs      src/modules/saved-jobs/saved-jobs.service.ts (Sets: as sets)
--   Administration src/modules/admin/admin.service.ts (Counted: the counts of a page of users)
--   Taxonomies     src/modules/reference/reference.service.ts (Fresh: after a crawl)
--   Web            Guards: src/shared/guards (Admitted); Envelopes: src/shared/filters and
--                  src/shared/interceptors; Queries: src/shared/dto/transform.util.ts (Repeated)
--   Caching        src/shared/cache/cache.service.ts (Remembered)
--   Documents      src/modules/documents: the download, the text and (Process) the row of one document
--                  (Buffers, Rows, Settled, Alone, Offers: its theorems)
--   Configuration  src/config/configuration.ts (Usable: what the program needs to start) and
--                  (Scheduled) src/modules/crawler/crawler.scheduler.ts
--   Patterns       the regular expressions of the parsers (Rounds: the rounds are enough)
--   Portals        the requests of the crawlers of src/modules/crawler (Requests: their retries)
--                  Listings: `crawl` and `collectListing` of dol/dol.crawler.ts and
--                  mdes/mdes.crawler.ts, recruitment-title.ts (Sightings: its pages; Accounts,
--                  Crawled: its theorems)
--                  Normal: normalization.ts; Markup, Dol, Mdes: the parsers of HTML; Values, Ocsc:
--                  ocsc/ocsc.normalizer.ts and the crawl of ocsc/ocsc.crawler.ts; Reference: its
--                  `syncReference` (Translations)
--   CrawlRuns      `run`, `runAll` and what they call in crawler.service.ts, crawler.registry.ts
--                  (Run: the two; Slots: the live run of a source; Rows: the table of runs;
--                  Outcomes, Batches)
--   Sessions       refresh tokens of src/modules/auth/auth.service.ts (Lookup, Revoked) and accounts
--                  (Accounts, Admins); `logout` is `sign_out`
-- The names are the code's, in snake case: `findMatchingAlerts` is `find_matching_alerts`. Each
-- component's tests stand in its Tests module, and share the rows of Samples.
--
-- How the code is read. A table is the list of its rows and a repository call is what its query
-- means on that list, unique constraints included; a service's operation takes the tables and
-- returns them. The clock is a parameter, UUIDs are numbers by the order in which they are drawn,
-- ids and JSON are opaque. Texts that the code searches are lists of code units; other strings are
-- native. ILIKE and its folding of case, and the NFC normalisation, are parameters: the matcher is
-- taken to do what PostgreSQL documents of `%`, of a literal character and of an escaped one. The
-- query builder of `paginate` is a function that answers a selection. Page and limit are integers,
-- as the DTO validates. An exception inside `persist` is a result of its own, with the rows
-- written before it; the only one modelled is the unique constraint on (job_id, url). Every loop
-- runs over a list or a stream, by structural recursion, or counts down the pages and attempts that
-- are left. Fuel is used three times: for the printing of a number, one more than the number, which
-- has no more digits than that; for the matches of a pattern, one more than the units of the text, as
-- no pattern of the program matches nothing; and for a day past the end of its month, which two
-- digits carry over four months at most. The answers of the portals to each request, JSON.parse of a
-- body, the text of a stored payload and `new Date(text)` are parameters; a payload of OCSC has no
-- negative number. What a portal, the cache and the
-- queues answer during a run is a parameter that includes every error; that the last update of a
-- run's row fails is not modelled. An operation on sessions reads the clock once; deleting an
-- account takes its sessions and email log along, its alerts, matches and saved jobs are no part
-- of that store. What a download, the PDF library and the queue answer while a document is read is
-- a parameter too, and a stream may break off. So are the provider's answer to an email, how Intl
-- prints dates and numbers, `encodeURIComponent`, SHA-256, random tokens and the texts of UUIDs. An
-- email counts as accepted when the provider answers so. Processes that crawl at the same time interleave
-- between statements (Slots.Step).
--
-- Not modelled: other controllers, modules and decorators, the start of the program, migrations and seeds,
-- and the clients of email providers, which are declarations for the framework, SQL, or calls of
-- third-party code. The environment that the configuration reads is a parameter.
pub mod Administration
pub mod Alerts
pub mod Base
pub mod Caching
pub mod Configuration
pub mod CrawlRuns
pub mod Crawler
pub mod Dates
pub mod Documents
pub mod Emails
pub mod JobStatus
pub mod Jobs
pub mod Matching
pub mod Models
pub mod Notifications
pub mod Pagination
pub mod Patterns
pub mod Portals
pub mod Samples
pub mod SavedJobs
pub mod Sending
pub mod Sessions
pub mod Taxonomies
pub mod ThaiText
pub mod Web
