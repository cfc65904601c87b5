-- ===== src/Lib.antt =====
-- The server side of Autoform Panel: its one-time pairing tickets, its versioned catalog, the
-- validation of daily summaries and of choices in form profiles, the notifications that it sends,
-- and the recipes of backends.
--
-- Parts of the program and the modules that model them:
--
-- App pairing. A phone asks for a ticket (api/app-pairing-routes.js), the ticket's hash names an
-- object that keeps one record (api/app-pairing-store.js), and the object lives in tables of
-- SQLite (stores/pairing-store.mjs). A ticket is redeemed for the panel's access key; calls are
-- limited per source and globally.
--   Pairing/Constants   api/app-pairing-constants.js: paths, limits, rates
--   Pairing/Messages    the validators of api/app-pairing-store.js, over values as JSON gives them
--   Pairing/Storage     the tables and statements of stores/pairing-store.mjs; a statement may fail,
--                       as the list of faults of the tables says
--   Pairing/Store       issue, redeem, rate, alarm of AppPairingTicketStore
--   Pairing/Namespace   fetch, transactions, the sweep of due alarms, and runs of events
--   Pairing/Http        readSmallJson of api/app-pairing-http.js over a stream of chunks
--   Pairing/Crypto      settings and secrets, api/app-pairing-crypto.js
--   Pairing/Configuration  baseConfiguration of api/app-pairing-routes.js
--   Pairing/Routes      api/app-pairing-routes.js and api/app-pairing-tickets.js
--
-- Catalog. The form profiles and their manifest are files of a content-addressed snapshot; a
-- pointer object names the current snapshot and is swapped by its ETag.
--   Catalog/Bucket      stores/catalog-bucket.mjs: objects, ETags, preconditions, writes that fail
--                       before or after they are visible
--   Catalog/State       api/catalog-r2-state.js: state, pointer, contract
--   Catalog/Snapshot    api/catalog-snapshot.js: reading, the two writes, publishing
--   Catalog/Seed        api/catalog-seed.js
--   Catalog/Publish     api/catalog-publish.js: the files of the next version; Catalog/Settings
--                       holds its settings, public and private, and Catalog/Publish/Serve is what
--                       is read back
--   Catalog/Result      values or thrown errors
--
-- Daily summaries. Publishing runs three validators over the settings and the profiles.
--   Stats               api/daily-stats-primitives.js
--   Stats/Legacy        api/daily-stats-v1.js
--   Stats/Qualified     api/daily-stats-v2.js
--   Stats/Alternate     api/daily-stats-alternate.js
--   Their child modules hold the proofs.
--
-- Profiles. The first of the validators of form profiles, and what an edit may change.
--   Profile             api/profile-primitives.js (required texts) and
--                       api/profile-runtime-config.js
--   Profile/Choices     api/profile-choice-fields.js
--
-- Notifications. The panel's settings hold an adapter for a provider of messages; the app sends
-- events, which are validated, rendered by templates and put into a body.
--   Notification            api/notification-adapter-primitives.js, and -constants.js
--   Notification/Time       parseIsoOffsetDateTime
--   Notification/Templates  controlledTemplateTokens of api/notification-adapter-templates.js
--   Notification/Formatters the validators of messages and formatters in the same file
--   Notification/Round      api/notification-adapter-round-data.js
--   Notification/Delivery   api/notification-adapter-v3.js
--   Notification/Validate   api/notification-adapter-validate.js: adapters and their migration
--   Notification/Event      validateNotificationEvent of the same file
--   Notification/Render     api/notification-adapter-render.js: messages and responses
--   Notification/Render/RoundValue  how a value is printed;  Notification/Render/Template  round
--                           messages;  Notification/Render/Body  bodies
--
-- Backend recipes. A panel's backend is described by recipes, which are validated before they are
-- used.
--   Backend                  tables of api/backend-adapter-constants.js, runs with counts
--   Backend/Recipe           api/backend-adapter-recipe-dsl.js: names, paths, selectors
--   Backend/Recipe/Literal   validateRecipeLiteral;  Backend/Recipe/Builder   validateRecipeBuilder
--   Backend/Recipe/Resolver  actions and resolvers
--   Backend/Checks           api/backend-adapter-primitives.js
--   Backend/Outcome          api/backend-adapter-outcome-policy.js
--   Backend/Response         api/backend-adapter-previous-step-response.js and
--                            api/backend-adapter-recovery.js
--   Backend/Dates            api/backend-adapter-duplicate-date.js
--   Backend/Dynamic          api/backend-adapter-dynamic-previous-step.js: named builders and
--                            resolvers, and the references of profiles to them
--
-- Js models the values of JSON, and strings as code points whose length counts UTF-16 units. A
-- number is an integer, another finite number known by its text, or not finite. Prelude holds the
-- shared names and tests.
--
-- State is passed explicitly: the tables, the bucket and the sets that a validator fills are
-- arguments and results. Time, random bytes, SHA-256, HMAC, MD5, JSON, URL parsing, time zones,
-- the names that functions have of their own and GitHub are arguments of the definitions that use
-- them; what a theorem needs of them is a hypothesis at the values concerned. Recursion is
-- structural, except that a numeral has 64 digits of fuel, which a number below 2 ^ 64 does not
-- use up, and that the loop over a template has one round for each character and one more.
--
-- Requests to one pairing object, and writes to the bucket, run one at a time, as their queues in
-- the source run them. A publish that fails at either write, and a pairing request whose
-- statements fail at any point, are runs of the model. A seed has as an argument what other
-- requests do to the bucket while it waits.
--
-- Not modelled: the other validators of the backend adapter and its requests, the other profile
-- validators, AI conversion and translation, the browser's scripts, and the HTTP servers around
-- them; metadata, dates and key checks of the bucket; a ROLLBACK that fails; response headers;
-- members that an object inherits through an own field `__proto__`.
mod Prelude
pub mod Js
pub mod Pairing
pub mod Catalog
pub mod Stats
pub mod Profile
pub mod Notification
pub mod Backend
