-- ===== src/Lib.antt =====
-- The web console of tuck (web/src, TypeScript and React): the logic of its screens as a library
-- of definitions that compute, and the theorems that make it correct. The console talks to the
-- server over HTTP; what it decides by itself, without the server, is modelled here: which
-- requests carry a token, when a session ends, whether a policy text or a secret's name is
-- accepted, what a diff of two versions shows, when a cluster still has its quorum, and how
-- durations are read and printed.
--
-- The parts, and which file models which code:
--
-- - Base: what the parts share. `Text` is a list of UTF-16 code units, the characters that
--   JavaScript's strings have, and `codes` makes one from a literal. Base/Strings has `trim`,
--   `split`, `join`, `includes`, `startsWith` and their kin, Base/Sort the stable sort of
--   `Array.prototype.sort`, Base/Int integers, Base/Decimal decimal numerals in both directions.
-- - Policy: web/src/pages/dashboard/policies/lib. Policy/Rules is policy.ts (the table of
--   capabilities, `effect`, which rule decides), Policy/Glob its patterns (`globMatch`), and
--   Policy/Parse policy-text.ts (the text form with its line states, errors and warnings, and the
--   printer). Glob is used by Rules; the parser and the printer meet in Policy/Parse/Roundtrip
--   and Policy/Parse/Whole. Policy/Editor is components/policy-editor.tsx of
--   web/src/pages/dashboard/policies, whose matrix edits the text that Parse reads, with the
--   colours of a line in Policy/Editor/Highlight; Policy/Drafts is policies.page.tsx beside it, the
--   drafts that the editor changes and the page saves.
-- - Kv2: web/src/pages/dashboard/kv2/utils.ts. Kv2/Diff is `lcsDiff` (table, then walk),
--   Kv2/Versions `versionRows` and `authorLabel`.
-- - Paths: `validateName` of kv2/utils.ts and of kv1/lib.ts (both under web/src/pages/dashboard),
--   the two rules for the name of a secret.
-- - Cluster: web/src/pages/dashboard/cluster/lib.ts and web/src/shared/api/endpoints/cluster.ts:
--   the model of the nodes, `simulateLoss`, `diffStatus` with its events, and the series of the
--   charts. Cluster/Page is web/src/pages/dashboard/cluster/cluster.page.tsx, the state of the screen
--   with its log, its selection and the transfer of leadership, which calls these functions at every
--   poll; Cluster/Page/Steps runs answers and actions in any order.
-- - Durations: `parseDur`, `fmtShort`, `toGoDuration` of token-roles/lib.ts, `fmtTtl` of
--   mounts/lib.ts, `splitLeft` and `clock` of wrapping/lib.ts, `fmtLeft` of tokens/tokens.utils.ts
--   (all under web/src/pages/dashboard) and `formatRemaining` of
--   web/src/shared/ui/kit/countdown/countdown.tsx. Durations/TtlField is the state of
--   web/src/shared/ui/kit/ttl-field/ttl-field.tsx on whole numbers.
-- - Session: storage, interceptors, the logout event, the provider, the guard of the routes and
--   the sign-in flows (web/src/shared/auth, web/src/shared/api/axios.ts, web/src/shared/emitters,
--   web/src/shared/hocs, web/src/pages/auth). A flow that awaits answers is cut at its awaits into
--   functions on the state, and Session/Steps puts them together as a step relation: page loads,
--   answers, refusals and the user's actions in any order.
-- - Wrapping: the capsules that a tab holds, `statusOf` of web/src/pages/dashboard/wrapping/lib.ts and
--   the hook of use-session.ts beside it, with its effect that tells an expiry.
-- - Namespaces: web/src/pages/dashboard/namespaces/namespaces.page.tsx with
--   web/src/shared/api/endpoints/namespace.ts: the check on names beside the server's
--   (`ValidateName` and `StoragePrefix` of internal/namespace/namespace.go), the counters and the
--   labels. Namespaces/Tree is the tree of the groups, Namespaces/Page the state of the screen, its
--   forms, which use KeyValue, and the requests they send.
-- - Tokens: web/src/pages/dashboard/tokens/tokens.utils.ts and create-token-modal.tsx beside it.
--   Tokens/Page is tokens.page.tsx: the list with its lookups, the tokens that dissolve with their
--   timers, the sweep of those whose time is up, the filters, the pages and the selection;
--   Tokens/Page/Steps runs answers, clock, timers and actions in any order.
-- - Mounts: web/src/pages/dashboard/mounts/lib.ts. Mounts/Wizard is components/create-wizard.tsx beside
--   it, Mounts/Wizard/Steps runs the wizard with any actions, Mounts/Wizard/Sent is about the request
--   that it sends, Mounts/Wizard/Taken about a path that is taken; Mounts/Tune is
--   components/tune-drawer.tsx, Mounts/Page mounts.page.tsx.
-- - Roles: web/src/pages/dashboard/token-roles/lib.ts and hooks.ts. Roles/Drawer is
--   components/role-drawer.tsx beside them, whose form Durations reads and prints, Roles/Saved is
--   about a role that is edited, Roles/Tags is components/tag-input.tsx, Roles/Page
--   token-roles.page.tsx.
-- - Auth: web/src/pages/dashboard/auth-methods/lib.ts, and in Auth/Jwt the form with the configuration
--   of jwt, components/jwt-panel.tsx beside it, with its types of api.ts.
-- - Table: web/src/shared/ui/kit/data-table/data-table.tsx, the sort and the selection of a table.
-- - Ids: the sets of ids that Tokens/Page, Table and Roles/Page change, and what is in them.
-- - KeyValue: `validateKv` of web/src/shared/ui/kit/key-value-editor/key-value-editor.tsx.
-- - Audit: the filter of the log, from the screen (web/src/pages/dashboard/audit-sinks/lib.tsx) to
--   the parameters (web/src/shared/api/endpoints/audit.ts).
-- - LiveLog: web/src/pages/dashboard/audit-sinks/use-live-log.ts, the live tail of the audit log.
--   LiveLog itself is `parseBlock` and the loop that cuts the buffer, LiveLog/Tail what the events
--   do to the rows, LiveLog/Connection the request, the timer and the effect of the hook, and
--   LiveLog/Steady runs them as events in any order.
--
-- How code becomes definitions. A function of the source is a function of the same name; a React
-- component's state is a record, its handlers are functions on it; `undefined` and `null` are
-- `none`, a missing field too; a Map or an object used as one is the list of its entries in
-- insertion order. Texts that the code takes from its translations are values of a data type, one
-- for each key. A regular expression is written out as a function on code units.
--
-- Bounds. Numbers are exact: the source's are doubles, which are exact below 2 ^ 53, and every
-- number that is modelled (seconds, indices, counts, terms, milliseconds) stays below that in
-- use. Subtractions that can go below zero are written out or made in integers. Loops are
-- structural recursion on the list that the loop runs over. Three have fuel: the digits of a
-- number, with the number itself, and the loops that cut the live log's buffer and a line of a
-- policy into pieces, with the length of the text.
--
-- What the code gets from elsewhere and these definitions take as an argument: the JSON decoder of
-- the live log with the fields that are read, whether the server removes a node, the URL parser,
-- `localeCompare` and, where a search uses it, `toLowerCase`, as arbitrary functions; the outcomes of
-- requests are arguments of the steps that they set off.
--
-- Not modelled: rendering, styles, layout and translations; requests and their URLs, except for
-- the headers and the bodies; the browser (storage that throws, several tabs, clocks, the locale);
-- dates; the screens of teams, of the status and of tucksecrets, the panels of the other methods of
-- signing in, and the parsers of durations with fractions, whose sums the code rounds as doubles;
-- what is outside of web/src but for the checks on the names of namespaces: the Go server, its
-- clients and the deployment files.
pub mod Audit
pub mod Auth
pub mod Base
pub mod Cluster
pub mod Durations
pub mod Ids
pub mod KeyValue
pub mod Kv2
pub mod LiveLog
pub mod Mounts
pub mod Namespaces
pub mod Paths
pub mod Policy
pub mod Roles
pub mod Session
pub mod Table
pub mod Tokens
pub mod Wrapping
