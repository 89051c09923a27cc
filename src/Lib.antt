-- ===== src/Lib.antt =====
-- tidybridge's browser application (frontend/src), modelled and verified.
--
-- The application signs a user in, uploads client files to the tidybridge API, and shows, filters,
-- sorts, edits and deletes the records that the API extracted from them. Its parts:
--
-- - frontend/src/lib/i18n.ts holds the texts in two languages: I18n.antt and its children. A
--   dictionary is a list of pairs (I18n/Spanish.antt, I18n/English.antt); `t`, `fieldLabel`,
--   `stored`, `setLang` and `locale` are functions of the same names. I18n/Choice.antt also has
--   frontend/src/lib/legal.ts and frontend/src/lib/greeting.ts.
-- - frontend/src/lib/serverText.ts translates the API's English sentences: ServerText.antt, with a
--   matcher for the pieces that its regular expressions are made of.
-- - frontend/src/api/types.ts: Types.antt, one record to an interface.
-- - frontend/src/api/client.ts is the only way to the API. Client/Errors.antt has the messages of
--   errors; Client/Request.antt the token, the headers and `request`; Client/Walk.antt the loop
--   that reads page after page; Client/Calls.antt the calls built on them; and
--   Client/Download.antt `exportRecords`, which has a fetch of its own.
-- - frontend/src/auth/AuthContext.tsx keeps the user: Auth.antt, whose state `App` has the client's
--   session, the user and the loading flag. Auth/Guard.antt has
--   frontend/src/components/ProtectedRoute.tsx and the redirect of
--   frontend/src/pages/LoginPage.tsx.
-- - The forms that change who is signed in: Account.antt has what their pages share,
--   Account/Login.antt LoginPage.tsx, Account/Passwords.antt AcceptInvitePage.tsx and
--   ResetPasswordPage.tsx, Account/Forgotten.antt ForgotPasswordPage.tsx, and Account/Profile.antt
--   SettingsPage.tsx and CompleteProfilePage.tsx, all of frontend/src/pages. Account/View.antt has what
--   they show.
--   Account/Runs.antt puts them together: the application as a sequence of events, and
--   Account/Runs/Phases.antt the state machine that says what it promises of the session, without
--   tokens, requests or answers.
-- - frontend/src/App.tsx: Routes.antt, the table of routes with the guard, and where redirects lead.
-- - frontend/src/lib/fieldNames.ts, frontend/src/lib/phone.ts (with
--   frontend/src/data/countryCodes.ts) and frontend/src/lib/passwordRules.ts: FieldNames.antt,
--   Phone.antt and PasswordRules.antt. The last has the backend's check too, from
--   src/tidybridge/auth.py, which the browser's rules are to mirror.
-- - frontend/src/pages/RecordsPage.tsx: Records.antt has its state and what is derived from it,
--   Records/Handlers.antt its handlers, and Records/Events.antt the page as a state machine. A
--   handler that awaits the API is two functions, one up to the call and one on the answer, so
--   that any other event can come between them. Records/View.antt has what the page shows.
-- - frontend/src/pages/RecordDetailPage.tsx: RecordDetail.antt has its state and handlers, split in
--   the same way, and RecordDetail/View.antt what it shows.
-- - frontend/src/pages/ColumnMappingReviewPage.tsx: Mapping/Changes.antt has the summary of a save,
--   Mapping/Stored.antt the update of the upload's result in session storage, and
--   Mapping/Review.antt the page's state and handlers, Mapping/View.antt what it shows.
--   Mapping/Link.antt is the way there from an
--   upload's result, over RecordsPage.tsx and App.tsx.
-- - frontend/src/components/UploadPicker.tsx: UploadPicker.antt, with every key it listens to.
-- - The other pages and components of frontend/src: Pages/Callback.antt has OAuthCallbackPage.tsx,
--   Pages/PilotInvite.antt PilotInvitePage.tsx, Pages/Uploads.antt IngestionRunsPage.tsx and
--   lib/health.ts, Pages/Frame.antt Layout.tsx, and Pages/Widgets.antt the small components.
-- - The landing site, marketing/src: Site/Copy.antt has the type of the copy of i18n.ts, a tree of
--   objects, arrays and texts, Site/Spanish.antt and Site/English.antt the copy itself,
--   Site/Addresses.antt the addresses of its pages and the links of site.tsx, and
--   Site/PilotForm.antt the request for access of sections/PilotForm.tsx. Site/Samples.antt is
--   format.ts with sections/Samples.tsx and sections/InvoiceDemo.tsx.
--
-- Conventions. A JavaScript string is the list of its UTF-16 code units, and `js` makes one of a
-- literal. undefined and null are `none`. A record of string keys is a list of pairs in insertion
-- order. An exception is the `fail` of a `Result`. What is not in this repository is a parameter:
-- fetch and the server (a function from a state and a request to an answer, if one comes, and the
-- next state), Number() and localeCompare (`Runtime`, with their documented laws in `IsLawful`),
-- and the formatting of numbers and dates (`Formats`). Array.prototype.sort is the stable
-- insertion sort of Base/Sorting.antt, which for a comparator that is a total preorder is the only
-- stable result; on a comparator that is not one, JavaScript leaves the order open.
--
-- Fuel. The loop over pages takes a unit of fuel to each request and gives `none` when it has run
-- out. Against a server that pages one list, one unit more than the list has items is enough, and
-- against any server whose totals stay bounded, one more than the bound. The text of a number has
-- one unit of fuel more than the number, and each step divides by ten.
--
-- Runs. In Account/Runs.antt an event is over before the next one begins: a form's submission is one
-- event with the answers it waits for. Records/Events.antt, RecordDetail.antt and
-- Site/PilotForm/Laws.antt let other events come in between.
--
-- Not modelled: markup, styles, animation and timers of the browser; the sections and legal pages of
-- the landing site, which are prose; and the backend. A 2xx whose body is not of the call's own shape
-- is followed for the calls of the user and for those whose value nobody looks at; for the others
-- Client/Calls.antt throws where the page would read in it. An undefined user, which a 204 to /users/me
-- gives and on which the rendering of AuthProvider throws, is taken for null.
pub mod Base
pub mod I18n
pub mod ServerText
pub mod Routes
pub mod Types
pub mod UploadPicker
pub mod Client
pub mod Account
pub mod Auth
pub mod FieldNames
pub mod Mapping
pub mod Phone
pub mod RecordDetail
pub mod Records
pub mod PasswordRules
pub mod Tests
pub mod Site
pub mod Pages
