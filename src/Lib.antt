-- ===== src/Lib.antt =====
-- nexus-mini: the web portal of a workspace with organisations, members, roles and installable
-- modules, and the console of the platform's administrators. The Go backend answers the requests of
-- both; every page is a React component that keeps its state, calls the API and draws itself.
--
-- How the parts fit together. A request for a page first meets the middleware, which sends guests to
-- the login and puts the content security policy on documents. The login sends the visitor on to the
-- page first asked for. The workspace's shell then loads the visitor's data and the menu and draws
-- the page inside of it, or one of two screens in its place. Pages read data through one hook and
-- write through the API client; their texts go through the translations.
--
-- Which file models what:
--   Text         strings as sequences of UTF-16 units, where a source walks them
--   Runtime      event handlers as trees of requests, state changes and effects, with `run` against
--                a server that is any function of its own state; `msg` and ApiError of the pages.
--                A Promise.all is one request, or two in a row where one catches its own error
--   Ui           what a page draws, and the actions that its buttons offer
--   GroupBy      a `Map` from keys to lists that one pass over an array fills
--   Slug         frontend/lib/slug.ts: `slugify`; Slug/Accepted is the pattern of a slug that
--                backend/internal/core/handlers/auth.go checks
--   Middleware   frontend/middleware.ts: `middleware`, `policy`, `matcher`; Middleware/Admin is
--                admin/middleware.ts
--   Login        frontend/app/login/page.tsx, frontend/lib/setup.ts: the effects and `submit`;
--                Login/Form is what the page draws; Login/Next is how browsers read the page to
--                go on to, and Login/Return the way of a guest through the redirect and the login
--   Resource     frontend/lib/use-resource.ts as a machine of events, and the component `Resource`
--                of frontend/components/states.tsx (`draw`); Resource/Latest is what it promises a
--                page, as a register of the newest request
--   Client       frontend/lib/api.ts: `req` and the four methods
--   I18n         frontend/lib/i18n.tsx with all its entries; I18n/Console is the dictionary of
--                admin/lib/i18n.tsx
--   Theme        frontend/lib/theme.ts and the script of frontend/app/layout.tsx
--   Shell        frontend/components/shell.tsx: `load` and what `Shell` draws; Shell/Menu is the
--                menu and the breadcrumbs, Shell/Blocked the closed screen and the banners,
--                Shell/Frame the rail, the drawer, the palette and the switch of organisations;
--                with it frontend/components/usermenu.tsx
--   Roles        frontend/app/(portal)/roles/page.tsx: the matrix of roles and permissions, and the
--                dialog for a new role (Roles/CreateRole)
--   Members      frontend/app/(portal)/members/page.tsx: the table and its handlers; Members/Adding is
--                `AddMemberDialog` as a machine of events, with its check of the email
--   Store        frontend/app/(portal)/store/page.tsx: the cards of the apps and `act`, and the
--                history of an app (Store/History)
--   Form         the dialogs with a form that the pages share the code of: their state, `save`, and
--                how a saving ends
--   SsoClients   frontend/app/(portal)/sso-clients/page.tsx; SsoClients/ClientDialog is `ClientDialog`
--   Departments  backend/apps/organisation/ui/pages/departments/page.tsx: `flatten`;
--                Departments/Register is the page around it, Departments/DeptDialog its dialog
--   People       backend/apps/organisation/ui/pages/people/page.tsx
--   Devices      backend/apps/devices/ui/pages/page.tsx; Devices/Search is its search as a machine of
--                events
--   Signup       frontend/app/signup/page.tsx; Signup/NewOrg is frontend/app/org/new/page.tsx
--   Setup        frontend/app/setup/page.tsx: `mount`, `submit`, and the screens
--   PasswordGate frontend/components/password-gate.tsx
--   Consent      frontend/app/(portal)/oauth/consent/page.tsx
--   Settings     frontend/app/(portal)/settings/page.tsx
--   Console      admin/components/shell.tsx; Console/Login is admin/app/login/page.tsx, and
--                Console/Profile and Console/Tenants are the pages of these names under
--                admin/app/(panel), Console/Lists its users, its apps and its overview
--   Examples     the theorems at concrete inputs, and tests
--
-- Bounds. `walk` of Departments has fuel for 33 calls below each other; the source stops at the depth
-- 32, so no call is missing. The fuel of `load` in Shell counts how often it may start; the source
-- starts it again once an organisation has been chosen. All other functions recurse on their input.
--
-- Not modelled: layout and styling, the components of @gerege-systems/ui, Next.js and the browser
-- beyond what the sources read of them, random numbers, `encodeURIComponent` and `toLowerCase`
-- (parameters), how the browser checks an input before it calls a form's handler (the views say what
-- it checks), the closing of a dialog other than by its buttons (but for the one with the secret),
-- the Go backend (a parameter), build scripts, and the pages that only list what the data hook loads
-- (audit, dashboard) or are static (landing, apps, developers).
pub mod Prelude
pub mod Runtime
pub mod Text
pub mod Slug
pub mod Middleware
pub mod Login
pub mod Resource
pub mod GroupBy
pub mod Departments
pub mod Ui
pub mod Roles
pub mod I18n
pub mod Theme
pub mod Client
pub mod Shell
pub mod Members
pub mod Store
pub mod Form
pub mod SsoClients
pub mod Devices
pub mod People
pub mod Signup
pub mod PasswordGate
pub mod Setup
pub mod Consent
pub mod Settings
pub mod Console
pub mod Examples
