-- ===== src/Lib.antt =====
-- Verification of the web client of sahel, a site on which beach homes are let: the dashboard's
-- session and middleware, its timeline and calendars, the form for a manual booking, money, CSV
-- files, the API client, the server actions of its records, images, payments and bookings, its lists
-- and forms, the grid of the timeline and the manager of images; and on the public side the filters
-- of the search, the planner of a stay, the dialog that signs a guest in and books, receipts, and
-- the countdown of a held booking.
--
-- How the parts interact. A request meets the middleware, which reads the session cookie that a
-- sign-in set. In the dashboard, the form for a manual booking asks the API for a unit's closed
-- nights, lets the admin pick days by the rules of the stay picker in the calendar's months, parses
-- the price, and sends the booking through the API client. The timeline draws stays over days; two
-- clicks on its grid choose nights, which the actions of InPlace block. A form is read by FormFields
-- and sent by an action of Entities, which redirects with the outcome in the query (Results); a
-- deletion goes back to the query of its list (Filter). Unsaved asks before a form with changes is
-- left. A guest chooses dates in StayPlanner, which asks the API for a price and hands the stay to
-- the dialog of GuestFlow, which signs the guest in and books it; the guest's booking is then looked
-- up by BookingPage. A list of the dashboard has its filters in the URL, where FilterBar and
-- ViewToggle write them, and ResultModal shows an action's outcome and takes it from there.
--
-- Files and what they model (paths from the repository's root):
-- - Common: shared lists, integers and tests. Js: the built-ins of JavaScript that the sources
--   call: strings as code units (Text), digits, 32-bit operations (Bits), the civil calendar
--   (Civil) and Date (Date). A Date is a number of milliseconds counted from a day 280000 years
--   before the year 0, so that no time is below 0; the range of plain dates, InRange, is the
--   days of the years 0 to 9999, and day_text prints such a day as YYYY-MM-DD.
-- - Session, Paths, SignIn, Middleware: web/src/lib/admin/session.ts and paths.ts,
--   web/src/app/[locale]/login/actions.ts, web/src/middleware.ts. An effect, such as a cookie or a
--   redirect, is part of the answer.
-- - Timeline: web/src/lib/admin/timeline.ts. StayPicker: web/src/lib/admin/stay-picker.ts.
-- - Calendar, Money: web/src/lib/public/calendar.ts, with pounds of web/src/lib/admin/csv.ts.
-- - ManualBooking: manual-booking-form.tsx and actions.ts of
--   web/src/app/[locale]/dashboard/bookings/new, and web/src/components/admin/stay-picker.tsx. The
--   form's state is a record, each handler and each effect is a function on it, and Steps is the
--   relation of what can happen; ManualBooking/Action is submit and the server action.
-- - Api: web/src/lib/admin/api.ts and actions.ts. Csv: web/src/lib/admin/csv.ts, with a reader in
--   Csv/Reader that is no part of the source. SearchParams: web/src/lib/public/search-params.ts.
-- - AdminTypes, PublicTypes: types.ts of web/src/lib/admin and of web/src/lib/public. A decimal
--   number of the API is counted in millionths.
-- - Labels, FormFields, Results, Filter: labels.ts, form.ts, result.ts and filter.ts of
--   web/src/lib/admin. Unsaved: unsaved.ts there, and unsaved-changes.tsx and guarded-link.tsx of
--   web/src/components/admin.
-- - Entities: actions.ts of areas, compounds, owners and units under
--   web/src/app/[locale]/dashboard; InPlace: actions.ts of payments, bookings and timeline, and
--   units/image-actions.ts there; BookingsExport: bookings/export/route.ts there.
-- - TimelineGrid, ImageManager: timeline-grid.tsx (with timeline/page.tsx of the dashboard in
--   TimelineGrid/Page), and image-manager.tsx with image-preview.tsx, of
--   web/src/components/admin. A component's state is a record and each handler a function on it.
-- - StayPlanner, PublicApi: stay-planner.tsx and stay-actions.ts of
--   web/src/app/[locale]/(public)/unit/[slug], and web/src/lib/public/api.ts. GuestFlow:
--   web/src/components/public/guest-flow.tsx, with events and the state after a list of them.
--   PaymentPanel: booking/[ref]/payment-panel.tsx in web/src/app/[locale]/(public).
-- - Phone, Amenities: phone.ts and amenities.ts of web/src/lib/public. Slug: web/src/lib/slug.ts.
--   SearchParams/Controls: search-controls.tsx of web/src/app/[locale]/(public)/search, and
--   pageWindow of web/src/lib/public/urls.ts.
-- - Guest: web/src/lib/public/guest.ts, apiUrl of urls.ts there, and guest-actions.ts of
--   web/src/app/[locale]/(public). Countdown: web/src/lib/public/countdown.ts.
-- - NavProgress: web/src/components/ds/nav-progress.tsx, with timers as the times at which they go
--   off. EntityForm: entity-form.tsx of web/src/components/admin, on the guard of Unsaved, with
--   confirm-delete.tsx and row-delete.tsx in EntityForm/Deletion. SlugField: slug-field.tsx there
--   and slug-action.ts of the dashboard, with the list of the checks that are outstanding.
-- - FilterBar, ViewToggle, ResultModal: filter-bar.tsx, view-toggle.tsx (with units/page.tsx of the
--   dashboard) and action-result-modal.tsx of web/src/components/admin, on the query of the page.
-- - BookingsList, PaymentForms, Reports, Overview: bookings/page.tsx, payments/page.tsx with
--   web/src/components/admin/payment-actions.tsx, reports/page.tsx with today-panel.tsx, and
--   page.tsx with customers/page.tsx, customers/[id]/page.tsx and sidebar.tsx, of the dashboard and
--   of web/src/components/admin. PaymentForms/Booking has the dialogs of a booking and of the
--   settings. The dialogs call the actions of InPlace on the API's state.
-- - UnitPage, Gallery, BookingPage: unit/[slug]/page.tsx, unit/[slug]/gallery.tsx and
--   booking/[ref]/page.tsx in web/src/app/[locale]/(public). Api/Receipts: the rest of api.ts, and
--   payments/[id]/proof/route.ts of the dashboard. StayPicker/View: the months and the days of
--   web/src/components/admin/stay-picker.tsx.
-- - ListPages: the lists of areas, compounds and owners, the public search page, and the small parts
--   toast.tsx, modal.tsx and locale-link.tsx of web/src/components.
-- A function keeps its name, in snake case; a file X/Laws or the like has the theorems about X,
-- and X/Tests runs and instances.
--
-- Parameters stand for what is not in the repository: the HMAC and the text encoding (Platform),
-- Date.parse on texts that the language leaves to its implementation (engine), the network, base64
-- and JSON of the API client, Number on texts that are not all digits (over, to_number), and the
-- reading and printing of a search's numbers from 2 ^ 53 on (large, to_string);
-- URLSearchParams (print and parse), lower case and Unicode normalisation (lower, fold), and the API
-- itself as a function on a state of its own (send), where the order of requests matters. The
-- framework runs the server actions of a page one after the other, so that the answers of the API
-- arrive in the order of the calls.
--
-- Bounds and fuel. Numbers are naturals where the sources only meet such; money and counts stay
-- below 2 ^ 53, where JavaScript computes exactly; the numbers of a search's URL may be larger, and the
-- theorem on them says where it needs the bound. Fuel is used in printing a numeral, where the
-- number itself is enough, and for slices, where the length is; the lemmas on both show it.
--
-- Not modelled: what a page looks like, the translations, the maps, the scaling of charts
-- (web/src/lib/admin/chart.ts), which is floating-point (as is a percentage, which is a parameter of
-- Reports), the forms' markup, the Go API and the database.
pub mod Common
pub mod Js
pub mod AdminTypes
pub mod Amenities
pub mod Api
pub mod BookingPage
pub mod BookingsExport
pub mod BookingsList
pub mod Calendar
pub mod Countdown
pub mod Csv
pub mod Entities
pub mod EntityForm
pub mod Filter
pub mod FilterBar
pub mod FormFields
pub mod Gallery
pub mod Guest
pub mod GuestFlow
pub mod ImageManager
pub mod InPlace
pub mod Labels
pub mod ListPages
pub mod ManualBooking
pub mod Middleware
pub mod Money
pub mod NavProgress
pub mod Overview
pub mod Paths
pub mod PaymentForms
pub mod PaymentPanel
pub mod Phone
pub mod PublicApi
pub mod PublicTypes
pub mod Reports
pub mod ResultModal
pub mod Results
pub mod SearchParams
pub mod Session
pub mod SignIn
pub mod Slug
pub mod SlugField
pub mod StayPicker
pub mod StayPlanner
pub mod Timeline
pub mod TimelineGrid
pub mod UnitPage
pub mod Unsaved
pub mod ViewToggle
