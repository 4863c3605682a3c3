-- ===== src/Lib.antt =====
-- The browser code of the administration pages of agentsecrets-server, as it stands collected
-- under staticfiles/: what the pages compute, and the laws that this obeys.
--
-- Parts and files. Text: JavaScript strings as lists of UTF-16 code units, regular expression
-- classes, trimming, `includes`, `split`, `replace`, decimal numerals, and the host's
-- `toLowerCase` as a parameter with two laws.
-- Urlify (staticfiles/admin/js/urlify.js): the tables of Maps, `Downcoder` and `downcode` in
-- Downcode, the collapsing of separators in Hyphens, `URLify` in the parent (`urlify`); the test
-- that the XRegExp library makes for letters and numbers is a parameter.
-- SelectBox (staticfiles/admin/js/SelectBox.js): a `Page` holds the caches and the boxes by
-- element id, and each method is a function from a page to a page, or to `none` where the script
-- throws a `TypeError` on a missing element or cache; `move` and `move_all` share `move_with`.
-- SelectFilter (staticfiles/admin/js/SelectFilter2.js): the two boxes of a field with their
-- inputs, buttons and warning, as a `Field` over a `Page` of SelectBox, and a function for each
-- handler.
-- Calendar (staticfiles/admin/js/calendar.js): `draw` returns the table that the script builds; a
-- `Calendar` record is the object that steps from month to month. Dates holds `isLeapYear`,
-- `getDaysInMonth` and the part of JavaScript's `Date` on which `getDay` rests, the years 0 to 99
-- read as 1900 to 1999 included; what `Date` gives out of its range is not modelled.
-- Actions (staticfiles/admin/js/actions.js): the check boxes of a result list with the counter
-- and the question whether to act on all objects, as one `Page`; each event handler is a function
-- on it, and `Step` in Reach is the relation of the events that can happen.
-- DateFormat (staticfiles/admin/js/core.js): `strftime` and `strptime`; the host's conversion of
-- strings to numbers is a parameter whose laws speak of strings of digits only, and the carrying of
-- days and months out of range is left to the host. Elements holds
-- the helpers for elements of the page.
-- Formset (staticfiles/admin/js/inlines.js): the inline forms of a page, adding and deleting
-- them; an id or a name is the text around its form number, which Names relates to the texts;
-- Stacked holds what the tabular and stacked inlines do with a row that comes or goes. `Click` is
-- the relation of the clicks on the buttons that are shown.
-- DateTimeShortcuts (staticfiles/admin/js/admin/DateTimeShortcuts.js): the clock and calendar
-- boxes beside the inputs for times and dates, over DateFormat and Calendar; Events holds what
-- the listeners do, Offset the time zone warning. The host's `Date` objects are a parameter,
-- `Dates`, with two laws: a month is below 12, and the UTC getters give back a day of which
-- `strptime` has made a date. Dates before the year 0 are not modelled.
-- Theme (staticfiles/admin/js/theme.js), NavSidebar (staticfiles/admin/js/nav_sidebar.js) and
-- Prepopulate (staticfiles/admin/js/prepopulate.js): what these scripts keep in the page and in
-- the browser's storage, with a function for each handler and for the loading of a page.
-- RelatedPopups (staticfiles/admin/js/admin/RelatedObjectLookups.js): the names of pop-up
-- windows, which carry the depth of the window that opened them; `parseInt` is a parameter.
-- Windows holds the windows of a page, a lookup's result, and the links beside a select; Options
-- and Dismiss what the windows that add, change or delete an object write into the selects of
-- their opener, over SelectBox; Events the clicks on the links, and the closing of the windows.
-- PageScripts: the small scripts filters.js, unusable_password_field.js, popup_response.js,
-- cancel.js and change_form.js of staticfiles/admin/js/, and
-- staticfiles/rest_framework/js/default.js.
-- Csrf (staticfiles/rest_framework/js/csrf.js): Cookies reads a cookie back, Origin says which
-- requests carry the token; trimming and the decoding of escapes are a parameter.
-- AjaxForm (staticfiles/rest_framework/js/ajax-form.js): the outcome of a submission as data;
-- Boundary is about the boundary of a multipart content, whose regular expression is read line by
-- line.
-- ApiDocs (staticfiles/rest_framework/docs/js/api.js): Header the displayed name of a header,
-- Params the entries of a form and the parameters that they give, Response the displayed
-- response, Explorer the dialogs of the requests with their two views, Session the authentication
-- and the language of the page. `toUpperCase`, `parseInt`, `parseFloat` and `JSON.parse` are
-- parameters.
-- Unfold (staticfiles/unfold/js/app.js): History and Search are the search command, Inlines the
-- forms that replace those of inlines.js, Tabs the tabs that move to a drop-down, Shell the theme
-- and the small handlers, Charts the charts that a library draws, Widgets the overlay and the file
-- inputs. The HTML of a form is cut at the prefix of its names; of a nested formset the first
-- add button is kept, but not the clicks in it; what the browser measures at a resize is a
-- parameter.
--
-- Interaction: SelectFilter calls the methods of SelectBox, which filters by Text's `includes`
-- over the case mapping that Urlify uses too; Calendar draws with Dates; DateFormat takes the
-- names of the months and days from Calendar, and the reading of a year from Dates;
-- DateTimeShortcuts writes and reads its fields by DateFormat and opens the calendars of
-- Calendar; Prepopulate fills its field by `urlify`; NavSidebar searches titles by Text's
-- `includes`; RelatedPopups adds options to the caches and boxes of SelectBox, and PageScripts
-- answers a window by its functions; Unfold's inline forms print their numbers by Text's
-- `decimal`.
--
-- Fuel: only the numerals of Text/Decimal run on fuel, one more than the number; each round
-- divides the number by ten, so this is more than they use. Every other loop runs over a list or
-- over the rounds that are left.
--
-- Not modelled: the drawing of elements beyond the data that they show, translation by gettext,
-- the building of the formset plug-in's buttons, the drawing of charts, the Core API client, the
-- other page scripts, the vendored libraries, and the Python services.
pub mod Prelude
pub mod Text
pub mod Urlify
pub mod SelectBox
pub mod Calendar
pub mod Actions
pub mod DateFormat
pub mod Formset
pub mod Theme
pub mod NavSidebar
pub mod Prepopulate
pub mod RelatedPopups
pub mod PageScripts
pub mod SelectFilter
pub mod Unfold
pub mod DateTimeShortcuts
pub mod Csrf
pub mod AjaxForm
pub mod ApiDocs
