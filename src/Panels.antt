-- ===== src/Panels.antt =====
-- What the two panels share (src/internal/panel, src/internal/admin): a request as net/http hands it
-- over, an answer, and the helpers of the handlers. Their Go code is the same text twice.
pub mod Lang
pub mod UserPanel
pub mod AdminPanel
pub mod Serve
mod Tests
use lxc_hosting.Base.{
  ℕ, Bool, true, false, List, [], ◌∷◌, ◌++◌, ◌*◌, if◌then◌else◌, Text, text_eq, codes, Option, none,
  some, Map, get, map, all_where,
}
use lxc_hosting.Db.{User, Domain, AuditLog}
use lxc_hosting.Db.Domains.{DomainView}
use lxc_hosting.Web.Requests.{Request, is_empty}
use lxc_hosting.Web.Flash.{FlashEntry, set_flash, clear_flash}
use lxc_hosting.Host.{Calls}
use lxc_hosting.Mgr.{Config, MgrError}
use lxc_hosting.Mgr.Accounts.{Draws}
use lxc_hosting.Mgr.Sampling.{UserStatus}

-- A request. `host_of_addr` is what net.SplitHostPort makes of the remote address, and `form` what
-- ParseForm makes of the body and the query: its pairs in order, `none` for an error.
pub record HttpRequest : Type 0 where
  pub head : Request
  pub path : Text
  pub cookies : Map Text
  pub query : Map Text
  pub accept_language : Text
  pub form : Option (List (Text × Text))
  pub remote_addr : Text
  pub host_of_addr : Option Text

-- What is drawn and read outside while a request is handled: the clock, the time stamp of SQL, the
-- month, a session token, a password for the panel, and the draws of a creation.
pub record Fresh : Type 0 where
  pub now : ℕ
  pub stamp : Text
  pub month : Text
  pub token : Text
  pub password : Text
  pub draws : Draws

-- The parts of the program and of its libraries that the handlers call: LXD and the files, the
-- configuration, strings.ToLower, fmt.Sprintf, the text of an error, FormatGB (a float), the URL of
-- the panel, the IPv6 address and block of a name, bcrypt, the managed images that LXD lists, and what
-- http.ServeMux does before it matches a path (`some` is a redirect to the cleaned path).
pub record Site (S : Type 0) : Type 0 where
  pub calls : Calls S
  pub cfg : Config
  pub url_path : Text
  pub admin_path : Text
  pub session_days : ℕ
  pub display_ip : Text
  pub lower_other : ℕ → ℕ
  pub sprintf : Text → List Text → Text
  pub describe : MgrError → Text
  pub format_gb : ℕ → Text
  pub panel_url : Text → Text
  pub ipv6 : Text → Text
  pub ipv6_block : Text → Text
  pub verify : Text → Text → Bool
  pub hash : Text → Option Text
  pub managed_images : S → List Text × S
  pub moved : Text → Text → Option Text

pub record Cookie : Type 0 where
  pub name : Text
  pub value : Text
  pub path : Text
  -- `none` is MaxAge -1, which deletes the cookie.
  pub max_age : Option ℕ
  pub http_only : Bool
  pub secure : Bool
  pub same_site_lax : Bool

-- the user's page; the amounts that only a limited user has are in `limited`
pub record Limited : Type 0 where
  pub quota_gb : ℕ
  pub used : Text
  pub pct : ℕ
  pub throttled : Bool

pub record UserPage : Type 0 where
  pub user : User
  pub state : Text
  pub ip : Text
  pub shown_error : Text
  pub ports : Text
  pub ports_short : Text
  pub ssh : Text
  pub v4_forward : Bool
  pub quota_cpu : Text
  pub quota_mem : Text
  pub quota_disk : Text
  pub up : Text
  pub down : Text
  pub ipv6 : Text
  pub ipv6_block : Text
  pub limited : Option Limited
  pub domains : List Domain

pub data Body : Type 0 where
  nothing : Body
  -- http.Error
  message : Text → Body
  -- the login page with its error; a user's page; a flash in JSON; the images for a reinstall
  login_page : Text → Body
  user_page : UserPage → Body
  banner : Text → Text → Body
  images : List Text → Text → Body
  -- the admin's pages: the dashboard, the domains, the audit shell and a chunk of its rows
  dashboard : List UserStatus → ℕ → Text → Body
  domain_page : List DomainView → Body
  audit_page : Body
  audit_chunk : List AuditLog → Bool → ℕ → Body
  -- The handler panics, and net/http drops the connection.
  aborted : Body

pub record Answer : Type 0 where
  pub status : ℕ
  pub location : Text
  pub cookies : List Cookie
  pub body : Body

abbrev pub bare : ℕ → Body → Answer
bare status body = record { status = status; location = []; cookies = []; body = body }

-- featureless404
abbrev pub featureless404 : Answer
featureless404 = bare 404 nothing

-- http.Redirect with http.StatusFound
abbrev pub found_at : Text → Answer
found_at path = record { status = 302; location = path; cookies = []; body = nothing }

abbrev pub with_cookie : Cookie → Answer → Answer
with_cookie c a = record a { cookies = c ∷ a.cookies }

-- FormValue: the first value of a key, or the empty text
abbrev pub value_of : Option Text → Text
value_of none = []
value_of (some v) = v

abbrev pub form_value : List (Text × Text) → Text → Text
form_value form key = value_of (get key form)

-- `r.Form[key]`: all its values
unfoldable pub form_values : List (Text × Text) → Text → List Text
form_values form key = map (λ e. e.1) (all_where (λ (e : Text × Text). text_eq e.0 key) form)

-- clientIP
abbrev pub ip_or_addr : Text → Option Text → Text
ip_or_addr addr none = addr
ip_or_addr addr (some ip) = ip

unfoldable pub client_ip : HttpRequest → Text
client_ip r = ip_or_addr r.remote_addr r.host_of_addr

-- storeFlash for the token in a cookie
abbrev pub flash_for : Map FlashEntry → Option Text → Text → Text → ℕ → Map FlashEntry
flash_for items none msg kind now = items
flash_for items (some token) [] kind now = clear_flash items token
flash_for items (some token) (c ∷ msg) kind now = set_flash items token (c ∷ msg) kind now

-- setSessionCookie and clearSessionCookie
abbrev pub session_cookie : Text → Text → ℕ → Text → Cookie
session_cookie name prefix days token = record {
  name = name;
  value = token;
  path = prefix;
  max_age = some days;
  http_only = true;
  secure = true;
  same_site_lax = true;
}

abbrev pub no_session_cookie : Text → Text → Cookie
no_session_cookie name prefix = record {
  name = name;
  value = [];
  path = prefix;
  max_age = none;
  http_only = true;
  secure = true;
  same_site_lax = false;
}

-- An explicit `?lang=` is kept in a cookie.
abbrev pub lang_cookie : Text → Text → Text → Cookie
lang_cookie name prefix l = record {
  name = name;
  value = l;
  path = prefix;
  max_age = some (365 * 24 * 3600);
  http_only = true;
  secure = false;
  same_site_lax = true;
}

-- `if err := r.ParseForm(); err != nil` answers 400
abbrev pub with_form {ℓ} :
    {P : Type ℓ} → Option (List (Text × Text)) → P → (List (Text × Text) → Answer × P) → Answer × P
with_form none p handle = (bare 400 (message []), p)
with_form (some form) p handle = handle form

abbrev pub error_text : Text → Text
error_text e = codes "error: " ++ e

-- the answer of the mux, with the language cookie if the query has a `lang`
abbrev pub with_lang {ℓ} : {P : Type ℓ} → Text → Text → Text → Text → Answer × P → Answer × P
with_lang name prefix l query (a, p) = (
  (if is_empty l
      then a
      else if is_empty query
      then a
      else with_cookie (lang_cookie name prefix l) a),
  p,
)
