-- ===== src/Client.antt =====
-- frontend/lib/api.ts: the API client, over a `fetch` of the browser that is a parameter.
-- `D` is the values that are sent and received as JSON. admin/lib/api.ts has the same `req`.
pub mod Outcome
use nexus_mini.Prelude.{
  ℕ, String, Bool, true, false, not, ◌&&◌, List, [], ◌∷◌, ◌++◌, Option, none, some, ◌==◌, nat_eq,
  leb, if◌then◌else◌,
}
use nexus_mini.Text.{Text, codes, starts_with}
use nexus_mini.Runtime.{Fault, api_error, other_error, Answer, ok, fail}

-- `RequestInit`, as the client fills it: the body is the JSON text of a value.
pub record Init (D : Type 0) : Type 0 where
  pub method : String
  pub body : Option D
  pub headers : List (String × String)

pub record FetchCall (D : Type 0) : Type 0 where
  pub path : String
  pub method : String
  pub body : Option D
  pub headers : List (String × String)
  pub credentials : String

-- An HTTP response: the JSON of its body if the body is JSON, and the field `error` of that.
pub record HttpResponse (D : Type 0) : Type 0 where
  pub status : ℕ
  pub status_text : String
  pub json : Option D
  pub error_field : Option String

-- What the client reads of the browser: `typeof window !== "undefined"`, the item `nexus_locale`
-- and `window.location.pathname`.
pub record Window : Type 0 where
  pub in_browser : Bool
  pub locale_item : Option String
  pub pathname : Text

-- What one request leads to: the answer, and the page that the window is sent to, if it is.
pub record Settled (D : Type 0) : Type 0 where
  pub answer : Answer D
  pub navigated : Option String

-- `x || fallback` over texts: null and the empty text are false.
abbrev pub or_default : Option String → String → String
or_default none d = d
or_default (some s) d = if s == "" then d else s

pub lang_of : Window → String
lang_of w = if w.in_browser then or_default w.locale_item "mn" else "mn"

-- `response.ok`, a status of 200 to 299.
pub is_ok : ℕ → Bool
is_ok status = leb 200 status && leb status 299

-- `res.status === 401 && path !== "/api/login"`, where the condition comes to the window.
abbrev pub asks_window : String → ℕ → Bool
asks_window path status = nat_eq status 401 && not (path == "/api/login")

-- The whole condition, in a browser: `!window.location.pathname.startsWith("/login")` too.
pub session_over : Window → String → ℕ → Bool
session_over w path status =
    asks_window path status && (w.in_browser && not (starts_with w.pathname (codes "/login")))

-- The call of `fetch`; later entries of the headers win, so those of `init` come last.
pub fetch_call : {D : Type 0} → Window → String → Init D → FetchCall D
unfolding lang_of
fetch_call w path init = record {
  path = path;
  method = init.method;
  body = init.body;
  headers = ("Content-Type", "application/json") ∷ ("X-Lang", lang_of w) ∷ init.headers;
  credentials = "same-origin";
}

module _ {D : Type 0} (empty : D) where
  abbrev json_or_empty : Option D → D
  json_or_empty none = empty
  json_or_empty (some d) = d

  -- What is thrown: the `ApiError`, or where there is no window, the error of reading it.
  abbrev pub refusal : Window → String → HttpResponse D → Fault
  refusal w path res =
      if asks_window path res.status && not w.in_browser
      then other_error "window is not defined"
      else api_error res.status (or_default res.error_field res.status_text)

  -- The rest of `req`, on a response, or on the error with which `fetch` was rejected.
  pub receive : Window → String → Answer (HttpResponse D) → Settled D
  receive w path (fail e) = record { answer = fail e; navigated = none }
  receive w path (ok res) =
      if is_ok res.status
      then record { answer = ok (json_or_empty res.json); navigated = none }
      else record {
        answer = fail (refusal w path res);
        navigated = if session_over w path res.status then some "/login" else none;
      }

  -- `req`
  unfoldable pub req :
      (FetchCall D → Answer (HttpResponse D)) → Window → String → Init D → Settled D
  unfolding fetch_call receive
  req fetch w path init = receive w path (fetch (fetch_call w path init))

-- The four methods of `api`; a POST may have no data, and may have headers.
module _ {D : Type 0} where
  pub get_init : Init D
  get_init = record { method = "GET"; body = none; headers = [] }

  pub post_init : Option D → List (String × String) → Init D
  post_init data' headers = record { method = "POST"; body = data'; headers = headers }

  pub put_init : Option D → Init D
  put_init data' = record { method = "PUT"; body = data'; headers = [] }

  pub del_init : Init D
  del_init = record { method = "DELETE"; body = none; headers = [] }
