-- ===== src/Examples/Hooks.antt =====
-- The data hook, the API client and the departments at concrete inputs.
use nexus_mini.Prelude.{
  ℕ, String, ◌≡◌, refl, ◌↔◌, ◌≤◌, ◌⊎◌, true, List, [], ◌∷◌, Option, none, some, In,
}
use nexus_mini.Text.{codes}
use nexus_mini.Runtime.{Answer, ok}
use nexus_mini.Resource.{Event, render, reload, answer, mount, step, steps, loading}
use nexus_mini.Resource.Freshness.{Settles, answer-Settles}
use nexus_mini.Resource.Latest.{seen, register_steps, empty_register, seen-steps-mount}
use nexus_mini.Client.{Init, FetchCall, HttpResponse, Window, req}
use nexus_mini.Client.Outcome.{IsSentToLogin, req_outcome}
use nexus_mini.Departments.{Dept, flatten}
use nexus_mini.GroupBy.{get, fill}
use nexus_mini.Departments.Tree.{Lies, In-flatten_iff}

-- Two reloads, and the late answer to the first of three requests.
abbrev events : List (Event ℕ)
events = reload ∷ render "/api/b" ∷ answer 2 (ok 7) ∷ []

late_answer_test : (steps (mount "/api/a") events).state ≡ loading
unfolding steps mount
late_answer_test = refl

seen-steps-mount_example :
    seen (steps (mount "/api/a") events) ≡ register_steps (empty_register "/api/a") events
seen-steps-mount_example = seen-steps-mount "/api/a" events

answer-Settles_example :
    let h = steps (mount "/api/a") events in
    ((step h (answer 0 (ok 9))).state ≡ h.state) ⊎ Settles h 0 (ok 9)
answer-Settles_example = answer-Settles "/api/a" events 0 (ok 9)

-- A visitor on the members page, whose session is over.
abbrev window : Window
window = record { in_browser = true; locale_item = none; pathname = codes "/members" }

abbrev over : HttpResponse String
over = record { status = 401; status_text = "Unauthorized"; json = none; error_field = none }

abbrev fetch_over : FetchCall String → Answer (HttpResponse String)
fetch_over c = ok over

abbrev get_members : Init String
get_members = record { method = "GET"; body = none; headers = [] }

req_outcome_example :
    ((req "" fetch_over window "/api/members" get_members).navigated ≡ some "/login"
      ↔ IsSentToLogin window "/api/members" over)
    × (((d : String) × ((req "" fetch_over window "/api/members" get_members).answer ≡ ok d))
        ↔ ((200 ≤ 401) × (401 ≤ 299)))
req_outcome_example = req_outcome "" fetch_over window "/api/members" get_members over refl

abbrev dept : String → Option String → Dept
dept id parent = record {
  id = id;
  code = id;
  name = id;
  parent_id = parent;
  manager_membership_id = none;
  manager_name = "";
  active = true;
  people = 0;
}

-- A child before its root, and two departments that are each other's parents.
abbrev depts : List Dept
depts = dept "b" (some "a") ∷ dept "a" none ∷ dept "c" (some "d") ∷ dept "d" (some "c") ∷ []

flatten_test :
    flatten depts
    ≡ record { dept = dept "a" none; depth = 0 }
      ∷ record { dept = dept "b" (some "a"); depth = 1 }
      ∷ []
unfolding flatten fill get
flatten_test = refl

In-flatten_iff_example :
    In (record { dept = dept "b" (some "a"); depth = 1 }) (flatten depts)
    ↔ (Lies depts (dept "b" (some "a")) 1 × (1 ≤ 32))
In-flatten_iff_example = In-flatten_iff depts (record { dept = dept "b" (some "a"); depth = 1 })
