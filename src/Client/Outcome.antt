-- ===== src/Client/Outcome.antt =====
-- How a request ends (frontend/lib/api.ts).
use nexus_mini.Prelude.{
  ℕ, String, ◌≡◌, refl, ◌≢◌, ◌↔◌, ◌≤◌, true, false, some, arith, eq_iff, Bool-cases, inl, inr, sym,
  ◌∙◌,
}
use nexus_mini.Text.{codes, starts_with}
use nexus_mini.Runtime.{Answer, ok}
use nexus_mini.Client.{
  Init, FetchCall, HttpResponse, Window, is_ok, session_over, receive, req, fetch_call,
}

-- The window was sent to the login for this response.
pub record IsSentToLogin {D : Type 0} (w : Window) (path : String) (res : HttpResponse D)
    : Type 0 where
  pub unauthorized : res.status ≡ 401
  pub in_browser : w.in_browser ≡ true
  pub not_login_call : path ≢ "/api/login"
  pub not_on_login : starts_with w.pathname (codes "/login") ≡ false

session_over_iff :
    (w : Window) (path : String) (status : ℕ)
    → (session_over w path status ≡ true) ↔ (
        (status ≡ 401)
        × (path ≢ "/api/login")
        × (starts_with w.pathname (codes "/login") ≡ false)
        × (w.in_browser ≡ true))
unfolding session_over
session_over_iff w path status = (
  λ h. (ground arith, λ same. ground (arith, eq_iff path "/api/login"), ground arith, ground arith),
  λ h. ground (arith, eq_iff path "/api/login", h.0, h.2, h.3),
)

module _ {D : Type 0} (empty : D) (fetch : FetchCall D → Answer (HttpResponse D)) where
  is_ok_iff : (n : ℕ) → (is_ok n ≡ true) ↔ ((200 ≤ n) × (n ≤ 299))
  unfolding is_ok
  is_ok_iff n = (λ h. ground arith, λ h. ground arith)

  receive_outcome :
      (w : Window) (path : String) (res : HttpResponse D)
      → ((receive empty w path (ok res)).navigated ≡ some "/login" ↔ IsSentToLogin w path res)
        × (((d : D) × ((receive empty w path (ok res)).answer ≡ ok d))
            ↔ ((200 ≤ res.status) × (res.status ≤ 299)))
  unfolding receive
  receive_outcome w path res = elim (Bool-cases (is_ok res.status)) [
    | inl good ↦
        let range = (is_ok_iff res.status).0 good in
        rw good (
          (λ h. absurd (cc), λ s. absurd (omega (arith, s.unauthorized, range))),
          (λ h. range, λ h. (_, refl)),
        )
    | inr bad ↦
        let outside : (200 ≤ res.status) × (res.status ≤ 299) → ⊥ =
          λ range. let good = (is_ok_iff res.status).1 range in cc in
        elim (Bool-cases (session_over w path res.status)) [
          | inl over ↦
              let (a, b, c, v) = (session_over_iff w path res.status).0 over in
              rw (bad, over)
                (
                  (
                    λ h. record {
                      unauthorized = a;
                      in_browser = v;
                      not_login_call = b;
                      not_on_login = c;
                    },
                    λ s. refl,
                  ),
                  (λ h. absurd (let e = h.1 in cc), λ range. absurd (outside range)),
                )
          | inr stay ↦
              rw (bad, stay)
                (
                  (
                    λ h. absurd (cc),
                    λ s.
                        let over =
                          (session_over_iff w path res.status).1
                            (s.unauthorized, s.not_login_call, s.not_on_login, s.in_browser) in
                        absurd (let e : false ≡ true = sym stay ∙ over in cc),
                  ),
                  (λ h. absurd (let e = h.1 in cc), λ range. absurd (outside range)),
                )
        ]
  ]

  -- When a response arrives, the window is led away exactly in a browser and for a status 401 to
  -- another call than the login's while it is on another page than the login, and then to the login; and the
  -- request gives a value exactly for a status from 200 to 299. So no request both gives a value and
  -- leads away.
  pub req_outcome :
      (w : Window) (path : String) (init : Init D) (res : HttpResponse D)
      → fetch (fetch_call w path init) ≡ ok res
      → ((req empty fetch w path init).navigated ≡ some "/login" ↔ IsSentToLogin w path res)
        × (((d : D) × ((req empty fetch w path init).answer ≡ ok d))
            ↔ ((200 ≤ res.status) × (res.status ≤ 299)))
  unfolding req
  req_outcome w path init res e = rw e (receive_outcome w path res)
