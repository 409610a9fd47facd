-- ===== src/Consent/Deciding.antt =====
-- What a visitor consents to (frontend/app/(portal)/oauth/consent/page.tsx).
use nexus_mini.Prelude.{
  String, ◌≡◌, refl, ◌↔◌, ◌⊎◌, inl, inr, Bool, true, false, not, List, [], ◌∷◌, Option, none, some,
  ◌==◌, Bool-cases,
}
use nexus_mini.Text.{Text}
use nexus_mini.Runtime.{Answer, ok, fail, Server, asked, did, run, msg}
use nexus_mini.Ui.{alert, each, offered}
use nexus_mini.Ui.Offers.{Offers, Offers-append, Offers-when, Offers-each}
use nexus_mini.Form.{error_alert}
use nexus_mini.Consent.{
  Info, Page, initial, Request, Reply, get_consent, post_consent, location_assign, query_of, mount,
  Action, approve, refuse, is_approval, decide, scope_line, deciding, shown, body, view,
}

module _ {W : Type 0} (server : Server Request Reply W) (t : String → String) where
  -- The page asks once, for the query of its address, and a decision that is taken once it has been
  -- informed sends the same query with it: what is approved is what was shown. On success the visitor
  -- leaves for the address of the answer; on a refusal the error is shown and the buttons can be used
  -- again.
  pub decide_after_mount :
      (search : Text) (w w' w'' : W) (info : Info) (a : Action) (r : Answer String)
      → server w (get_consent (query_of search)) ≡ (ok info, w')
      → server w' (post_consent (is_approval a) (query_of search)) ≡ (r, w'')
      → let m = run server (mount search) w initial in
        let d = run server (decide t (is_approval a) m.state.query) m.world m.state in
        (m.log ≡ (asked (get_consent (query_of search)) ∷ []))
        × (d ≡ elim r [
          | ok redirect ↦ record {
            value = tt;
            world = w'';
            state = record { query = query_of search; info = some info; err = ""; busy = true };
            log =
                asked (post_consent (is_approval a) (query_of search))
                ∷ did (location_assign redirect)
                ∷ [];
          }
          | fail e ↦ record {
            value = tt;
            world = w'';
            state = record {
              query = query_of search;
              info = some info;
              err = msg e (t "Алдаа гарлаа");
              busy = false;
            };
            log = asked (post_consent (is_approval a) (query_of search)) ∷ [];
          }
        ])
  unfolding mount decide
  decide_after_mount search w w' w'' info a (ok redirect) e f = rw e (rw f (refl, refl))
  decide_after_mount search w w' w'' info a (fail x) e f = rw e (rw f (refl, refl))

module _ (t : String → String) (name email : String) (a : Action) where
  no_click : (ss : List String) → Offers a (each (scope_line t) ss) → ⊥
  unfolding offered
  no_click ss h = let (s, i, k) = (Offers-each a (scope_line t) ss).0 h in none_of s k
    where
      none_of : (s : String) → Offers a (scope_line t s) → ⊥
      none_of s k = k

  deciding_iff : (busy : Bool) → Offers a (deciding t name email busy) ↔ (busy ≡ false)
  unfolding offered
  deciding_iff true = (λ h. absurd h, λ h. absurd (let e = h in cc))
  deciding_iff false = (λ h. refl, λ h. either a)
    where
      either : (x : Action) → (refuse ≡ x) ⊎ ((approve ≡ x) ⊎ ⊥)
      either approve = inr (inl refl)
      either refuse = inl refl

  body_iff :
      (s : Page) (o : Option Info)
      → Offers a (body t name email s o) ↔ (((info : Info) × (o ≡ some info)) × (s.busy ≡ false))
  unfolding offered shown
  body_iff s none = (
    λ h. absurd (elim (Bool-cases (s.err == "")) [
      | inl e ↦ let k : ⊥ = rw e at h in k
      | inr e ↦ let k : ⊥ = rw e at h in k
    ]),
    λ ((i, e), b). absurd (let f = e in cc),
  )
  body_iff s (some info) =
      let both = Offers-append a (each (scope_line t) info.scopes) (deciding t name email s.busy) in
      (
        λ h. elim (both.0 h) [
          | inl l ↦ absurd (no_click info.scopes l)
          | inr r ↦ ((info, refl), (deciding_iff s.busy).0 r)
        ],
        λ (i, b). both.1 (inr ((deciding_iff s.busy).1 b)),
      )

  -- The two buttons are offered exactly when the page has been informed and no decision is under way.
  pub offered-view_consent_iff :
      (s : Page)
      → Offers a (view t name email s) ↔ (((info : Info) × (s.info ≡ some info)) × (s.busy ≡ false))
  unfolding view offered
  offered-view_consent_iff s =
      let mark = Offers-when a (not (s.err == "")) (alert "danger" s.err ∷ []) in
      let both = Offers-append a (error_alert s.err) (body t name email s s.info) in
      (
        λ h. elim (both.0 h) [ inl l ↦ absurd (mark.0 l).1 | inr r ↦ (body_iff s s.info).0 r ],
        λ h. both.1 (inr ((body_iff s s.info).1 h)),
      )
