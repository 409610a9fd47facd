-- ===== src/Login/Return.antt =====
-- The way of a guest through the login: frontend/middleware.ts, then frontend/app/login/page.tsx.
use nexus_mini.Prelude.{
  String, ◌≡◌, refl, inl, inr, Bool, true, false, List, [], ◌∷◌, ◌++◌, Option, none, some, arith,
  ◌==◌, Bool-cases,
}
use nexus_mini.Text.{Text, codes, starts_with}
use nexus_mini.Runtime.{Answer, ok, fail, Server, asked, did, run}
use nexus_mini.Middleware.{NextRequest, redirect, matcher, passes_lookahead, serve}
use nexus_mini.Middleware.Guard.{IsGuestAtGuarded, serve-redirect_iff}
use nexus_mini.Login.{
  Page, Request, Reply, Provider, get_providers, post_login, router_replace, choose_next, set_error,
  read_address, submit,
}
use nexus_mini.Login.Form.{Action, set_email, set_password, send, typed}
use nexus_mini.Login.Next.{IsLocal, choose_next_of_IsLocal, IsLocal-append}

-- The part of an address that `search` is: empty, or behind a question mark.
abbrev pub IsSearch : Text → Type 0
IsSearch [] = Unit
IsSearch (c ∷ s) = c ≡ b'?'

-- What is typed into the form, in order.
unfoldable pub typings : List Action → Page → Page
typings [] s = s
typings (a ∷ rest) s = typings rest (typed a s)

typed_next : (a : Action) (s : Page) → (typed a s).next ≡ s.next
unfolding typed
typed_next (set_email v) s = refl
typed_next (set_password v) s = refl
typed_next send s = refl

typings_next : (actions : List Action) (s : Page) → (typings actions s).next ≡ s.next
unfolding typings
typings_next [] s = refl
typings_next (a ∷ rest) s = rw (typings_next rest (typed a s), typed_next a s) refl

set_error_next : (e : Option String) (s : Page) → (set_error e s).next ≡ s.next
set_error_next none s = refl
set_error_next (some e) s = elim (Bool-cases (e == "")) [ inl k ↦ rw k refl | inr k ↦ rw k refl ]

-- No page of the portal that the matcher covers begins like the API.
no_api_below :
    (rest search : Text)
    → starts_with rest (codes "api") ≡ false
    → IsSearch search
    → starts_with (rest ++ search) (codes "api/") ≡ false
no_api_below [] [] h k = refl
no_api_below [] (q ∷ s) h k = ground arith
no_api_below (a ∷ []) [] h k = ground arith
no_api_below (a ∷ []) (q ∷ s) h k = ground arith
no_api_below (a ∷ b ∷ []) [] h k = ground arith
no_api_below (a ∷ b ∷ []) (q ∷ s) h k = ground arith
no_api_below (a ∷ b ∷ c ∷ r) search h k = ground arith

no_api :
    (path search : Text)
    → matcher path ≡ true
    → IsSearch search
    → starts_with (path ++ search) (codes "/api/") ≡ false
unfolding matcher passes_lookahead
no_api [] search h k = absurd (ground arith)
no_api (c ∷ rest) search h k = ground (arith, no_api_below rest search)

module _ {W : Type 0} (server : Server Request Reply W) where
  read_address_next_of :
      (param : Option Text) (error : Option String) (w w' : W) (s : Page)
      (a : Answer (List Provider))
      → server w get_providers ≡ (a, w')
      → (run server (read_address param error) w s).state.next ≡ choose_next s.next param
  unfolding read_address
  read_address_next_of param error w w' s (ok list) e =
      rw e (set_error_next error (record s { next = choose_next s.next param }))
  read_address_next_of param error w w' s (fail x) e =
      rw e (set_error_next error (record s { next = choose_next s.next param }))

  read_address_next :
      (param : Option Text) (error : Option String) (w : W) (s : Page)
      → (run server (read_address param error) w s).state.next ≡ choose_next s.next param
  read_address_next param error w s =
      read_address_next_of param error w (server w get_providers).1 s (server w get_providers).0
        refl

  -- What a submit leaves behind it: the log, and the address to go on to.
  abbrev pub IsSent : (String → String) → Page → W → Text → Type 0
  IsSent t shown w address =
      let sent = run server (submit t shown) w shown in
      (sent.log
        ≡ asked (post_login shown.email shown.password)
          ∷ elim (server w (post_login shown.email shown.password)).0 [
            | ok u ↦ did (router_replace address) ∷ []
            | fail e ↦ []
          ])
      × (sent.state.next ≡ address)

  submit_IsSent_of :
      (t : String → String) (shown : Page) (w w' : W) (a : Answer (Unit {0})) (address : Text)
      → server w (post_login shown.email shown.password) ≡ (a, w')
      → shown.next ≡ address
      → starts_with address (codes "/api/") ≡ false
      → IsSent t shown w address
  unfolding submit
  submit_IsSent_of t shown w w' (ok u) address e same page = rw e (rw same (rw page (refl, refl)))
  submit_IsSent_of t shown w w' (fail x) address e same page = rw e (refl, same)

  submit-IsSent :
      (t : String → String) (shown : Page) (w : W) (address : Text)
      → shown.next ≡ address
      → starts_with address (codes "/api/") ≡ false
      → IsSent t shown w address
  submit-IsSent t shown w address same page =
      let r = server w (post_login shown.email shown.password) in
      submit_IsSent_of t shown w r.1 r.0 address refl same page

  -- A guest whom the middleware sends to the login comes back, after it, to the page and query first
  -- asked for, if the page is a local path: once the login has read its own address, whatever is then
  -- typed, a submit asks for the login, and if it is accepted sends the visitor there. If it is refused,
  -- nobody is sent on and the page keeps the address for the next attempt. `get_next` reads the
  -- parameter `next` of a query; of the one encoded text here it gives back what was encoded. The query
  -- first asked for is empty or begins with a question mark.
  pub submit-serve :
      (encode : Text → Text) (get_next : Text → Option Text) (dev : Bool) (nonce : Text)
      (req : NextRequest)
      → get_next (codes "?next=" ++ encode (req.pathname ++ req.search))
        ≡ some (req.pathname ++ req.search)
      → matcher req.pathname ≡ true
      → IsGuestAtGuarded req
      → IsLocal req.pathname
      → IsSearch req.search
      → (t : String → String) (error : Option String) (actions : List Action) (w : W) (start : Page)
      → (query : Text) × (serve encode dev nonce req ≡ redirect (codes "/login") query)
        × (let opened = run server (read_address (get_next query) error) w start in
            IsSent t (typings actions opened.state) opened.world (req.pathname ++ req.search))
  submit-serve encode get_next dev nonce req decodes covered guest local search t error actions w
        start =
      let address = req.pathname ++ req.search in
      let query = codes "?next=" ++ encode address in
      let opened = run server (read_address (get_next query) error) w start in
      let kept : opened.state.next ≡ address =
        rw (read_address_next (get_next query) error w start) (
          rw decodes (
            choose_next_of_IsLocal start.next address
              (IsLocal-append req.pathname req.search local guest.not_root))) in
      (
        query,
        (serve-redirect_iff encode dev nonce req covered).1 guest,
        submit-IsSent t (typings actions opened.state) opened.world address
            (rw (typings_next actions opened.state) kept)
            (no_api req.pathname req.search covered search),
      )
