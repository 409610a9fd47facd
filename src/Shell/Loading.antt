-- ===== src/Shell/Loading.antt =====
-- How the portal's start ends (frontend/components/shell.tsx).
use nexus_mini.Prelude.{
  ℕ, suc, String, ◌≡◌, refl, ◌≢◌, ◌⊎◌, inl, inr, Bool, true, false, List, [], ◌∷◌, Option, arith,
  ◌==◌, eq_iff, if◌then◌else◌, In, Bool-cases,
}
use nexus_mini.Runtime.{Fault, Answer, ok, fail, Server, ask, ◌>>=◌, Trace, did, run, has_status}
use nexus_mini.Shell.{
  Me, Tenant, ShellData, Page, Request, Reply, Effect, Handler, router_replace, get_me, get_menu,
  post_tenant, load, on_me, MenuApp, give_up, set_data, on_menu, load_menu, on_tenant,
  choose_tenant, screen, loading_screen,
}

-- The visitor is shown something, or is sent to another page.
abbrev pub IsSettled : Page → List (Trace Request Effect) → Type 0
IsSettled s log = (screen s ≢ loading_screen) ⊎ ((to : String) × In (did (router_replace to)) log)

module _ {W : Type 0} (server : Server Request Reply W) where
  -- The handler comes to its end, and leaves the visitor with something.
  abbrev pub Ends : Handler → W → Page → Type 0
  Ends p w s =
      ((run server p w s).value ≡ true) × IsSettled (run server p w s).state (run server p w s).log

  give_up-Ends : (e : Fault) (w : W) (s : Page) → Ends (give_up e) w s
  unfolding give_up screen
  give_up-Ends e w s = elim (Bool-cases (has_status 401 e)) [
    | inl over ↦ rw over (refl, inr ("/login", inl refl))
    | inr other ↦ rw other (refl, inl (λ h. cc))
  ]

  set_data-Ends : (d : ShellData) (w : W) (s : Page) → Ends (set_data d) w s
  unfolding set_data screen
  set_data-Ends d w s = (refl, inl (ground arith))

  -- A request in front changes nothing of how the handler ends.
  asked-Ends :
      {q : Request} (k : Answer (Reply q) → Handler) (w : W) (s : Page)
      → Ends (k (server w q).0) (server w q).1 s
      → Ends (ask q >>= k) w s
  asked-Ends k w s (e, inl shown) = (e, inl shown)
  asked-Ends k w s (e, inr (to, i)) = (e, inr (to, inr i))

  branch-Ends :
      (b : Bool) (p q : Handler) (w : W) (s : Page)
      → (b ≡ true → Ends p w s)
      → (b ≡ false → Ends q w s)
      → Ends (if b then p else q) w s
  branch-Ends true p q w s yes' no' = yes' refl
  branch-Ends false p q w s yes' no' = no' refl

  on_menu-Ends :
      (me : Me) (a : Answer (Option (List MenuApp))) (w : W) (s : Page) → Ends (on_menu me a) w s
  unfolding on_menu
  on_menu-Ends me (ok apps) w s = set_data-Ends _ w s
  on_menu-Ends me (fail e) w s = elim (Bool-cases (has_status 403 e)) [
    | inl closed ↦ rw closed (set_data-Ends _ w s)
    | inr other ↦ rw other (give_up-Ends e w s)
  ]

  load_menu-Ends : (me : Me) (w : W) (s : Page) → Ends (load_menu me) w s
  unfolding load_menu
  load_menu-Ends me w s =
      asked-Ends (on_menu me) w s (on_menu-Ends me (server w get_menu).0 (server w get_menu).1 s)

  -- An organisation is chosen in it, if the answer is a visitor's data at all.
  abbrev HasTenant : Answer Me → Type 0
  HasTenant (ok me) = me.tenant_id ≢ ""
  HasTenant (fail e) = Unit

  on_me-Ends_ready :
      (again : Handler) (a : Answer Me) (w : W) (s : Page) → HasTenant a → Ends (on_me again a) w s
  unfolding on_me
  on_me-Ends_ready again (fail e) w s h = give_up-Ends e w s
  on_me-Ends_ready again (ok me) w s h =
      branch-Ends me.must_change_password _ _ w s (λ must. set_data-Ends _ w s)
        λ free.
          branch-Ends (me.tenant_id == "") _ _ w s (λ e. absurd (h ((eq_iff me.tenant_id "").0 e)))
            λ chosen. load_menu-Ends me w s

  choose_tenant-Ends :
      (tenants : List Tenant) (again : Handler) (w : W) (s : Page)
      → ((id : String)
          → (server w (post_tenant id)).0 ≡ ok tt
          → Ends again (server w (post_tenant id)).1 s)
      → Ends (choose_tenant tenants again) w s
  unfolding choose_tenant
  choose_tenant-Ends [] again w s h = (refl, inr ("/org/new", inl refl))
  choose_tenant-Ends (x ∷ rest) again w s h =
      asked-Ends (on_tenant again) w s (answered (server w (post_tenant x.id)).0 refl)
    where
      answered :
          (a : Answer (Unit {0}))
          → (server w (post_tenant x.id)).0 ≡ a
          → Ends (on_tenant again a) (server w (post_tenant x.id)).1 s
      answered (ok tt) e = unfold on_tenant in h x.id e
      answered (fail f) e = unfold on_tenant in give_up-Ends f _ s

  on_me-Ends :
      (again : Handler) (a : Answer Me) (w : W) (s : Page)
      → ((id : String)
          → (server w (post_tenant id)).0 ≡ ok tt
          → Ends again (server w (post_tenant id)).1 s)
      → Ends (on_me again a) w s
  unfolding on_me
  on_me-Ends again (fail e) w s h = give_up-Ends e w s
  on_me-Ends again (ok me) w s h =
      branch-Ends me.must_change_password _ _ w s (λ must. set_data-Ends _ w s)
        λ free.
          branch-Ends (me.tenant_id == "") _ _ w s (λ e. choose_tenant-Ends me.tenants again w s h)
            λ chosen. load_menu-Ends me w s

  -- What the server promises: once it has taken the choice of an organisation, the visitor's data
  -- that it sends next name one.
  abbrev pub TakesTenant : Type 0
  TakesTenant =
      (w : W) (id : String)
      → (server w (post_tenant id)).0 ≡ ok tt
      → HasTenant (server (server w (post_tenant id)).1 get_me).0

  -- If the server keeps the chosen organisation, loading the portal starts at most twice, whatever
  -- the server answers else: two starts are enough to come to the end. At the end the visitor either
  -- is shown something other than the loading screen, or has been sent to another page.
  pub load-Ends : TakesTenant → (n : ℕ) (w : W) (s : Page) → Ends (load (suc (suc n))) w s
  unfolding load
  load-Ends takes n w s =
      let w' = (server w get_me).1 in
      asked-Ends (on_me (load (suc n))) w s (
        on_me-Ends (load (suc n)) (server w get_me).0 w' s λ id e.
          asked-Ends (on_me (load n)) (server w' (post_tenant id)).1 s
            (on_me-Ends_ready (load n) _ _ s (takes w' id e)))
