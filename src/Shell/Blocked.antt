-- ===== src/Shell/Blocked.antt =====
-- The two screens that stand in place of the workspace, and the banners above its pages
-- (frontend/components/shell.tsx).
use nexus_mini.Prelude.{
  ℕ, suc, String, ◌≡◌, refl, ◌≢◌, inl, inr, Bool, true, false, not, ◌&&◌, List, [], ◌∷◌, ◌++◌,
  Option, none, some, arith, ◌==◌, eq_iff, find, filter, In, In-one, In-append, In-append_right,
  ◌↔◌, if◌then◌else◌, Bool-cases,
}
use nexus_mini.Runtime.{Fault, ok, fail, Server, asked, run, has_status}
use nexus_mini.Shell.{
  Me, Tenant, TenantState, Request, Reply, get_me, get_menu, load, screen, blocked_screen,
  password_gate, initial,
}

module _ {W : Type 0} (server : Server Request Reply W) where
  -- A visitor with a temporary password is shown the screen to change it, and no request but the
  -- one for the visitor's own data has been made.
  pub load-password_gate :
      (n : ℕ) (w w' : W) (me : Me)
      → server w get_me ≡ (ok me, w')
      → me.must_change_password ≡ true
      → let r = run server (load (suc n)) w initial in
        (screen r.state ≡ password_gate me) × (r.log ≡ asked get_me ∷ [])
  unfolding load screen
  load-password_gate n w w' me e must = rw e (ground arith)

  -- A visitor of an organisation whose menu is refused with the status 403 is shown the closed
  -- screen; no page is left for another one, so the loading does not come round again.
  pub load-blocked_screen :
      (n : ℕ) (w w' w'' : W) (me : Me) (e : Fault)
      → server w get_me ≡ (ok me, w')
      → server w' get_menu ≡ (fail e, w'')
      → me.must_change_password ≡ false
      → me.tenant_id ≢ ""
      → has_status 403 e ≡ true
      → let r = run server (load (suc n)) w initial in
        (screen r.state ≡ blocked_screen me) × (r.log ≡ asked get_me ∷ asked get_menu ∷ [])
  unfolding load screen
  load-blocked_screen n w w' w'' me e a b free chosen closed =
      ground (arith, eq_iff me.tenant_id "")

-- `me.tenants.find((x) => x.id === me.tenant_id)?.name ?? ""`
abbrev name_of : Option Tenant → String
name_of none = ""
name_of (some x) = x.name

-- The heading of `BlockedScreen`.
unfoldable pub blocked_title : Me → String
blocked_title me = name_of (find (λ x. x.id == me.tenant_id) me.tenants)

-- `others`: the organisations that `BlockedScreen` has a button for.
unfoldable pub others : Me → List Tenant
others me = filter (λ x. not (x.id == me.tenant_id)) me.tenants

-- The banners of `TenantBanners`, in their order.
pub data Banner : Type 0 where
  deletion_scheduled : String → Banner
  suspended : String → Banner
  read_only impersonated : Banner

abbrev is_date : Option String → Bool
is_date none = false
is_date (some d) = not (d == "")

abbrev deletion_banner : Option String → List Banner
deletion_banner none = []
deletion_banner (some d) = if d == "" then [] else deletion_scheduled d ∷ []

pub state_banners : Option TenantState → List Banner
state_banners none = []
state_banners (some st) =
    deletion_banner st.deletion_at
    ++ ((if st.suspended && not (is_date st.deletion_at) then suspended st.reason ∷ [] else [])
        ++ (if st.read_only && not st.suspended then read_only ∷ [] else []))

unfoldable pub banners : Me → List Banner
unfolding state_banners
banners me =
    state_banners me.tenant_state ++ (if me.impersonated_by == "" then [] else impersonated ∷ [])

state_banners-impersonated : (st : Option TenantState) → ¬ In impersonated (state_banners st)
unfolding state_banners
state_banners-impersonated none h = h
state_banners-impersonated (some st) h =
    elim (In-append impersonated (deletion_banner st.deletion_at) _ h) [
      | inl l ↦ deletion_banner-impersonated st.deletion_at l
      | inr r ↦
          elim (In-append impersonated
            (if st.suspended && not (is_date st.deletion_at) then suspended st.reason ∷ [] else [])
            _ r) [
              | inl l ↦ one _ (suspended st.reason) (λ e. cc) l
              | inr k ↦ one _ read_only (λ e. cc) k
            ]
    ]
  where
    one : (b : Bool) (x : Banner) → x ≢ impersonated → ¬ In impersonated (if b then x ∷ [] else [])
    one true x n i = n (In-one impersonated x i)
    one false x n i = i

    deletion_banner-impersonated : (o : Option String) → ¬ In impersonated (deletion_banner o)
    deletion_banner-impersonated none i = i
    deletion_banner-impersonated (some d) i = elim (Bool-cases (d == "")) [
      | inl e ↦ absurd (rw e at i)
      | inr e ↦ let same : deletion_scheduled d ≡ impersonated = In-one _ _ (rw e at i) in cc
    ]

-- A visitor on whose behalf an administrator acts is told so above every page, whatever the
-- organisation's state, and no other visitor is.
pub banners-impersonated_iff : (me : Me) → In impersonated (banners me) ↔ (me.impersonated_by ≢ "")
unfolding banners
banners-impersonated_iff me = (
  λ h same. elim (In-append impersonated (state_banners me.tenant_state) _ h) [
    | inl l ↦ state_banners-impersonated me.tenant_state l
    | inr r ↦ absurd (simp same at r)
  ],
  λ h.
      let other : (me.impersonated_by == "") ≡ false =
        ground (arith, eq_iff me.impersonated_by "") in
      In-append_right impersonated (state_banners me.tenant_state) _ (rw other (inl refl)),
)
