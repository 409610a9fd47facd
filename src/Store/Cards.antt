-- ===== src/Store/Cards.antt =====
-- What the store offers for an app, and what comes of it (frontend/app/(portal)/store/page.tsx).
use nexus_mini.Prelude.{
  String, ◌≡◌, refl, ◌≢◌, ◌↔◌, inl, inr, Bool, true, false, not, List, [], ◌∷◌, some, arith, ◌==◌,
  eq_iff, Bool-cases, In, In-one, is_empty,
}
use nexus_mini.Runtime.{Answer, ok, fail, Server, asked, did, run, msg}
use nexus_mini.Resource.{loaded, draw}
use mathlib.Core.Path.{subst}
use nexus_mini.Ui.{
  View, offered, offered-append, offered-append_left, offered-append_right, offered-each,
  each-offered, button, alert, text, when,
}
use nexus_mini.Store.{
  AppStatus, not_installed, enabled, disabled, StoreApp, AppAction, install, enable, disable, Page,
  Request, Reply, post_action, act_button, install_controls, toast, reload, refresh, Action,
  dismiss_error, act_on, toast_title, act, controls, card, cards, view,
}

-- What the status of an app allows: it is installed only if it is part of the running program.
abbrev pub IsAllowed : Bool → AppStatus → AppAction → Type 0
IsAllowed compiled not_installed install = compiled ≡ true
IsAllowed compiled enabled disable = Unit
IsAllowed compiled disabled enable = Unit
IsAllowed compiled _ _ = ⊥

module _ {W : Type 0} (server : Server Request Reply W) (t : String → String) where
  -- Whatever the server answers, one request is sent, and in the end no card is busy. A refusal shows
  -- its message and nothing else; a success tells the visitor, and has the cards and the menu loaded
  -- again.
  pub act_outcome :
      (a : StoreApp) (action : AppAction) (w w' : W) (s : Page) (r : Answer (Unit {0}))
      → server w (post_action a.id action) ≡ (r, w')
      → run server (act t a action) w s ≡ elim r [
        | ok u ↦ record {
          value = tt;
          world = w';
          state = record s { err = ""; busy = "" };
          log =
              asked (post_action a.id action)
              ∷ did (toast (toast_title t a action))
              ∷ did reload
              ∷ did refresh
              ∷ [];
        }
        | fail e ↦ record {
          value = tt;
          world = w';
          state = record s { err = msg e (t "Алдаа гарлаа"); busy = "" };
          log = asked (post_action a.id action) ∷ [];
        }
      ]
  unfolding act
  act_outcome a action w w' s (ok tt) e = rw e refl
  act_outcome a action w w' s (fail f) e = rw e refl

module _ (t : String → String) (can_manage : Bool) (busy : String) where
  abbrev Offers : StoreApp → AppAction → List Action → Type 0
  Offers x action actions = In (act_on x action) actions

  button_sound :
      (label : String) (a : StoreApp) (k : AppAction) (x : StoreApp) (action : AppAction)
      → Offers x action (offered (act_button t can_manage busy label a k))
      → (a ≡ x) × (k ≡ action) × (busy ≢ a.id)
  unfolding offered
  button_sound label a k x action h = elim (Bool-cases (busy == a.id)) [
    | inl e ↦ absurd (rw e at h)
    | inr e ↦
        let same : act_on a k ≡ act_on x action = In-one _ _ (rw e at h) in
        (cc, cc, λ f. ground (arith, eq_iff busy a.id))
  ]

  button_complete :
      (label : String) (a : StoreApp) (k : AppAction)
      → busy ≢ a.id
      → Offers a k (offered (act_button t can_manage busy label a k))
  unfolding offered
  button_complete label a k n =
      let free : (busy == a.id) ≡ false = ground (arith, eq_iff busy a.id) in rw free (inl refl)

-- The click on an action of an app's card.
pub record IsOpenAction (can_manage : Bool) (busy : String) (a : StoreApp) (action : AppAction)
    : Type 0 where
  pub manager : can_manage ≡ true
  pub free : busy ≢ a.id
  pub allowed : IsAllowed a.compiled a.status action

module _ (t : String → String) (busy : String) where
  managed_sound :
      (can_manage : Bool) (label : String) (a : StoreApp) (k : AppAction) (x : StoreApp)
      (action : AppAction)
      → In (act_on x action) (offered (when can_manage (act_button t can_manage busy label a k)))
      → (can_manage ≡ true) × (a ≡ x) × (k ≡ action) × (busy ≢ a.id)
  managed_sound true label a k x action h =
      let (same, e, n) = button_sound t true busy label a k x action h in (refl, same, e, n)
  managed_sound false label a k x action h = absurd (unfold offered in h)

  install_sound :
      (compiled can_manage : Bool) (a x : StoreApp) (action : AppAction)
      → In (act_on x action) (offered (install_controls t can_manage busy compiled a))
      → (a ≡ x) × (can_manage ≡ true) × (busy ≢ a.id) × IsAllowed compiled not_installed action
  install_sound true true a x action h =
      let (same, k, n) = button_sound t true busy (t "Суулгах") a install x action h in
      (same, refl, n, subst (IsAllowed true not_installed) k refl)
  install_sound true false a x action h = absurd (unfold offered in h)
  install_sound false can a x action h = absurd (unfold offered in h)

  install_complete :
      (compiled : Bool) (a : StoreApp)
      → busy ≢ a.id
      → compiled ≡ true
      → In (act_on a install) (offered (install_controls t true busy compiled a))
  install_complete true a n h = button_complete t true busy (t "Суулгах") a install n
  install_complete false a n h = absurd (cc)

  controls_sound :
      (can_manage : Bool) (a x : StoreApp) (st : AppStatus) (action : AppAction)
      → In (act_on x action) (offered (controls t can_manage busy a st))
      → (a ≡ x) × (can_manage ≡ true) × (busy ≢ a.id) × IsAllowed a.compiled st action
  unfolding controls offered
  controls_sound can a x enabled action h =
      let (m, same, k, n) = managed_sound can (t "Унтраах") a disable x action h in
      (same, m, n, subst (IsAllowed a.compiled enabled) k tt)
  controls_sound can a x disabled action h =
      let (m, same, k, n) = managed_sound can (t "Асаах") a enable x action h in
      (same, m, n, subst (IsAllowed a.compiled disabled) k tt)
  controls_sound can a x not_installed action h = install_sound a.compiled can a x action h

  controls_complete :
      (a : StoreApp) (st : AppStatus) (action : AppAction)
      → busy ≢ a.id
      → IsAllowed a.compiled st action
      → In (act_on a action) (offered (controls t true busy a st))
  unfolding controls offered
  controls_complete a enabled disable n h = button_complete t true busy (t "Унтраах") a disable n
  controls_complete a enabled install n h = absurd h
  controls_complete a enabled enable n h = absurd h
  controls_complete a disabled enable n h = button_complete t true busy (t "Асаах") a enable n
  controls_complete a disabled install n h = absurd h
  controls_complete a disabled disable n h = absurd h
  controls_complete a not_installed install n h = install_complete a.compiled a n h
  controls_complete a not_installed enable n h = absurd h
  controls_complete a not_installed disable n h = absurd h

  card_iff :
      (can_manage : Bool) (a x : StoreApp) (action : AppAction)
      → In (act_on x action) (offered (card t can_manage busy a))
        ↔ ((a ≡ x) × IsOpenAction can_manage busy a action)
  unfolding card offered
  card_iff can a x action = (
    λ h. elim h [
      | inl e ↦ absurd (cc)
      | inr k ↦
          elim (offered-append (act_on x action) (controls t can busy a a.status)
            (text a.version ∷ []) k) [
              | inl l ↦
                  let (same, m, n, ok') = controls_sound can a x a.status action l in
                  (same, record { manager = m; free = n; allowed = ok' })
              | inr r ↦ absurd r
            ]
    ],
    λ (same, o). inr (
        offered-append_left (act_on x action) (controls t can busy a a.status) (text a.version ∷ [])
          (rw (← same, o.manager) (controls_complete a a.status action o.free o.allowed))),
  )

  cards_iff :
      (can_manage : Bool) (apps : List StoreApp) (x : StoreApp) (action : AppAction)
      → In
          (act_on x action)
          (offered (cards t can_manage busy (draw (some is_empty) (loaded apps))))
        ↔ (In x apps × IsOpenAction can_manage busy x action)
  unfolding cards draw offered
  cards_iff can [] x action = (λ h. absurd h, λ h. absurd h.0)
  cards_iff can (a ∷ rest) x action = (
    λ h.
        let (y, i, k) = offered-each (card t can busy) (act_on x action) (a ∷ rest) h in
        let (same, o) = (card_iff can y x action).0 k in
        subst (λ z. In z (a ∷ rest) × IsOpenAction can busy z action) same (i, o),
    λ (i, o).
        each-offered (card t can busy) (act_on x action) (a ∷ rest) x i
          ((card_iff can x x action).1 (refl, o)),
  )

-- Once the apps are loaded, the page offers an action on an app exactly if the app is listed, the
-- visitor may manage apps, the app's card is not busy and its status allows the action: to disable
-- an enabled app, to enable a disabled one, and to install one that is not installed but is part of
-- the program.
pub offered-view_store_iff :
    (t : String → String) (can_manage : Bool) (s : Page) (apps : List StoreApp) (x : StoreApp)
    (action : AppAction)
    → In (act_on x action) (offered (view t can_manage s (loaded apps)))
      ↔ (In x apps × IsOpenAction can_manage s.busy x action)
unfolding view offered
offered-view_store_iff t can s apps x action = (
  λ h. elim (offered-append (act_on x action) (banner s) _ h) [
    | inl l ↦ absurd (closed s l)
    | inr r ↦ (cards_iff t s.busy can apps x action).0 r
  ],
  λ h.
      offered-append_right (act_on x action) (banner s) _
        ((cards_iff t s.busy can apps x action).1 h),
)
  where
    banner : Page → View Action
    banner s = when (not (s.err == "")) (alert "danger" s.err ∷ button "×" false dismiss_error ∷ [])

    closed : (s : Page) → ¬ In (act_on x action) (offered (banner s))
    closed s h =
        unfold offered in
        elim (Bool-cases (s.err == "")) [
          | inl e ↦ absurd (rw e at h)
          | inr e ↦ let one : dismiss_error ≡ act_on x action = In-one _ _ (rw e at h) in cc
        ]
