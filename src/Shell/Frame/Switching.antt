-- ===== src/Shell/Frame/Switching.antt =====
-- What the frame of the workspace follows (frontend/components/shell.tsx).
use nexus_mini.Prelude.{
  String, ◌≡◌, refl, sym, inl, inr, false, List, [], ◌∷◌, ◌==◌, Bool-cases, eq_iff, if◌then◌else◌,
}
use nexus_mini.Runtime.{Answer, ok, fail, Server, asked, did, run}
use nexus_mini.Shell.{Me}
use nexus_mini.Shell.Frame.{
  Frame, FrameEvent, navigates, happen, opened, Request, Reply, post_tenant, on_switched,
  switch_tenant,
}

-- The events one after the other.
pub happens : Frame → List FrameEvent → Frame
happens f [] = f
happens f (e ∷ es) = happens (happen f e) es

-- Whatever is clicked before, a path in another module shows this module's panel, and any path closes
-- the drawer; a path in the module of the page before leaves the panel that was picked.
pub navigates_lem :
    (active : String) (es : List FrameEvent) (key : String)
    → let f = happens (opened active) es in
      let g = happen f (navigates key) in
      (g.drawer ≡ false)
      × (g.active_key ≡ key)
      × (g.panel_key ≡ (if key == f.active_key then f.panel_key else key))
unfolding happen
navigates_lem active es key = go (happens (opened active) es)
  where
    go :
        (f : Frame)
        → let g = happen f (navigates key) in
          (g.drawer ≡ false)
          × (g.active_key ≡ key)
          × (g.panel_key ≡ (if key == f.active_key then f.panel_key else key))
    go f = elim (Bool-cases (key == f.active_key)) [
      | inl e ↦
          let same : key ≡ f.active_key = (eq_iff key f.active_key).0 e in
          rw e (refl, sym same, refl)
      | inr e ↦ rw e (refl, refl, refl)
    ]

-- The choice of the organisation that the visitor is in already asks for nothing. Any other one is
-- asked for once, and the workspace is loaded again exactly if the server agrees: a refusal leaves no
-- trace on the page.
pub switch_tenant_outcome :
    {W : Type 0} (server : Server Request Reply W) (me : Me) (id : String) (f : Frame) (w w' : W)
    (a : Answer (Unit {0}))
    → server w (post_tenant id) ≡ (a, w')
    → run server (switch_tenant me id) w f ≡ (
        if id == me.tenant_id
        then record { value = ok tt; world = w; state = f; log = [] }
        else elim a [
          | ok u ↦ record {
            value = ok tt;
            world = w';
            state = f;
            log = asked (post_tenant id) ∷ did on_switched ∷ [];
          }
          | fail e ↦ record {
            value = fail e;
            world = w';
            state = f;
            log = asked (post_tenant id) ∷ [];
          }
        ])
unfolding switch_tenant
switch_tenant_outcome server me id f w w' (ok u) e = elim (Bool-cases (id == me.tenant_id)) [
  | inl k ↦ rw k refl
  | inr k ↦ rw k (rw e refl)
]
switch_tenant_outcome server me id f w w' (fail x) e = elim (Bool-cases (id == me.tenant_id)) [
  | inl k ↦ rw k refl
  | inr k ↦ rw k (rw e refl)
]
