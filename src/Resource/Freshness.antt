-- ===== src/Resource/Freshness.antt =====
-- Which answers reach the page, and in which state (frontend/lib/use-resource.ts).
use nexus_mini.Prelude.{
  ℕ, zero, suc, ◌+◌, String, ◌≡◌, refl, ◌⊎◌, inl, inr, true, false, List, [], ◌∷◌, arith, All,
  Bool-cases, nat_eq, if◌then◌else◌, ◌∙◌,
}
use nexus_mini.Runtime.{Answer, ok, fail, api_error, other_error}
use nexus_mini.Resource.{
  ResourceState, Hook, EffectRun, Event, render, reload, unmount, answer, loading, loaded, failed,
  cleanup, run_effect, mount, settle, answer_run, step, steps,
}

abbrev pub IsStopped : EffectRun → Type 0
IsStopped r = r.alive ≡ false

module _ {T : Type 0} where
  -- What holds of the newest run and of those before it: the older ones are stopped. The newest is
  -- alive as long as the component is there, it is then for the hook's own path and nonce, and while
  -- its answer is out the page shows the loading state.
  abbrev pub AreCurrent : Hook T → List EffectRun → Type 0
  AreCurrent h [] = ⊥
  AreCurrent h (r ∷ runs) =
      (r.alive ≡ h.mounted)
      × (h.mounted ≡ true → (r.path ≡ h.path) × (r.nonce ≡ h.nonce))
      × (h.mounted ≡ true → r.pending ≡ true → h.state ≡ loading)
      × All IsStopped runs

  abbrev pub IsCurrent : Hook T → Type 0
  IsCurrent h = AreCurrent h h.runs

  answer_run-IsStopped :
      (n : ℕ) (a : Answer T) (s : ResourceState T) (runs : List EffectRun)
      → All IsStopped runs
      → ((answer_run n a s runs).0 ≡ s) × All IsStopped (answer_run n a s runs).1
  unfolding answer_run
  answer_run-IsStopped n a s [] h = (refl, tt)
  answer_run-IsStopped zero a s (r ∷ runs) h = ground arith
  answer_run-IsStopped (suc n) a s (r ∷ runs) (stopped, h) =
      let ih = answer_run-IsStopped n a s runs h in (ih.0, (stopped, ih.1))

  cleanup-IsStopped :
      (h : Hook T) (runs : List EffectRun) → AreCurrent h runs → All IsStopped (cleanup runs)
  unfolding cleanup
  cleanup-IsStopped h [] c = tt
  cleanup-IsStopped h (r ∷ runs) c = (refl, c.3)

  run_effect-IsCurrent :
      (path : String) (nonce : ℕ) (h : Hook T) → IsCurrent h → IsCurrent (run_effect path nonce h)
  unfolding run_effect
  run_effect-IsCurrent path nonce h c =
      (refl, λ m. (refl, refl), λ m p. refl, cleanup-IsStopped h h.runs c)

  unmount-IsCurrent : (h : Hook T) → IsCurrent h → IsCurrent (step h unmount)
  unfolding step
  unmount-IsCurrent h c = go h.runs c
    where
      go :
          (runs : List EffectRun)
          → AreCurrent h runs
          → AreCurrent (record h { mounted = false }) (cleanup runs)
      go [] e = absurd e
      go (r ∷ runs) e = unfold cleanup in (refl, λ m. absurd (cc), λ m. absurd (cc), e.3)

  answer-AreCurrent :
      (n : ℕ) (a : Answer T) (h : Hook T) (runs : List EffectRun)
      → AreCurrent h runs
      → AreCurrent
          (record h { state = (answer_run n a h.state runs).0 })
          (answer_run n a h.state runs).1
  unfolding answer_run
  answer-AreCurrent n a h [] c = absurd c
  answer-AreCurrent zero a h (r ∷ runs) c = elim (Bool-cases r.pending) [
    | inl p ↦ rw p (c.0, c.1, λ m q. absurd (cc), c.3)
    | inr p ↦ rw p (c.0, c.1, λ m q. absurd (cc), c.3)
  ]
  answer-AreCurrent (suc n) a h (r ∷ runs) c =
      let (same, stopped) = answer_run-IsStopped n a h.state runs c.3 in
      (c.0, c.1, λ m p. rw same (c.2 m p), stopped)

  pub step-IsCurrent : (h : Hook T) (e : Event T) → IsCurrent h → IsCurrent (step h e)
  unfolding step
  step-IsCurrent h (render path) c = ground (arith, run_effect-IsCurrent path h.nonce h c)
  step-IsCurrent h reload c = ground (arith, run_effect-IsCurrent h.path (h.nonce + 1) h c)
  step-IsCurrent h unmount c = unmount-IsCurrent h c
  step-IsCurrent h (answer n a) c = answer-AreCurrent n a h h.runs c

  steps-IsCurrent : (h : Hook T) (es : List (Event T)) → IsCurrent h → IsCurrent (steps h es)
  unfolding steps
  steps-IsCurrent h [] c = c
  steps-IsCurrent h (e ∷ es) c = steps-IsCurrent (step h e) es (step-IsCurrent h e c)

pub mount-IsCurrent : (U : Type 0) (path : String) → IsCurrent (mount {T = U} path)
unfolding mount
mount-IsCurrent U path = (refl, λ m. (refl, refl), λ m p. refl, tt)

module _ {T : Type 0} where
  -- From the mount on, whatever is drawn, reloaded, unmounted and answered in whatever order: every
  -- request but the newest is cut off. The newest is alive exactly as long as the component is
  -- there, it is then for the path and nonce that the hook has, and until it is answered the page
  -- shows the loading state, never older data.
  pub reachable-IsCurrent :
      (path : String) (es : List (Event T)) → IsCurrent (steps (mount path) es)
  reachable-IsCurrent path es = steps-IsCurrent (mount path) es (mount-IsCurrent T path)

  -- What the page shows of an answer that it waits for: a 401 is left to the client's redirect.
  abbrev pub answered_state : Answer T → ResourceState T
  answered_state (ok data') = loaded data'
  answered_state (fail (other_error m)) = failed (other_error m)
  answered_state (fail (api_error status m)) =
      if nat_eq status 401 then loading else failed (api_error status m)

  settle_loading : (a : Answer T) → settle a loading ≡ answered_state a
  unfolding settle
  settle_loading (ok data') = refl
  settle_loading (fail (other_error m)) = refl
  settle_loading (fail (api_error status m)) = refl

  -- The answer to a request is the one that the page waits for.
  pub record Settles (h : Hook T) (n : ℕ) (a : Answer T) : Type 0 where
    pub newest : n ≡ 0
    pub there : h.mounted ≡ true
    pub waiting : h.state ≡ loading
    pub shown : (step h (answer n a)).state ≡ answered_state a

  answer_state :
      (n : ℕ) (a : Answer T) (h : Hook T) (runs : List EffectRun)
      → AreCurrent h runs
      → ((answer_run n a h.state runs).0 ≡ h.state)
        ⊎ ((n ≡ 0)
            × (h.mounted ≡ true)
            × (h.state ≡ loading)
            × ((answer_run n a h.state runs).0 ≡ settle a loading))
  unfolding answer_run
  answer_state n a h [] c = absurd c
  answer_state zero a h (r ∷ runs) c = elim (Bool-cases r.pending) [
    | inr p ↦ inl (rw p refl)
    | inl p ↦ elim (Bool-cases r.alive) [
      | inr dead ↦ inl (rw (p, dead) refl)
      | inl alive ↦
          let there : h.mounted ≡ true = cc (c.0) in
          let waiting = c.2 there p in inr (refl, there, waiting, rw (p, alive) (rw waiting refl))
    ]
  ]
  answer_state (suc n) a h (r ∷ runs) c = inl (answer_run-IsStopped n a h.state runs c.3).0

  -- After any events, an answer leaves the page as it is, unless it answers the newest request of a
  -- component that is still there and shows the loading state; the page then shows this answer, or
  -- for a 401 still the loading state.
  -- So late answers for an older path or an older reload never replace newer data.
  pub answer-Settles :
      (path : String) (es : List (Event T)) (n : ℕ) (a : Answer T)
      → let h = steps (mount path) es in ((step h (answer n a)).state ≡ h.state) ⊎ Settles h n a
  unfolding step
  answer-Settles path es n a =
      let h = steps (mount path) es in
      elim (answer_state n a h h.runs (reachable-IsCurrent path es)) [
        | inl same ↦ inl same
        | inr k ↦
            inr
              (record { newest = k.0; there = k.1; waiting = k.2; shown = k.3 ∙ settle_loading a })
      ]
