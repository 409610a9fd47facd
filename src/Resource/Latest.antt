-- ===== src/Resource/Latest.antt =====
-- What useResource (frontend/lib/use-resource.ts) promises its page, without the requests: a register
-- of the newest one. The hook keeps a run for each request that it ever made; what a page can see of
-- it is this register.
use nexus_mini.Prelude.{
  ℕ, zero, suc, ◌==◌, String, ◌≡◌, refl, ap, ◌∙◌, inl, inr, Bool, true, false, not, ◌&&◌, List, [],
  ◌∷◌, arith, All, Bool-cases, if◌then◌else◌,
}
use nexus_mini.Runtime.{Answer}
use nexus_mini.Resource.{
  ResourceState, Hook, EffectRun, Event, render, reload, unmount, answer, loading, cleanup,
  run_effect, mount, settle, answer_run, step, steps,
}
use nexus_mini.Resource.Freshness.{
  IsStopped, IsCurrent, AreCurrent, step-IsCurrent, mount-IsCurrent,
}

-- `waiting` says that the newest request is open and that somebody waits for it.
pub record Register (T : Type 0) : Type 0 where
  pub shown : ResourceState T
  pub path : String
  pub mounted : Bool
  pub waiting : Bool

abbrev pub newest_waits : List EffectRun → Bool
newest_waits [] = false
newest_waits (r ∷ runs) = r.alive && r.pending

cleanup-newest_waits : (runs : List EffectRun) → newest_waits (cleanup runs) ≡ false
unfolding cleanup
cleanup-newest_waits [] = refl
cleanup-newest_waits (r ∷ runs) = refl

module _ {T : Type 0} where
  -- A new request empties the register; it takes the first answer to the newest request, and no other.
  pub register_step : Register T → Event T → Register T
  register_step l (render path) =
      if l.mounted && not (path == l.path)
      then record l { shown = loading; path = path; waiting = true }
      else l
  register_step l reload = if l.mounted then record l { shown = loading; waiting = true } else l
  register_step l unmount = record l { mounted = false; waiting = false }
  register_step l (answer zero a) =
      if l.waiting then record l { shown = settle a l.shown; waiting = false } else l
  register_step l (answer (suc n) a) = l

  pub register_steps : Register T → List (Event T) → Register T
  unfolding register_step
  register_steps l [] = l
  register_steps l (e ∷ es) = register_steps (register_step l e) es

  abbrev pub empty_register : String → Register T
  empty_register path = record { shown = loading; path = path; mounted = true; waiting = true }

  -- What a page can see of the hook.
  abbrev pub seen : Hook T → Register T
  seen h = record {
    shown = h.state;
    path = h.path;
    mounted = h.mounted;
    waiting = newest_waits h.runs;
  }

  stopped_state :
      (n : ℕ) (a : Answer T) (s : ResourceState T) (runs : List EffectRun)
      → All IsStopped runs
      → (answer_run n a s runs).0 ≡ s
  unfolding answer_run
  stopped_state n a s [] h = refl
  stopped_state zero a s (r ∷ runs) h = ground arith
  stopped_state (suc n) a s (r ∷ runs) h = stopped_state n a s runs h.1

  seen-answer :
      (n : ℕ) (a : Answer T) (h : Hook T) (runs : List EffectRun)
      → AreCurrent h runs
      → seen (record h {
        state = (answer_run n a h.state runs).0;
        runs = (answer_run n a h.state runs).1;
      })
        ≡ register_step (seen (record h { runs = runs })) (answer n a)
  unfolding answer_run register_step
  seen-answer n a h [] c = absurd c
  seen-answer zero a h (r ∷ runs) c = elim (Bool-cases r.pending) [
    | inl p ↦ elim (Bool-cases r.alive) [ inl q ↦ rw (p, q) refl | inr q ↦ rw (p, q) refl ]
    | inr p ↦ elim (Bool-cases r.alive) [ inl q ↦ rw (p, q) refl | inr q ↦ rw (p, q) refl ]
  ]
  seen-answer (suc n) a h (r ∷ runs) c = rw (stopped_state n a h.state runs c.3) refl

  seen-step : (h : Hook T) (e : Event T) → IsCurrent h → seen (step h e) ≡ register_step (seen h) e
  unfolding step register_step run_effect
  seen-step h (render path) c = elim (Bool-cases h.mounted) [
    | inl m ↦ elim (Bool-cases (path == h.path)) [ inl e ↦ rw (m, e) refl | inr e ↦ rw (m, e) refl ]
    | inr m ↦ rw m refl
  ]
  seen-step h reload c = elim (Bool-cases h.mounted) [ inl m ↦ rw m refl | inr m ↦ rw m refl ]
  seen-step h unmount c = rw (cleanup-newest_waits h.runs) refl
  seen-step h (answer n a) c = seen-answer n a h h.runs c

  seen-steps :
      (h : Hook T) (es : List (Event T))
      → IsCurrent h
      → seen (steps h es) ≡ register_steps (seen h) es
  unfolding steps register_steps
  seen-steps h [] c = refl
  seen-steps h (e ∷ es) c =
      seen-steps (step h e) es (step-IsCurrent h e c)
      ∙ ap (λ l. register_steps l es) (seen-step h e c)

  -- The hook refines the register: from the mount on, after any draws, reloads, unmounts and answers in
  -- any order, the page sees of the hook just what the register holds after the same events.
  pub seen-steps-mount :
      (path : String) (es : List (Event T))
      → seen (steps (mount path) es) ≡ register_steps (empty_register path) es
  unfolding mount
  seen-steps-mount path es = seen-steps (mount path) es (mount-IsCurrent T path)
