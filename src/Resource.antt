-- ===== src/Resource.antt =====
-- frontend/lib/use-resource.ts: one GET with its three states, and the Resource component of
-- frontend/components/states.tsx that draws them.
-- The hook's effect runs at the mount and again for each new path or nonce, and each run starts one
-- request. A run is alive until its cleanup, which the next run or the unmount makes; requests are
-- answered in any order.
pub mod Freshness
pub mod Latest
use nexus_mini.Prelude.{
  ℕ, suc, ◌+◌, ◌==◌, String, Bool, true, false, not, ◌&&◌, List, [], ◌∷◌, Option, none, some,
  if◌then◌else◌,
}
use nexus_mini.Runtime.{Fault, Answer, ok, fail, has_status}

pub data ResourceState (T : Type 0) : Type 0 where
  loading : ResourceState T
  loaded : T → ResourceState T
  failed : Fault → ResourceState T

-- A run of the effect: its `alive`, the path and nonce that it is for, and whether its request is
-- still unanswered.
pub record EffectRun : Type 0 where
  pub alive : Bool
  pub path : String
  pub nonce : ℕ
  pub pending : Bool

-- The hook between two events; the newest run comes first. A component that has gone away is drawn
-- no more and reloads nothing.
pub record Hook (T : Type 0) : Type 0 where
  pub state : ResourceState T
  pub path : String
  pub nonce : ℕ
  pub mounted : Bool
  pub runs : List EffectRun

-- What happens to the hook: the component is drawn with a path, `reload` is called, the component
-- goes away, or a request is answered, which is the n-th newest.
pub data Event (T : Type 0) : Type 0 where
  render : String → Event T
  reload : Event T
  unmount : Event T
  answer : ℕ → Answer T → Event T

-- The cleanup of the newest run, `alive = false`.
pub cleanup : List EffectRun → List EffectRun
cleanup [] = []
cleanup (r ∷ runs) = record r { alive = false } ∷ runs

module _ {T : Type 0} where
  -- The cleanup of the run before, and then the effect's body up to its request.
  pub run_effect : String → ℕ → Hook T → Hook T
  unfolding cleanup
  run_effect path nonce h = record {
    state = loading;
    path = path;
    nonce = nonce;
    mounted = true;
    runs = record { alive = true; path = path; nonce = nonce; pending = true } ∷ cleanup h.runs;
  }

  -- `useState`, and the first run.
  unfoldable pub mount : String → Hook T
  mount path = record {
    state = loading;
    path = path;
    nonce = 0;
    mounted = true;
    runs = record { alive = true; path = path; nonce = 0; pending = true } ∷ [];
  }

  -- The `then` and the `catch` of a run that is alive; a 401 is left to the client's redirect.
  pub settle : Answer T → ResourceState T → ResourceState T
  settle (ok data') s = loaded data'
  settle (fail e) s = if has_status 401 e then s else failed e

  abbrev settle_if : Bool → Answer T → ResourceState T → ResourceState T
  settle_if alive a s = if alive then settle a s else s

  -- The n-th newest run, with its request answered, and the state after it; a request that was
  -- answered before is not answered again.
  pub answer_run :
      ℕ → Answer T → ResourceState T → List EffectRun → ResourceState T × List EffectRun
  unfolding settle
  answer_run n a s [] = (s, [])
  answer_run ℕ.zero a s (r ∷ runs) =
      if r.pending
      then (settle_if r.alive a s, record r { pending = false } ∷ runs)
      else (s, r ∷ runs)
  answer_run (suc n) a s (r ∷ runs) = let (s', runs') = answer_run n a s runs in (s', r ∷ runs')

  pub step : Hook T → Event T → Hook T
  unfolding run_effect answer_run
  step h (render path) = if h.mounted && not (path == h.path) then run_effect path h.nonce h else h
  step h reload = if h.mounted then run_effect h.path (h.nonce + 1) h else h
  step h unmount = record h { mounted = false; runs = cleanup h.runs }
  step h (answer n a) =
      let (s', runs') = answer_run n a h.state h.runs in record h { state = s'; runs = runs' }

  unfoldable pub steps : Hook T → List (Event T) → Hook T
  unfolding step
  steps h [] = h
  steps h (e ∷ es) = steps (step h e) es

-- What `Resource` draws.
pub data Drawn (T : Type 0) : Type 0 where
  skeleton : Drawn T
  error_with_retry : Fault → Drawn T
  empty : Drawn T
  children : T → Drawn T

-- `isEmpty` may be left out.
unfoldable pub draw : {T : Type 0} → Option (T → Bool) → ResourceState T → Drawn T
draw is_empty loading = skeleton
draw is_empty (failed e) = error_with_retry e
draw none (loaded d) = children d
draw (some test) (loaded d) = if test d then empty else children d
