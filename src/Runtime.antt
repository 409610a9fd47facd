-- ===== src/Runtime.antt =====
-- How an event handler of a page runs (the async functions of the .tsx pages).
-- A handler is a tree of what it does: a call of the API client waits for an answer, a React
-- setter changes the page's state, an effect leaves the page. What the server answers is a
-- parameter: any function of its own state.
pub mod Keeping
use nexus_mini.Prelude.{ℕ, String, List, [], ◌∷◌, Bool, false, nat_eq}

-- What a `catch` receives: an `ApiError` with its status and message, or any other error.
pub data Fault : Type 0 where
  api_error : ℕ → String → Fault
  other_error : String → Fault

pub data Answer (A : Type 0) : Type 0 where
  ok : A → Answer A
  fail : Fault → Answer A

-- `Q` is the requests of a page, `R q` what the server sends for `q`, `E` the page's effects and
-- `S` its state.
pub data Proc (Q : Type 0) (R : Q → Type 0) (E S A : Type 0) : Type 0 where
  ret : A → Proc Q R E S A
  call : (q : Q) → (Answer (R q) → Proc Q R E S A) → Proc Q R E S A
  set : (S → S) → Proc Q R E S A → Proc Q R E S A
  emit : E → Proc Q R E S A → Proc Q R E S A

-- What a run leaves behind it, in order.
pub data Trace (Q E : Type 0) : Type 0 where
  asked : Q → Trace Q E
  did : E → Trace Q E

pub record Run (Q E W S A : Type 0) : Type 0 where
  pub value : A
  pub world : W
  pub state : S
  pub log : List (Trace Q E)

abbrev pub Server : (Q : Type 0) → (Q → Type 0) → Type 0 → Type 0
Server Q R W = W → (q : Q) → Answer (R q) × W

module _ {Q : Type 0} {R : Q → Type 0} {E S : Type 0} where
  abbrev pub ask : (q : Q) → Proc Q R E S (Answer (R q))
  ask q = call q (λ r. ret r)

  abbrev pub update : (S → S) → Proc Q R E S (Unit {0})
  update f = set f (ret tt)

  abbrev pub effect : E → Proc Q R E S (Unit {0})
  effect e = emit e (ret tt)

  infixl 5 ◌>>=◌ ◌>>◌
  abbrev pub ◌>>=◌ : {A B : Type 0} → Proc Q R E S A → (A → Proc Q R E S B) → Proc Q R E S B
  ret a >>= f = f a
  call q k >>= f = call q (λ r. k r >>= f)
  set g p >>= f = set g (p >>= f)
  emit e p >>= f = emit e (p >>= f)

  abbrev pub ◌>>◌ : {B : Type 0} → Proc Q R E S (Unit {0}) → Proc Q R E S B → Proc Q R E S B
  p >> q = p >>= λ _. q

-- A handler run to its end against a server, with nothing else happening to the page.
module _ {Q : Type 0} {R : Q → Type 0} {E S A W : Type 0} (server : Server Q R W) where
  abbrev pub run : Proc Q R E S A → W → S → Run Q E W S A
  run (ret a) w s = record { value = a; world = w; state = s; log = [] }
  run (call q k) w s =
      let (r, w') = server w q in
      let rest = run (k r) w' s in record rest { log = asked q ∷ rest.log }
  run (set f p) w s = run p w (f s)
  run (emit e p) w s = let rest = run p w s in record rest { log = did e ∷ rest.log }

-- `e instanceof ApiError ? e.message : fallback`, the `msg` and `err` helpers of the pages.
abbrev pub msg : Fault → String → String
msg (api_error status message) fallback = message
msg (other_error m) fallback = fallback

-- `e instanceof ApiError && e.status === status`.
abbrev pub has_status : ℕ → Fault → Bool
has_status status (api_error s m) = nat_eq s status
has_status status (other_error m) = false
