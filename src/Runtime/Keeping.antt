-- ===== src/Runtime/Keeping.antt =====
-- What a handler keeps of the page's state, whatever the server answers.
use nexus_mini.Runtime.{Answer, Proc, ret, call, set, emit, ◌>>=◌, Server, run}

module _ {Q : Type 0} {R : Q → Type 0} {E S : Type 0} (P : S → Type 0) where
  abbrev pub Keeps : {A : Type 0} → Proc Q R E S A → Type 0
  Keeps (ret a) = Unit
  Keeps (call q k) = (r : Answer (R q)) → Keeps (k r)
  Keeps (set f p) = ((s : S) → P s → P (f s)) × Keeps p
  Keeps (emit e p) = Keeps p

  pub Keeps->>= :
      {A B : Type 0} (p : Proc Q R E S A) (f : A → Proc Q R E S B)
      → Keeps p
      → ((a : A) → Keeps (f a))
      → Keeps (p >>= f)
  Keeps->>= (ret a) f h k = k a
  Keeps->>= (call q g) f h k = λ r. Keeps->>= (g r) f (h r) k
  Keeps->>= (set g p) f (h, i) k = (h, Keeps->>= p f i k)
  Keeps->>= (emit e p) f h k = Keeps->>= p f h k

  pub run-Keeps :
      {A W : Type 0} (server : Server Q R W) (p : Proc Q R E S A) (w : W) (s : S)
      → Keeps p
      → P s
      → P (run server p w s).state
  run-Keeps server (ret a) w s h i = i
  run-Keeps server (call q k) w s h i =
      run-Keeps server (k (server w q).0) (server w q).1 s (h (server w q).0) i
  run-Keeps server (set f p) w s (h, k) i = run-Keeps server p w (f s) k (h s i)
  run-Keeps server (emit e p) w s h i = run-Keeps server p w s h i
