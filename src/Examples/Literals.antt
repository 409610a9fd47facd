-- ===== src/Examples/Literals.antt =====
-- Literals that differ.
use nexus_mini.Prelude.{String, ◌≡◌, ◌≢◌, false, ◌==◌, eq_iff}

pub literals_ne : (a b : String) → (a == b) ≡ false → a ≢ b
literals_ne a b h e = let t = (eq_iff a b).1 e in cc
