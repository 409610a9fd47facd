-- ===== src/Text/Space.antt =====
-- Spaces at the ends of a text, as `String.prototype.trim` and the class `\s` of regular expressions
-- have them.
pub mod Trimmed
use nexus_mini.Prelude.{ℕ, Bool, ◌&&◌, ◌||◌, [], ◌∷◌, leb, nat_eq, if◌then◌else◌}
use nexus_mini.Text.{Text}

-- `\s`, and what `trim` takes away.
unfoldable pub is_space : ℕ → Bool
is_space c =
    (leb 9 c && leb c 13)
    || (nat_eq c 32
        || (nat_eq c 0xa0
            || (nat_eq c 0x1680
                || ((leb 0x2000 c && leb c 0x200a)
                    || (nat_eq c 0x2028
                        || (nat_eq c 0x2029
                            || (nat_eq c 0x202f
                                || (nat_eq c 0x205f || (nat_eq c 0x3000 || nat_eq c 0xfeff)))))))))

pub skip_spaces : Text → Text
unfolding is_space
skip_spaces [] = []
skip_spaces (c ∷ s) = let rest = skip_spaces s in if is_space c then rest else c ∷ s

pub keep_unless_space : ℕ → Text → Text
unfolding is_space
keep_unless_space c [] = if is_space c then [] else c ∷ []
keep_unless_space c (d ∷ s) = c ∷ d ∷ s

pub drop_spaces : Text → Text
unfolding keep_unless_space
drop_spaces [] = []
drop_spaces (c ∷ s) = keep_unless_space c (drop_spaces s)

-- `form.email.trim()`
unfoldable pub trim : Text → Text
unfolding skip_spaces drop_spaces
trim s = drop_spaces (skip_spaces s)
