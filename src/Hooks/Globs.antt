-- ===== src/Hooks/Globs.antt =====
-- The globs of the tool hooks: `split` and `match_tool_glob`.
use Prim.{tt}
use hydra_forge.Prelude.{
  ℕ, ◌≡◌, refl, ap, ◌↔◌, ◌⊎◌, true, false, List, [], ◌∷◌, ◌++◌, arith, ◌==◌, if◌then◌else◌, length,
}
use hydra_forge.Prelude.Text.{Text, codes, same_iff}
use hydra_forge.Hooks.{flush, split_loop, split, slash, match_parts, match_tool_glob}

append_assoc : (a b c : List Text) → (a ++ b) ++ c ≡ a ++ (b ++ c)
append_assoc [] b c = refl
append_assoc (x ∷ a) b c = ap (◌∷◌ x) (append_assoc a b c)

split_loop-delim :
    (delim : ℕ) (s t cur : Text)
    → split_loop delim (s ++ delim ∷ t) cur ≡ split_loop delim s cur ++ split_loop delim t []
unfolding split_loop
split_loop-delim delim [] t cur = ground (arith)
split_loop-delim delim (c ∷ s) t cur = ground (
  arith,
  split_loop-delim delim s t [],
  split_loop-delim delim s t (cur ++ c ∷ []),
  append_assoc (flush cur) (split_loop delim s []) (split_loop delim t []),
)

-- A delimiter separates the parts of the two sides, so that delimiters at the ends and repeated ones
-- count for nothing.
pub split-append :
    (delim : ℕ) (s t : Text) → split (s ++ delim ∷ t) delim ≡ split s delim ++ split t delim
unfolding split
split-append delim s t = split_loop-delim delim s t []

-- Part by part, a name fits a pattern: the pattern's part is `*`, or it is the name's.
abbrev pub Fits : List Text → List Text → Type 0
Fits [] [] = Unit
Fits (p ∷ ps) (n ∷ ns) = ((p ≡ codes "*") ⊎ (p ≡ n)) × Fits ps ns
Fits (p ∷ ps) [] = ⊥
Fits [] (n ∷ ns) = ⊥

match_parts_iff :
    (ps ns : List Text)
    → ((if length ps == length ns then match_parts ps ns else false) ≡ true) ↔ Fits ps ns
unfolding match_parts
match_parts_iff [] [] = (λ h. tt, λ h. refl)
match_parts_iff [] (n ∷ ns) = ground arith
match_parts_iff (p ∷ ps) [] = ground arith
match_parts_iff (p ∷ ps) (n ∷ ns) =
    ground (arith, same_iff p (codes "*"), same_iff p n, match_parts_iff ps ns)

-- A glob matches a name if it is `*`, or if both have as many parts and each part of the glob is `*`
-- or the part of the name at its place.
pub match_tool_glob_iff :
    (pattern name : Text)
    → (match_tool_glob pattern name ≡ true)
      ↔ ((pattern ≡ codes "*") ⊎ Fits (split pattern slash) (split name slash))
unfolding match_tool_glob
match_tool_glob_iff pattern name =
    ground (
      arith,
      same_iff pattern (codes "*"),
      match_parts_iff (split pattern slash) (split name slash),
    )
