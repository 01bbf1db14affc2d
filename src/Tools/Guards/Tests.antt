-- ===== src/Tools/Guards/Tests.antt =====
-- Checks of paths and commands.
use hydra_forge.Prelude.{◌≡◌, refl, false, [], ◌∷◌, some, any}
use hydra_forge.Prelude.Text.{Text, codes, contains, starts_with}
use hydra_forge.Tools.Guards.{allowed, PathPolicy, check}
use hydra_forge.Tools.Guards.Laws.{Jailed, check-allowed_iff, check-append}

-- A pattern is found as a text, and the paths are absolute.
abbrev jail : PathPolicy Text
jail = record {
  allowed_prefixes = codes "/tmp/hydraforge" ∷ [];
  denied_patterns = codes "/etc/passwd" ∷ [];
}

abbrev sibling : Text
sibling = codes "/tmp/hydraforge-other/x"

check-sibling : check some contains jail sibling ≡ allowed
unfolding contains starts_with
check-sibling =
    check-append some contains [] [] (codes "/etc/passwd" ∷ []) sibling (codes "/tmp/hydraforge")
      (codes "/tmp/hydraforge") (codes "-other/x") refl refl refl

check-allowed_iff_example :
    (c : Text) × (some sibling ≡ some c)
    × (any (λ p. contains p c) jail.denied_patterns ≡ false)
    × Jailed {R = Text} some contains jail.allowed_prefixes c
check-allowed_iff_example = (check-allowed_iff some contains jail sibling).0 check-sibling
