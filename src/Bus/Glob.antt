-- ===== src/Bus/Glob.antt =====
-- `glob_match` and `has_wildcard` of src/common/contract/inmemory_bus.cpp; the same function stands in
-- src/core/agent_hook_registry.cpp. An index into a text is the suffix that begins there.
pub mod Matches
pub mod Correct
use hydra_forge.Prelude.{
  ℕ, zero, suc, ◌+◌, ◌*◌, ◌≡◌, refl, Bool, true, false, ◌||◌, List, [], ◌∷◌, Option, none, some,
  ◌==◌, if◌then◌else◌, length,
}
use hydra_forge.Prelude.Text.{Text}

abbrev pub star : ℕ
star = b'*'

abbrev pub question : ℕ
question = b'?'

-- `star_p + 1` and `star_t`, once a star has been met.
abbrev pub Saved : Type 0
Saved = Option (Text × Text)

abbrev pub tail : Text → Text
tail [] = []
tail (x ∷ xs) = xs

-- The loop after the text has been read, and the final test.
unfoldable pub only_stars : Text → Bool
only_stars [] = true
only_stars (x ∷ p) = if x == star then only_stars p else false

-- The last two branches of the loop: give the star one more byte, or give up.
unfoldable pub retry : Saved → (Text → Text → Saved → Option Bool) → Option Bool
retry none loop = some false
retry (some (after_star, from)) loop = loop after_star (tail from) (some (after_star, tail from))

-- `none` means that the fuel ran out.
unfoldable pub glob_loop : ℕ → Text → Text → Saved → Option Bool
glob_loop zero p t saved = none
glob_loop (suc f) p [] saved = some (only_stars p)
glob_loop (suc f) [] (c ∷ t) saved = retry saved (glob_loop f)
glob_loop (suc f) (x ∷ p) (c ∷ t) saved =
    let both = glob_loop f p t saved in
    let open_star = glob_loop f p (c ∷ t) (some (p, c ∷ t)) in
    if x == question || x == c
    then both
    else if x == star
    then open_star
    else retry saved (glob_loop f)

-- `glob_match(pattern, topic)`
unfoldable pub glob_match : Text → Text → Option Bool
unfolding glob_loop retry only_stars
glob_match pattern topic = glob_loop ((length topic + 1) * (length pattern + 1)) pattern topic none

-- `s.find('*') != npos || s.find('?') != npos`
unfoldable pub has_wildcard : Text → Bool
has_wildcard [] = false
has_wildcard (x ∷ s) = (x == star || x == question) || has_wildcard s
