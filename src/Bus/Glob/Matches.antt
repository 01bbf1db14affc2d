-- ===== src/Bus/Glob/Matches.antt =====
-- What a glob means, with no order of search in it: `*` stands for any run of bytes, `?` for one
-- byte, and any other byte for itself.
use hydra_forge.Prelude.{ℕ, ◌≡◌, refl, subst, ◌≢◌, ◌⊎◌, inl, inr, true, false, [], ◌∷◌, arith, ◌↔◌}
use hydra_forge.Prelude.Text.{Text}
use hydra_forge.Bus.Glob.{star, question, only_stars, has_wildcard}

pub data Matches : Text → Text → Type 0 where
  empty : Matches [] []
  byte :
      {x c : ℕ} {p t : Text}
      → x ≢ star
      → (x ≡ question) ⊎ (x ≡ c)
      → Matches p t
      → Matches (x ∷ p) (c ∷ t)
  skip : {x : ℕ} {p t : Text} → x ≡ star → Matches p t → Matches (x ∷ p) t
  grow : {x c : ℕ} {p t : Text} → x ≡ star → Matches (x ∷ p) t → Matches (x ∷ p) (c ∷ t)

only_stars→Matches : (p : Text) → only_stars p ≡ true → Matches p []
unfolding only_stars
only_stars→Matches [] h = empty
only_stars→Matches (x ∷ p) h = skip (ground arith) (only_stars→Matches p (ground arith))

Matches→only_stars : {p : Text} → Matches p [] → only_stars p ≡ true
unfolding only_stars
Matches→only_stars empty = refl
Matches→only_stars (skip e d) = ground (arith, Matches→only_stars d)

pub only_stars_iff : (p : Text) → (only_stars p ≡ true) ↔ Matches p []
only_stars_iff p = (only_stars→Matches p, Matches→only_stars)

pub star_nil : {x : ℕ} {p : Text} → x ≡ star → Matches (x ∷ p) [] → Matches p []
star_nil e (skip _ d) = d

no_byte : {y : ℕ} {p : Text} → y ≢ star → ¬ Matches (y ∷ p) []
no_byte n (skip e d) = n e

module _ {p : Text} where
  -- A star that can stand for nothing: what follows it matches already, or the star grows.
  pub star_inv :
      {x c : ℕ} {t : Text}
      → x ≡ star
      → Matches (x ∷ p) (c ∷ t)
      → Matches p (c ∷ t) ⊎ Matches (x ∷ p) t
  star_inv e (byte n _ _) = absurd (n e)
  star_inv e (skip _ d) = inl d
  star_inv e (grow _ d) = inr d

  pub byte_inv :
      {x c : ℕ} {t : Text}
      → x ≢ star
      → Matches (x ∷ p) (c ∷ t)
      → ((x ≡ question) ⊎ (x ≡ c)) × Matches p t
  byte_inv n (byte _ h d) = (h, d)
  byte_inv n (skip e d) = absurd (n e)
  byte_inv n (grow e d) = absurd (n e)

  -- Two stars in a row are one.
  pub star_star :
      {x y : ℕ} {t : Text} → x ≡ star → y ≡ star → Matches (x ∷ y ∷ p) t → Matches (y ∷ p) t
  star_star ex ey (byte n _ _) = absurd (n ex)
  star_star ex ey (skip _ d) = d
  star_star ex ey (grow _ d) = grow ey (star_star ex ey d)

  -- Behind a star the first place for a byte test loses nothing against a later one.
  pub star_byte :
      {x y c : ℕ} (t : Text) → x ≡ star → y ≢ star → Matches (x ∷ y ∷ p) (c ∷ t) → Matches (x ∷ p) t
  star_byte t ex ny (byte n _ _) = absurd (n ex)
  star_byte t ex ny (skip _ d) = skip ex (byte_inv ny d).1
  star_byte [] ex ny (grow _ d) = absurd (no_byte ny (star_nil ex d))
  star_byte (c ∷ t) ex ny (grow _ d) = grow ex (star_byte t ex ny d)

Matches-literal : {p t : Text} → Matches p t → has_wildcard p ≡ false → p ≡ t
unfolding has_wildcard
Matches-literal empty h = refl
Matches-literal (byte n (inl e) d) h = ground arith
Matches-literal (byte n (inr e) d) h = ground (arith, Matches-literal d)
Matches-literal (skip e d) h = ground arith
Matches-literal (grow e d) h = ground arith

Matches_self : (p : Text) → has_wildcard p ≡ false → Matches p p
unfolding has_wildcard
Matches_self [] h = empty
Matches_self (x ∷ p) h = byte (λ e. ground arith) (inr refl) (Matches_self p (ground arith))

-- A pattern without wildcards matches itself and nothing else, so the exact table of the bus and a
-- glob agree on it.
pub Matches-literal_iff : (p t : Text) → has_wildcard p ≡ false → Matches p t ↔ (p ≡ t)
Matches-literal_iff p t h = (λ d. Matches-literal d h, λ e. subst (Matches p) e (Matches_self p h))
