-- ===== src/Bus/Glob/Correct.antt =====
-- The loop of `glob_match` ends within its fuel and decides `Matches`, on topics without `*`.
use hydra_forge.Prelude.{
  ℕ, zero, suc, ◌+◌, ◌*◌, ◌≤◌, ◌<◌, ◌≡◌, refl, sym, subst, ◌≢◌, ◌⊎◌, inl, inr, ◌↔◌, Bool, true,
  false, [], ◌∷◌, Option, none, some, arith, All, length, ◌==◌, ◌||◌,
}
use hydra_forge.Prelude.Text.{Text}
use hydra_forge.Bus.Glob.{star, question, Saved, only_stars, retry, glob_loop, glob_match}
use hydra_forge.Bus.Glob.Matches.{
  Matches, empty, byte, skip, grow, only_stars_iff, star_inv, star_nil, byte_inv, star_star,
  star_byte,
}

-- No byte of a topic is a star.
abbrev pub StarFree : Text → Type 0
StarFree = All (λ c. c ≢ star)

-- An answer, and the right one.
abbrev pub Answers : Type 0 → Option Bool → Type 0
Answers G none = ⊥
Answers G (some true) = G
Answers G (some false) = ¬ G

answer : {G : Type 0} (b : Bool) → (b ≡ true → G) → (G → b ≡ true) → Answers G (some b)
answer true yes_case no_case = yes_case refl
answer false yes_case no_case = λ g. cc (no_case g)

-- The three ways of the loop's test, at a byte that is no star.
byte_cases :
    (x c : ℕ)
    → c ≢ star
    → (((x == question || x == c) ≡ true) × (x ≢ star) × ((x ≡ question) ⊎ (x ≡ c)))
      ⊎ ((((x == question || x == c) ≡ false) × ((x == star) ≡ true))
          ⊎ (((x == question || x == c) ≡ false)
              × ((x == star) ≡ false)
              × ((x ≢ star) × ¬ ((x ≡ question) ⊎ (x ≡ c)))))
byte_cases x c h = ground arith

-- `G` is the question that the call was asked; every pattern on the way is shorter than `k`.
module _ (G : Type 0) (k : ℕ) where
  -- What is known of the saved star: trying it again at `from` answers `G`, and an attempt that
  -- succeeds there would go through the present position. `m` bounds the text still to be tried.
  abbrev Rescue : ℕ → Text → Text → Saved → Type 0
  Rescue m p t none = G → Matches p t
  Rescue m p t (some (after_star, from)) =
      (G → Matches (star ∷ after_star) from)
      × (Matches (star ∷ after_star) from → G)
      × (Matches after_star from → Matches p t)
      × (length t ≤ length from)
      × (length from ≤ m)
      × (length after_star < k)
      × StarFree from

  record Holds (f m : ℕ) (p t : Text) (saved : Saved) : Type 0 where
    sound : Matches p t → G
    ahead : G → Matches (star ∷ p) t
    rescue : Rescue m p t saved
    short_text : length t ≤ m
    short_pattern : length p < k
    fuel : m * k + length p < f
    plain : StarFree t

  Holds-star :
      {f m : ℕ} {p t : Text}
      → (Matches (star ∷ p) t → G)
      → (G → Matches (star ∷ p) t)
      → length t ≤ m
      → length p < k
      → m * k + length p < f
      → StarFree t
      → Holds f m p t (some (p, t))
  Holds-star back to ht hp hf plain = record {
    sound = λ d. back (skip refl d);
    ahead = to;
    rescue = (to, back, λ d. d, omega arith, ht, hp, plain);
    short_text = ht;
    short_pattern = hp;
    fuel = hf;
    plain = plain;
  }

  Rescue-byte :
      (m x c : ℕ) (p t : Text) (saved : Saved)
      → x ≢ star
      → Rescue m (x ∷ p) (c ∷ t) saved
      → Rescue m p t saved
  Rescue-byte m x c p t none n h = λ g. (byte_inv n (h g)).1
  Rescue-byte m x c p t (some (q, from)) n (to, back, via, lt, lf, lq, plain) =
      (to, back, λ d. (byte_inv n (via d)).1, omega arith, lf, lq, plain)

  Holds-byte :
      {f m x c : ℕ} {p t : Text} {saved : Saved}
      → Holds (suc f) m (x ∷ p) (c ∷ t) saved
      → x ≢ star
      → (x ≡ question) ⊎ (x ≡ c)
      → Holds f m p t saved
  Holds-byte {m} {x} {c} {p} {t} {saved} h n e = record {
    sound = λ d. h.sound (byte n e d);
    ahead = λ g. star_byte t refl n (h.ahead g);
    rescue = Rescue-byte m x c p t saved n h.rescue;
    short_text = omega arith;
    short_pattern = omega arith;
    fuel = omega arith;
    plain = h.plain.1;
  }

  -- After a mismatch the saved star has to take one byte more.
  retry-Answers :
      {f c : ℕ} {p t : Text} (m : ℕ) (saved : Saved) (loop : Text → Text → Saved → Option Bool)
      → ((m' : ℕ) (p' t' : Text) (s' : Saved) → Holds f m' p' t' s' → Answers G (loop p' t' s'))
      → Holds (suc f) m p (c ∷ t) saved
      → ¬ Matches p (c ∷ t)
      → Answers G (retry saved loop)
  unfolding retry
  retry-Answers m none loop ih h miss = λ g. miss (h.rescue g)
  retry-Answers m (some (q, [])) loop ih h miss = absurd (omega arith)
  retry-Answers zero (some (q, b ∷ from)) loop ih h miss = absurd (omega arith)
  retry-Answers (suc m) (some (q, b ∷ from)) loop ih h miss =
      let (to, back, via, lt, lf, lq, plain) = h.rescue in
      ih m q from (some (q, from)) (
        Holds-star (λ d. back (grow refl d))
          (λ g. must_grow (star_inv refl (to g)) (λ d. miss (via d))) (omega arith) lq (omega arith)
          plain.1)
    where
      must_grow : {A B : Type 0} → A ⊎ B → ¬ A → B
      must_grow (inl a) n = absurd (n a)
      must_grow (inr b) n = b

  Holds-open :
      {f m x c : ℕ} {p t : Text} {saved : Saved}
      → Holds (suc f) m (x ∷ p) (c ∷ t) saved
      → x ≡ star
      → Holds f m p (c ∷ t) (some (p, c ∷ t))
  Holds-open {x} {c} {p} {t} h e =
      Holds-star (λ d. h.sound (subst (λ y. Matches (y ∷ p) (c ∷ t)) (sym e) d))
        (λ g. subst (λ y. Matches (y ∷ p) (c ∷ t)) e (star_star refl e (h.ahead g))) h.short_text
        (omega arith) (omega arith) h.plain

  loop-Answers :
      (f m : ℕ) (p t : Text) (saved : Saved)
      → Holds f m p t saved
      → Answers G (glob_loop f p t saved)
  unfolding glob_loop
  loop-Answers zero m p t saved h = omega arith
  loop-Answers (suc f) m p [] saved h =
      let e = only_stars_iff p in
      answer (only_stars p) (λ b. h.sound (e.0 b)) (λ g. e.1 (star_nil refl (h.ahead g)))
  loop-Answers (suc f) m [] (c ∷ t) saved h =
      retry-Answers m saved (glob_loop f) (loop-Answers f) h λ d. elim d [ ]
  loop-Answers (suc f) m (x ∷ p) (c ∷ t) saved h = elim (byte_cases x c h.plain.0) [
    | inl (e, n, same_byte) ↦ rw e (loop-Answers f m p t saved (Holds-byte h n same_byte))
    | inr (inl (e, is_star)) ↦
        rw (e, is_star) (loop-Answers f m p (c ∷ t) (some (p, c ∷ t)) (Holds-open h (ground arith)))
    | inr (inr (e, is_star, n)) ↦
        rw (e, is_star)
          (retry-Answers m saved (glob_loop f) (loop-Answers f) h (λ d. n.1 (byte_inv n.0 d).0))
  ]

Matches-any : (t : Text) → Matches (star ∷ []) t
Matches-any [] = skip refl empty
Matches-any (c ∷ t) = grow refl (Matches-any t)

-- On every topic without the byte `*`, `glob_match` ends within its fuel, with true if the pattern
-- matches the topic and with false if it does not.
pub glob_match-Answers :
    (pattern topic : Text)
    → StarFree topic
    → Answers (Matches pattern topic) (glob_match pattern topic)
unfolding glob_match
glob_match-Answers pattern topic plain =
    loop-Answers (Matches pattern topic) (length pattern + 1) _ (length topic) pattern topic none
      (record {
        sound = λ d. d;
        ahead = λ d. skip refl d;
        rescue = λ d. d;
        short_text = omega arith;
        short_pattern = omega arith;
        fuel = omega arith;
        plain = plain;
      })

pub glob_match_iff :
    (pattern topic : Text)
    → StarFree topic
    → (glob_match pattern topic ≡ some true) ↔ Matches pattern topic
glob_match_iff pattern topic plain = (
  λ e. subst (Answers (Matches pattern topic)) e (glob_match-Answers pattern topic plain),
  ground (arith, glob_match-Answers pattern topic plain),
)

-- The loop compares bytes before it looks for a star, so the pattern `*` is taken for the plain byte
-- by a topic that begins with `*`: every such topic of two bytes or more is refused, though it
-- matches.
pub glob_match-star_topic :
    (c : ℕ) (t : Text)
    → (glob_match (star ∷ []) (star ∷ c ∷ t) ≡ some false) × Matches (star ∷ []) (star ∷ c ∷ t)
unfolding glob_match
glob_match-star_topic c t =
    let e : (suc (suc (length t)) + 1) * 2 ≡ suc (suc (length t * 2 + 4)) = omega arith in
    (rw e refl, Matches-any (star ∷ c ∷ t))
