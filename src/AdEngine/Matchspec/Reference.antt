-- ===== src/AdEngine/Matchspec/Reference.antt =====
-- crates/pbsgui-ad-engine/src/matchspec.rs: wildcards by recursion on the pattern, the reference for `glob_match`.
use pbsgui.Base.{
  Bool, Bool-cases, Text, [], arith, false, if◌then◌else◌, inl, inr, refl, sym, true, ℕ, ◌&&◌, ◌==◌,
  ◌||◌, ◌∙◌, ◌∷◌, ◌≡◌, ◌⊎◌,
}
use mathlib.Core.Bool.{false≢true}
use pbsgui.AdEngine.Matchspec.{star, any_char, only_stars}

-- Some end of the text passes.
abbrev pub any_tail : (Text → Bool) → Text → Bool
any_tail f [] = f []
any_tail f (c ∷ t) = f (c ∷ t) || any_tail f t

abbrev no_text : Text → Bool
no_text [] = true
no_text (c ∷ t) = false

abbrev pub accepts : ℕ → ℕ → Bool
accepts x c = x == any_char || x == c

-- One character that is no star in front of a pattern.
abbrev pub char_ref : ℕ → (Text → Bool) → Text → Bool
char_ref x f [] = false
char_ref x f (c ∷ t) = accepts x c && f t

-- A star takes any run of the text, a question mark any one character, another character itself.
unfoldable pub glob_ref : Text → Text → Bool
glob_ref [] t = no_text t
glob_ref (x ∷ p) t =
    let starred = any_tail (glob_ref p) t in
    let plain = char_ref x (glob_ref p) t in if x == star then starred else plain

-- The pattern behind a star.
abbrev pub star_ref : Text → Text → Bool
star_ref p t = any_tail (glob_ref p) t

pub any_tail_here : (f : Text → Bool) (t : Text) → f t ≡ true → any_tail f t ≡ true
any_tail_here f [] h = h
any_tail_here f (c ∷ t) h = rw h

pub any_tail_more :
    (f : Text → Bool) (c : ℕ) (t : Text) → any_tail f t ≡ true → any_tail f (c ∷ t) ≡ true
any_tail_more f c t h = ground arith

any_tail-cases :
    (f : Text → Bool) (c : ℕ) (t : Text)
    → any_tail f (c ∷ t) ≡ true
    → (f (c ∷ t) ≡ true) ⊎ (any_tail f t ≡ true)
any_tail-cases f c t h = ground arith

pub ref_star : (x : ℕ) (p t : Text) → (x == star) ≡ true → glob_ref (x ∷ p) t ≡ star_ref p t
unfolding glob_ref
ref_star x p t e = rw e

pub ref_char :
    (x : ℕ) (p t : Text) → (x == star) ≡ false → glob_ref (x ∷ p) t ≡ char_ref x (glob_ref p) t
unfolding glob_ref
ref_char x p t e = rw e

pub ref_char-tail :
    (x c : ℕ) (p t : Text)
    → (x == star) ≡ false
    → glob_ref (x ∷ p) (c ∷ t) ≡ true
    → glob_ref p t ≡ true
ref_char-tail x c p t e h =
    let both : (accepts x c && glob_ref p t) ≡ true = sym (ref_char x p (c ∷ t) e) ∙ h in
    ground arith

-- A match behind a star, of a character and a pattern, has one of the pattern behind it.
pub star_ref-drop :
    (x : ℕ) (p t : Text) → (x == star) ≡ false → star_ref (x ∷ p) t ≡ true → star_ref p t ≡ true
star_ref-drop x p [] e h = absurd (false≢true (sym (ref_char x p [] e) ∙ h))
star_ref-drop x p (c ∷ t) e h = elim (any_tail-cases (glob_ref (x ∷ p)) c t h) [
  | inl here ↦
      any_tail_more (glob_ref p) c t (any_tail_here (glob_ref p) t (ref_char-tail x c p t e here))
  | inr there ↦ any_tail_more (glob_ref p) c t (star_ref-drop x p t e there)
]

pub star_ref-char :
    (x c : ℕ) (p t : Text)
    → (x == star) ≡ false
    → star_ref (x ∷ p) (c ∷ t) ≡ true
    → star_ref p t ≡ true
star_ref-char x c p t e h = elim (any_tail-cases (glob_ref (x ∷ p)) c t h) [
  | inl here ↦ any_tail_here (glob_ref p) t (ref_char-tail x c p t e here)
  | inr there ↦ star_ref-drop x p t e there
]

-- Two stars are one.
pub star_ref-star :
    (x : ℕ) (p t : Text) → (x == star) ≡ true → star_ref (x ∷ p) t ≡ true → star_ref p t ≡ true
star_ref-star x p [] e h = sym (ref_star x p [] e) ∙ h
star_ref-star x p (c ∷ t) e h = elim (any_tail-cases (glob_ref (x ∷ p)) c t h) [
  | inl here ↦ sym (ref_star x p (c ∷ t) e) ∙ here
  | inr there ↦ any_tail_more (glob_ref p) c t (star_ref-star x p t e there)
]

pub ref_none : (c : ℕ) (t : Text) → glob_ref [] (c ∷ t) ≡ false
unfolding glob_ref
ref_none c t = refl

pub ref_differs :
    (x c : ℕ) (p t : Text)
    → (x == star) ≡ false
    → accepts x c ≡ false
    → glob_ref (x ∷ p) (c ∷ t) ≡ false
ref_differs x c p t lit no_ = ref_char x p (c ∷ t) lit ∙ (rw no_)

pub accepts-plain : (x c : ℕ) → accepts x c ≡ true → (c == star) ≡ false → (x == star) ≡ false
accepts-plain x c yes_ plain = ground arith

pub ref_end : (p : Text) → glob_ref p [] ≡ only_stars p
unfolding glob_ref only_stars
ref_end [] = refl
ref_end (x ∷ p) = elim (Bool-cases (x == star)) [
  | inl starred ↦ rw starred (ref_end p)
  | inr plain ↦ rw plain
]
