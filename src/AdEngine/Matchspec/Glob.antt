-- ===== src/AdEngine/Matchspec/Glob.antt =====
-- crates/pbsgui-ad-engine/src/matchspec.rs: what `glob_match` decides.
use pbsgui.Base.{
  All, Bool, Bool-cases, Option, Text, [], ap, arith, drop, false, inl, inr, length, none, refl,
  some, suc, sym, true, zero, ℕ, ◌&&◌, ◌*◌, ◌+◌, ◌<◌, ◌==◌, ◌||◌, ◌∙◌, ◌∷◌, ◌≡◌, ◌≤◌,
}
use mathlib.Core.Bool.{false≢true}
use pbsgui.AdEngine.Matchspec.{star, Back, glob_loop, only_stars, glob_match, glob_rounds}
use pbsgui.AdEngine.Matchspec.Reference.{
  accepts, glob_ref, star_ref, any_tail_here, ref_star, ref_char, ref_char-tail, star_ref-char,
  star_ref-star, ref_end, ref_none, ref_differs, accepts-plain,
}

-- No star stands in the text.
abbrev pub IsPlain : Text → Type 0
IsPlain t = All (λ (c : ℕ). (c == star) ≡ false) t

-- The step of the loop for each of its branches.
retry_of : ℕ → Back → Option Bool
retry_of fuel none = some false
retry_of fuel (some (last, swallowed)) =
    glob_loop fuel last (drop 1 swallowed) (some (last, drop 1 swallowed))

loop_empty :
    (fuel c : ℕ) (t : Text) (back : Back)
    → glob_loop (suc fuel) [] (c ∷ t) back ≡ retry_of fuel back
unfolding glob_loop retry_of
loop_empty fuel c t none = refl
loop_empty fuel c t (some (last, swallowed)) = refl

loop_char :
    (fuel x c : ℕ) (p t : Text) (back : Back)
    → accepts x c ≡ true
    → glob_loop (suc fuel) (x ∷ p) (c ∷ t) back ≡ glob_loop fuel p t back
unfolding glob_loop
loop_char fuel x c p t back e = rw e

loop_star :
    (fuel x c : ℕ) (p t : Text) (back : Back)
    → accepts x c ≡ false
    → (x == star) ≡ true
    → glob_loop (suc fuel) (x ∷ p) (c ∷ t) back ≡ glob_loop fuel p (c ∷ t) (some (p, c ∷ t))
unfolding glob_loop
loop_star fuel x c p t back e s = rw (e, s)

loop_retry :
    (fuel x c : ℕ) (p t : Text) (back : Back)
    → accepts x c ≡ false
    → (x == star) ≡ false
    → glob_loop (suc fuel) (x ∷ p) (c ∷ t) back ≡ retry_of fuel back
unfolding glob_loop retry_of
loop_retry fuel x c p t none e s = rw (e, s)
loop_retry fuel x c p t (some (last, swallowed)) e s = rw (e, s)

same : (a b : Bool) → (a ≡ true → b ≡ true) → (b ≡ true → a ≡ true) → a ≡ b
same true b f g = sym (f refl)
same false b f g = elim (Bool-cases b) [ inl t ↦ g t ∙ sym t | inr e ↦ sym e ]

-- `answer` is what the whole pattern gives, every pattern of the loop is shorter than `k`.
module _ (answer : Bool) (k : ℕ) where
  -- What the remembered star stands for. `m` bounds the text that can still be swallowed.
  abbrev IsSaved : ℕ → Text → Text → Back → Type 0
  IsSaved m p t none = answer ≡ true → glob_ref p t ≡ true
  IsSaved m p t (some (last, swallowed)) =
      (answer ≡ star_ref last swallowed)
      × (glob_ref last swallowed ≡ true → glob_ref p t ≡ true)
      × (length t ≤ length swallowed)
      × (length swallowed ≤ m)
      × (length last < k)
      × IsPlain swallowed

  record IsRunning (fuel m : ℕ) (p t : Text) (back : Back) : Type 0 where
    now : glob_ref p t ≡ true → answer ≡ true
    later : answer ≡ true → star_ref p t ≡ true
    saved : IsSaved m p t back
    text_bound : length t ≤ m
    pattern_bound : length p < k
    rounds : m * k + length p < fuel
    plain : IsPlain t

  -- At a star, and when it swallows one more character, the question starts anew behind it.
  IsRunning-star :
      (fuel m : ℕ) (p t : Text)
      → answer ≡ star_ref p t
      → length t ≤ m
      → length p < k
      → m * k + length p < fuel
      → IsPlain t
      → IsRunning fuel m p t (some (p, t))
  IsRunning-star fuel m p t e text pattern_ rounds plain = record {
    now = λ h. e ∙ any_tail_here (glob_ref p) t h;
    later = λ h. sym e ∙ h;
    saved = (e, λ h. h, omega arith, text, pattern_, plain);
    text_bound = text;
    pattern_bound = pattern_;
    rounds = rounds;
    plain = plain;
  }

  IsSaved-char :
      (m x c : ℕ) (p t : Text) (back : Back)
      → (x == star) ≡ false
      → IsSaved m (x ∷ p) (c ∷ t) back
      → IsSaved m p t back
  IsSaved-char m x c p t none lit s = λ h. ref_char-tail x c p t lit (s h)
  IsSaved-char m x c p t (some (last, swallowed)) lit (e, down, shorter, bound, small, plain) =
      (e, λ h. ref_char-tail x c p t lit (down h), omega arith, bound, small, plain)

  IsRunning-char :
      (fuel m x c : ℕ) (p t : Text) (back : Back)
      → IsRunning (suc fuel) m (x ∷ p) (c ∷ t) back
      → (x == star) ≡ false
      → accepts x c ≡ true
      → IsRunning fuel m p t back
  IsRunning-char fuel m x c p t back i lit yes_ = record {
    now = λ h. i.now (ref_char x p (c ∷ t) lit ∙ accepted h);
    later = λ h. star_ref-char x c p t lit (i.later h);
    saved = IsSaved-char m x c p t back lit i.saved;
    text_bound = (let b = i.text_bound in omega arith);
    pattern_bound = (let b = i.pattern_bound in omega arith);
    rounds = (let b = i.rounds in omega arith);
    plain = i.plain.1;
  }
    where
      accepted : glob_ref p t ≡ true → (accepts x c && glob_ref p t) ≡ true
      accepted h = rw (yes_, h)

  retry-answer :
      (fuel m c : ℕ) (p t : Text) (back : Back)
      → ((m2 : ℕ) (p2 t2 : Text) (b2 : Back)
          → IsRunning fuel m2 p2 t2 b2
          → glob_loop fuel p2 t2 b2 ≡ some answer)
      → IsRunning (suc fuel) m p (c ∷ t) back
      → glob_ref p (c ∷ t) ≡ false
      → retry_of fuel back ≡ some answer
  unfolding retry_of
  retry-answer fuel m c p t none ih i fails = elim (Bool-cases answer) [
    | inl yes_ ↦ absurd (false≢true (sym fails ∙ i.saved yes_))
    | inr no_ ↦ ap some (sym no_)
  ]
  retry-answer fuel m c p t (some (last, [])) ih i fails =
      (let (e, down, shorter, bound, small, plain) = i.saved in absurd (omega arith))
  retry-answer fuel zero c p t (some (last, s ∷ swallowed)) ih i fails =
      (let (e, down, shorter, bound, small, plain) = i.saved in absurd (omega arith))
  retry-answer fuel (suc m) c p t (some (last, s ∷ swallowed)) ih i fails =
      let (e, down, shorter, bound, small, plain) = i.saved in
      let rounds = i.rounds in
      let not_here : glob_ref last (s ∷ swallowed) ≡ false =
        not_true (λ h. false≢true (sym fails ∙ down h)) in
      let on : answer ≡ star_ref last swallowed = e ∙ or_false _ _ not_here in
      ih m last swallowed (some (last, swallowed))
        (IsRunning-star fuel m last swallowed on (omega arith) small (omega arith) plain.1)
    where
      not_true : {b : Bool} → ¬ (b ≡ true) → b ≡ false
      not_true {b} h = elim (Bool-cases b) [ inl t ↦ absurd (h t) | inr f ↦ f ]

      or_false : (a b : Bool) → a ≡ false → (a || b) ≡ b
      or_false a b h = rw h

  glob_loop-answer :
      (fuel m : ℕ) (p t : Text) (back : Back)
      → IsRunning fuel m p t back
      → glob_loop fuel p t back ≡ some answer
  unfolding glob_loop
  glob_loop-answer zero m p t back i = absurd (let b = i.rounds in omega arith)
  glob_loop-answer (suc fuel) m p [] back i =
      ap some
        (same (only_stars p) answer (λ h. i.now (ref_end p ∙ h)) (λ h. sym (ref_end p) ∙ i.later h))
  glob_loop-answer (suc fuel) m [] (c ∷ t) back i =
      loop_empty fuel c t back
      ∙ retry-answer fuel m c [] t back (glob_loop-answer fuel) i (ref_none c t)
  glob_loop-answer (suc fuel) m (x ∷ p) (c ∷ t) back i = elim (Bool-cases (accepts x c)) [
    | inl yes_ ↦
        loop_char fuel x c p t back yes_
        ∙ glob_loop-answer fuel m p t back
            (IsRunning-char fuel m x c p t back i (accepts-plain x c yes_ i.plain.0) yes_)
    | inr no_ ↦ elim (Bool-cases (x == star)) [
      | inl starred ↦
          let asked : answer ≡ star_ref p (c ∷ t) =
            same answer (star_ref p (c ∷ t)) (λ h. star_ref-star x p (c ∷ t) starred (i.later h))
              (λ h. i.now (ref_star x p (c ∷ t) starred ∙ h)) in
          loop_star fuel x c p t back no_ starred
          ∙ glob_loop-answer fuel m p (c ∷ t) (some (p, c ∷ t)) (
              IsRunning-star fuel m p (c ∷ t) asked i.text_bound
                (let b = i.pattern_bound in omega arith) (let b = i.rounds in omega arith) i.plain)
      | inr lit ↦
          loop_retry fuel x c p t back no_ lit
          ∙ retry-answer fuel m c (x ∷ p) t back (glob_loop-answer fuel) i
              (ref_differs x c p t lit no_)
    ]
  ]

-- On a text without a star the rounds of `glob_match` are enough, and it answers as the reference does.
pub glob_match-glob_ref :
    (pat text : Text) → IsPlain text → glob_match pat text ≡ some (glob_ref pat text)
unfolding glob_match
glob_match-glob_ref pat text plain =
    glob_loop-answer (glob_ref pat text) (length pat + 1) (glob_rounds pat text) (length text) pat
      text none
      (record {
        now = λ h. h;
        later = λ h. any_tail_here (glob_ref pat) text h;
        saved = λ h. h;
        text_bound = omega arith;
        pattern_bound = omega arith;
        rounds = omega arith;
        plain = plain;
      })
