-- ===== src/Python/Text.antt =====
-- Texts that are compared: a text is the list of its code points, and `<` is Python's.
use Prim.Native.Char.{code}
use airbyte_python_cdk.Prelude.{
  ℕ, String, ◌≡◌, ◌↔◌, refl, Bool, true, false, List, [], ◌∷◌, ◌++◌, ltb, eqb, ◌&&◌, ◌||◌, Hashable,
  arith, if◌then◌else◌, Option, none, some, All,
}

abbrev pub Text : Type 0
Text = List ℕ

unfoldable pub text_eq : Text → Text → Bool
text_eq [] [] = true
text_eq [] (d ∷ t) = false
text_eq (c ∷ s) [] = false
text_eq (c ∷ s) (d ∷ t) = eqb c d && text_eq s t

text_eq_lem : (s t : Text) → text_eq s t ≡ true → s ≡ t
unfolding text_eq
text_eq_lem [] [] e = refl
text_eq_lem [] (d ∷ t) e = cc
text_eq_lem (c ∷ s) [] e = cc
text_eq_lem (c ∷ s) (d ∷ t) e = ground (arith, text_eq_lem s t)

text_eq_refl : (s : Text) → text_eq s s ≡ true
unfolding text_eq
text_eq_refl [] = refl
text_eq_refl (c ∷ s) = ground (arith, text_eq_refl s)

pub text_eq_iff : (s t : Text) → (text_eq s t ≡ true) ↔ (s ≡ t)
text_eq_iff s t = (text_eq_lem s t, λ e. rw e (text_eq_refl t))

-- The code points of a literal.
abbrev pub codes : String → Text
codes String.[] = []
codes (String.◌∷◌ c s) = code c ∷ codes s

instance abbrev pub code_key : Hashable Text
code_key = record { same = text_eq; same_iff = text_eq_iff }

-- `s < t`
unfoldable pub text_ltb : Text → Text → Bool
text_ltb s [] = false
text_ltb [] (d ∷ t) = true
text_ltb (c ∷ s) (d ∷ t) = ltb c d || (eqb c d && text_ltb s t)

pub text_ltb_irrefl : (s : Text) → text_ltb s s ≡ false
unfolding text_ltb
text_ltb_irrefl [] = refl
text_ltb_irrefl (c ∷ s) = ground (arith, text_ltb_irrefl s)

-- Of two texts that are not equal one is less.
pub text_ltb_connected : (s t : Text) → text_ltb s t ≡ false → text_ltb t s ≡ false → s ≡ t
unfolding text_ltb
text_ltb_connected [] [] e f = refl
text_ltb_connected [] (d ∷ t) e f = cc
text_ltb_connected (c ∷ s) [] e f = cc
text_ltb_connected (c ∷ s) (d ∷ t) e f = ground (arith, text_ltb_connected s t)

pub text_ltb_trans :
    (s t u : Text) → text_ltb s t ≡ true → text_ltb t u ≡ true → text_ltb s u ≡ true
unfolding text_ltb
text_ltb_trans s [] u e f = cc
text_ltb_trans s (d ∷ t) [] e f = cc
text_ltb_trans [] (d ∷ t) (b ∷ u) e f = refl
text_ltb_trans (c ∷ s) (d ∷ t) (b ∷ u) e f = ground (arith, text_ltb_trans s t u)

pub text_ltb_asym : (s t : Text) → text_ltb s t ≡ true → text_ltb t s ≡ false
unfolding text_ltb
text_ltb_asym s [] e = cc
text_ltb_asym [] (d ∷ t) e = refl
text_ltb_asym (c ∷ s) (d ∷ t) e = ground (arith, text_ltb_asym s t)

-- `s <= t` and `t <= u` give `s <= u`.
pub text_leb_trans :
    (s t u : Text) → text_ltb t s ≡ false → text_ltb u t ≡ false → text_ltb u s ≡ false
unfolding text_ltb
text_leb_trans [] t [] e f = refl
text_leb_trans [] [] (b ∷ u) e f = refl
text_leb_trans [] (d ∷ t) (b ∷ u) e f = refl
text_leb_trans (c ∷ s) [] u e f = cc
text_leb_trans (c ∷ s) (d ∷ t) [] e f = cc
text_leb_trans (c ∷ s) (d ∷ t) (b ∷ u) e f = ground (arith, text_leb_trans s t u)

-- `s.split(code, 1)` where the code occurs; `none` where there is nothing to split.
unfoldable pub split_once : ℕ → Text → Option (Text × Text)
split_once code [] = none
split_once code (c ∷ s) =
    let rest : Option (Text × Text) = elim (split_once code s) [
      | none ↦ none
      | some (a, b) ↦ some (c ∷ a, b)
    ] in
    if eqb c code then some ([], s) else rest

-- `a + code + b`
abbrev pub join : ℕ → Text → Text → Text
join code s t = s ++ (code ∷ t)

-- The first occurrence is behind a text without the code.
pub split_once-append :
    (code : ℕ) (s t : Text)
    → All (λ c. eqb c code ≡ false) s
    → split_once code (join code s t) ≡ some (s, t)
unfolding split_once
split_once-append code [] t h = ground arith
split_once-append code (c ∷ s) t h = rw (split_once-append code s t h.1) (rw h.0 refl)
