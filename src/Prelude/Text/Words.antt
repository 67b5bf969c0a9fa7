-- ===== src/Prelude/Text/Words.antt =====
-- Words in a text: `trim_space` and `fields` on words that single spaces join.
use log_service.Prelude.Tests.{Bool-cases}
use log_service.Prelude.Lists.{All}
use log_service.Prelude.Text.{
  Text, is_space, trim_left, trim_step, trim_right, trim_space, starts_word, extend, fields,
}
use mathlib.Core.Bool.{true, false}
use mathlib.Core.List.{List, [], ◌∷◌, ◌++◌, append-nil}
use mathlib.Core.Logic.{◌⊎◌, inl, inr}
use mathlib.Core.Path.{◌≡◌, refl, sym, ap, ◌∙◌}
use Prim.Native.Nat.{ℕ}

-- A run of runes that are no spaces, with at least one.
abbrev pub IsWord : Text → Type 0
IsWord [] = ⊥
IsWord (c ∷ s) = (is_space c ≡ false) × All (λ d. is_space d ≡ false) s

abbrev pub IsSpaces : Text → Type 0
IsSpaces = All (λ c. is_space c ≡ true)

-- The last rune is no space.
abbrev pub EndsWord : Text → Type 0
EndsWord [] = ⊥
EndsWord (c ∷ []) = is_space c ≡ false
EndsWord (c ∷ d ∷ s) = EndsWord (d ∷ s)

-- `strings.Join(words, " ")`
abbrev pub join : List Text → Text
join [] = []
join (w ∷ []) = w
join (w ∷ v ∷ ws) = w ++ (b' ' ∷ join (v ∷ ws))

starts_word-cons : (c : ℕ) (s : Text) → is_space c ≡ false → starts_word (c ∷ s) ≡ true
starts_word-cons c s e = rw e

fields-cons :
    (c : ℕ) (s : Text) → is_space c ≡ false → fields (c ∷ s) ≡ extend c (starts_word s) (fields s)
unfolding fields
fields-cons c s e = rw e

fields-cons_space : (c : ℕ) (s : Text) → is_space c ≡ true → fields (c ∷ s) ≡ fields s
unfolding fields
fields-cons_space c s e = rw e

fields-word :
    (w rest : Text) → IsWord w → starts_word rest ≡ false → fields (w ++ rest) ≡ w ∷ fields rest
fields-word [] rest h e = absurd h
fields-word (c ∷ []) rest h e = rw (fields-cons c rest h.0, e)
fields-word (c ∷ d ∷ w) rest h e = cc (
  fields-cons c ((d ∷ w) ++ rest) h.0,
  fields-word (d ∷ w) rest h.1 e,
  starts_word-cons d (w ++ rest) h.1.0,
)

-- The words of a line are found again.
pub fields-join : (ws : List Text) → All IsWord ws → fields (join ws) ≡ ws
unfolding fields is_space
fields-join [] h = refl
fields-join (w ∷ []) h = ap fields (sym (append-nil w)) ∙ fields-word w [] h.0 refl
fields-join (w ∷ v ∷ ws) h =
    fields-word w (b' ' ∷ join (v ∷ ws)) h.0 refl ∙ ap (◌∷◌ w) (fields-join (v ∷ ws) h.1)

EndsWord-word : (w : Text) → IsWord w → EndsWord w
EndsWord-word [] h = h
EndsWord-word (c ∷ []) h = h.0
EndsWord-word (c ∷ d ∷ w) h = EndsWord-word (d ∷ w) h.1

EndsWord-append : (s t : Text) → EndsWord t → EndsWord (s ++ t)
EndsWord-append [] t h = h
EndsWord-append (c ∷ []) [] h = absurd h
EndsWord-append (c ∷ []) (d ∷ t) h = h
EndsWord-append (c ∷ d ∷ s) t h = EndsWord-append (d ∷ s) t h

pub EndsWord-join : (w : Text) (ws : List Text) → All IsWord (w ∷ ws) → EndsWord (join (w ∷ ws))
EndsWord-join w [] h = EndsWord-word w h.0
EndsWord-join w (v ∷ ws) h =
    EndsWord-append w (b' ' ∷ join (v ∷ ws))
      (EndsWord-append (b' ' ∷ []) (join (v ∷ ws)) (EndsWord-join v ws h.1))

trim_right-spaces : (t : Text) → IsSpaces t → trim_right t ≡ []
unfolding trim_right
trim_right-spaces [] h = refl
trim_right-spaces (c ∷ t) h = rw (trim_right-spaces t h.1, h.0)

trim_right-append : (s t : Text) → EndsWord s → IsSpaces t → trim_right (s ++ t) ≡ s
unfolding trim_right
trim_right-append [] t h p = absurd h
trim_right-append (c ∷ []) t h p = rw (trim_right-spaces t p, h)
trim_right-append (c ∷ d ∷ s) t h p = rw (trim_right-append (d ∷ s) t h p)

trim_left-append : (t s : Text) → IsSpaces t → trim_left (t ++ s) ≡ trim_left s
unfolding trim_left
trim_left-append [] s p = refl
trim_left-append (c ∷ t) s p = rw p.0 (trim_left-append t s p.1)

-- The first rune is no space.
abbrev pub StartsWord : Text → Type 0
StartsWord [] = ⊥
StartsWord (c ∷ s) = is_space c ≡ false

trim_left-StartsWord : (s t : Text) → StartsWord s → trim_left (s ++ t) ≡ s ++ t
unfolding trim_left
trim_left-StartsWord [] t h = absurd h
trim_left-StartsWord (c ∷ s) t h = rw h

-- Spaces around a text that begins and ends with none are trimmed off.
pub trim_space-pad :
    (p s q : Text)
    → IsSpaces p
    → StartsWord s
    → EndsWord s
    → IsSpaces q
    → trim_space (p ++ (s ++ q)) ≡ s
unfolding trim_space
trim_space-pad p s q hp hs he hq =
    ap trim_right (trim_left-append p (s ++ q) hp ∙ trim_left-StartsWord s q hs)
    ∙ trim_right-append s q he hq

StartsWord-append : (s t : Text) → StartsWord s → StartsWord (s ++ t)
StartsWord-append [] t h = absurd h
StartsWord-append (c ∷ s) t h = h

StartsWord-word : (w : Text) → IsWord w → StartsWord w
StartsWord-word [] h = h
StartsWord-word (c ∷ w) h = h.0

pub StartsWord-join : (w : Text) (ws : List Text) → All IsWord (w ∷ ws) → StartsWord (join (w ∷ ws))
StartsWord-join w [] h = StartsWord-word w h.0
StartsWord-join w (v ∷ ws) h = StartsWord-append w (b' ' ∷ join (v ∷ ws)) (StartsWord-word w h.0)

-- What `trim_left` and `trim_right` leave is empty, or begins or ends with no space.
trim_left_cases : (s : Text) → (trim_left s ≡ []) ⊎ StartsWord (trim_left s)
unfolding trim_left
trim_left_cases [] = inl refl
trim_left_cases (c ∷ s) = elim (Bool-cases (is_space c)) [
  | inl e ↦ rw e (trim_left_cases s)
  | inr e ↦ rw e (inr e)
]

trim_step_cases :
    (c : ℕ) (s : Text) → (s ≡ []) ⊎ EndsWord s → (trim_step c s ≡ []) ⊎ EndsWord (trim_step c s)
trim_step_cases c [] h = elim (Bool-cases (is_space c)) [
  | inl e ↦ rw e (inl refl)
  | inr e ↦ rw e (inr e)
]
trim_step_cases c (d ∷ s) (inl e) = cc
trim_step_cases c (d ∷ s) (inr e) = inr e

trim_right_cases : (s : Text) → (trim_right s ≡ []) ⊎ EndsWord (trim_right s)
unfolding trim_right
trim_right_cases [] = inl refl
trim_right_cases (c ∷ s) = trim_step_cases c (trim_right s) (trim_right_cases s)

trim_step-StartsWord : (c : ℕ) (s : Text) → is_space c ≡ false → StartsWord (trim_step c s)
trim_step-StartsWord c [] e = rw e e
trim_step-StartsWord c (d ∷ s) e = e

trim_right-StartsWord : (s : Text) → StartsWord s → StartsWord (trim_right s)
unfolding trim_right
trim_right-StartsWord [] h = absurd h
trim_right-StartsWord (c ∷ s) h = trim_step-StartsWord c (trim_right s) h

trim_space_fixed : (s : Text) → StartsWord s → EndsWord s → trim_space s ≡ s
trim_space_fixed s hs he = ap trim_space (sym (append-nil s)) ∙ trim_space-pad [] s [] tt hs he tt

trim_space-nil : trim_space [] ≡ []
unfolding trim_space
trim_space-nil = refl

trim_space_cases :
    (s : Text) → (trim_space s ≡ []) ⊎ (StartsWord (trim_space s) × EndsWord (trim_space s))
unfolding trim_space
trim_space_cases s = elim (trim_left_cases s) [
  | inl e ↦ inl (ap trim_right e)
  | inr h ↦ elim (trim_right_cases (trim_left s)) [
    | inl e ↦ inl e
    | inr he ↦ inr (trim_right-StartsWord (trim_left s) h, he)
  ]
]

-- Trimming twice is trimming once.
pub trim_space_idem : (s : Text) → trim_space (trim_space s) ≡ trim_space s
trim_space_idem s = elim (trim_space_cases s) [
  | inl e ↦ rw e trim_space-nil
  | inr (hs, he) ↦ trim_space_fixed (trim_space s) hs he
]
