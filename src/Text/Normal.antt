-- ===== src/Text/Normal.antt =====
-- `" ".join(s.split())` leaves words that are split by single blanks, and is idempotent.
use Prim.Native.Char.{Char}
use umcp.Prelude.{
  String, ◌≡◌, ◌≢◌, if◌then◌else◌, refl, ap, ◌∙◌, true, false, List, [], ◌∷◌, arith, inl, inr,
  Bool-cases,
}
use umcp.Text.{
  is_space, split, starts_word, extend_word, append, join, normalize, is_blank, strip, lstrip,
  rstrip,
}

-- no blank in the text
abbrev pub Solid : String → Type 0
Solid String.[] = Unit
Solid (String.◌∷◌ c s) = (is_space c ≡ false) × Solid s

abbrev pub IsWord : String → Type 0
IsWord String.[] = ⊥
IsWord (String.◌∷◌ c s) = (is_space c ≡ false) × Solid s

abbrev pub AllWords : List String → Type 0
AllWords [] = Unit
AllWords (w ∷ ws) = IsWord w × AllWords ws

extend_word-AllWords :
    (c : Char) (ws : List String) → is_space c ≡ false → AllWords ws → AllWords (extend_word c ws)
extend_word-AllWords c [] h k = ((h, tt), tt)
extend_word-AllWords c (String.[] ∷ ws) h k = absurd k.0
extend_word-AllWords c (String.◌∷◌ d w ∷ ws) h k = ((h, k.0), k.1)

pub split-AllWords : (s : String) → AllWords (split s)
unfolding split
split-AllWords String.[] = tt
split-AllWords (String.◌∷◌ c s) = elim (Bool-cases (is_space c)) [
  | inl blank ↦ rw blank (split-AllWords s)
  | inr solid ↦ rw solid (elim (Bool-cases (starts_word s)) [
    | inl on ↦ rw on (extend_word-AllWords c (split s) solid (split-AllWords s))
    | inr off ↦ rw off ((solid, tt), split-AllWords s)
  ])
]

-- A word in front of a text that does not go on with a word is split off whole.
split-append : (w t : String) → IsWord w → starts_word t ≡ false → split (append w t) ≡ w ∷ split t
unfolding split
split-append String.[] t h e = absurd h
split-append (String.◌∷◌ c String.[]) t h e = rw (h.0, e) refl
split-append (String.◌∷◌ c (String.◌∷◌ d w)) t h e =
    rw (h.0, h.1.0) (ap (extend_word c) (rw h.1.0 at (split-append (String.◌∷◌ d w) t h.1 e)))

append-empty : (w : String) → append w String.[] ≡ w
append-empty String.[] = refl
append-empty (String.◌∷◌ c w) = ap (String.◌∷◌ c) (append-empty w)

-- a blank in front separates words and is none
blank_separates :
    (t : String) → (starts_word (append " " t) ≡ false) × (split (append " " t) ≡ split t)
unfolding split is_space
blank_separates t = (refl, refl)

pub split-join : (ws : List String) → AllWords ws → split (join ws) ≡ ws
unfolding split
split-join [] h = refl
split-join (w ∷ []) h = rw (append-empty w) at (split-append w String.[] h.0 refl)
split-join (w ∷ (v ∷ ws)) h =
    let (apart, skipped) = blank_separates (join (v ∷ ws)) in
    split-append w (append " " (join (v ∷ ws))) h.0 apart
    ∙ ap (λ x. w ∷ x) (skipped ∙ split-join (v ∷ ws) h.1)

-- Normalising a text a second time changes nothing.
pub normalize_idem : (s : String) → normalize (normalize s) ≡ normalize s
unfolding normalize
normalize_idem s = ap join (split-join (split s) (split-AllWords s))

-- a text with no words is blank
blank_of_no-words : (s : String) → split s ≡ [] → is_blank s ≡ true
unfolding split is_blank strip lstrip rstrip
blank_of_no-words String.[] h = refl
blank_of_no-words (String.◌∷◌ c s) h = elim (Bool-cases (is_space c)) [
  | inl blank ↦ rw (blank) (blank_of_no-words s (rw blank at h))
  | inr solid ↦ absurd (cons_word c s (rw solid at h))
]
  where
    cons_word :
        (c : Char) (s : String)
        → (if starts_word s then extend_word c (split s) else String.◌∷◌ c String.[] ∷ split s) ≡ []
        → ⊥
    cons_word c s e = ground (arith)

-- a text that begins with a word is not blank
not-blank_of_word : (w t : String) → IsWord w → is_blank (append w t) ≡ false
unfolding is_blank strip lstrip rstrip
not-blank_of_word String.[] t h = absurd h
not-blank_of_word (String.◌∷◌ c w) t h = ground arith

join-not-blank : (ws : List String) → AllWords ws → ws ≢ [] → is_blank (join ws) ≡ false
join-not-blank [] h ne = absurd (ne refl)
join-not-blank (w ∷ []) h ne = rw (append-empty w) at (not-blank_of_word w String.[] h.0)
join-not-blank (w ∷ (v ∷ ws)) h ne = not-blank_of_word w (append " " (join (v ∷ ws))) h.0

-- Normalising a text that is not blank leaves a text that is not blank.
pub is_blank-normalize : (s : String) → is_blank s ≡ false → is_blank (normalize s) ≡ false
unfolding normalize
is_blank-normalize s h = join-not-blank (split s) (split-AllWords s) λ e. cc (blank_of_no-words s e)
