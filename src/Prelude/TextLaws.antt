-- ===== src/Prelude/TextLaws.antt =====
-- Trimming and splitting texts whose characters are known to be no spaces or separators.
use Prim.Native.Char.{Char, code}
use Prim.Native.String.append
use text.Mathlib.TextLemmas.{append-eq-nil_iff}
use workbenches_operator.Prelude.{
  ℕ, String, ◌<>◌, ◌==◌, ◌≡◌, ◌≢◌, refl, sym, ap, ◌∙◌, ◌&&◌, Bool, true, false, not, List, [], ◌∷◌,
  arith, nat_eq, eq_iff, Bool-cases, inl, inr, ◌&&◌,
}
use workbenches_operator.Prelude.Text.{is_space, trim_left, trim_right, trim_space, split, join}

-- Every character passes the test.
abbrev pub Each : (ℕ → Bool) → String → Type 0
Each p String.[] = Unit
Each p (String.◌∷◌ c s) = (p (code c) ≡ true) × Each p s

abbrev pub no_space : ℕ → Bool
no_space c = not (is_space c)

trim_left_lem : (s : String) → Each no_space s → trim_left s ≡ s
unfolding trim_left
trim_left_lem String.[] h = refl
trim_left_lem (String.◌∷◌ c s) h = ground arith

trim_right_lem : (s : String) → Each no_space s → trim_right s ≡ s
unfolding trim_right
trim_right_lem String.[] h = refl
trim_right_lem (String.◌∷◌ c s) h = ground (arith, trim_right_lem s h.1)

-- A text with no space is trimmed already.
pub trim_space_lem : (s : String) → Each no_space s → trim_space s ≡ s
unfolding trim_space
trim_space_lem s h = rw (trim_left_lem s h) (trim_right_lem s h)

pub Each-append : (p : ℕ → Bool) (s t : String) → Each p s → Each p t → Each p (s <> t)
Each-append p String.[] t hs ht = rw append.nil ht
Each-append p (String.◌∷◌ c s) t hs ht = rw append.cons (hs.0, Each-append p s t hs.1 ht)

abbrev pub lacks : ℕ → ℕ → Bool
lacks sep c = not (nat_eq c sep)

pub split-lacks : (sep : ℕ) (s : String) → Each (lacks sep) s → split sep s ≡ s ∷ []
unfolding split
split-lacks sep String.[] h = refl
split-lacks sep (String.◌∷◌ c s) h = ground (arith, split-lacks sep s h.1)

pub split-append :
    (sep : ℕ) (s t : String) (c : Char)
    → code c ≡ sep
    → Each (lacks sep) s
    → split sep (s <> String.◌∷◌ c t) ≡ s ∷ split sep t
unfolding split
split-append sep String.[] t c e h = rw append.nil (ground arith)
split-append sep (String.◌∷◌ d s) t c e h =
    rw append.cons (ground (arith, split-append sep s t c e h.1))

pub append-nonempty : (s t : String) → s ≢ "" → ((s <> t) == "") ≡ false
append-nonempty s t h = elim (Bool-cases ((s <> t) == "")) [
  | inl e ↦ absurd (h (append-eq-nil_iff.0 ((eq_iff (s <> t) "").0 e)).0)
  | inr e ↦ e
]

-- A separator of one character before a text.
pub one-append : (c : Char) (t : String) → String.◌∷◌ c "" <> t ≡ String.◌∷◌ c t
one-append c t = rw (append.cons, append.nil)

abbrev pub AllLack : ℕ → List String → Type 0
AllLack sep [] = Unit
AllLack sep (w ∷ ws) = Each (lacks sep) w × AllLack sep ws

-- Splitting what was joined gives the words back.
pub split-join :
    (w : String) (ws : List String)
    → AllLack b',' (w ∷ ws)
    → split b',' (join "," (w ∷ ws)) ≡ w ∷ ws
unfolding join
split-join w [] h = split-lacks b',' w h.0
split-join w (v ∷ ws) h =
    rw (one-append "," (join "," (v ∷ ws)), split-append b',' w _ "," refl h.0)
      (ap (λ rest. w ∷ rest) (split-join v ws h.1))

-- A text that is empty or whose first character is no space.
abbrev starts : String → Bool
starts String.[] = true
starts (String.◌∷◌ c s) = not (is_space (code c))

starts-trim_left : (s : String) → starts (trim_left s) ≡ true
unfolding trim_left
starts-trim_left String.[] = refl
starts-trim_left (String.◌∷◌ c s) = ground (arith, starts-trim_left s)

trim_left-starts : (s : String) → starts s ≡ true → trim_left s ≡ s
unfolding trim_left
trim_left-starts String.[] h = refl
trim_left-starts (String.◌∷◌ c s) h = ground arith

starts-trim_right : (s : String) → starts s ≡ true → starts (trim_right s) ≡ true
unfolding trim_right
starts-trim_right String.[] h = refl
starts-trim_right (String.◌∷◌ c s) h = ground arith

trim_right_blank :
    (c : Char) (s : String)
    → (is_space (code c) && trim_right s == "") ≡ true
    → trim_right (String.◌∷◌ c s) ≡ ""
unfolding trim_right
trim_right_blank c s h = ground arith

trim_right_solid :
    (c : Char) (s : String)
    → (is_space (code c) && trim_right s == "") ≡ false
    → trim_right (String.◌∷◌ c s) ≡ String.◌∷◌ c (trim_right s)
unfolding trim_right
trim_right_solid c s h = ground arith

trim_right_idem : (s : String) → trim_right (trim_right s) ≡ trim_right s
unfolding trim_right
trim_right_idem String.[] = refl
trim_right_idem (String.◌∷◌ c s) = elim (Bool-cases (is_space (code c) && trim_right s == "")) [
  | inl blank ↦ ap trim_right (trim_right_blank c s blank) ∙ sym (trim_right_blank c s blank)
  | inr solid ↦
      ap trim_right (trim_right_solid c s solid)
      ∙ trim_right_solid c (trim_right s)
          (ap (λ t. is_space (code c) && t == "") (trim_right_idem s) ∙ solid)
      ∙ ap (λ t. String.◌∷◌ c t) (trim_right_idem s)
      ∙ sym (trim_right_solid c s solid)
]

-- Trimming a second time changes nothing.
pub trim_space_idem : (s : String) → trim_space (trim_space s) ≡ trim_space s
unfolding trim_space
trim_space_idem s =
    ap trim_right (
      trim_left-starts (trim_right (trim_left s))
        (starts-trim_right (trim_left s) (starts-trim_left s)))
    ∙ trim_right_idem (trim_left s)
