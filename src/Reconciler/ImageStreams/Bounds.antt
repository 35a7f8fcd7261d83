-- ===== src/Reconciler/ImageStreams/Bounds.antt =====
-- The message on the failed imports is bounded.
use mathlib.Core.List.{append-nil}
use workbenches_operator.Prelude.{
  ℕ, zero, suc, ◌-◌, ◌≤◌, String, ◌<>◌, ◌≡◌, refl, ap, List, [], ◌∷◌, ◌++◌, length, ltb, arith,
  Bool-cases, inl, inr, if◌then◌else◌,
}
use workbenches_operator.Json.{pos}
use workbenches_operator.Format.{Format}
use workbenches_operator.Reconciler.ImageStreams.{take, reported, join, image_stream_warning}

-- The ones behind the first n.
drop : ℕ → List String → List String
drop zero xs = xs
drop (suc n) [] = []
drop (suc n) (x ∷ xs) = drop n xs

take-drop : (n : ℕ) (xs : List String) → take n xs ++ drop n xs ≡ xs
unfolding take drop
take-drop zero xs = refl
take-drop (suc n) [] = refl
take-drop (suc n) (x ∷ xs) = ap (λ rest. x ∷ rest) (take-drop n xs)

length-take-le : (n : ℕ) (xs : List String) → length (take n xs) ≤ n
unfolding take
length-take-le zero xs = omega arith
length-take-le (suc n) [] = omega arith
length-take-le (suc n) (x ∷ xs) = omega (arith, length-take-le n xs)

length-drop : (n : ℕ) (xs : List String) → length (drop n xs) ≡ length xs - n
unfolding drop
length-drop zero xs = omega arith
length-drop (suc n) [] = omega arith
length-drop (suc n) (x ∷ xs) = ground (arith, length-drop n xs)

-- What the message says of the failed tags: which it lists, and which not.
pub record Listing (format : Format) (failed listed : List String) (suffix : String) : Type 0 where
  pub others : List String
  pub few : length listed ≤ 10
  pub split : listed ++ others ≡ failed
  pub counted : suffix ≡ (
      if ltb 10 (length failed)
      then "; ... and " <> (format.show_int (pos (length others)) <> " more")
      else "")
  pub complete : length failed ≤ 10 → others ≡ []

reported-Listing :
    (cut : String → ℕ → String) (format : Format) (failed : List String)
    → Listing format failed (reported cut format failed).0 (reported cut format failed).1
unfolding reported
reported-Listing cut format failed = elim (Bool-cases (ltb 10 (length failed))) [
  | inl many ↦ rw many (record {
    others = drop 10 failed;
    few = length-take-le 10 failed;
    split = take-drop 10 failed;
    counted = rw (many, length-drop 10 failed);
    complete = λ h. absurd (ground (arith, many, h));
  })
  | inr few ↦ rw few (record {
    others = [];
    few = ground (arith, few);
    split = append-nil failed;
    counted = rw few;
    complete = λ _. refl;
  })
]

-- The text of the warning, with what it lists.
pub record Warning (format : Format) (failed : List String) (text : String) : Type 0 where
  pub listed : List String
  pub suffix : String
  pub listing : Listing format failed listed suffix
  pub written :
      text
      ≡ "Warning: "
        <> (format.show_int (pos (length failed))
            <> (" ImageStream tag(s) failed to import: " <> (join "; " listed <> suffix)))

-- However many tags failed, the warning's text has their number, lists at most ten of them, the
-- first ones in their order, and counts the others where there are any; if at most ten failed it
-- lists all of them.
pub image_stream_warning-Warning :
    (cut : String → ℕ → String) (format : Format) (failed : List String)
    → Warning format failed (image_stream_warning cut format failed)
unfolding image_stream_warning
image_stream_warning-Warning cut format failed = record {
  listed = (reported cut format failed).0;
  suffix = (reported cut format failed).1;
  listing = reported-Listing cut format failed;
  written = refl;
}
