-- ===== src/Connection/Annotation/Complete.antt =====
-- Which references the loop keeps: those of the parts, each once, and no others.
use mathlib.Core.List.{map-append}
use workbenches_operator.Prelude.{
  String, ◌==◌, eq_iff, ◌≡◌, refl, subst, false, ◌||◌, Option, none, some, List, [], ◌∷◌, ◌++◌,
  arith, leb, ltb, length, contains, contains-append, Bool-cases, inl, inr,
}
use workbenches_operator.Prelude.Text.{trim_space, split, byte_length}
use workbenches_operator.Errors.{Result, ok, err, ok-injective, ◌>>=◌, >>=-eq-ok}
use workbenches_operator.Connection.Reference.{SecretReference, secret_ref_key, keys}
use workbenches_operator.Connection.Annotation.{
  parse_part, Found, add_reference, add_optional, parse_round, parse_parts,
  parse_connections_annotation, max_connection_secrets, max_connection_annotation_length,
}

abbrev named_key : Result (Option SecretReference) → List String
named_key (ok (some ref)) = secret_ref_key ref ∷ []
named_key _ = []

-- The keys that the parts name, in order and with repetitions.
abbrev pub part_keys : List String → List String
part_keys [] = []
part_keys (part ∷ parts) = named_key (parse_part part) ++ part_keys parts

abbrev IsTracked : Found → Type 0
IsTracked found = (k : String) → contains k found.seen ≡ contains k (keys found.refs)

-- What a round adds to the keys found.
record IsAdded (added : List String) (found next : Found) : Type 0 where
  tracked : IsTracked next
  keys_next :
      (k : String)
      → contains k (keys next.refs) ≡ (contains k (keys found.refs) || contains k added)

add_reference-IsAdded :
    (ref : SecretReference) (found : Found) {next : Found}
    → IsTracked found
    → add_reference ref found ≡ ok next
    → IsAdded (secret_ref_key ref ∷ []) found next
unfolding add_reference
add_reference-IsAdded ref found t h = elim (Bool-cases (contains (secret_ref_key ref) found.seen)) [
  | inl old ↦ subst (IsAdded _ found) (ok-injective (rw old at h)) (record {
    tracked = t;
    keys_next = λ k. ground (arith, t (secret_ref_key ref), eq_iff (secret_ref_key ref) k);
  })
  | inr fresh ↦ elim (Bool-cases (leb max_connection_secrets (length found.refs))) [
    | inl full ↦ absurd (cc (rw (fresh, full) at h))
    | inr room ↦ subst (IsAdded _ found) (ok-injective (rw (fresh, room) at h)) (record {
      tracked = λ k. rw (map-append, contains-append) (ground (arith, t k));
      keys_next = λ k. rw (map-append, contains-append);
    })
  ]
]

parse_round-IsAdded :
    (part : String) (found : Found) {next : Found}
    → IsTracked found
    → parse_round part found ≡ ok next
    → IsAdded (named_key (parse_part part)) found next
unfolding parse_round
parse_round-IsAdded part found {next} t h = go (parse_part part) h
  where
    go :
        (r : Result (Option SecretReference))
        → (r >>= λ parsed. add_optional parsed found) ≡ ok next
        → IsAdded (named_key r) found next
    go (ok none) e =
        subst (IsAdded [] found) (ok-injective e)
          (record { tracked = t; keys_next = λ k. ground arith })
    go (ok (some ref)) e = add_reference-IsAdded ref found t e
    go (err x) e = absurd (cc)

parse_parts-keys :
    (parts : List String) (found : Found) {refs : List SecretReference}
    → IsTracked found
    → parse_parts parts found ≡ ok refs
    → (k : String)
    → contains k (keys refs) ≡ (contains k (keys found.refs) || contains k (part_keys parts))
unfolding parse_parts
parse_parts-keys [] found t h k = rw (← ok-injective h) (ground arith)
parse_parts-keys (part ∷ parts) found t h k =
    let (next, e, rest) = >>=-eq-ok (parse_round part found) _ h in
    let added = parse_round-IsAdded part found t e in
    rw (parse_parts-keys parts next added.tracked rest k, added.keys_next k, contains-append)
      (ground arith)

-- A reference is among those of an annotation that is not blank and parses, by its key, exactly when
-- some comma-separated part of the annotation names it.
pub contains-parse_connections_annotation :
    (value : String) (refs : List SecretReference) (k : String)
    → (trim_space value == "") ≡ false
    → parse_connections_annotation value ≡ ok refs
    → contains k (keys refs) ≡ contains k (part_keys (split b',' value))
unfolding parse_connections_annotation
contains-parse_connections_annotation value refs k nonblank h =
    elim (Bool-cases (ltb max_connection_annotation_length (byte_length value))) [
      | inl long ↦ absurd (cc (rw (nonblank, long) at h))
      | inr fits ↦ parse_parts-keys (split b',' value) _ (λ j. refl) (rw (nonblank, fits) at h) k
    ]
