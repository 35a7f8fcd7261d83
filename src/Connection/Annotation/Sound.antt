-- ===== src/Connection/Annotation/Sound.antt =====
-- What an accepted annotation guarantees of the references.
use mathlib.Core.List.{map-append}
use workbenches_operator.Prelude.{
  ◌≤◌, String, ◌==◌, eq_iff, ◌≡◌, ◌≢◌, refl, subst, false, Option, none, some, List, [], ◌∷◌, ◌++◌,
  arith, leb, ltb, length, length-append, contains, contains-append, All, All-append, Distinct,
  Distinct-snoc, Bool-cases, inl, inr,
}
use workbenches_operator.Prelude.Text.{trim_space, split, byte_length}
use workbenches_operator.Errors.{ok, ok-injective, >>=-eq-ok}
use workbenches_operator.Connection.Reference.{SecretReference, secret_ref_key, keys}
use workbenches_operator.Connection.Annotation.{
  checked_reference, secret_parts, trimmed_part, parse_part, Found, add_reference, add_optional,
  parse_round, parse_parts, parse_connections_annotation, max_connection_secrets,
  max_connection_annotation_length,
}

pub record IsNamed (ref : SecretReference) : Type 0 where
  pub has_name : ref.name ≢ ""
  pub has_namespace : ref.namespace ≢ ""

checked_reference-IsNamed :
    (part namespace name : String) {ref : SecretReference}
    → checked_reference part namespace name ≡ ok (some ref)
    → IsNamed ref
unfolding checked_reference
checked_reference-IsNamed part namespace name h =
    ground (arith, eq_iff namespace "", eq_iff name "")

secret_parts-IsNamed :
    (part : String) (ws : List String) {ref : SecretReference}
    → secret_parts part ws ≡ ok (some ref)
    → IsNamed ref
unfolding secret_parts
secret_parts-IsNamed part (a ∷ b ∷ []) h =
    checked_reference-IsNamed part (trim_space a) (trim_space b) h
secret_parts-IsNamed part _ h = absurd (cc)

trimmed_part-IsNamed :
    (part : String) {ref : SecretReference} → trimmed_part part ≡ ok (some ref) → IsNamed ref
unfolding trimmed_part
trimmed_part-IsNamed part h = elim (Bool-cases (part == "")) [
  | inl blank ↦ absurd (cc (rw blank at h))
  | inr more ↦ secret_parts-IsNamed part (split b'/' part) (rw more at h)
]

parse_part-IsNamed :
    (part : String) {ref : SecretReference} → parse_part part ≡ ok (some ref) → IsNamed ref
unfolding parse_part
parse_part-IsNamed part h = trimmed_part-IsNamed (trim_space part) h

-- What the loop keeps: `seen` holds the keys of the references found so far.
pub record IsConsistent (found : Found) : Type 0 where
  pub named : All IsNamed found.refs
  pub distinct : Distinct (keys found.refs)
  pub bounded : length found.refs ≤ max_connection_secrets
  pub tracked : (k : String) → contains k found.seen ≡ contains k (keys found.refs)

snoc-IsConsistent :
    (ref : SecretReference) (found : Found)
    → IsConsistent found
    → IsNamed ref
    → contains (secret_ref_key ref) found.seen ≡ false
    → leb max_connection_secrets (length found.refs) ≡ false
    → IsConsistent
        (record { seen = secret_ref_key ref ∷ found.seen; refs = found.refs ++ (ref ∷ []) })
snoc-IsConsistent ref found inv n fresh room = record {
  named = All-append IsNamed found.refs (ref ∷ []) inv.named (n, tt);
  distinct =
      rw map-append (Distinct-snoc _ (keys found.refs) inv.distinct (rw (← inv.tracked) fresh));
  bounded = rw length-append (ground arith);
  tracked = λ k. rw (map-append, contains-append) (ground (arith, inv.tracked k));
}

add_reference-IsConsistent :
    (ref : SecretReference) (found : Found) {next : Found}
    → IsConsistent found
    → IsNamed ref
    → add_reference ref found ≡ ok next
    → IsConsistent next
unfolding add_reference
add_reference-IsConsistent ref found inv n h =
    elim (Bool-cases (contains (secret_ref_key ref) found.seen)) [
      | inl old ↦ subst IsConsistent (ok-injective (rw old at h)) inv
      | inr fresh ↦ elim (Bool-cases (leb max_connection_secrets (length found.refs))) [
        | inl full ↦ absurd (cc (rw (fresh, full) at h))
        | inr room ↦
            subst IsConsistent (ok-injective (rw (fresh, room) at h))
              (snoc-IsConsistent ref found inv n fresh room)
      ]
    ]

add_optional-IsConsistent :
    (parsed : Option SecretReference) (found : Found) {next : Found}
    → IsConsistent found
    → ((ref : SecretReference) → parsed ≡ some ref → IsNamed ref)
    → add_optional parsed found ≡ ok next
    → IsConsistent next
unfolding add_optional
add_optional-IsConsistent none found inv n h = subst IsConsistent (ok-injective h) inv
add_optional-IsConsistent (some ref) found inv n h =
    add_reference-IsConsistent ref found inv (n ref refl) h

parse_round-IsConsistent :
    (part : String) (found : Found) {next : Found}
    → IsConsistent found
    → parse_round part found ≡ ok next
    → IsConsistent next
unfolding parse_round
parse_round-IsConsistent part found inv h =
    let (parsed, e, rest) = >>=-eq-ok (parse_part part) _ h in
    add_optional-IsConsistent parsed found inv (λ ref p. parse_part-IsNamed part (rw p at e)) rest

parse_parts-IsConsistent :
    (parts : List String) (found : Found) {refs : List SecretReference}
    → IsConsistent found
    → parse_parts parts found ≡ ok refs
    → (last : Found) × IsConsistent last × (last.refs ≡ refs)
unfolding parse_parts
parse_parts-IsConsistent [] found inv h = (found, inv, ok-injective h)
parse_parts-IsConsistent (part ∷ parts) found inv h =
    let (next, e, rest) = >>=-eq-ok (parse_round part found) _ h in
    parse_parts-IsConsistent parts next (parse_round-IsConsistent part found inv e) rest

-- The references of an accepted annotation.
pub record IsAccepted (refs : List SecretReference) : Type 0 where
  pub named : All IsNamed refs
  pub distinct : Distinct (keys refs)
  pub bounded : length refs ≤ max_connection_secrets

parse_parts-IsAccepted :
    (parts : List String) (refs : List SecretReference)
    → parse_parts parts (record { seen = []; refs = [] }) ≡ ok refs
    → IsAccepted refs
parse_parts-IsAccepted parts refs h =
    let start : IsConsistent (record { seen = []; refs = [] }) = record {
      named = tt;
      distinct = tt;
      bounded = omega arith;
      tracked = λ k. refl;
    } in
    let (last, inv, e) = parse_parts-IsConsistent parts _ start h in
    subst IsAccepted e
      (record { named = inv.named; distinct = inv.distinct; bounded = inv.bounded })

-- Every reference of an annotation that parses has a name and a namespace, no two have one key, and
-- there are at most 32.
pub parse_connections_annotation-IsAccepted :
    (value : String) (refs : List SecretReference)
    → parse_connections_annotation value ≡ ok refs
    → IsAccepted refs
unfolding parse_connections_annotation
parse_connections_annotation-IsAccepted value refs h = elim (Bool-cases (trim_space value == "")) [
  | inl blank ↦
      subst IsAccepted (ok-injective (rw blank at h))
        (record { named = tt; distinct = tt; bounded = omega arith })
  | inr more ↦ elim (Bool-cases (ltb max_connection_annotation_length (byte_length value))) [
    | inl long ↦ absurd (cc (rw (more, long) at h))
    | inr fits ↦ parse_parts-IsAccepted (split b',' value) refs (rw (more, fits) at h)
  ]
]
