-- ===== src/Connection/Annotation/RoundTrip.antt =====
-- An annotation that lists references is parsed back to them.
use mathlib.Core.List.{append-nil, append_assoc}
use text.Mathlib.TextLemmas.{append_assoc as text_assoc}
use workbenches_operator.Prelude.{
  ◌+◌, ◌≤◌, String, ◌<>◌, ◌==◌, eq_iff, ◌≡◌, refl, ap, false, some, List, [], ◌∷◌, ◌++◌, arith, leb,
  ltb, length, length-append, ◌∙◌, contains, All, Distinct,
}
use workbenches_operator.Prelude.Text.{trim_space, split, join, byte_length, is_space}
use workbenches_operator.Prelude.TextLaws.{
  Each, no_space, lacks, trim_space_lem, Each-append, split-lacks, split-append, one-append,
  AllLack, split-join, append-nonempty,
}
use workbenches_operator.Errors.{ok}
use workbenches_operator.Connection.Reference.{SecretReference, secret_ref_key, keys}
use workbenches_operator.Connection.Annotation.{
  checked_reference, secret_parts, trimmed_part, parse_part, Found, add_reference, add_optional,
  parse_round, parse_parts, parse_connections_annotation, max_connection_secrets,
  max_connection_annotation_length,
}
use workbenches_operator.Connection.Annotation.Sound.{IsNamed}

-- Neither a space nor a comma or a slash.
pub record IsPlain (s : String) : Type 0 where
  pub spaceless : Each no_space s
  pub commaless : Each (lacks b',') s
  pub slashless : Each (lacks b'/') s

pub record IsPlainRef (ref : SecretReference) : Type 0 where
  pub named : IsNamed ref
  pub namespace : IsPlain ref.namespace
  pub name : IsPlain ref.name

key_spaceless : (ref : SecretReference) → IsPlainRef ref → Each no_space (secret_ref_key ref)
unfolding is_space
key_spaceless ref p =
    Each-append no_space ref.namespace ("/" <> ref.name) p.namespace.spaceless
      (Each-append no_space "/" ref.name (refl, tt) p.name.spaceless)

key_commaless : (ref : SecretReference) → IsPlainRef ref → Each (lacks b',') (secret_ref_key ref)
key_commaless ref p =
    Each-append (lacks b',') ref.namespace ("/" <> ref.name) p.namespace.commaless
      (Each-append (lacks b',') "/" ref.name (refl, tt) p.name.commaless)

split_key :
    (ref : SecretReference)
    → IsPlainRef ref
    → split b'/' (secret_ref_key ref) ≡ ref.namespace ∷ ref.name ∷ []
split_key ref p =
    rw (one-append "/" ref.name, split-append b'/' ref.namespace _ "/" refl p.namespace.slashless)
      (ap (λ rest. ref.namespace ∷ rest) (split-lacks b'/' ref.name p.name.slashless))

secret_parts-key :
    (ref : SecretReference) (part : String)
    → IsPlainRef ref
    → secret_parts part (ref.namespace ∷ ref.name ∷ []) ≡ ok (some ref)
unfolding secret_parts checked_reference
secret_parts-key ref part p =
    rw
      (trim_space_lem ref.namespace p.namespace.spaceless, trim_space_lem ref.name p.name.spaceless)
      (ground (
        arith,
        eq_iff ref.namespace "",
        eq_iff ref.name "",
        p.named.has_name,
        p.named.has_namespace,
      ))

trimmed_part-key :
    (ref : SecretReference) → IsPlainRef ref → trimmed_part (secret_ref_key ref) ≡ ok (some ref)
unfolding trimmed_part
trimmed_part-key ref p =
    rw (append-nonempty ref.namespace ("/" <> ref.name) p.named.has_namespace, split_key ref p)
      (secret_parts-key ref _ p)

parse_part-key :
    (ref : SecretReference) → IsPlainRef ref → parse_part (secret_ref_key ref) ≡ ok (some ref)
unfolding parse_part
parse_part-key ref p =
    rw (trim_space_lem (secret_ref_key ref) (key_spaceless ref p)) (trimmed_part-key ref p)

abbrev AllNew : List String → List SecretReference → Type 0
AllNew seen refs = All (λ ref. contains (secret_ref_key ref) seen ≡ false) refs

AllNew-cons :
    (k : String) (seen : List String) (refs : List SecretReference)
    → contains k (keys refs) ≡ false
    → AllNew seen refs
    → AllNew (k ∷ seen) refs
AllNew-cons k seen [] d new = tt
AllNew-cons k seen (ref ∷ refs) d new = (
  ground (arith, eq_iff k (secret_ref_key ref), eq_iff (secret_ref_key ref) k),
  AllNew-cons k seen refs (ground arith) new.1,
)

AllNew-nil : (refs : List SecretReference) → AllNew [] refs
AllNew-nil [] = tt
AllNew-nil (ref ∷ refs) = (refl, AllNew-nil refs)

-- The loop over the keys of new references finds them, in order.
parse_parts-key :
    (refs : List SecretReference) (found : Found)
    → All IsPlainRef refs
    → Distinct (keys refs)
    → AllNew found.seen refs
    → length found.refs + length refs ≤ max_connection_secrets
    → parse_parts (keys refs) found ≡ ok (found.refs ++ refs)
unfolding parse_parts parse_round add_optional add_reference
parse_parts-key [] found p d fresh fits = ap ok (rw append-nil)
parse_parts-key (ref ∷ refs) found p d fresh fits =
    let room : leb max_connection_secrets (length found.refs) ≡ false = ground arith in
    rw (parse_part-key ref p.0, fresh.0, room)
      (parse_parts-key refs _ p.1 d.1 (AllNew-cons _ found.seen refs d.0 fresh.1)
          (omega (arith, length-append found.refs (ref ∷ [])))
        ∙ ap ok (append_assoc found.refs (ref ∷ []) refs))

-- The annotation that lists the references.
abbrev pub render : List SecretReference → String
render refs = join "," (keys refs)

keys-AllLack : (refs : List SecretReference) → All IsPlainRef refs → AllLack b',' (keys refs)
keys-AllLack [] p = tt
keys-AllLack (ref ∷ refs) p = (key_commaless ref p.0, keys-AllLack refs p.1)

render-spaceless : (refs : List SecretReference) → All IsPlainRef refs → Each no_space (render refs)
unfolding join is_space
render-spaceless [] p = tt
render-spaceless (ref ∷ []) p = key_spaceless ref p.0
render-spaceless (ref ∷ next ∷ refs) p =
    Each-append no_space _ _ (key_spaceless ref p.0)
      (Each-append no_space "," _ (refl, tt) (render-spaceless (next ∷ refs) p.1))

render_nonempty :
    (ref : SecretReference) (refs : List SecretReference)
    → IsNamed ref
    → (render (ref ∷ refs) == "") ≡ false
unfolding join
render_nonempty ref [] n = append-nonempty ref.namespace _ n.has_namespace
render_nonempty ref (next ∷ refs) n =
    rw text_assoc (append-nonempty ref.namespace _ n.has_namespace)

parse-render_cons :
    (ref : SecretReference) (refs : List SecretReference)
    → All IsPlainRef (ref ∷ refs)
    → Distinct (keys (ref ∷ refs))
    → length (ref ∷ refs) ≤ max_connection_secrets
    → byte_length (render (ref ∷ refs)) ≤ max_connection_annotation_length
    → parse_connections_annotation (render (ref ∷ refs)) ≡ ok (ref ∷ refs)
unfolding parse_connections_annotation
parse-render_cons ref refs p d few short =
    let fits : ltb max_connection_annotation_length (byte_length (render (ref ∷ refs))) ≡ false =
      ground arith in
    rw
      (
        trim_space_lem (render (ref ∷ refs)) (render-spaceless (ref ∷ refs) p),
        render_nonempty ref refs p.0.named,
        split-join (secret_ref_key ref) (keys refs) (keys-AllLack (ref ∷ refs) p),
        fits,
      )
      (parse_parts-key (ref ∷ refs) (record { seen = []; refs = [] }) p d (AllNew-nil (ref ∷ refs))
        (omega arith))

-- References with plain names, distinct, at most 32 of them and not longer than 4096 bytes together,
-- are what their comma-separated list is parsed to, in order.
pub parse_connections_annotation-render :
    (refs : List SecretReference)
    → All IsPlainRef refs
    → Distinct (keys refs)
    → length refs ≤ max_connection_secrets
    → byte_length (render refs) ≤ max_connection_annotation_length
    → parse_connections_annotation (render refs) ≡ ok refs
unfolding parse_connections_annotation join trim_space
parse_connections_annotation-render [] p d few short = refl
parse_connections_annotation-render (ref ∷ refs) p d few short =
    parse-render_cons ref refs p d few short
