-- ===== src/HardwareProfile/NodeSelector/Laws.antt =====
-- What merging and removing a profile's selector leave under each key.
use workbenches_operator.Prelude.{
  String, ◌==◌, eq_iff, eq_refl, ◌≡◌, refl, ap, ◌∙◌, false, Option, none, some, [], ◌∷◌, map, arith,
  contains, Distinct, if◌then◌else◌,
}
use workbenches_operator.Dict.{StringMap, lookup, insert}
use workbenches_operator.Dict.Laws.{lookup-insert, lookup-remove}
use workbenches_operator.HardwareProfile.NodeSelector.{merge_entries, remove_entry, remove_entries}

abbrev entry_key : String × String → String
entry_key e = e.0

-- A map has one entry for each key.
abbrev pub IsMap : StringMap → Type 0
IsMap m = Distinct (map entry_key m)

lookup_absent :
    (k : String) (m : StringMap) → contains k (map entry_key m) ≡ false → lookup k m ≡ none
unfolding lookup
lookup_absent k [] h = refl
lookup_absent k ((j, v) ∷ m) h = ground (arith, lookup_absent k m)

abbrev or_else : Option String → Option String → Option String
or_else none o = o
or_else (some v) o = some v

-- For a profile's selector with one entry for each key: under every key the merged selector has the
-- profile's value, or else the one that was there, whatever the order of the entries.
pub lookup-merge_entries :
    (k : String) (hwp existing : StringMap)
    → IsMap hwp
    → lookup k (merge_entries hwp existing) ≡ or_else (lookup k hwp) (lookup k existing)
unfolding merge_entries lookup
lookup-merge_entries k [] existing d = refl
lookup-merge_entries k ((j, v) ∷ hwp) existing d =
    lookup-merge_entries k hwp (insert j v existing) d.1
    ∙ ground (arith, lookup-insert j k v existing, lookup_absent j hwp d.0, eq_iff j k)

-- What is left of a key when the profile has `given` and the Notebook `held` under it.
abbrev pub left_over : Option String → Option String → Option String
left_over (some v) (some w) = if w == v then none else some w
left_over _ held = held

lookup-remove_entry :
    (k j v : String) (existing : StringMap)
    → lookup k (remove_entry j v existing)
      ≡ (if j == k then left_over (some v) (lookup k existing) else lookup k existing)
unfolding remove_entry
lookup-remove_entry k j v existing = ground (arith, lookup-remove j k existing, eq_iff j k)

-- Removing a selector with one entry for each key removes exactly the entries that still have the profile's values.
pub lookup-remove_entries :
    (k : String) (hwp existing : StringMap)
    → IsMap hwp
    → lookup k (remove_entries hwp existing) ≡ left_over (lookup k hwp) (lookup k existing)
unfolding remove_entries lookup
lookup-remove_entries k [] existing d = refl
lookup-remove_entries k ((j, v) ∷ hwp) existing d =
    lookup-remove_entries k hwp (remove_entry j v existing) d.1
    ∙ ground (arith, lookup-remove_entry k j v existing, lookup_absent j hwp d.0, eq_iff j k)

abbrev pub unless_given : Option String → Option String → Option String
unless_given none held = held
unless_given (some v) held = none

left_over-or_else :
    (given held : Option String) → left_over given (or_else given held) ≡ unless_given given held
left_over-or_else none held = refl
left_over-or_else (some v) held = rw (eq_refl v)

-- For a profile's selector with one entry for each key: after a merge and a removal a key of the
-- profile is gone, and every other key is as it was.
pub lookup-remove_entries-merge_entries :
    (k : String) (hwp existing : StringMap)
    → IsMap hwp
    → lookup k (remove_entries hwp (merge_entries hwp existing))
      ≡ unless_given (lookup k hwp) (lookup k existing)
lookup-remove_entries-merge_entries k hwp existing d =
    lookup-remove_entries k hwp (merge_entries hwp existing) d
    ∙ ap (left_over (lookup k hwp)) (lookup-merge_entries k hwp existing d)
    ∙ left_over-or_else (lookup k hwp) (lookup k existing)
