-- ===== src/PlatformConfig/Predicate/Dropped.antt =====
-- The updates that the predicate drops do not change what the reconciler reads of the ConfigMap.

use text.Mathlib.TextLemmas.{append-eq-nil_iff}
use workbenches_operator.Prelude.{
  String, ◌<>◌, eq_iff, ◌≡◌, ◌≢◌, refl, sym, ap, ◌∙◌, true, false, Option, none, some, List, [],
  ◌∷◌, arith, false≢true,
}
use workbenches_operator.Prelude.Text.{split}
use workbenches_operator.Prelude.TextLaws.{AllLack, split-append, split-lacks, one-append}
use workbenches_operator.Errors.{ok}
use workbenches_operator.Format.{Format}
use workbenches_operator.Dict.{StringMap}
use workbenches_operator.PlatformConfig.Distribution.{
  read_desired_distribution, read_platform_version, distribution_name_key, distribution_version_key,
  version_data_key,
}
use workbenches_operator.PlatformConfig.Predicate.{
  ConfigMap, config_map, update, trimmed, platform_config_value, matches, config_changed,
  value_changed,
}

-- The three values that the operator reads.
abbrev parts : StringMap → List String
parts values =
    trimmed distribution_name_key values
    ∷ trimmed distribution_version_key values
    ∷ trimmed version_data_key values
    ∷ []

-- None of the values that are read has a NUL character in it.
abbrev pub IsSeparable : Option StringMap → Type 0
IsSeparable none = Unit
IsSeparable (some values) = AllLack 0 (parts values)

split_value :
    (a b c : String)
    → AllLack 0 (a ∷ b ∷ c ∷ [])
    → split 0 (a <> ("\0" <> (b <> ("\0" <> c)))) ≡ a ∷ b ∷ c ∷ []
split_value a b c h = rw (
  one-append "\0" c,
  one-append "\0" (b <> String.◌∷◌ "\0" c),
  split-append 0 a _ "\0" refl h.0,
  split-append 0 b c "\0" refl h.1.0,
  split-lacks 0 c h.1.1.0,
)

platform_value_injective :
    (old new : StringMap)
    → AllLack 0 (parts old)
    → AllLack 0 (parts new)
    → (name name' : String)
    → platform_config_value (record { name = name; namespace = name'; values = some old })
      ≡ platform_config_value (record { name = name; namespace = name'; values = some new })
    → parts old ≡ parts new
unfolding platform_config_value
platform_value_injective old new lo ln name name' h =
    sym (split_value _ _ _ lo) ∙ ap (split 0) h ∙ split_value _ _ _ ln

-- What the reconciler reads of a ConfigMap with this data.
pub record ReadAlike (old new : Option StringMap) : Type 0 where
  pub distribution :
      (format : Format) (namespace : String)
      → read_desired_distribution format (λ _ _. ok old) namespace
        ≡ read_desired_distribution format (λ _ _. ok new) namespace
  pub version :
      (namespace : String)
      → read_platform_version (λ _ _. ok old) namespace
        ≡ read_platform_version (λ _ _. ok new) namespace

parts-ReadAlike : (old new : StringMap) → parts old ≡ parts new → ReadAlike (some old) (some new)
unfolding read_desired_distribution read_platform_version
parts-ReadAlike old new same =
    let name : trimmed distribution_name_key old ≡ trimmed distribution_name_key new = cc same in
    let version : trimmed distribution_version_key old ≡ trimmed distribution_version_key new =
      cc same in
    let platform : trimmed version_data_key old ≡ trimmed version_data_key new = cc same in
    record {
      distribution = λ format namespace. rw (name, version);
      version = λ namespace. rw platform;
    }

filled : (a b c : String) → (a <> ("\0" <> (b <> ("\0" <> c)))) ≢ ""
filled a b c h =
    let nul : "\0" <> (b <> ("\0" <> c)) ≡ "" = (append-eq-nil_iff.0 h).1 in
    false≢true ((eq_iff "\0" "").1 (append-eq-nil_iff.0 nul).0)

same_value-ReadAlike :
    (old new : Option StringMap) (name namespace name' namespace' : String)
    → IsSeparable old
    → IsSeparable new
    → platform_config_value (record { name = name; namespace = namespace; values = old })
      ≡ platform_config_value (record { name = name'; namespace = namespace'; values = new })
    → ReadAlike old new
unfolding platform_config_value
same_value-ReadAlike none none name namespace name' namespace' so sn h = record {
  distribution = λ f n. refl;
  version = λ n. refl;
}
same_value-ReadAlike none (some new) name namespace name' namespace' so sn h =
    absurd (filled _ _ _ (sym h))
same_value-ReadAlike (some old) none name namespace name' namespace' so sn h =
    absurd (filled _ _ _ h)
same_value-ReadAlike (some old) (some new) name namespace name' namespace' so sn h =
    parts-ReadAlike old new (platform_value_injective old new so sn name namespace h)

unchanged :
    (old new : ConfigMap)
    → value_changed (config_map old) (config_map new) ≡ false
    → platform_config_value old ≡ platform_config_value new
unfolding value_changed
unchanged old new h = ground (arith, eq_iff (platform_config_value old) (platform_config_value new))

-- If the predicate drops the update of a ConfigMap that it watches, and no value that is read has a
-- NUL character, then the distribution and the platform version that the reconciler reads, errors
-- included, are the same before and after it.
pub config_changed-ReadAlike :
    (namespaces : List String) (old new : ConfigMap)
    → IsSeparable old.values
    → IsSeparable new.values
    → matches namespaces (config_map new) ≡ true
    → config_changed namespaces (update (config_map old) (config_map new)) ≡ false
    → ReadAlike old.values new.values
unfolding config_changed
config_changed-ReadAlike namespaces old new so sn watched dropped =
    same_value-ReadAlike old.values new.values old.name old.namespace new.name new.namespace so sn
      (unchanged old new (rw watched at dropped))
