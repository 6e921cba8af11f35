-- ===== src/Config/Datasets/Polled.antt =====
-- What the import of a dataset does to the polled data points (src/tase2_client_config.cpp).
use mathlib.Core.Option
use fledge_south_tase.Common.{
  String, Bool, true, false, ◌&&◌, ◌||◌, List, [], ◌∷◌, Option, none, some, ◌≡◌, refl, ap, ◌∙◌,
  arith, if◌then◌else◌,
}
use fledge_south_tase.Common.Texts.{join, ◌==◌, eq_iff, eq_refl}
use fledge_south_tase.Common.Maps.{lookup, erase, lookup-erase, lookup-insert}
use fledge_south_tase.Json.{Json, str, find_member}
use fledge_south_tase.Config.{Config, DataExchangeDefinition}
use fledge_south_tase.Config.Datasets.{
  get_exchange_definition_by_ref, unpoll, import_entries, entry_names, entries_of, add_dataset,
  dynamic_of,
}

abbrev pub is_some {ℓ} : {A : Type ℓ} → Option A → Bool
is_some none = false
is_some (some a) = true

-- Whether the reference is that of one of the names in the domain.
abbrev pub is_listed : String → List String → String → Bool
is_listed domain [] ref = false
is_listed domain (name ∷ names) ref = join domain ":" name == ref || is_listed domain names ref

-- The polled points that are left.
unfoldable pub unlisted :
    String
    → List String
    → List (String × DataExchangeDefinition)
    → List (String × DataExchangeDefinition)
    → List (String × DataExchangeDefinition)
unlisted domain [] refs polled = polled
unlisted domain (name ∷ names) refs polled =
    let ref = join domain ":" name in
    unlisted domain names refs (if is_some (lookup ref refs) then erase ref polled else polled)

abbrev pub with_polled : Config → List (String × DataExchangeDefinition) → Config
with_polled c polled = record c { polled_datapoints = polled }

unpoll-with_polled :
    (c : Config) (ref : String) (o : Option DataExchangeDefinition)
    → unpoll c ref o
      ≡ with_polled c (if is_some o then erase ref c.polled_datapoints else c.polled_datapoints)
unpoll-with_polled c ref none = refl
unpoll-with_polled c ref (some d) = refl

-- The loop over the entries changes the polled points alone.
pub import_entries-with_polled :
    (domain : String) (vs : List Json) (c : Config)
    → import_entries domain vs c
      ≡ with_polled c
          (unlisted domain (entry_names vs) c.exchange_definitions_ref c.polled_datapoints)
unfolding import_entries unlisted get_exchange_definition_by_ref
import_entries-with_polled domain [] c = refl
import_entries-with_polled domain (str name ∷ vs) c =
    ap (import_entries domain vs) (
      unpoll-with_polled c (join domain ":" name)
        (lookup (join domain ":" name) c.exchange_definitions_ref))
    ∙ import_entries-with_polled domain vs _
import_entries-with_polled domain (v ∷ vs) c = import_entries-with_polled domain vs c

lookup-erase_if :
    (b : Bool) (k ref : String) (m : List (String × DataExchangeDefinition))
    → lookup k (if b then erase ref m else m) ≡ (if b && (ref == k) then none else lookup k m)
lookup-erase_if true k ref m = lookup-erase ref k m
lookup-erase_if false k ref m = refl

lookup-unlisted :
    (domain : String) (names : List String) (refs polled : List (String × DataExchangeDefinition))
    (k : String)
    → lookup k (unlisted domain names refs polled)
      ≡ (if is_listed domain names k && is_some (lookup k refs) then none else lookup k polled)
unfolding unlisted
lookup-unlisted domain [] refs polled k = refl
lookup-unlisted domain (name ∷ names) refs polled k =
    lookup-unlisted domain names refs _ k
    ∙ (rw (lookup-erase_if (is_some (lookup ref refs)) k ref polled) (
        merge (ref == k) (is_listed domain names k) (is_some (lookup ref refs))
          (is_some (lookup k refs)) (lookup k polled)
          (λ e. ap (λ r. is_some (lookup r refs)) ((eq_iff ref k).0 e))))
  where
    ref : String
    ref = join domain ":" name

    merge :
        (same listed found here : Bool) (l : Option DataExchangeDefinition)
        → (same ≡ true → found ≡ here)
        → (if listed && here then none else if found && same then none else l)
          ≡ (if (same || listed) && here then none else l)
    merge true true found here l h = ground (arith, h refl)
    merge true false found here l h = ground (arith, h refl)
    merge false listed true here l h = refl
    merge false listed false here l h = refl

-- Importing a dataset takes out of the polled data points exactly the references of its entries,
-- in its domain, that the exchange configuration defines, and leaves every other one; the dataset
-- is stored with those entries, unless one of that name is there, which then stays.
pub add_dataset-polled :
    (v : Json) (domain dataset_ref : String) (c : Config) (k : String)
    → let names = entry_names (entries_of (find_member "entries" v)) in
      let c' = add_dataset v domain dataset_ref c in
      (lookup k c'.polled_datapoints ≡ (
        if is_listed domain names k && is_some (get_exchange_definition_by_ref c k)
        then none
        else lookup k c.polled_datapoints))
      × (Option.map (λ d. d.entries) (lookup dataset_ref c'.datasets)
          ≡ some (elim (lookup dataset_ref c.datasets) [ none ↦ names | some d ↦ d.entries ]))
      × (c'.exchange_definitions_ref ≡ c.exchange_definitions_ref)
      × (c'.connections ≡ c.connections)
unfolding add_dataset get_exchange_definition_by_ref
add_dataset-polled v domain dataset_ref c k =
    let vs = entries_of (find_member "entries" v) in
    rw (import_entries-with_polled domain vs c) (
      lookup-unlisted domain (entry_names vs) c.exchange_definitions_ref c.polled_datapoints k,
      ground (
        arith,
        lookup-insert dataset_ref dataset_ref
            (record {
              domain = domain;
              dataset_ref = dataset_ref;
              entries = entry_names vs;
              dynamic = dynamic_of (find_member "dynamic" v);
            })
            c.datasets,
        eq_refl dataset_ref,
      ),
      refl,
      refl,
    )
