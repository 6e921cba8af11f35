-- ===== src/Client/Values/Order.antt =====
-- Polled values and the order in which the unordered map of the polled points is run through
-- (handleAllValues, src/tase2_client.cpp).
use fledge_south_tase.Common.{
  ℕ, suc, String, some, List, [], ◌∷◌, map, ◌≡◌, refl, ap, ◌∙◌, subst, All,
}
use mathlib.Core.List.{Permᴰ}
use mathlib.Core.List.Permᴰ
use fledge_south_tase.Config.{Config, DataExchangeDefinition}
use fledge_south_tase.Config.Exchange.Invariant.{IsConsistent}
use fledge_south_tase.Client.{PointLibrary, done, DataObject, Device}
use fledge_south_tase.Client.Handling.{Readings, handle_all_values}
use fledge_south_tase.Client.Values.{pair, objects, handle_all_values-pair}
use fledge_south_tase.Client.Values.Labels.{Reads}

All-Permᴰ {ℓ κ} : {A : Type ℓ} (P : A → Type κ) {xs ys : List A} → Permᴰ xs ys → All P xs → All P ys
All-Permᴰ P Permᴰ.nil h = h
All-Permᴰ P (Permᴰ.cons e p) (x, h) = (subst P e x, All-Permᴰ P p h)
All-Permᴰ P (Permᴰ.swap e e') (x, (y, h)) = (subst P e' y, (subst P e x, h))
All-Permᴰ P (Permᴰ.trans p q) h = All-Permᴰ P q (All-Permᴰ P p h)

module _ (lib : PointLibrary) (d : Device lib) (now : ℕ)
    (f : DataExchangeDefinition → DataObject lib) where
  -- A polled point's label with what its read gives.
  abbrev pub labelled : String × DataExchangeDefinition → String × DataObject lib
  labelled e = (e.1.label, f e.1)

  abbrev pub AllRead : List (String × DataExchangeDefinition) → Type 0
  AllRead defs = All (λ e. Reads lib d now e.1 (f e.1)) defs

  pair-labelled :
      (i : ℕ) (defs : List (String × DataExchangeDefinition))
      → AllRead defs
      → pair (map (λ e. e.1.label) defs) (objects lib d (λ i. now) i defs) ≡ map labelled defs
  unfolding pair objects
  pair-labelled i [] h = refl
  pair-labelled i (e ∷ es) (read, h) = rw (read, pair-labelled (suc i) es h) refl

  poll :
      (config : Config)
      → IsConsistent config
      → AllRead config.polled_datapoints
      → handle_all_values lib config (some d) (λ i. now)
        ≡ done (map labelled config.polled_datapoints)
  poll config h reads =
      handle_all_values-pair lib config d (λ i. now) h
      ∙ ap done (pair-labelled 0 config.polled_datapoints reads)

  -- If every polled point can be read, at one time, the order in which the map of the polled points
  -- is run through makes no difference but to the order of the readings: for two configurations
  -- whose polled points are permutations of each other, a poll ingests permutations of the same
  -- readings.
  pub handle_all_values-permuted :
      (config config' : Config)
      → IsConsistent config
      → IsConsistent config'
      → Permᴰ config.polled_datapoints config'.polled_datapoints
      → AllRead config.polled_datapoints
      → (rs : Readings lib) × (rs' : Readings lib) × (handle_all_values lib config
            (some d)
            (λ i. now)
          ≡ done rs)
        × (handle_all_values lib config' (some d) (λ i. now) ≡ done rs')
        × Permᴰ rs rs'
  handle_all_values-permuted config config' h h' p reads = (
    map labelled config.polled_datapoints,
    map labelled config'.polled_datapoints,
    poll config h reads,
    poll config' h' (All-Permᴰ (λ e. Reads lib d now e.1 (f e.1)) p reads),
    Permᴰ.map labelled p,
  )
