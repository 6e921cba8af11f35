-- ===== src/Client/Values/Labels.antt =====
-- Whose label a polled value gets (handleAllValues, src/tase2_client.cpp).
use fledge_south_tase.Common.{ℕ, suc, String, some, List, [], ◌∷◌, map, ◌≡◌, refl, ap, ◌∙◌}
use fledge_south_tase.Config.{Config, DataExchangeDefinition}
use fledge_south_tase.Config.Exchange.Invariant.{IsConsistent}
use fledge_south_tase.Client.{PointLibrary, done, DataObject, Device}
use fledge_south_tase.Client.Handling.{handle_all_values}
use fledge_south_tase.Client.Values.{pair, objects, read_object, handle_all_values-pair}

module _ (lib : PointLibrary) where
  -- The read of a polled point that gives an object.
  abbrev pub Reads : Device lib → ℕ → DataExchangeDefinition → DataObject lib → Type 0
  Reads d ts def o = read_object lib d ts def ≡ o ∷ []

  -- Every polled point is read, with these objects.
  abbrev pub ReadsAll :
      Device lib
      → (ℕ → ℕ)
      → ℕ
      → List (String × DataExchangeDefinition)
      → List (DataObject lib)
      → Type 0
  ReadsAll d clock i [] [] = Unit {0}
  ReadsAll d clock i [] (o ∷ os) = ⊥
  ReadsAll d clock i (e ∷ es) [] = ⊥
  ReadsAll d clock i (e ∷ es) (o ∷ os) = Reads d (clock i) e.1 o × ReadsAll d clock (suc i) es os

  -- A point's label with its own object.
  abbrev pub own :
      List (String × DataExchangeDefinition)
      → List (DataObject lib)
      → List (String × DataObject lib)
  own [] os = []
  own (e ∷ es) [] = []
  own (e ∷ es) (o ∷ os) = (e.1.label, o) ∷ own es os

  pair-own :
      (d : Device lib) (clock : ℕ → ℕ) (i : ℕ) (defs : List (String × DataExchangeDefinition))
      (os : List (DataObject lib))
      → ReadsAll d clock i defs os
      → pair (map (λ e. e.1.label) defs) (objects lib d clock i defs) ≡ own defs os
  unfolding pair objects
  pair-own d clock i [] [] h = refl
  pair-own d clock i [] (o ∷ os) h = absurd h
  pair-own d clock i (e ∷ es) [] h = absurd h
  pair-own d clock i (e ∷ es) (o ∷ os) (r, h) = rw (r, pair-own d clock (suc i) es os h)

  -- If every polled point can be read, a poll of all values ingests every object under the label
  -- of its own point.
  pub handle_all_values-own :
      (config : Config) (d : Device lib) (clock : ℕ → ℕ) (os : List (DataObject lib))
      → IsConsistent config
      → ReadsAll d clock 0 config.polled_datapoints os
      → handle_all_values lib config (some d) clock ≡ done (own config.polled_datapoints os)
  handle_all_values-own config d clock os h reads =
      handle_all_values-pair lib config d clock h
      ∙ ap done (pair-own d clock 0 config.polled_datapoints os reads)

  -- If the first polled point cannot be read and the second can, the second point's object is
  -- ingested under the label of the first.
  pub handle_all_values_shifted :
      (config : Config) (d : Device lib) (clock : ℕ → ℕ) (k k' : String)
      (def def' : DataExchangeDefinition) (rest : List (String × DataExchangeDefinition))
      (o : DataObject lib)
      → IsConsistent config
      → config.polled_datapoints ≡ (k, def) ∷ (k', def') ∷ rest
      → read_object lib d (clock 0) def ≡ []
      → Reads d (clock 1) def' o
      → (more : List (String × DataObject lib)) × (handle_all_values lib config (some d) clock
          ≡ done ((def.label, o) ∷ more))
  unfolding pair objects
  handle_all_values_shifted config d clock k k' def def' rest o h polled failed read = (
    pair (def'.label ∷ map (λ e. e.1.label) rest) (objects lib d clock 2 rest),
    handle_all_values-pair lib config d clock h ∙ ap done (rw (polled, failed, read)),
  )
