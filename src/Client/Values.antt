-- ===== src/Client/Values.antt =====
-- handleAllValues and what it calls (src/tase2_client.cpp): which data objects are ingested, under
-- which labels.
pub mod Labels
pub mod Order
use fledge_south_tase.Common.{
  ℕ, suc, ◌+◌, ◌≤◌, String, Bool, true, false, not, List, [], ◌∷◌, ◌++◌, map, Option, none, some,
  ◌≡◌, refl, ap, sym, ◌∙◌, subst, arith, All, length, length-append, get_elem?, inl, inr,
  Option-cases, if◌then◌else◌,
}
use mathlib.Core.List.{append_assoc, append-nil}
use fledge_south_tase.Common.Maps.{lookup}
use fledge_south_tase.DpType.{
  DpType, real, dp_type_unknown, dp_type_to_str, has_quality, has_timestamp,
}
use fledge_south_tase.Config.{Config, DataExchangeDefinition}
use fledge_south_tase.Config.Datasets.{get_exchange_definition_by_ref}
use fledge_south_tase.Config.Exchange.{is_unknown}
use fledge_south_tase.Config.Exchange.Invariant.{IsConsistent, IsPolled, is_defined}
use fledge_south_tase.Client.{
  PointLibrary, Outcome, done, null_dereference, out_of_range, ◌>>=◌, split_exchange_ref, text,
  DataObject, value_fields, quality_fields, time_fields, create_data_object, Device,
}
use fledge_south_tase.Client.Handling.{
  handle_monitoring_data, Readings, send_from, send_data, collect, handle_all_values,
}

-- The first labels with the points, position by position.
pub pair {ℓ} : {A : Type ℓ} → List String → List A → List (String × A)
pair [] ps = []
pair (l ∷ ls) [] = []
pair (l ∷ ls) (p ∷ ps) = (l, p) ∷ pair ls ps

get_elem?-append {ℓ} :
    {A : Type ℓ} (xs : List A) (y : A) (ys : List A) → get_elem? (xs ++ y ∷ ys) (length xs) ≡ some y
get_elem?-append [] y ys = refl
get_elem?-append (x ∷ xs) y ys = get_elem?-append xs y ys

module _ (lib : PointLibrary) where
  open lib use {PointValue}

  send_from-pair :
      (before labels : List String) (points : List (DataObject lib))
      → length points ≤ length labels
      → send_from lib (before ++ labels) (length before) points ≡ done (pair labels points)
  unfolding send_from pair
  send_from-pair before [] [] le = refl
  send_from-pair before (l ∷ ls) [] le = refl
  send_from-pair before [] (p ∷ ps) le = absurd (omega arith)
  send_from-pair before (l ∷ ls) (p ∷ ps) le =
      let size : length (before ++ l ∷ []) ≡ suc (length before) =
        omega (arith, length-append before (l ∷ [])) in
      let later = send_from-pair (before ++ l ∷ []) ls ps (omega arith) in
      rw (get_elem?-append before l ls) (
        ap (λ o. o >>= λ rest. done ((l, p) ∷ rest))
          (rw (size, append_assoc before (l ∷ []) ls) at later))

  -- The object of a value of a known type.
  abbrev pub object : PointValue → String × String → ℕ → DpType → String → DataObject lib
  object v (domain, name) ts type s =
      ("do_type", text s)
      ∷ ("do_domain", text domain)
      ∷ ("do_name", text name)
      ∷ (value_fields lib v type
          ++ ((if has_quality type then quality_fields lib (lib.get_flags v) else [])
              ++ (if has_timestamp type then time_fields lib ts else [])))

  abbrev object_if :
      String × String → ℕ → DpType → Option String → Option PointValue → List (DataObject lib)
  object_if point ts type (some s) (some v) = object v point ts type s ∷ []
  object_if point ts type s v = []

  -- What the read of one polled point adds: one object, or none if the read fails.
  abbrev pub read_object : Device lib → ℕ → DataExchangeDefinition → List (DataObject lib)
  read_object d ts def =
      let point = split_exchange_ref def.ref in
      object_if point ts def.type (dp_type_to_str def.type) (d.read_point_value point.0 point.1)

  pub objects :
      Device lib → (ℕ → ℕ) → ℕ → List (String × DataExchangeDefinition) → List (DataObject lib)
  objects d clock i [] = []
  objects d clock i ((k, def) ∷ defs) = read_object d (clock i) def ++ objects d clock (suc i) defs

  pub known_name : (t : DpType) → is_unknown t ≡ false → (s : String) × (dp_type_to_str t ≡ some s)
  unfolding dp_type_to_str
  known_name real h = ("Real", refl)
  known_name dp_type_unknown h = cc
  known_name t h = (_, refl)

  handle_monitoring_data-read_object :
      (config : Config) (d : Device lib) (def : DataExchangeDefinition)
      (points : List (DataObject lib)) (ts : ℕ)
      → is_defined config.exchange_definitions_ref def.ref ≡ true
      → is_unknown def.type ≡ false
      → handle_monitoring_data lib config (some d) def.ref points def.type none ts
        ≡ done (points ++ read_object d ts def)
  unfolding handle_monitoring_data get_exchange_definition_by_ref create_data_object
  handle_monitoring_data-read_object config d def points ts defined known =
      let (s, named) = known_name def.type known in
      let point = split_exchange_ref def.ref in
      elim (Option-cases (lookup def.ref config.exchange_definitions_ref)) [
        | inl missing ↦ absurd (cc (rw missing at defined))
        | inr (e, found) ↦ elim (Option-cases (d.read_point_value point.0 point.1)) [
          | inl failed ↦ rw (found, failed, named, append-nil)
          | inr (v, read) ↦ rw (found, read, named)
        ]
      ]

  collect-objects :
      (config : Config) (d : Device lib) (clock : ℕ → ℕ) (i : ℕ)
      (defs : List (String × DataExchangeDefinition)) (labels : List String)
      (points : List (DataObject lib))
      → All (λ e. IsPolled config.exchange_definitions_ref e.0 e.1) defs
      → collect lib config (some d) clock i defs labels points
        ≡ done (labels ++ map (λ e. e.1.label) defs, points ++ objects d clock i defs)
  unfolding collect objects
  collect-objects config d clock i [] labels points h = simp append-nil
  collect-objects config d clock i ((k, def) ∷ defs) labels points
        ((same, below, defined, known), h) =
      rw (handle_monitoring_data-read_object config d def points (clock i) (rw same defined) known)
        (collect-objects config d clock (suc i) defs (labels ++ def.label ∷ [])
            (points ++ read_object d (clock i) def) h
          ∙ simp append_assoc)

  length-objects :
      (d : Device lib) (clock : ℕ → ℕ) (i : ℕ) (defs : List (String × DataExchangeDefinition))
      → length (objects d clock i defs) ≤ length (map (λ e. e.1.label) defs)
  unfolding objects
  length-objects d clock i [] = omega arith
  length-objects d clock i ((k, def) ∷ defs) = omega (
    arith,
    length-append (read_object d (clock i) def) (objects d clock (suc i) defs),
    length-objects d clock (suc i) defs,
    one (dp_type_to_str def.type)
        (d.read_point_value (split_exchange_ref def.ref).0 (split_exchange_ref def.ref).1),
  )
    where
      one :
          (s : Option String) (v : Option PointValue)
          → length (object_if (split_exchange_ref def.ref) (clock i) def.type s v) ≤ 1
      one none v = omega arith
      one (some s) none = omega arith
      one (some s) (some v) = omega arith

  -- With consistent definitions and an active connection, a poll of all values throws nothing: it
  -- ingests the objects of the points that could be read, in their order, and gives the n-th of
  -- them the label of the n-th polled point.
  pub handle_all_values-pair :
      (config : Config) (d : Device lib) (clock : ℕ → ℕ)
      → IsConsistent config
      → handle_all_values lib config (some d) clock
        ≡ done (
            pair
              (map (λ e. e.1.label) config.polled_datapoints)
              (objects d clock 0 config.polled_datapoints))
  unfolding handle_all_values send_data
  handle_all_values-pair config d clock h =
      rw (collect-objects config d clock 0 config.polled_datapoints [] [] h.polled)
        (send_from-pair [] _ _ (length-objects d clock 0 config.polled_datapoints))
