-- ===== src/Client/Handling.antt =====
-- What TASE2Client (src/tase2_client.cpp) does with values: m_handleMonitoringData, sendData,
-- handleValue and handleAllValues, and the handler of reported values
-- (src/tase2_client_connection.cpp).
use fledge_south_tase.Common.{ℕ, suc, String, List, [], ◌∷◌, ◌++◌, Option, none, some, get_elem?}
use fledge_south_tase.Common.Texts.{join}
use fledge_south_tase.DpType.{DpType}
use fledge_south_tase.Config.{Config, DataExchangeDefinition}
use fledge_south_tase.Config.Datasets.{get_exchange_definition_by_ref}
use fledge_south_tase.Client.{
  PointLibrary, Outcome, done, null_dereference, out_of_range, ◌>>=◌, when_defined,
  split_exchange_ref, DataObject, create_data_object, Device,
}

module _ (lib : PointLibrary) where
  open lib use {PointValue}

  -- readValue of the active connection, which is dereferenced with no test.
  abbrev pub read_value : Option (Device lib) → String × String → Outcome (Option PointValue)
  read_value none point = null_dereference
  read_value (some d) (domain, name) = done (d.read_point_value domain name)

  abbrev point_value :
      Option (Device lib) → String × String → Option PointValue → Outcome (Option PointValue)
  point_value active point none = read_value active point
  point_value active point (some v) = done (some v)

  abbrev push_object :
      List (DataObject lib)
      → String × String
      → ℕ
      → DpType
      → Option PointValue
      → Outcome (List (DataObject lib))
  push_object points (domain, name) ts type none = done points
  push_object points (domain, name) ts type (some v) = do
    o ← create_data_object lib v domain name ts type
    done (points ++ o ∷ [])

  -- m_handleMonitoringData: the points with the new data object, if there is one.
  unfoldable pub handle_monitoring_data :
      Config
      → Option (Device lib)
      → String
      → List (DataObject lib)
      → DpType
      → Option PointValue
      → ℕ
      → Outcome (List (DataObject lib))
  handle_monitoring_data config active ref points type value ts =
      when_defined (get_exchange_definition_by_ref config ref) points λ def. do
        v ← point_value active (split_exchange_ref ref) value
        push_object points (split_exchange_ref ref) ts type v

  -- What TASE2::ingest is called with: a label with a data object. It passes them on if a callback is
  -- registered (`ingest` of Plugin).
  abbrev pub Readings : Type 0
  Readings = List (String × DataObject lib)

  -- `labels.at (i)`, which throws out of range
  abbrev pub at_label : Option String → DataObject lib → Outcome Readings → Outcome Readings
  at_label none p rest = out_of_range
  at_label (some label) p rest = rest >>= λ readings. done ((label, p) ∷ readings)

  -- The loop of sendData, from the i-th point on. What was ingested before a label is missing is
  -- lost to the caller, who sees the exception.
  unfoldable pub send_from : List String → ℕ → List (DataObject lib) → Outcome Readings
  send_from labels i [] = done []
  send_from labels i (p ∷ ps) = at_label (get_elem? labels i) p (send_from labels (suc i) ps)

  unfoldable pub send_data : List (DataObject lib) → List String → Outcome Readings
  unfolding send_from
  send_data points labels = send_from labels 0 points

  -- handleValue, for a report (from a transfer set) or for a command's acknowledgement.
  unfoldable pub handle_value :
      Config → Option (Device lib) → String → Option PointValue → ℕ → Outcome Readings
  handle_value config active ref value ts =
      when_defined (get_exchange_definition_by_ref config ref) [] λ def. do
        points ← handle_monitoring_data config active def.ref [] def.type value ts
        send_data points (def.label ∷ [])

  -- dsTransferSetValueHandler: a value that the peer reports for a point.
  unfoldable pub ds_transfer_set_value_handler :
      Config → Option (Device lib) → ℕ → String → String → PointValue → Outcome Readings
  ds_transfer_set_value_handler config active now domain_name point_name v =
      handle_value config active (join domain_name ":" point_name) (some v) now

  -- The loop of handleAllValues: the labels and the points. `clock i` is the time of its i-th
  -- round.
  unfoldable pub collect :
      Config
      → Option (Device lib)
      → (ℕ → ℕ)
      → ℕ
      → List (String × DataExchangeDefinition)
      → List String
      → List (DataObject lib)
      → Outcome (List String × List (DataObject lib))
  collect config active clock i [] labels points = done (labels, points)
  collect config active clock i ((ref, def) ∷ defs) labels points =
      handle_monitoring_data config active def.ref points def.type none (clock i)
      >>= collect config active clock (suc i) defs (labels ++ def.label ∷ [])

  unfoldable pub handle_all_values : Config → Option (Device lib) → (ℕ → ℕ) → Outcome Readings
  unfolding collect
  handle_all_values config active clock = do
    all ← collect config active clock 0 config.polled_datapoints [] []
    send_data all.1 all.0
