-- ===== src/Connection/Thread/Handles/Alike.antt =====
-- What m_configDatasets and m_configDsts leave as it is (src/tase2_client_connection.cpp).
use fledge_south_tase.Common.{
  ℕ, suc, String, Bool, true, false, List, [], ◌∷◌, Option, none, some, ◌≡◌, refl, ◌∙◌,
  if◌then◌else◌,
}
use fledge_south_tase.Config.{Dataset, DatasetTransferSet}
use fledge_south_tase.Connection.{Connection, Library, record_call, create_data_set}
use fledge_south_tase.Connection.Reports.{
  config_datasets, config_dsts, config_one, config_found, transfer_set_calls,
}
use fledge_south_tase.Connection.Thread.Handles.{events}
use fledge_south_tase.Connection.Thread.Handles.Quiet.{events-quiet}

-- The endpoint, the client, the OSI parameters and the history stay as they are.
pub record IsAlike (c d : Connection) : Type 0 where
  pub history : events d.calls ≡ events c.calls
  pub held : d.endpoint ≡ c.endpoint
  pub client : d.tase2client ≡ c.tase2client
  pub osi : d.osi_parameters ≡ c.osi_parameters

IsAlike-trans : {c d e : Connection} → IsAlike c d → IsAlike d e → IsAlike c e
IsAlike-trans p q = record {
  history = q.history ∙ p.history;
  held = q.held ∙ p.held;
  client = q.client ∙ p.client;
  osi = q.osi ∙ p.osi;
}

config_found-IsAlike :
    (d : DatasetTransferSet) (c : Connection) (ts data_set : Option ℕ)
    → IsAlike c (config_found d c ts data_set)
unfolding events transfer_set_calls
config_found-IsAlike d c none data_set = record {
  history = events-quiet c.calls _ (record { quiet = refl });
  held = refl;
  client = refl;
  osi = refl;
}
config_found-IsAlike d c (some ts) none = record {
  history = events-quiet c.calls _ (record { quiet = refl });
  held = refl;
  client = refl;
  osi = refl;
}
config_found-IsAlike d c (some ts) (some h) = record {
  history = events-quiet c.calls _ (record { quiet = refl });
  held = refl;
  client = refl;
  osi = refl;
}

config_dsts-IsAlike :
    (l : Library) (n : ℕ) (ds : List (String × DatasetTransferSet)) (c : Connection)
    → IsAlike c (config_dsts l n ds c)
unfolding config_dsts config_one
config_dsts-IsAlike l n [] c = record { history = refl; held = refl; client = refl; osi = refl }
config_dsts-IsAlike l n ((name, d) ∷ ds) c =
    IsAlike-trans
      (config_found-IsAlike d c (l.transfer_set_handle n)
        (l.data_set_handle d.domain d.dataset_ref))
      (config_dsts-IsAlike l (suc n) ds (config_one l n d c))

config_datasets-IsAlike :
    (ds : List (String × Dataset)) (c : Connection) → IsAlike c (config_datasets ds c)
unfolding config_datasets events
config_datasets-IsAlike [] c = record { history = refl; held = refl; client = refl; osi = refl }
config_datasets-IsAlike ((name, d) ∷ ds) c =
    IsAlike-trans (same d.dynamic) (config_datasets-IsAlike ds _)
  where
    same :
        (b : Bool)
        → IsAlike c
            (if b then record_call c (create_data_set d.domain d.dataset_ref d.entries) else c)
    same true = record {
      history = events-quiet c.calls _ (record { quiet = refl });
      held = refl;
      client = refl;
      osi = refl;
    }
    same false = record { history = refl; held = refl; client = refl; osi = refl }

pub configured-IsAlike :
    (l : Library) (ds : List (String × Dataset)) (ts : List (String × DatasetTransferSet))
    (c : Connection)
    → IsAlike c (config_dsts l 0 ts (config_datasets ds c))
configured-IsAlike l ds ts c =
    IsAlike-trans (config_datasets-IsAlike ds c) (config_dsts-IsAlike l 0 ts (config_datasets ds c))
