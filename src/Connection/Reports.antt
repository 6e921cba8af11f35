-- ===== src/Connection/Reports.antt =====
-- m_configDatasets and m_configDsts (src/tase2_client_connection.cpp): the datasets and transfer
-- sets that a new connection sets up on the server. The handlers only log or pass a value on.
pub mod Laws
use fledge_south_tase.Common.{
  ℕ, suc, String, true, List, [], ◌∷◌, ◌++◌, Option, none, some, if◌then◌else◌,
}
use fledge_south_tase.Config.{Dataset, DatasetTransferSet}
use fledge_south_tase.Connection.{
  Connection, Call, Library, record_call, record_calls, create_data_set, get_next_transfer_set,
  get_data_set, dsts_set_data_set, dsts_read_values, dsts_write_values, dsts_set_data_set_name,
  dsts_set_interval, dsts_set_buffer_time, dsts_set_start_time, dsts_set_rbe, dsts_set_critical,
  dsts_set_integrity_check, dsts_set_all_changes_reported, dsts_set_status,
  dsts_set_conditions_requested,
}

-- A dynamic dataset is created; an error is logged. The list of its entries and their copies are
-- allocated first, and that is taken to succeed.
unfoldable pub config_datasets : List (String × Dataset) → Connection → Connection
config_datasets [] c = c
config_datasets ((name, d) ∷ ds) c =
    config_datasets ds
      (if d.dynamic then record_call c (create_data_set d.domain d.dataset_ref d.entries) else c)

-- What is set on a transfer set; the integrity check is given the flag `rbe`, as in the code.
unfoldable pub transfer_set_calls : ℕ → ℕ → DatasetTransferSet → List Call
transfer_set_calls ts data_set d =
    dsts_set_data_set ts data_set
    ∷ dsts_read_values ts
    ∷ dsts_set_data_set_name ts d.domain d.dataset_ref
    ∷ dsts_set_interval ts d.interval
    ∷ dsts_set_rbe ts d.rbe
    ∷ dsts_set_critical ts d.critical
    ∷ dsts_set_buffer_time ts d.buffer_time
    ∷ dsts_set_integrity_check ts d.rbe
    ∷ dsts_set_start_time ts d.start_time
    ∷ dsts_set_all_changes_reported ts d.all_changes_reported
    ∷ dsts_set_conditions_requested ts d.ds_conditions
    ∷ dsts_set_status ts true
    ∷ dsts_write_values ts
    ∷ []

-- What is done with the handles of a transfer set and of its data set; the second is not asked for
-- where the first is null.
abbrev pub config_found : DatasetTransferSet → Connection → Option ℕ → Option ℕ → Connection
config_found d c none data_set = record_call c (get_next_transfer_set "icc1")
config_found d c (some ts) none =
    record_calls c (get_next_transfer_set "icc1" ∷ get_data_set d.domain d.dataset_ref ∷ [])
config_found d c (some ts) (some data_set) =
    record (record_calls c (
      get_next_transfer_set "icc1"
      ∷ get_data_set d.domain d.dataset_ref
      ∷ transfer_set_calls ts data_set d)) {
        datasets = c.datasets ++ data_set ∷ [];
        dsts = c.dsts ++ ts ∷ [];
      }

-- One transfer set; `n` is the number of those asked for before.
unfoldable pub config_one : Library → ℕ → DatasetTransferSet → Connection → Connection
config_one l n d c =
    config_found d c (l.transfer_set_handle n) (l.data_set_handle d.domain d.dataset_ref)

unfoldable pub config_dsts :
    Library → ℕ → List (String × DatasetTransferSet) → Connection → Connection
config_dsts l n [] c = c
config_dsts l n ((name, d) ∷ ds) c = config_dsts l (suc n) ds (config_one l n d c)
