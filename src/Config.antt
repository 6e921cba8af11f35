-- ===== src/Config.antt =====
-- The data of include/tase2_client_config.hpp: what the configuration's import builds. An `int` is
-- a ℤ, an `int` of flags and a uint64_t a ℕ. Objects that the code shares by std::shared_ptr are
-- not changed once they are in a map, so they are values here.
pub mod ParseSelector
pub mod Osi
pub mod TypeCheck
pub mod Steps
pub mod Schema
pub mod Connections
pub mod Datasets
pub mod TransferSets
pub mod Protocol
pub mod Exchange
pub mod Tls
use fledge_south_tase.Common.{ℕ, String, Bool, true, false, List, [], Option}
use fledge_south_tase.Json.{Json}
use fledge_south_tase.Common.Int.{ℤ, pos}
use fledge_south_tase.DpType.{DpType}

-- Tase2_PSelector, Tase2_SSelector, Tase2_TSelector: `value` is the part of the byte array that is
-- written.
pub record Selector : Type 0 where
  pub size : ℕ
  pub value : List ℕ

-- What the import takes from elsewhere: inet_pton (true for its result 1), rapidjson's parser
-- (`none` for a parse error), and the condition flags of libtase2.
pub record Externals : Type 0 where
  pub inet_pton : String → Bool
  pub parse : String → Option Json
  pub ds_condition_interval : ℕ
  pub ds_condition_integrity : ℕ
  pub ds_condition_change : ℕ
  pub ds_condition_operator_requested : ℕ
  pub ds_condition_external_event : ℕ

pub record OsiParameters : Type 0 where
  pub local_ap_title : String
  pub local_ae_qualifier : ℤ
  pub remote_ap_title : String
  pub remote_ae_qualifier : ℤ
  pub local_tselector : Selector
  pub remote_tselector : Selector
  pub local_sselector : Selector
  pub remote_sselector : Selector
  pub local_pselector : Selector
  pub remote_pselector : Selector

pub record RedGroup : Type 0 where
  pub ip_addr : String
  pub tcp_port : ℤ
  pub osi_parameters : OsiParameters
  pub is_osi_parameters_enabled : Bool
  pub tls : Bool

pub record DataExchangeDefinition : Type 0 where
  pub ref : String
  pub type : DpType
  pub label : String

pub record DatasetTransferSet : Type 0 where
  pub domain : String
  pub dsts_ref : String
  pub dataset_ref : String
  pub ds_conditions : ℕ
  pub start_time : ℤ
  pub interval : ℤ
  pub tle : ℤ
  pub buffer_time : ℤ
  pub integrity_check : ℤ
  pub critical : Bool
  pub rbe : Bool
  pub all_changes_reported : Bool

pub record Dataset : Type 0 where
  pub domain : String
  pub dataset_ref : String
  pub entries : List String
  pub dynamic : Bool

-- TASE2ClientConfig
pub record Config : Type 0 where
  pub connections : List RedGroup
  pub polled_datapoints : List (String × DataExchangeDefinition)
  pub datasets : List (String × Dataset)
  pub exchange_definitions : List (String × DataExchangeDefinition)
  pub exchange_definitions_ref : List (String × DataExchangeDefinition)
  pub ds_transfer_sets : List (String × DatasetTransferSet)
  pub protocol_config_complete : Bool
  pub exchange_config_complete : Bool
  pub private_key : String
  pub own_certificate : String
  pub remote_certificates : List String
  pub ca_certificates : List String
  pub backup_connection_timeout : ℕ
  pub polling_interval : ℤ

-- The constructor, with the members' initial values.
abbrev pub new_config : Config
new_config = record {
  connections = [];
  polled_datapoints = [];
  datasets = [];
  exchange_definitions = [];
  exchange_definitions_ref = [];
  ds_transfer_sets = [];
  protocol_config_complete = false;
  exchange_config_complete = false;
  private_key = "";
  own_certificate = "";
  remote_certificates = [];
  ca_certificates = [];
  backup_connection_timeout = 5000;
  polling_interval = pos 0;
}

abbrev pub no_selector : Selector
no_selector = record { size = 0; value = [] }

abbrev pub new_osi_parameters : OsiParameters
new_osi_parameters = record {
  local_ap_title = "";
  local_ae_qualifier = pos 0;
  remote_ap_title = "";
  remote_ae_qualifier = pos 0;
  local_tselector = no_selector;
  remote_tselector = no_selector;
  local_sselector = no_selector;
  remote_sselector = no_selector;
  local_pselector = no_selector;
  remote_pselector = no_selector;
}

-- std::make_shared<RedGroup> () and std::make_shared<DatasetTransferSet> () zero the members.
abbrev pub new_red_group : RedGroup
new_red_group = record {
  ip_addr = "";
  tcp_port = pos 0;
  osi_parameters = new_osi_parameters;
  is_osi_parameters_enabled = false;
  tls = false;
}

abbrev pub new_dsts : DatasetTransferSet
new_dsts = record {
  domain = "";
  dsts_ref = "";
  dataset_ref = "";
  ds_conditions = 0;
  start_time = pos 0;
  interval = pos 0;
  tle = pos 0;
  buffer_time = pos 0;
  integrity_check = pos 0;
  critical = false;
  rbe = false;
  all_changes_reported = false;
}
