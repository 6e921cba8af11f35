-- ===== src/Connection.antt =====
-- The state of a TASE2ClientConnection (include/tase2_client_connection.hpp) and its calls of
-- libtase2. A handle of the library is a number, a null pointer `none`. The calls are recorded in
-- order in `calls`; what they answer is an argument, `Library`.
pub mod Tls
pub mod Prepare
pub mod Reports
pub mod Thread
use fledge_south_tase.Common.{
  ℕ, String, Bool, true, false, ◌&&◌, not, List, [], ◌∷◌, ◌++◌, Option, none, some,
}
use fledge_south_tase.Common.Int.{ℤ, pos}
use fledge_south_tase.Config.{OsiParameters, Selector, DatasetTransferSet}

-- ConState
pub data ConState : Type 0 where
  idle connecting connected closed wait_for_reconnect fatal_error : ConState

pub data Call : Type 0 where
  tls_set_own_key tls_set_own_certificate tls_add_allowed_certificate tls_add_ca_certificate :
      String → Call
  tls_allow_only_known tls_chain_validation : Bool → Call
  tls_set_renegotiation_time : ℕ → Call
  tls_destroy : ℕ → Call
  endpoint_create : Option ℕ → Bool → Call
  endpoint_destroy : ℕ → Call
  set_remote_ip_address : String → Call
  set_remote_tcp_port set_local_tcp_port : ℤ → Call
  set_remote_ap_title set_local_ap_title : String → ℤ → Call
  set_remote_addresses set_local_addresses : Selector → Selector → Selector → Call
  client_create : ℕ → Call
  client_connect client_disconnect client_destroy : Option ℕ → Call
  create_data_set : String → String → List String → Call
  get_next_transfer_set : String → Call
  get_data_set : String → String → Call
  dsts_set_data_set : ℕ → ℕ → Call
  dsts_read_values dsts_write_values dsts_destroy : ℕ → Call
  dsts_set_data_set_name : ℕ → String → String → Call
  dsts_set_interval dsts_set_buffer_time dsts_set_start_time : ℕ → ℤ → Call
  dsts_set_rbe dsts_set_critical dsts_set_integrity_check : ℕ → Bool → Call
  dsts_set_all_changes_reported dsts_set_status : ℕ → Bool → Call
  dsts_set_conditions_requested : ℕ → ℕ → Call
  data_set_destroy : ℕ → Call
  install_report_handler install_value_handler : Call
  -- TASE2Client::handleAllValues
  handle_all_values : Call

pub record Connection : Type 0 where
  pub server_ip : String
  pub tcp_port : ℤ
  pub use_tls : Bool
  pub passive : Bool
  pub osi_parameters : Option OsiParameters
  pub endpoint : Option ℕ
  pub tase2client : Option ℕ
  pub tls_config : Option ℕ
  pub datasets : List ℕ
  pub dsts : List ℕ
  pub state : ConState
  pub is_connected : Bool
  pub is_connecting : Bool
  pub connect : Bool
  pub started : Bool
  pub delay_expiration_time : ℕ
  pub next_polling_time : ℕ
  pub calls : List Call

-- The constructor. `m_delayExpirationTime` and `m_tase2client` have no initial value in the code;
-- the connection's own thread writes both before it reads them. `none` stands for the client that
-- was never written.
abbrev pub new_connection : String → ℤ → Bool → Option OsiParameters → Connection
new_connection ip port tls osi = record {
  server_ip = ip;
  tcp_port = port;
  use_tls = tls;
  passive = false;
  osi_parameters = osi;
  endpoint = none;
  tase2client = none;
  tls_config = none;
  datasets = [];
  dsts = [];
  state = idle;
  is_connected = false;
  is_connecting = false;
  connect = false;
  started = false;
  delay_expiration_time = 0;
  next_polling_time = 0;
  calls = [];
}

abbrev pub disconnected : Connection → Bool
disconnected c = not c.is_connecting && not c.is_connected

-- What the system and the library answer in one round: the clock, the files that access (R_OK)
-- can read and the data directory, what the TLS functions return for a file, the handles that are
-- created (`none` for null), the uninitialised `error` of the connect branch compared with
-- TASE2_CLIENT_ERROR_OK, and the endpoint's state compared with TASE2_ENDPOINT_STATE_CONNECTED.
pub record Library : Type 0 where
  pub now : ℕ
  pub data_dir : String
  pub can_read : String → Bool
  pub tls_config_handle : ℕ
  pub own_key_loads : String → Bool
  pub own_certificate_loads : String → Bool
  pub allowed_certificate_loads : String → Bool
  pub ca_certificate_loads : String → Bool
  pub endpoint_handle : Option ℕ
  pub client_handle : Option ℕ
  pub error_is_ok : Bool
  pub endpoint_connected : Bool
  pub data_set_created : String → String → Bool
  pub transfer_set_handle : ℕ → Option ℕ
  pub data_set_handle : String → String → Option ℕ
  pub values_written : ℕ → Bool

abbrev pub record_call : Connection → Call → Connection
record_call c call = record c { calls = c.calls ++ call ∷ [] }

abbrev pub record_calls : Connection → List Call → Connection
record_calls c calls = record c { calls = c.calls ++ calls }
