-- ===== src/Model/Prefs.antt =====
-- core/model/model.h: the daemon's preferences.
use amule_remote_qt.Base.{ℕ, Bool, false, []}
use amule_remote_qt.Ec.Bytes.{Text}

pub record DaemonPrefs : Type 0 where
  pub loaded : Bool
  pub nick : Text
  pub check_new_version : Bool
  pub download_capacity : ℕ
  pub upload_capacity : ℕ
  pub max_download : ℕ
  pub max_upload : ℕ
  pub slot_allocation : ℕ
  pub tcp_port : ℕ
  pub udp_port : ℕ
  pub udp_disable : Bool
  pub max_sources : ℕ
  pub max_connections : ℕ
  pub network_ed2k : Bool
  pub network_kad : Bool
  pub autoconnect : Bool
  pub reconnect : Bool
  pub ich_enabled : Bool
  pub aich_trust : Bool
  pub add_new_paused : Bool
  pub add_new_auto_dl_prio : Bool
  pub preview_prio : Bool
  pub add_new_auto_ul_prio : Bool
  pub ul_full_chunks : Bool
  pub start_next_paused : Bool
  pub resume_same_category : Bool
  pub save_sources : Bool
  pub extract_metadata : Bool
  pub alloc_full_size : Bool
  pub check_free_space : Bool
  pub min_free_space_mb : ℕ
  pub incoming_dir : Text
  pub temp_dir : Text
  pub share_hidden : Bool
  pub auto_rescan : Bool
  pub remove_dead_servers : Bool
  pub dead_server_retries : ℕ
  pub server_auto_update : Bool
  pub update_from_server : Bool
  pub update_from_client : Bool
  pub use_score_system : Bool
  pub smart_id_check : Bool
  pub safe_server_connect : Bool
  pub auto_connect_static_only : Bool
  pub manual_high_prio : Bool
  pub server_list_url : Text
  pub can_see_shares : ℕ
  pub filter_clients : Bool
  pub filter_servers : Bool
  pub ipfilter_auto_update : Bool
  pub ipfilter_url : Text
  pub ipfilter_level : ℕ
  pub filter_lan : Bool
  pub use_sec_ident : Bool
  pub obfuscation_supported : Bool
  pub obfuscation_requested : Bool
  pub obfuscation_required : Bool
  pub msg_filter_enabled : Bool
  pub msg_filter_all : Bool
  pub msg_filter_friends : Bool
  pub msg_filter_secure : Bool
  pub msg_filter_by_keyword : Bool
  pub msg_keywords : Text
  pub webserver_autorun : Bool
  pub webserver_port : ℕ
  pub webserver_guest : Bool
  pub webserver_gzip : Bool
  pub webserver_refresh : ℕ
  pub webserver_template : Text
  pub online_signature_enabled : Bool
  pub max_conn_per_5_sec : ℕ
  pub verbose : Bool
  pub file_buffer_size : ℕ
  pub upload_queue_size : ℕ
  pub server_keepalive_timeout : ℕ
  pub kad_nodes_url : Text

-- The members' initial values.
abbrev pub new_daemon_prefs : DaemonPrefs
new_daemon_prefs = record {
  loaded = false;
  nick = [];
  check_new_version = false;
  download_capacity = 0;
  upload_capacity = 0;
  max_download = 0;
  max_upload = 0;
  slot_allocation = 0;
  tcp_port = 0;
  udp_port = 0;
  udp_disable = false;
  max_sources = 0;
  max_connections = 0;
  network_ed2k = false;
  network_kad = false;
  autoconnect = false;
  reconnect = false;
  ich_enabled = false;
  aich_trust = false;
  add_new_paused = false;
  add_new_auto_dl_prio = false;
  preview_prio = false;
  add_new_auto_ul_prio = false;
  ul_full_chunks = false;
  start_next_paused = false;
  resume_same_category = false;
  save_sources = false;
  extract_metadata = false;
  alloc_full_size = false;
  check_free_space = false;
  min_free_space_mb = 0;
  incoming_dir = [];
  temp_dir = [];
  share_hidden = false;
  auto_rescan = false;
  remove_dead_servers = false;
  dead_server_retries = 0;
  server_auto_update = false;
  update_from_server = false;
  update_from_client = false;
  use_score_system = false;
  smart_id_check = false;
  safe_server_connect = false;
  auto_connect_static_only = false;
  manual_high_prio = false;
  server_list_url = [];
  can_see_shares = 0;
  filter_clients = false;
  filter_servers = false;
  ipfilter_auto_update = false;
  ipfilter_url = [];
  ipfilter_level = 0;
  filter_lan = false;
  use_sec_ident = false;
  obfuscation_supported = false;
  obfuscation_requested = false;
  obfuscation_required = false;
  msg_filter_enabled = false;
  msg_filter_all = false;
  msg_filter_friends = false;
  msg_filter_secure = false;
  msg_filter_by_keyword = false;
  msg_keywords = [];
  webserver_autorun = false;
  webserver_port = 0;
  webserver_guest = false;
  webserver_gzip = false;
  webserver_refresh = 0;
  webserver_template = [];
  online_signature_enabled = false;
  max_conn_per_5_sec = 0;
  verbose = false;
  file_buffer_size = 0;
  upload_queue_size = 0;
  server_keepalive_timeout = 0;
  kad_nodes_url = [];
}
