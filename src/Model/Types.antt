-- ===== src/Model/Types.antt =====
-- core/model/model.h: the state of the daemon that is shown. A `double` is its 64-bit pattern.
use amule_remote_qt.Base.{ℕ, Bool, false, List, [], replicate}
use amule_remote_qt.Ec.Bytes.{Bytes, Text}
use amule_remote_qt.Ec.Tag.{Hash16}

pub data SearchKind : Type 0 where
  global kad local : SearchKind

pub record Stats : Type 0 where
  pub ul_speed : ℕ
  pub dl_speed : ℕ
  pub ul_speed_limit : ℕ
  pub dl_speed_limit : ℕ
  pub total_source_count : ℕ
  pub ed2k_users : ℕ
  pub kad_users : ℕ
  pub ed2k_files : ℕ
  pub kad_files : ℕ
  pub ed2k_id : ℕ

-- The members' initial values.
abbrev pub new_stats : Stats
new_stats = record {
  ul_speed = 0;
  dl_speed = 0;
  ul_speed_limit = 0;
  dl_speed_limit = 0;
  total_source_count = 0;
  ed2k_users = 0;
  kad_users = 0;
  ed2k_files = 0;
  kad_files = 0;
  ed2k_id = 0;
}

pub record Download : Type 0 where
  pub ecid : ℕ
  pub part_met_id : ℕ
  pub hash : Hash16
  pub name : Text
  pub size_full : ℕ
  pub size_done : ℕ
  pub speed : ℕ
  pub status : ℕ
  pub priority : ℕ
  pub source_count : ℕ
  pub source_count_xfer : ℕ
  pub ed2k_link : Text
  pub source_names : List (Text × ℕ)

-- The members' initial values.
abbrev pub new_download : Download
new_download = record {
  ecid = 0;
  part_met_id = 0;
  hash = replicate 16 0;
  name = [];
  size_full = 0;
  size_done = 0;
  speed = 0;
  status = 0;
  priority = 0;
  source_count = 0;
  source_count_xfer = 0;
  ed2k_link = [];
  source_names = [];
}

pub record SourceClient : Type 0 where
  pub id : ℕ
  pub file_ecid : ℕ
  pub name : Text
  pub soft_ver : Text
  pub user_ip : ℕ
  pub user_port : ℕ
  pub down_speed : ℕ
  pub downloaded : ℕ
  pub down_state : ℕ
  pub origin : ℕ
  pub avail_parts : ℕ
  pub remote_name : Text

-- The members' initial values.
abbrev pub new_source_client : SourceClient
new_source_client = record {
  id = 0;
  file_ecid = 0;
  name = [];
  soft_ver = [];
  user_ip = 0;
  user_port = 0;
  down_speed = 0;
  downloaded = 0;
  down_state = 0;
  origin = 0;
  avail_parts = 0;
  remote_name = [];
}

pub record SearchParams : Type 0 where
  pub text : Text
  pub kind : SearchKind
  pub file_type : Text
  pub min_size : ℕ
  pub max_size : ℕ

-- The members' initial values.
abbrev pub new_search_params : SearchParams
new_search_params = record { text = []; kind = global; file_type = []; min_size = 0; max_size = 0 }

pub record SearchResult : Type 0 where
  pub ecid : ℕ
  pub hash : Hash16
  pub name : Text
  pub size : ℕ
  pub source_count : ℕ
  pub complete_source_count : ℕ

-- The members' initial values.
abbrev pub new_search_result : SearchResult
new_search_result = record {
  ecid = 0;
  hash = replicate 16 0;
  name = [];
  size = 0;
  source_count = 0;
  complete_source_count = 0;
}

pub record Server : Type 0 where
  pub ip : Bytes
  pub port : ℕ
  pub name : Text
  pub description : Text
  pub users : ℕ
  pub max_users : ℕ
  pub files : ℕ
  pub ping : ℕ
  pub priority : ℕ
  pub failed : ℕ
  pub is_static : Bool
  pub version : Text

-- The members' initial values.
abbrev pub new_server : Server
new_server = record {
  ip = replicate 4 0;
  port = 0;
  name = [];
  description = [];
  users = 0;
  max_users = 0;
  files = 0;
  ping = 0;
  priority = 0;
  failed = 0;
  is_static = false;
  version = [];
}

pub record SharedFile : Type 0 where
  pub hash : Hash16
  pub name : Text
  pub size : ℕ
  pub request_count : ℕ
  pub accept_count : ℕ
  pub transferred : ℕ
  pub complete_sources : ℕ
  pub ed2k_link : Text

-- The members' initial values.
abbrev pub new_shared_file : SharedFile
new_shared_file = record {
  hash = replicate 16 0;
  name = [];
  size = 0;
  request_count = 0;
  accept_count = 0;
  transferred = 0;
  complete_sources = 0;
  ed2k_link = [];
}

pub record ConnState : Type 0 where
  pub ed2k_connected : Bool
  pub ed2k_server : Text
  pub kad_connected : Bool

-- The members' initial values.
abbrev pub new_conn_state : ConnState
new_conn_state = record { ed2k_connected = false; ed2k_server = []; kad_connected = false }
