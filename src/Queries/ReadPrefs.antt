-- ===== src/Queries/ReadPrefs.antt =====
-- `fetchPrefs` of core/ec/queries.cpp: the daemon's preferences out of its reply.
use Prim.Native.Nat.{bit_or}
use amule_remote_qt.Base.{ℕ, Bool, true, false, not, Option, none, some, ◌==◌, get_or, []}
use amule_remote_qt.Codes.Op
use amule_remote_qt.Codes.PrefCategory
use amule_remote_qt.Codes.PrefTag
use amule_remote_qt.Codes.MorePrefTag
use amule_remote_qt.Ec.Bytes.{Text}
use amule_remote_qt.Ec.Tag.{Tag, nil, cons, leaf, integer, child, child_int, child_string}
use amule_remote_qt.Ec.Packet.{Packet, tag}
use amule_remote_qt.Ec.Outcome.{Call, pure, ◌>>=◌}
use amule_remote_qt.Model.Prefs.{DaemonPrefs, new_daemon_prefs}

abbrev pub is_some {ℓ} : {A : Type ℓ} → Option A → Bool
is_some none = false
is_some (some a) = true

abbrev pub child_number : Tag → ℕ → ℕ
child_number t n = get_or 0 (child_int t n)

abbrev pub child_text : Tag → ℕ → Text
child_text t n = get_or [] (child_string t n)

-- The two lambdas: a flag that is the presence of a tag, and one that is a number.
abbrev pub flag : Tag → ℕ → Bool
flag t n = is_some (child t n)

abbrev pub int_flag : Tag → ℕ → Bool
int_flag t n = not (child_number t n == 0)

unfoldable pub read_general : Option Tag → DaemonPrefs → DaemonPrefs
read_general none p = p
read_general (some t) p = record p {
  nick = child_text t PrefTag.user_nick;
  check_new_version = int_flag t PrefTag.general_check_new_version;
}

unfoldable pub read_connections : Option Tag → DaemonPrefs → DaemonPrefs
read_connections none p = p
read_connections (some t) p = record p {
  download_capacity = child_number t PrefTag.conn_dl_cap;
  upload_capacity = child_number t PrefTag.conn_ul_cap;
  max_download = child_number t PrefTag.conn_max_dl;
  max_upload = child_number t PrefTag.conn_max_ul;
  slot_allocation = child_number t PrefTag.conn_slot_allocation;
  tcp_port = child_number t PrefTag.conn_tcp_port;
  udp_port = child_number t PrefTag.conn_udp_port;
  udp_disable = flag t PrefTag.conn_udp_disable;
  max_sources = child_number t PrefTag.conn_max_file_sources;
  max_connections = child_number t PrefTag.conn_max_conn;
  network_ed2k = flag t PrefTag.network_ed2k;
  network_kad = flag t PrefTag.network_kademlia;
  autoconnect = flag t PrefTag.conn_autoconnect;
  reconnect = flag t PrefTag.conn_reconnect;
}

unfoldable pub read_files : Option Tag → DaemonPrefs → DaemonPrefs
read_files none p = p
read_files (some t) p = record p {
  ich_enabled = flag t MorePrefTag.files_ich_enabled;
  aich_trust = flag t MorePrefTag.files_aich_trust;
  add_new_paused = flag t MorePrefTag.files_new_paused;
  add_new_auto_dl_prio = flag t MorePrefTag.files_new_auto_dl_prio;
  preview_prio = flag t MorePrefTag.files_preview_prio;
  add_new_auto_ul_prio = flag t MorePrefTag.files_new_auto_ul_prio;
  ul_full_chunks = flag t MorePrefTag.files_ul_full_chunks;
  start_next_paused = flag t MorePrefTag.files_start_next_paused;
  resume_same_category = flag t MorePrefTag.files_resume_same_cat;
  save_sources = flag t MorePrefTag.files_save_sources;
  extract_metadata = flag t MorePrefTag.files_extract_metadata;
  alloc_full_size = flag t MorePrefTag.files_alloc_full_size;
  check_free_space = flag t MorePrefTag.files_check_free_space;
  min_free_space_mb = child_number t MorePrefTag.files_min_free_space;
}

unfoldable pub read_directories : Option Tag → DaemonPrefs → DaemonPrefs
read_directories none p = p
read_directories (some t) p = record p {
  incoming_dir = child_text t MorePrefTag.directories_incoming;
  temp_dir = child_text t MorePrefTag.directories_temp;
  share_hidden = int_flag t MorePrefTag.directories_share_hidden;
  auto_rescan = int_flag t MorePrefTag.directories_auto_rescan;
}

unfoldable pub read_servers : Option Tag → DaemonPrefs → DaemonPrefs
read_servers none p = p
read_servers (some t) p = record p {
  remove_dead_servers = flag t MorePrefTag.servers_remove_dead;
  dead_server_retries = child_number t MorePrefTag.servers_dead_server_retries;
  server_auto_update = flag t MorePrefTag.servers_auto_update;
  update_from_server = flag t MorePrefTag.servers_add_from_server;
  update_from_client = flag t MorePrefTag.servers_add_from_client;
  use_score_system = flag t MorePrefTag.servers_use_score_system;
  smart_id_check = flag t MorePrefTag.servers_smart_id_check;
  safe_server_connect = flag t MorePrefTag.servers_safe_server_connect;
  auto_connect_static_only = flag t MorePrefTag.servers_autoconn_static_only;
  manual_high_prio = flag t MorePrefTag.servers_manual_high_prio;
  server_list_url = child_text t MorePrefTag.servers_update_url;
}

unfoldable pub read_security : Option Tag → DaemonPrefs → DaemonPrefs
read_security none p = p
read_security (some t) p = record p {
  can_see_shares = child_number t MorePrefTag.security_can_see_shares;
  filter_clients = flag t MorePrefTag.ipfilter_clients;
  filter_servers = flag t MorePrefTag.ipfilter_servers;
  ipfilter_auto_update = flag t MorePrefTag.ipfilter_auto_update;
  ipfilter_url = child_text t MorePrefTag.ipfilter_update_url;
  ipfilter_level = child_number t MorePrefTag.ipfilter_level;
  filter_lan = flag t MorePrefTag.ipfilter_filter_lan;
  use_sec_ident = flag t MorePrefTag.security_use_secident;
  obfuscation_supported = flag t MorePrefTag.security_obfuscation_supported;
  obfuscation_requested = flag t MorePrefTag.security_obfuscation_requested;
  obfuscation_required = flag t MorePrefTag.security_obfuscation_required;
}

unfoldable pub read_messagefilter : Option Tag → DaemonPrefs → DaemonPrefs
read_messagefilter none p = p
read_messagefilter (some t) p = record p {
  msg_filter_enabled = flag t PrefTag.msgfilter_enabled;
  msg_filter_all = flag t PrefTag.msgfilter_all;
  msg_filter_friends = flag t PrefTag.msgfilter_friends;
  msg_filter_secure = flag t PrefTag.msgfilter_secure;
  msg_filter_by_keyword = flag t PrefTag.msgfilter_by_keyword;
  msg_keywords = child_text t PrefTag.msgfilter_keywords;
}

unfoldable pub read_remotectrl : Option Tag → DaemonPrefs → DaemonPrefs
read_remotectrl none p = p
read_remotectrl (some t) p = record p {
  webserver_autorun = flag t PrefTag.webserver_autorun;
  webserver_port = child_number t PrefTag.webserver_port;
  webserver_guest = flag t PrefTag.webserver_guest;
  webserver_gzip = flag t PrefTag.webserver_usegzip;
  webserver_refresh = child_number t PrefTag.webserver_refresh;
  webserver_template = child_text t PrefTag.webserver_template;
}

unfoldable pub read_onlinesig : Option Tag → DaemonPrefs → DaemonPrefs
read_onlinesig none p = p
read_onlinesig (some t) p = record p { online_signature_enabled = flag t PrefTag.onlinesig_enabled }

unfoldable pub read_coretweaks : Option Tag → DaemonPrefs → DaemonPrefs
read_coretweaks none p = p
read_coretweaks (some t) p = record p {
  max_conn_per_5_sec = child_number t MorePrefTag.coretw_max_conn_per_five;
  verbose = flag t MorePrefTag.coretw_verbose;
  file_buffer_size = child_number t MorePrefTag.coretw_filebuffer;
  upload_queue_size = child_number t MorePrefTag.coretw_ul_queue;
  server_keepalive_timeout = child_number t MorePrefTag.coretw_srv_keepalive_timeout;
}

unfoldable pub read_kademlia : Option Tag → DaemonPrefs → DaemonPrefs
read_kademlia none p = p
read_kademlia (some t) p = record p { kad_nodes_url = child_text t MorePrefTag.kademlia_update_url }

abbrev pub select_all : ℕ
select_all =
    bit_or
      (bit_or
        (bit_or
          (bit_or
            (bit_or
              (bit_or
                (bit_or
                  (bit_or
                    (bit_or (bit_or PrefCategory.general PrefCategory.connections)
                      PrefCategory.messagefilter)
                    PrefCategory.remotecontrols)
                  PrefCategory.onlinesig)
                PrefCategory.servers)
              PrefCategory.files)
            PrefCategory.directories)
          PrefCategory.security)
        PrefCategory.coretweaks)
      PrefCategory.kademlia

unfoldable pub prefs_request : Packet
prefs_request = record {
  opcode = Op.get_preferences;
  tags = cons (leaf PrefTag.select_prefs (integer select_all)) nil;
}

-- The blocks that read the categories, in the order of the source.
unfoldable pub prefs_of : Packet → DaemonPrefs
prefs_of reply =
    let p0 : DaemonPrefs = record new_daemon_prefs { loaded = true } in
    let p1 = read_general (tag reply PrefTag.prefs_general) p0 in
    let p2 = read_connections (tag reply PrefTag.prefs_connections) p1 in
    let p3 = read_files (tag reply MorePrefTag.prefs_files) p2 in
    let p4 = read_directories (tag reply MorePrefTag.prefs_directories) p3 in
    let p5 = read_servers (tag reply MorePrefTag.prefs_servers) p4 in
    let p6 = read_security (tag reply MorePrefTag.prefs_security) p5 in
    let p7 = read_messagefilter (tag reply PrefTag.prefs_messagefilter) p6 in
    let p8 = read_remotectrl (tag reply PrefTag.prefs_remotectrl) p7 in
    let p9 = read_onlinesig (tag reply PrefTag.prefs_onlinesig) p8 in
    let p10 = read_coretweaks (tag reply MorePrefTag.prefs_coretweaks) p9 in
    let p11 = read_kademlia (tag reply MorePrefTag.prefs_kademlia) p10 in p11

unfoldable pub fetch_prefs : {S : Type 0} → (Packet → Call S Packet) → Call S DaemonPrefs
fetch_prefs send = do reply ← send prefs_request; pure (prefs_of reply)
