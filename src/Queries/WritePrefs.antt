-- ===== src/Queries/WritePrefs.antt =====
-- `setPrefs` of core/ec/queries.cpp: the request that writes the daemon's preferences.
use amule_remote_qt.Base.{ℕ, Bool, [], ◌∷◌, if◌then◌else◌}
use amule_remote_qt.Codes.Op
use amule_remote_qt.Codes.PrefTag
use amule_remote_qt.Codes.MorePrefTag
use amule_remote_qt.Ec.Tag.{Tag, tag, leaf, empty, integer, string, of_list}
use amule_remote_qt.Ec.Packet.{Packet}
use amule_remote_qt.Ec.Outcome.{Call}
use amule_remote_qt.Model.Prefs.{DaemonPrefs}
use amule_remote_qt.Queries.Requests.{send_discard}

-- `b`: every flag goes out as 0 or 1.
abbrev pub bit : Bool → ℕ
bit v = if v then 1 else 0

unfoldable pub write_general : DaemonPrefs → Tag
write_general p = tag PrefTag.prefs_general empty (
    of_list (
      leaf PrefTag.user_nick (string p.nick)
      ∷ leaf PrefTag.general_check_new_version (integer (bit p.check_new_version))
      ∷ []))

unfoldable pub write_connections : DaemonPrefs → Tag
write_connections p = tag PrefTag.prefs_connections empty (
    of_list (
      leaf PrefTag.conn_max_dl (integer p.max_download)
      ∷ leaf PrefTag.conn_max_ul (integer p.max_upload)
      ∷ leaf PrefTag.conn_slot_allocation (integer p.slot_allocation)
      ∷ leaf PrefTag.conn_tcp_port (integer p.tcp_port)
      ∷ leaf PrefTag.conn_udp_port (integer p.udp_port)
      ∷ leaf PrefTag.conn_udp_disable (integer (bit p.udp_disable))
      ∷ leaf PrefTag.conn_max_file_sources (integer p.max_sources)
      ∷ leaf PrefTag.conn_max_conn (integer p.max_connections)
      ∷ leaf PrefTag.conn_autoconnect (integer (bit p.autoconnect))
      ∷ leaf PrefTag.conn_reconnect (integer (bit p.reconnect))
      ∷ leaf PrefTag.network_ed2k (integer (bit p.network_ed2k))
      ∷ leaf PrefTag.network_kademlia (integer (bit p.network_kad))
      ∷ []))

unfoldable pub write_files : DaemonPrefs → Tag
write_files p = tag MorePrefTag.prefs_files empty (
    of_list (
      leaf MorePrefTag.files_ich_enabled (integer (bit p.ich_enabled))
      ∷ leaf MorePrefTag.files_aich_trust (integer (bit p.aich_trust))
      ∷ leaf MorePrefTag.files_new_paused (integer (bit p.add_new_paused))
      ∷ leaf MorePrefTag.files_new_auto_dl_prio (integer (bit p.add_new_auto_dl_prio))
      ∷ leaf MorePrefTag.files_preview_prio (integer (bit p.preview_prio))
      ∷ leaf MorePrefTag.files_new_auto_ul_prio (integer (bit p.add_new_auto_ul_prio))
      ∷ leaf MorePrefTag.files_ul_full_chunks (integer (bit p.ul_full_chunks))
      ∷ leaf MorePrefTag.files_start_next_paused (integer (bit p.start_next_paused))
      ∷ leaf MorePrefTag.files_resume_same_cat (integer (bit p.resume_same_category))
      ∷ leaf MorePrefTag.files_save_sources (integer (bit p.save_sources))
      ∷ leaf MorePrefTag.files_extract_metadata (integer (bit p.extract_metadata))
      ∷ leaf MorePrefTag.files_alloc_full_size (integer (bit p.alloc_full_size))
      ∷ leaf MorePrefTag.files_check_free_space (integer (bit p.check_free_space))
      ∷ leaf MorePrefTag.files_min_free_space (integer p.min_free_space_mb)
      ∷ []))

unfoldable pub write_directories : DaemonPrefs → Tag
write_directories p = tag MorePrefTag.prefs_directories empty (
    of_list (
      leaf MorePrefTag.directories_incoming (string p.incoming_dir)
      ∷ leaf MorePrefTag.directories_temp (string p.temp_dir)
      ∷ leaf MorePrefTag.directories_share_hidden (integer (bit p.share_hidden))
      ∷ leaf MorePrefTag.directories_auto_rescan (integer (bit p.auto_rescan))
      ∷ []))

unfoldable pub write_servers : DaemonPrefs → Tag
write_servers p = tag MorePrefTag.prefs_servers empty (
    of_list (
      leaf MorePrefTag.servers_remove_dead (integer (bit p.remove_dead_servers))
      ∷ leaf MorePrefTag.servers_dead_server_retries (integer p.dead_server_retries)
      ∷ leaf MorePrefTag.servers_auto_update (integer (bit p.server_auto_update))
      ∷ leaf MorePrefTag.servers_add_from_server (integer (bit p.update_from_server))
      ∷ leaf MorePrefTag.servers_add_from_client (integer (bit p.update_from_client))
      ∷ leaf MorePrefTag.servers_use_score_system (integer (bit p.use_score_system))
      ∷ leaf MorePrefTag.servers_smart_id_check (integer (bit p.smart_id_check))
      ∷ leaf MorePrefTag.servers_safe_server_connect (integer (bit p.safe_server_connect))
      ∷ leaf MorePrefTag.servers_autoconn_static_only (integer (bit p.auto_connect_static_only))
      ∷ leaf MorePrefTag.servers_manual_high_prio (integer (bit p.manual_high_prio))
      ∷ []))

unfoldable pub write_security : DaemonPrefs → Tag
write_security p = tag MorePrefTag.prefs_security empty (
    of_list (
      leaf MorePrefTag.security_can_see_shares (integer p.can_see_shares)
      ∷ leaf MorePrefTag.ipfilter_clients (integer (bit p.filter_clients))
      ∷ leaf MorePrefTag.ipfilter_servers (integer (bit p.filter_servers))
      ∷ leaf MorePrefTag.ipfilter_auto_update (integer (bit p.ipfilter_auto_update))
      ∷ leaf MorePrefTag.ipfilter_update_url (string p.ipfilter_url)
      ∷ leaf MorePrefTag.ipfilter_level (integer p.ipfilter_level)
      ∷ leaf MorePrefTag.ipfilter_filter_lan (integer (bit p.filter_lan))
      ∷ leaf MorePrefTag.security_use_secident (integer (bit p.use_sec_ident))
      ∷ leaf MorePrefTag.security_obfuscation_requested (integer (bit p.obfuscation_requested))
      ∷ leaf MorePrefTag.security_obfuscation_required (integer (bit p.obfuscation_required))
      ∷ []))

unfoldable pub write_messagefilter : DaemonPrefs → Tag
write_messagefilter p = tag PrefTag.prefs_messagefilter empty (
    of_list (
      leaf PrefTag.msgfilter_enabled (integer (bit p.msg_filter_enabled))
      ∷ leaf PrefTag.msgfilter_all (integer (bit p.msg_filter_all))
      ∷ leaf PrefTag.msgfilter_friends (integer (bit p.msg_filter_friends))
      ∷ leaf PrefTag.msgfilter_secure (integer (bit p.msg_filter_secure))
      ∷ leaf PrefTag.msgfilter_by_keyword (integer (bit p.msg_filter_by_keyword))
      ∷ leaf PrefTag.msgfilter_keywords (string p.msg_keywords)
      ∷ []))

unfoldable pub write_remotectrl : DaemonPrefs → Tag
write_remotectrl p = tag PrefTag.prefs_remotectrl empty (
    of_list (
      leaf PrefTag.webserver_autorun (integer (bit p.webserver_autorun))
      ∷ leaf PrefTag.webserver_port (integer p.webserver_port)
      ∷ leaf PrefTag.webserver_guest (integer (bit p.webserver_guest))
      ∷ leaf PrefTag.webserver_usegzip (integer (bit p.webserver_gzip))
      ∷ leaf PrefTag.webserver_refresh (integer p.webserver_refresh)
      ∷ leaf PrefTag.webserver_template (string p.webserver_template)
      ∷ []))

unfoldable pub write_onlinesig : DaemonPrefs → Tag
write_onlinesig p =
    tag PrefTag.prefs_onlinesig empty
      (of_list (leaf PrefTag.onlinesig_enabled (integer (bit p.online_signature_enabled)) ∷ []))

unfoldable pub write_coretweaks : DaemonPrefs → Tag
write_coretweaks p = tag MorePrefTag.prefs_coretweaks empty (
    of_list (
      leaf MorePrefTag.coretw_max_conn_per_five (integer p.max_conn_per_5_sec)
      ∷ leaf MorePrefTag.coretw_verbose (integer (bit p.verbose))
      ∷ leaf MorePrefTag.coretw_filebuffer (integer p.file_buffer_size)
      ∷ leaf MorePrefTag.coretw_ul_queue (integer p.upload_queue_size)
      ∷ leaf MorePrefTag.coretw_srv_keepalive_timeout (integer p.server_keepalive_timeout)
      ∷ []))

unfoldable pub write_kademlia : DaemonPrefs → Tag
write_kademlia p =
    tag MorePrefTag.prefs_kademlia empty
      (of_list (leaf MorePrefTag.kademlia_update_url (string p.kad_nodes_url) ∷ []))

unfoldable pub set_prefs_request : DaemonPrefs → Packet
set_prefs_request p = record {
  opcode = Op.set_preferences;
  tags = of_list (
      write_general p
      ∷ write_connections p
      ∷ write_files p
      ∷ write_directories p
      ∷ write_servers p
      ∷ write_security p
      ∷ write_messagefilter p
      ∷ write_remotectrl p
      ∷ write_onlinesig p
      ∷ write_coretweaks p
      ∷ write_kademlia p
      ∷ []);
}

unfoldable pub set_prefs : {S : Type 0} → (Packet → Call S Packet) → DaemonPrefs → Call S (Unit {0})
set_prefs send p = send_discard send (set_prefs_request p)
