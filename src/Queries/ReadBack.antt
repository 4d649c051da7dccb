-- ===== src/Queries/ReadBack.antt =====
-- `fetchPrefs` against `setPrefs`: what a request that writes preferences would read back as.
use amule_remote_qt.Base.{◌≡◌, refl, ap, ◌∙◌, Bool, true, false, not, [], ◌==◌}
use amule_remote_qt.Ec.Tag.{find}
use amule_remote_qt.Model.Prefs.{DaemonPrefs}
use amule_remote_qt.Queries.ReadPrefs.{
  prefs_of, read_general, read_connections, read_files, read_directories, read_servers,
  read_security, read_messagefilter, read_remotectrl, read_onlinesig, read_coretweaks,
  read_kademlia,
}
use amule_remote_qt.Queries.WritePrefs.{
  bit, set_prefs_request, write_general, write_connections, write_files, write_directories,
  write_servers, write_security, write_messagefilter, write_remotectrl, write_onlinesig,
  write_coretweaks, write_kademlia,
}

bit-flag : (b : Bool) → not (bit b == 0) ≡ b
bit-flag true = refl
bit-flag false = refl

-- The fields that stand: all numbers and texts that are sent, and the flags that are read as
-- numbers. Flags that are read by presence turn true, and what is not sent turns to its default.
abbrev pub read_back : DaemonPrefs → DaemonPrefs
read_back p = record p {
  loaded = true;
  download_capacity = 0;
  upload_capacity = 0;
  udp_disable = true;
  network_ed2k = true;
  network_kad = true;
  autoconnect = true;
  reconnect = true;
  ich_enabled = true;
  aich_trust = true;
  add_new_paused = true;
  add_new_auto_dl_prio = true;
  preview_prio = true;
  add_new_auto_ul_prio = true;
  ul_full_chunks = true;
  start_next_paused = true;
  resume_same_category = true;
  save_sources = true;
  extract_metadata = true;
  alloc_full_size = true;
  check_free_space = true;
  remove_dead_servers = true;
  server_auto_update = true;
  update_from_server = true;
  update_from_client = true;
  use_score_system = true;
  smart_id_check = true;
  safe_server_connect = true;
  auto_connect_static_only = true;
  manual_high_prio = true;
  server_list_url = [];
  filter_clients = true;
  filter_servers = true;
  ipfilter_auto_update = true;
  filter_lan = true;
  use_sec_ident = true;
  obfuscation_supported = false;
  obfuscation_requested = true;
  obfuscation_required = true;
  msg_filter_enabled = true;
  msg_filter_all = true;
  msg_filter_friends = true;
  msg_filter_secure = true;
  msg_filter_by_keyword = true;
  webserver_autorun = true;
  webserver_guest = true;
  webserver_gzip = true;
  online_signature_enabled = true;
  verbose = true;
}

-- Every number, text and number-valued flag that `setPrefs` sends stands under the tag from which
-- `fetchPrefs` reads the same field. The other flags are there whether set or not, and the line
-- capacities, the server list's URL and the obfuscation capability are not sent at all.
pub prefs_of-set_prefs_request : (p : DaemonPrefs) → prefs_of (set_prefs_request p) ≡ read_back p
unfolding prefs_of set_prefs_request find read_general read_connections read_files read_directories
    read_servers read_security read_messagefilter read_remotectrl read_onlinesig read_coretweaks
    read_kademlia write_general write_connections write_files write_directories write_servers
    write_security write_messagefilter write_remotectrl write_onlinesig write_coretweaks
    write_kademlia
prefs_of-set_prefs_request p =
    ap
      (λ b. record (read_back p) {
        check_new_version = b;
        share_hidden = not (bit p.share_hidden == 0);
        auto_rescan = not (bit p.auto_rescan == 0);
      })
      (bit-flag p.check_new_version)
    ∙ ap
        (λ b. record (read_back p) { share_hidden = b; auto_rescan = not (bit p.auto_rescan == 0) })
        (bit-flag p.share_hidden)
    ∙ ap (λ b. record (read_back p) { auto_rescan = b }) (bit-flag p.auto_rescan)
