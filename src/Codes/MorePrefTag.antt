-- ===== src/Codes/MorePrefTag.antt =====
-- core/ec/codes.h: tag names of preferences: servers to Kademlia.
use amule_remote_qt.Base.{ℕ}

abbrev pub prefs_servers : ℕ
prefs_servers = 0x1700

abbrev pub servers_remove_dead : ℕ
servers_remove_dead = 0x1701

abbrev pub servers_dead_server_retries : ℕ
servers_dead_server_retries = 0x1702

abbrev pub servers_auto_update : ℕ
servers_auto_update = 0x1703

abbrev pub servers_add_from_server : ℕ
servers_add_from_server = 0x1705

abbrev pub servers_add_from_client : ℕ
servers_add_from_client = 0x1706

abbrev pub servers_use_score_system : ℕ
servers_use_score_system = 0x1707

abbrev pub servers_smart_id_check : ℕ
servers_smart_id_check = 0x1708

abbrev pub servers_safe_server_connect : ℕ
servers_safe_server_connect = 0x1709

abbrev pub servers_autoconn_static_only : ℕ
servers_autoconn_static_only = 0x170a

abbrev pub servers_manual_high_prio : ℕ
servers_manual_high_prio = 0x170b

abbrev pub servers_update_url : ℕ
servers_update_url = 0x170c

abbrev pub prefs_files : ℕ
prefs_files = 0x1800

abbrev pub files_ich_enabled : ℕ
files_ich_enabled = 0x1801

abbrev pub files_aich_trust : ℕ
files_aich_trust = 0x1802

abbrev pub files_new_paused : ℕ
files_new_paused = 0x1803

abbrev pub files_new_auto_dl_prio : ℕ
files_new_auto_dl_prio = 0x1804

abbrev pub files_preview_prio : ℕ
files_preview_prio = 0x1805

abbrev pub files_new_auto_ul_prio : ℕ
files_new_auto_ul_prio = 0x1806

abbrev pub files_ul_full_chunks : ℕ
files_ul_full_chunks = 0x1807

abbrev pub files_start_next_paused : ℕ
files_start_next_paused = 0x1808

abbrev pub files_resume_same_cat : ℕ
files_resume_same_cat = 0x1809

abbrev pub files_save_sources : ℕ
files_save_sources = 0x180a

abbrev pub files_extract_metadata : ℕ
files_extract_metadata = 0x180b

abbrev pub files_alloc_full_size : ℕ
files_alloc_full_size = 0x180c

abbrev pub files_check_free_space : ℕ
files_check_free_space = 0x180d

abbrev pub files_min_free_space : ℕ
files_min_free_space = 0x180e

abbrev pub prefs_directories : ℕ
prefs_directories = 0x1a00

abbrev pub directories_incoming : ℕ
directories_incoming = 0x1a01

abbrev pub directories_temp : ℕ
directories_temp = 0x1a02

abbrev pub directories_shared : ℕ
directories_shared = 0x1a03

abbrev pub directories_share_hidden : ℕ
directories_share_hidden = 0x1a04

abbrev pub directories_auto_rescan : ℕ
directories_auto_rescan = 0x1a05

abbrev pub prefs_security : ℕ
prefs_security = 0x1c00

abbrev pub security_can_see_shares : ℕ
security_can_see_shares = 0x1c01

abbrev pub ipfilter_clients : ℕ
ipfilter_clients = 0x1c02

abbrev pub ipfilter_servers : ℕ
ipfilter_servers = 0x1c03

abbrev pub ipfilter_auto_update : ℕ
ipfilter_auto_update = 0x1c04

abbrev pub ipfilter_update_url : ℕ
ipfilter_update_url = 0x1c05

abbrev pub ipfilter_level : ℕ
ipfilter_level = 0x1c06

abbrev pub ipfilter_filter_lan : ℕ
ipfilter_filter_lan = 0x1c07

abbrev pub security_use_secident : ℕ
security_use_secident = 0x1c08

abbrev pub security_obfuscation_supported : ℕ
security_obfuscation_supported = 0x1c09

abbrev pub security_obfuscation_requested : ℕ
security_obfuscation_requested = 0x1c0a

abbrev pub security_obfuscation_required : ℕ
security_obfuscation_required = 0x1c0b

abbrev pub prefs_coretweaks : ℕ
prefs_coretweaks = 0x1d00

abbrev pub coretw_max_conn_per_five : ℕ
coretw_max_conn_per_five = 0x1d01

abbrev pub coretw_verbose : ℕ
coretw_verbose = 0x1d02

abbrev pub coretw_filebuffer : ℕ
coretw_filebuffer = 0x1d03

abbrev pub coretw_ul_queue : ℕ
coretw_ul_queue = 0x1d04

abbrev pub coretw_srv_keepalive_timeout : ℕ
coretw_srv_keepalive_timeout = 0x1d05

abbrev pub prefs_kademlia : ℕ
prefs_kademlia = 0x1e00

abbrev pub kademlia_update_url : ℕ
kademlia_update_url = 0x1e01
