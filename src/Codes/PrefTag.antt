-- ===== src/Codes/PrefTag.antt =====
-- core/ec/codes.h: tag names of preferences: general to online signature.
use amule_remote_qt.Base.{ℕ}

abbrev pub select_prefs : ℕ
select_prefs = 0x1000

abbrev pub prefs_general : ℕ
prefs_general = 0x1200

abbrev pub user_nick : ℕ
user_nick = 0x1201

abbrev pub user_hash : ℕ
user_hash = 0x1202

abbrev pub user_host : ℕ
user_host = 0x1203

abbrev pub general_check_new_version : ℕ
general_check_new_version = 0x1204

abbrev pub prefs_connections : ℕ
prefs_connections = 0x1300

abbrev pub conn_dl_cap : ℕ
conn_dl_cap = 0x1301

abbrev pub conn_ul_cap : ℕ
conn_ul_cap = 0x1302

abbrev pub conn_max_dl : ℕ
conn_max_dl = 0x1303

abbrev pub conn_max_ul : ℕ
conn_max_ul = 0x1304

abbrev pub conn_slot_allocation : ℕ
conn_slot_allocation = 0x1305

abbrev pub conn_tcp_port : ℕ
conn_tcp_port = 0x1306

abbrev pub conn_udp_port : ℕ
conn_udp_port = 0x1307

abbrev pub conn_udp_disable : ℕ
conn_udp_disable = 0x1308

abbrev pub conn_max_file_sources : ℕ
conn_max_file_sources = 0x1309

abbrev pub conn_max_conn : ℕ
conn_max_conn = 0x130a

abbrev pub conn_autoconnect : ℕ
conn_autoconnect = 0x130b

abbrev pub conn_reconnect : ℕ
conn_reconnect = 0x130c

abbrev pub network_ed2k : ℕ
network_ed2k = 0x130d

abbrev pub network_kademlia : ℕ
network_kademlia = 0x130e

abbrev pub prefs_messagefilter : ℕ
prefs_messagefilter = 0x1400

abbrev pub msgfilter_enabled : ℕ
msgfilter_enabled = 0x1401

abbrev pub msgfilter_all : ℕ
msgfilter_all = 0x1402

abbrev pub msgfilter_friends : ℕ
msgfilter_friends = 0x1403

abbrev pub msgfilter_secure : ℕ
msgfilter_secure = 0x1404

abbrev pub msgfilter_by_keyword : ℕ
msgfilter_by_keyword = 0x1405

abbrev pub msgfilter_keywords : ℕ
msgfilter_keywords = 0x1406

abbrev pub prefs_remotectrl : ℕ
prefs_remotectrl = 0x1500

abbrev pub webserver_autorun : ℕ
webserver_autorun = 0x1501

abbrev pub webserver_port : ℕ
webserver_port = 0x1502

abbrev pub webserver_guest : ℕ
webserver_guest = 0x1503

abbrev pub webserver_usegzip : ℕ
webserver_usegzip = 0x1504

abbrev pub webserver_refresh : ℕ
webserver_refresh = 0x1505

abbrev pub webserver_template : ℕ
webserver_template = 0x1506

abbrev pub prefs_onlinesig : ℕ
prefs_onlinesig = 0x1600

abbrev pub onlinesig_enabled : ℕ
onlinesig_enabled = 0x1601
