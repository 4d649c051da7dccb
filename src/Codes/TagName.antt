-- ===== src/Codes/TagName.antt =====
-- core/ec/codes.h: tag names of the session, peer clients, servers and statistics.
use amule_remote_qt.Base.{ℕ}

abbrev pub string : ℕ
string = 0x0000

abbrev pub passwd_hash : ℕ
passwd_hash = 0x0001

abbrev pub protocol_version : ℕ
protocol_version = 0x0002

abbrev pub detail_level : ℕ
detail_level = 0x0004

abbrev pub connstate : ℕ
connstate = 0x0005

abbrev pub passwd_salt : ℕ
passwd_salt = 0x000b

abbrev pub can_zlib : ℕ
can_zlib = 0x000c

abbrev pub can_utf8_numbers : ℕ
can_utf8_numbers = 0x000d

abbrev pub can_notify : ℕ
can_notify = 0x000e

abbrev pub can_large_tag_count : ℕ
can_large_tag_count = 0x0011

abbrev pub can_partial_update : ℕ
can_partial_update = 0x0012

abbrev pub client_name : ℕ
client_name = 0x0100

abbrev pub client_version : ℕ
client_version = 0x0101

abbrev pub client : ℕ
client = 0x0600

abbrev pub client_download_total : ℕ
client_download_total = 0x060b

abbrev pub client_download_state : ℕ
client_download_state = 0x060c

abbrev pub client_down_speed : ℕ
client_down_speed = 0x060e

abbrev pub client_from : ℕ
client_from = 0x060f

abbrev pub client_user_ip : ℕ
client_user_ip = 0x0610

abbrev pub client_user_port : ℕ
client_user_port = 0x0611

abbrev pub client_soft_ver_str : ℕ
client_soft_ver_str = 0x0615

abbrev pub client_request_file : ℕ
client_request_file = 0x0620

abbrev pub client_remote_filename : ℕ
client_remote_filename = 0x0627

abbrev pub client_available_parts : ℕ
client_available_parts = 0x062a

abbrev pub server : ℕ
server = 0x0500

abbrev pub server_name : ℕ
server_name = 0x0501

abbrev pub server_desc : ℕ
server_desc = 0x0502

abbrev pub server_address : ℕ
server_address = 0x0503

abbrev pub server_ping : ℕ
server_ping = 0x0504

abbrev pub server_users : ℕ
server_users = 0x0505

abbrev pub server_users_max : ℕ
server_users_max = 0x0506

abbrev pub server_files : ℕ
server_files = 0x0507

abbrev pub server_prio : ℕ
server_prio = 0x0508

abbrev pub server_failed : ℕ
server_failed = 0x0509

abbrev pub server_static : ℕ
server_static = 0x050a

abbrev pub server_version : ℕ
server_version = 0x050b

abbrev pub server_ip : ℕ
server_ip = 0x050c

abbrev pub server_port : ℕ
server_port = 0x050d

abbrev pub stats_ul_speed : ℕ
stats_ul_speed = 0x0200

abbrev pub stats_dl_speed : ℕ
stats_dl_speed = 0x0201

abbrev pub stats_ul_speed_limit : ℕ
stats_ul_speed_limit = 0x0202

abbrev pub stats_dl_speed_limit : ℕ
stats_dl_speed_limit = 0x0203

abbrev pub stats_total_src_count : ℕ
stats_total_src_count = 0x0206

abbrev pub stats_ed2k_users : ℕ
stats_ed2k_users = 0x0209

abbrev pub stats_kad_users : ℕ
stats_kad_users = 0x020a

abbrev pub stats_ed2k_files : ℕ
stats_ed2k_files = 0x020b

abbrev pub stats_kad_files : ℕ
stats_kad_files = 0x020c

abbrev pub stats_ed2k_id : ℕ
stats_ed2k_id = 0x0213
