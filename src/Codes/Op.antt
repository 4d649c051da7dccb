-- ===== src/Codes/Op.antt =====
-- core/ec/codes.h: opcodes.
use amule_remote_qt.Base.{ℕ}

abbrev pub noop : ℕ
noop = 0x01

abbrev pub auth_req : ℕ
auth_req = 0x02

abbrev pub auth_fail : ℕ
auth_fail = 0x03

abbrev pub auth_ok : ℕ
auth_ok = 0x04

abbrev pub failed : ℕ
failed = 0x05

abbrev pub strings : ℕ
strings = 0x06

abbrev pub misc_data : ℕ
misc_data = 0x07

abbrev pub shutdown : ℕ
shutdown = 0x08

abbrev pub add_link : ℕ
add_link = 0x09

abbrev pub stat_req : ℕ
stat_req = 0x0a

abbrev pub get_connstate : ℕ
get_connstate = 0x0b

abbrev pub stats : ℕ
stats = 0x0c

abbrev pub get_dload_queue : ℕ
get_dload_queue = 0x0d

abbrev pub get_uload_queue : ℕ
get_uload_queue = 0x0e

abbrev pub get_shared_files : ℕ
get_shared_files = 0x10

abbrev pub partfile_pause : ℕ
partfile_pause = 0x19

abbrev pub partfile_resume : ℕ
partfile_resume = 0x1a

abbrev pub partfile_stop : ℕ
partfile_stop = 0x1b

abbrev pub partfile_prio_set : ℕ
partfile_prio_set = 0x1c

abbrev pub partfile_delete : ℕ
partfile_delete = 0x1d

abbrev pub dload_queue : ℕ
dload_queue = 0x1f

abbrev pub uload_queue : ℕ
uload_queue = 0x20

abbrev pub shared_files : ℕ
shared_files = 0x22

abbrev pub sharedfiles_reload : ℕ
sharedfiles_reload = 0x23

abbrev pub search_start : ℕ
search_start = 0x26

abbrev pub search_stop : ℕ
search_stop = 0x27

abbrev pub search_results : ℕ
search_results = 0x28

abbrev pub search_progress : ℕ
search_progress = 0x29

abbrev pub download_search_result : ℕ
download_search_result = 0x2a

abbrev pub get_server_list : ℕ
get_server_list = 0x2c

abbrev pub server_list : ℕ
server_list = 0x2d

abbrev pub server_disconnect : ℕ
server_disconnect = 0x2e

abbrev pub server_connect : ℕ
server_connect = 0x2f

abbrev pub server_remove : ℕ
server_remove = 0x30

abbrev pub server_add : ℕ
server_add = 0x31

abbrev pub server_update_from_url : ℕ
server_update_from_url = 0x32

abbrev pub get_preferences : ℕ
get_preferences = 0x3f

abbrev pub set_preferences : ℕ
set_preferences = 0x40

abbrev pub kad_start : ℕ
kad_start = 0x48

abbrev pub kad_stop : ℕ
kad_stop = 0x49

abbrev pub connect : ℕ
connect = 0x4a

abbrev pub disconnect : ℕ
disconnect = 0x4b

abbrev pub auth_salt : ℕ
auth_salt = 0x4f

abbrev pub auth_passwd : ℕ
auth_passwd = 0x50

abbrev pub get_update : ℕ
get_update = 0x52

abbrev pub clear_completed : ℕ
clear_completed = 0x53
