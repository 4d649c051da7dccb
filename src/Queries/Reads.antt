-- ===== src/Queries/Reads.antt =====
-- The reads of core/ec/queries.cpp but preferences and sources: replies into the domain model.
pub mod LastStat
pub mod Sorting
use Prim.Native.Nat.{bit_and}
use amule_remote_qt.Base.{
  ℕ, ◌%◌, ◌^◌, Bool, true, false, not, Option, none, some, List, [], ◌∷◌, ◌++◌, map, ltb, ◌==◌,
  if◌then◌else◌, get_or, length,
}
use amule_remote_qt.Codes.Op
use amule_remote_qt.Codes.Detail
use amule_remote_qt.Codes.TagName
use amule_remote_qt.Codes.FileTag
use amule_remote_qt.Ec.Bytes.{Bytes, Text}
use amule_remote_qt.Ec.Tag.{
  Tag, Tags, TagValue, Hash16, nil, cons, leaf, name, value, children, integer, ipv4, to_list,
  child, child_int, child_string, as_int, as_hash, and_then,
}
use amule_remote_qt.Ec.Packet.{Packet, tag, tag_int}
use amule_remote_qt.Ec.Outcome.{Call, pure, ◌>>=◌}
use amule_remote_qt.Model.Types.{
  Stats, new_stats, Download, new_download, ConnState, new_conn_state, Server, new_server,
  SharedFile, new_shared_file, SearchResult, new_search_result,
}
use amule_remote_qt.Queries.ReadPrefs.{child_number, child_text}
use amule_remote_qt.Queries.Requests.{packet}

-- The casts to quint8, quint16 and quint32.
abbrev pub u8 : ℕ → ℕ
u8 n = n % 2 ^ 8

abbrev pub u16 : ℕ → ℕ
u16 n = n % 2 ^ 16

abbrev pub u32 : ℕ → ℕ
u32 n = n % 2 ^ 32

abbrev pub int_or_zero : Tag → ℕ
int_or_zero t = get_or 0 (as_int t)

-- The tags of a name, read one by one: the loops that skip other tags.
unfoldable pub collect : {A : Type 0} → ℕ → (Tag → A) → Tags → List A
collect n read nil = []
collect n read (cons t ts) = if name t == n then read t ∷ collect n read ts else collect n read ts

-- EC_TAG_PARTFILE_HASH of an entry.
abbrev pub child_hash : Tag → Option Hash16
child_hash t = and_then (child t FileTag.partfile_hash) as_hash

abbrev pub detail_request : ℕ → ℕ → Packet
detail_request op level = packet op (leaf TagName.detail_level (integer level) ∷ [])

-- The switch on a tag's name.
unfoldable pub read_stat : Tag → Stats → Stats
read_stat t s =
    let v = int_or_zero t in
    if name t == TagName.stats_ul_speed
    then record s { ul_speed = v }
    else if name t == TagName.stats_dl_speed
    then record s { dl_speed = v }
    else if name t == TagName.stats_ul_speed_limit
    then record s { ul_speed_limit = v }
    else if name t == TagName.stats_dl_speed_limit
    then record s { dl_speed_limit = v }
    else if name t == TagName.stats_total_src_count
    then record s { total_source_count = v }
    else if name t == TagName.stats_ed2k_users
    then record s { ed2k_users = v }
    else if name t == TagName.stats_kad_users
    then record s { kad_users = v }
    else if name t == TagName.stats_ed2k_files
    then record s { ed2k_files = v }
    else if name t == TagName.stats_kad_files
    then record s { kad_files = v }
    else if name t == TagName.stats_ed2k_id
    then record s { ed2k_id = u32 v }
    else s

unfoldable pub read_stats : Tags → Stats → Stats
read_stats nil s = s
read_stats (cons t ts) s = read_stats ts (read_stat t s)

-- `std::stable_sort` by falling count: an entry goes before the first one with a lower count.
unfoldable pub insert_by_count : Text × ℕ → List (Text × ℕ) → List (Text × ℕ)
insert_by_count e [] = e ∷ []
insert_by_count e (f ∷ fs) = if ltb e.1 f.1 then f ∷ insert_by_count e fs else e ∷ f ∷ fs

unfoldable pub sort_by_count : List (Text × ℕ) → List (Text × ℕ)
sort_by_count [] = []
sort_by_count (e ∷ es) = insert_by_count e (sort_by_count es)

-- The entries with a name, and their counts.
unfoldable pub source_names_of : Tags → List (Text × ℕ)
source_names_of nil = []
source_names_of (cons entry ts) =
    let found = child_text entry FileTag.partfile_source_names in
    if length found == 0
    then source_names_of ts
    else (found, child_number entry FileTag.partfile_source_names_counts) ∷ source_names_of ts

unfoldable pub sorted_names : Option Tag → List (Text × ℕ)
sorted_names none = []
sorted_names (some names) = sort_by_count (source_names_of (children names))

-- The child's hash, or else the container's own, or else the initial one.
unfoldable pub download_hash : Option Hash16 → Option Hash16 → Hash16
download_hash (some h) own = h
download_hash none own = get_or new_download.hash own

unfoldable pub read_download : Tag → Download
read_download t = record {
  ecid = u32 (int_or_zero t);
  part_met_id = u32 (child_number t FileTag.partfile_partmetid);
  hash = download_hash (child_hash t) (as_hash t);
  name = child_text t FileTag.partfile_name;
  size_full = child_number t FileTag.partfile_size_full;
  size_done = child_number t FileTag.partfile_size_done;
  speed = child_number t FileTag.partfile_speed;
  status = u8 (child_number t FileTag.partfile_status);
  priority = child_number t FileTag.partfile_prio;
  source_count = child_number t FileTag.partfile_source_count;
  source_count_xfer = child_number t FileTag.partfile_source_count_xfer;
  ed2k_link = child_text t FileTag.partfile_ed2k_link;
  source_names = sorted_names (child t FileTag.partfile_source_names);
}

unfoldable pub server_name_of : Option Tag → Text
server_name_of none = []
server_name_of (some server) = child_text server TagName.server_name

unfoldable pub read_conn_state : Option Tag → ConnState
read_conn_state none = new_conn_state
read_conn_state (some conn) =
    let flags = int_or_zero conn in
    record {
      ed2k_connected = not (bit_and flags 0x01 == 0);
      ed2k_server = server_name_of (child conn TagName.server);
      kad_connected = not (bit_and flags 0x04 == 0);
    }

abbrev pub address_of : TagValue → Bytes × ℕ
address_of (ipv4 a) = (a.ip, a.port)
address_of _ = (new_server.ip, new_server.port)

unfoldable pub read_server : Tag → Server
read_server t = record {
  ip = (address_of (value t)).0;
  port = (address_of (value t)).1;
  name = child_text t TagName.server_name;
  description = child_text t TagName.server_desc;
  users = child_number t TagName.server_users;
  max_users = child_number t TagName.server_users_max;
  files = child_number t TagName.server_files;
  ping = child_number t TagName.server_ping;
  priority = u8 (child_number t TagName.server_prio);
  failed = u8 (child_number t TagName.server_failed);
  is_static = not (child_number t TagName.server_static == 0);
  version = child_text t TagName.server_version;
}

unfoldable pub read_shared_file : Tag → SharedFile
read_shared_file t = record {
  hash = get_or new_shared_file.hash (child_hash t);
  name = child_text t FileTag.partfile_name;
  size = child_number t FileTag.partfile_size_full;
  request_count = child_number t FileTag.knownfile_req_count_all;
  accept_count = child_number t FileTag.knownfile_accept_count;
  transferred = child_number t FileTag.knownfile_xferred_all;
  complete_sources = child_number t FileTag.knownfile_complete_sources;
  ed2k_link = child_text t FileTag.partfile_ed2k_link;
}

unfoldable pub read_search_result : Tag → SearchResult
read_search_result t = record {
  ecid = u32 (int_or_zero t);
  hash = get_or new_search_result.hash (child_hash t);
  name = child_text t FileTag.partfile_name;
  size = child_number t FileTag.partfile_size_full;
  source_count = child_number t FileTag.partfile_source_count;
  complete_source_count = child_number t FileTag.partfile_source_count_xfer;
}
