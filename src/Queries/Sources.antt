-- ===== src/Queries/Sources.antt =====
-- `mergeClient` and `fetchClientUpdate` of core/ec/queries.cpp. The map from EC ids to sources is
-- an association list.
pub mod Update
pub mod Consistent
use amule_remote_qt.Base.{
  ℕ, ◌%◌, ◌^◌, Bool, true, false, ◌||◌, Option, none, some, List, [], ◌∷◌, ◌++◌, ◌==◌,
  if◌then◌else◌, get_or,
}
use amule_remote_qt.Codes.Op
use amule_remote_qt.Codes.Detail
use amule_remote_qt.Codes.TagName
use amule_remote_qt.Ec.Bytes.{Text}
use amule_remote_qt.Ec.Tag.{
  Tag, Tags, TagValue, nil, cons, name, value, children, integer, double, child, child_int,
  child_string, as_int, and_then, find,
}
use amule_remote_qt.Ec.Packet.{Packet}
use amule_remote_qt.Ec.Outcome.{Call, pure, bind, ◌>>=◌}
use amule_remote_qt.Model.Types.{SourceClient, new_source_client}
use amule_remote_qt.Queries.Reads.{u16, u32, detail_request}

-- `static_cast<double>` of a quint64, as the pattern of the double.
abbrev pub ToDouble : Type 0
ToDouble = ℕ → ℕ

-- The speed is a double on the wire or, where the daemon sends one, an integer.
unfoldable pub speed_value : ToDouble → ℕ → TagValue → ℕ
speed_value to_double old (double d) = d
speed_value to_double old (integer v) = to_double v
speed_value to_double old _ = old

unfoldable pub speed_of : ToDouble → ℕ → Option Tag → ℕ
speed_of to_double old none = old
speed_of to_double old (some t) = speed_value to_double old (value t)

-- A number that was sent, cut to its type, or else the old one.
abbrev pub cut_or : (ℕ → ℕ) → ℕ → Option ℕ → ℕ
cut_or cut old none = old
cut_or cut old (some v) = cut v

unfoldable pub merge_client : ToDouble → SourceClient → Tag → SourceClient
merge_client to_double c entry = record c {
  name = get_or c.name (child_string entry TagName.client_name);
  soft_ver = get_or c.soft_ver (child_string entry TagName.client_soft_ver_str);
  remote_name = get_or c.remote_name (child_string entry TagName.client_remote_filename);
  file_ecid = cut_or u32 c.file_ecid (child_int entry TagName.client_request_file);
  user_ip = cut_or u32 c.user_ip (child_int entry TagName.client_user_ip);
  user_port = cut_or u16 c.user_port (child_int entry TagName.client_user_port);
  downloaded = get_or c.downloaded (child_int entry TagName.client_download_total);
  down_state = get_or c.down_state (child_int entry TagName.client_download_state);
  origin = get_or c.origin (child_int entry TagName.client_from);
  avail_parts = get_or c.avail_parts (child_int entry TagName.client_available_parts);
  down_speed = speed_of to_double c.down_speed (child entry TagName.client_down_speed);
}

abbrev pub Sources : Type 0
Sources = List (ℕ × SourceClient)

unfoldable pub lookup : ℕ → Sources → Option SourceClient
lookup k [] = none
lookup k ((j, c) ∷ m) = if j == k then some c else lookup k m

unfoldable pub insert : ℕ → SourceClient → Sources → Sources
insert k c [] = (k, c) ∷ []
insert k c ((j, d) ∷ m) = if j == k then (k, c) ∷ m else (j, d) ∷ insert k c m

-- `std::find(ids) != ids.end()`.
unfoldable pub contains : ℕ → List ℕ → Bool
contains k [] = false
contains k (j ∷ js) = if j == k then true else contains k js

-- `std::erase_if` of the ids that are not in the list.
unfoldable pub keep_only : List ℕ → Sources → Sources
keep_only ids [] = []
keep_only ids ((j, c) ∷ m) = if contains j ids then (j, c) ∷ keep_only ids m else keep_only ids m

-- The id of an entry, where its value is a number.
unfoldable pub entry_id : Tag → Option ℕ
entry_id entry = and_then (as_int entry) (λ v. some (u32 v))

module _ (to_double : ToDouble) where
  -- `clients[id]` makes a new source where there is none.
  unfoldable pub merge_entry : ℕ → Tag → Sources → Sources
  merge_entry id entry m =
      let c = get_or new_source_client (lookup id m) in
      insert id (merge_client to_double (record c { id = id }) entry) m

  -- The loop's body: an entry with no id is passed over.
  unfoldable pub merge_one : Option ℕ → Tag → List ℕ × Sources → List ℕ × Sources
  merge_one none entry seen = seen
  merge_one (some id) entry seen = (seen.0 ++ id ∷ [], merge_entry id entry seen.1)

  -- The loop over the container's entries, with the ids seen so far.
  unfoldable pub merge_entries : Tags → List ℕ × Sources → List ℕ × Sources
  merge_entries nil seen = seen
  merge_entries (cons entry ts) seen = merge_entries ts (merge_one (entry_id entry) entry seen)

  unfoldable pub update_sources : Option Tag → Sources → Sources
  update_sources none m = m
  update_sources (some container) m =
      let (alive, merged) = merge_entries (children container) ([], m) in keep_only alive merged

  -- The map as it is after the call.
  unfoldable pub fetch_client_update :
      {S : Type 0} → (Packet → Call S Packet) → Sources → Call S Sources
  fetch_client_update send m = do
    reply ← send (detail_request Op.get_update Detail.inc_update)
    pure (update_sources (find TagName.client reply.tags) m)
