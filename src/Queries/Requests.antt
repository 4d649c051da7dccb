-- ===== src/Queries/Requests.antt =====
-- The commands of core/ec/queries.cpp: one request each. `send` is EcClient::exchange.
use amule_remote_qt.Base.{ℕ, [], ◌∷◌, ◌++◌, ltb, ◌==◌, if◌then◌else◌, get_or, List}
use amule_remote_qt.Codes.Op
use amule_remote_qt.Codes.TagName
use amule_remote_qt.Codes.FileTag
use amule_remote_qt.Codes.SearchScope
use amule_remote_qt.Ec.Bytes.{Bytes, Text, text}
use amule_remote_qt.Ec.Tag.{Tag, Hash16, leaf, with_children, of_list, integer, string, hash, ipv4}
use amule_remote_qt.Ec.Packet.{Packet, tag_string}
use amule_remote_qt.Ec.Outcome.{Call, remote, pure, throw, ◌>>=◌}
use amule_remote_qt.Model.Types.{SearchKind, global, kad, local, SearchParams}

abbrev pub packet : ℕ → List Tag → Packet
packet op ts = record { opcode = op; tags = of_list ts }

-- `searchKindValue` of core/model/model.cpp.
unfoldable pub search_kind_value : SearchKind → ℕ
search_kind_value global = SearchScope.global
search_kind_value kad = SearchScope.kad
search_kind_value local = SearchScope.local

-- The root tag of a search: a bound that is 0 is left out.
unfoldable pub search_root : SearchParams → Tag
search_root params =
    with_children (leaf FileTag.search_type (integer (search_kind_value params.kind))) (
      of_list (
        leaf FileTag.search_name (string params.text)
        ∷ (leaf FileTag.search_file_type (string params.file_type)
            ∷ ((if ltb 0 params.min_size
                  then leaf FileTag.search_min_size (integer params.min_size) ∷ []
                  else [])
                ++ (if ltb 0 params.max_size
                    then leaf FileTag.search_max_size (integer params.max_size) ∷ []
                    else [])))))

abbrev pub server_tag : Bytes → ℕ → Tag
server_tag ip port = leaf TagName.server (ipv4 (record { ip = ip; port = port }))

-- The reply EC_OP_FAILED is an error that carries the daemon's text.
unfoldable pub refuse_failed : {S : Type 0} → Text → Packet → Call S (Unit {0})
refuse_failed message reply =
    if reply.opcode == Op.failed
    then throw remote (get_or message (tag_string reply TagName.string))
    else pure tt

module _ {S : Type 0} (send : Packet → Call S Packet) where
  unfoldable pub send_discard : Packet → Call S (Unit {0})
  send_discard req = do reply ← send req; pure tt

  -- EcClient::request sends a packet with no tags.
  unfoldable pub request_discard : ℕ → Call S (Unit {0})
  unfolding send_discard
  request_discard opcode = send_discard (packet opcode [])

  unfoldable pub partfile_command : ℕ → Hash16 → Call S (Unit {0})
  unfolding send_discard
  partfile_command opcode h = send_discard (packet opcode (leaf FileTag.partfile (hash h) ∷ []))

  unfoldable pub pause_download : Hash16 → Call S (Unit {0})
  pause_download = partfile_command Op.partfile_pause

  unfoldable pub resume_download : Hash16 → Call S (Unit {0})
  resume_download = partfile_command Op.partfile_resume

  unfoldable pub stop_download : Hash16 → Call S (Unit {0})
  stop_download = partfile_command Op.partfile_stop

  unfoldable pub delete_download : Hash16 → Call S (Unit {0})
  delete_download = partfile_command Op.partfile_delete

  unfoldable pub set_priority : Hash16 → ℕ → Call S (Unit {0})
  set_priority h prio = send_discard (
      packet Op.partfile_prio_set (
        with_children (leaf FileTag.partfile (hash h))
          (of_list (leaf FileTag.partfile_prio (integer prio) ∷ []))
        ∷ []))

  unfoldable pub clear_completed : Call S (Unit {0})
  clear_completed = request_discard Op.clear_completed

  unfoldable pub add_ed2k_link : Text → Call S (Unit {0})
  add_ed2k_link link = send_discard (packet Op.add_link (leaf TagName.string (string link) ∷ []))

  unfoldable pub start_search : SearchParams → Call S (Unit {0})
  start_search params = do
    reply ← send (packet Op.search_start (search_root params ∷ []))
    refuse_failed (text "search failed") reply

  unfoldable pub stop_search : Call S (Unit {0})
  stop_search = request_discard Op.search_stop

  unfoldable pub download_search_result : Hash16 → Call S (Unit {0})
  download_search_result h = send_discard (
      packet Op.download_search_result (
        with_children (leaf FileTag.searchfile (hash h))
          (of_list (leaf FileTag.partfile_cat (integer 0) ∷ []))
        ∷ []))

  unfoldable pub connect_networks : Call S (Unit {0})
  connect_networks = request_discard Op.connect

  unfoldable pub disconnect_networks : Call S (Unit {0})
  disconnect_networks = request_discard Op.disconnect

  unfoldable pub start_kad : Call S (Unit {0})
  start_kad = request_discard Op.kad_start

  unfoldable pub stop_kad : Call S (Unit {0})
  stop_kad = request_discard Op.kad_stop

  unfoldable pub server_connect : Bytes → ℕ → Call S (Unit {0})
  server_connect ip port = send_discard (packet Op.server_connect (server_tag ip port ∷ []))

  unfoldable pub server_connect_any : Call S (Unit {0})
  server_connect_any = request_discard Op.server_connect

  unfoldable pub server_disconnect : Call S (Unit {0})
  server_disconnect = request_discard Op.server_disconnect

  unfoldable pub server_remove : Bytes → ℕ → Call S (Unit {0})
  server_remove ip port = send_discard (packet Op.server_remove (server_tag ip port ∷ []))

  unfoldable pub server_add : Text → Text → Call S (Unit {0})
  server_add name address = do
    reply ← send (
        packet Op.server_add (
          leaf TagName.server_name (string name)
          ∷ leaf TagName.server_address (string address)
          ∷ []))
    refuse_failed (text "server not added") reply

  unfoldable pub server_update_from_url : Text → Call S (Unit {0})
  server_update_from_url url =
      send_discard (packet Op.server_update_from_url (leaf TagName.string (string url) ∷ []))

  unfoldable pub reload_shared_files : Call S (Unit {0})
  reload_shared_files = request_discard Op.sharedfiles_reload
