-- ===== src/Queries/Fetches.antt =====
-- The read calls of core/ec/queries.cpp: a request, and its reply read.
use amule_remote_qt.Base.{ℕ, List, [], get_or}
use amule_remote_qt.Codes.Op
use amule_remote_qt.Codes.Detail
use amule_remote_qt.Codes.TagName
use amule_remote_qt.Codes.FileTag
use amule_remote_qt.Ec.Packet.{Packet, tag, tag_int}
use amule_remote_qt.Ec.Outcome.{Call, pure, ◌>>=◌}
use amule_remote_qt.Model.Types.{
  Stats, new_stats, Download, ConnState, Server, SharedFile, SearchResult,
}
use amule_remote_qt.Queries.Requests.{packet}
use amule_remote_qt.Queries.Reads.{
  u32, collect, detail_request, read_stats, read_download, read_conn_state, read_server,
  read_shared_file, read_search_result,
}

module _ {S : Type 0} (send : Packet → Call S Packet) where
  unfoldable pub fetch_stats : Call S Stats
  fetch_stats = do reply ← send (packet Op.stat_req []); pure (read_stats reply.tags new_stats)

  unfoldable pub fetch_downloads : Call S (List Download)
  fetch_downloads = do
    reply ← send (detail_request Op.get_dload_queue Detail.full)
    pure (collect FileTag.partfile read_download reply.tags)

  unfoldable pub fetch_conn_state : Call S ConnState
  fetch_conn_state = do
    reply ← send (detail_request Op.get_connstate Detail.cmd)
    pure (read_conn_state (tag reply TagName.connstate))

  unfoldable pub fetch_servers : Call S (List Server)
  fetch_servers = do
    reply ← send (detail_request Op.get_server_list Detail.full)
    pure (collect TagName.server read_server reply.tags)

  unfoldable pub fetch_shared_files : Call S (List SharedFile)
  fetch_shared_files = do
    reply ← send (detail_request Op.get_shared_files Detail.full)
    pure (collect FileTag.knownfile read_shared_file reply.tags)

  unfoldable pub fetch_search_results : Call S (List SearchResult)
  fetch_search_results = do
    reply ← send (detail_request Op.search_results Detail.full)
    pure (collect FileTag.searchfile read_search_result reply.tags)

  unfoldable pub fetch_search_progress : Call S ℕ
  fetch_search_progress = do
    reply ← send (packet Op.search_progress [])
    pure (u32 (get_or 0 (tag_int reply FileTag.search_status)))
