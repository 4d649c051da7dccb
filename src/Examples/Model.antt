-- ===== src/Examples/Model.antt =====
-- The queries on sample replies.
use mathlib.Core.List.{Perm}
use amule_remote_qt.Base.{ℕ, ◌≡◌, refl, if◌then◌else◌, none, some, List, [], ◌∷◌}
use amule_remote_qt.Codes.TagName
use amule_remote_qt.Ec.Bytes.{text}
use amule_remote_qt.Ec.Tag.{Tag, Tags, nil, cons, leaf, tag, empty, integer, string, children}
use amule_remote_qt.Model.Types.{new_stats, new_source_client}
use amule_remote_qt.Model.Prefs.{DaemonPrefs, new_daemon_prefs}
use amule_remote_qt.Queries.ReadPrefs.{prefs_of}
use amule_remote_qt.Queries.WritePrefs.{set_prefs_request}
use amule_remote_qt.Queries.ReadBack.{read_back, prefs_of-set_prefs_request}
use amule_remote_qt.Queries.Reads.{read_stats, sort_by_count}
use amule_remote_qt.Queries.Reads.LastStat.{stats_by_name, read_stats-by_name}
use amule_remote_qt.Queries.Reads.Sorting.{Entry, IsFalling, having, sort_by_count_stable}
use amule_remote_qt.Queries.Sources.{Sources, lookup, contains, update_sources}
use amule_remote_qt.Queries.Sources.Update.{entry_ids, source_after, lookup-update_sources}
use amule_remote_qt.Queries.Sources.Consistent.{IsConsistent, update_sources-IsConsistent}

abbrev some_prefs : DaemonPrefs
some_prefs = record new_daemon_prefs { max_upload = 40; tcp_port = 4662 }

prefs_of-set_prefs_request_example : prefs_of (set_prefs_request some_prefs) ≡ read_back some_prefs
prefs_of-set_prefs_request_example = prefs_of-set_prefs_request some_prefs

-- Two sources are listed, the second one is new; a third has gone.
abbrev container : Tag
container = tag TagName.client empty (
    cons (tag TagName.client (integer 4) (cons (leaf TagName.client_user_port (integer 4662)) nil))
      (cons
        (tag TagName.client (integer 9)
          (cons (leaf TagName.client_name (string (text "peer"))) nil))
        nil))

abbrev known : Sources
known =
    (4, record new_source_client { id = 4; name = text "old" })
    ∷ ((6, record new_source_client { id = 6 }) ∷ [])

lookup-update_sources_example : lookup 4 (update_sources (λ n. n) (some container) known) ≡ (
    if contains 4 (entry_ids (children container))
    then source_after (λ n. n) 4 (children container) (lookup 4 known)
    else none)
lookup-update_sources_example = lookup-update_sources (λ n. n) 4 container known

known-IsConsistent : IsConsistent known
unfolding lookup
known-IsConsistent = (refl, refl, (refl, refl, tt))

update_sources-IsConsistent_example : IsConsistent (update_sources (λ n. n) (some container) known)
update_sources-IsConsistent_example =
    update_sources-IsConsistent (λ n. n) (some container) known known-IsConsistent

abbrev stat_tags : Tags
stat_tags = cons (leaf TagName.stats_ul_speed (integer 10)) (
    cons (leaf TagName.stats_dl_speed (integer 20))
      (cons (leaf TagName.stats_ul_speed (integer 30)) nil))

read_stats-by_name_example : read_stats stat_tags new_stats ≡ stats_by_name stat_tags new_stats
read_stats-by_name_example = read_stats-by_name stat_tags new_stats

abbrev names_seen : List Entry
names_seen = (text "a", 2) ∷ ((text "b", 5) ∷ ((text "c", 2) ∷ []))

sort_by_count_stable_example :
    Perm (sort_by_count names_seen) names_seen
    × IsFalling (sort_by_count names_seen)
    × ((n : ℕ) → having n (sort_by_count names_seen) ≡ having n names_seen)
sort_by_count_stable_example = sort_by_count_stable names_seen
