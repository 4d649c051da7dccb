-- ===== src/Queries/Reads/LastStat.antt =====
-- `fetchStats` of core/ec/queries.cpp against a reading of each statistic on its own.
use amule_remote_qt.Base.{
  ℕ, ◌≡◌, refl, ap, ◌∙◌, arith, Option, none, some, ◌==◌, if◌then◌else◌, get_or,
}
use amule_remote_qt.Codes.TagName
use amule_remote_qt.Ec.Tag.{Tag, Tags, nil, cons, name}
use amule_remote_qt.Model.Types.{Stats}
use amule_remote_qt.Queries.Reads.{u32, int_or_zero, read_stat, read_stats}

abbrev pub or_else : Option ℕ → Option ℕ → Option ℕ
or_else none b = b
or_else (some a) b = some a

-- The number in the last tag of a name, which is 0 where that tag holds none.
unfoldable pub last_int : ℕ → Tags → Option ℕ
last_int n nil = none
last_int n (cons t ts) =
    or_else (last_int n ts) (if name t == n then some (int_or_zero t) else none)

-- The client id keeps 32 bits.
abbrev pub low_id : ℕ → Option ℕ → ℕ
low_id old none = old
low_id old (some v) = u32 v

-- Each statistic from its own tags; where there are none it keeps its value.
abbrev pub stats_by_name : Tags → Stats → Stats
stats_by_name ts s = record {
  ul_speed = get_or s.ul_speed (last_int TagName.stats_ul_speed ts);
  dl_speed = get_or s.dl_speed (last_int TagName.stats_dl_speed ts);
  ul_speed_limit = get_or s.ul_speed_limit (last_int TagName.stats_ul_speed_limit ts);
  dl_speed_limit = get_or s.dl_speed_limit (last_int TagName.stats_dl_speed_limit ts);
  total_source_count = get_or s.total_source_count (last_int TagName.stats_total_src_count ts);
  ed2k_users = get_or s.ed2k_users (last_int TagName.stats_ed2k_users ts);
  kad_users = get_or s.kad_users (last_int TagName.stats_kad_users ts);
  ed2k_files = get_or s.ed2k_files (last_int TagName.stats_ed2k_files ts);
  kad_files = get_or s.kad_files (last_int TagName.stats_kad_files ts);
  ed2k_id = low_id s.ed2k_id (last_int TagName.stats_ed2k_id ts);
}

get_or-or_else : (d : ℕ) (a b : Option ℕ) → get_or d (or_else a b) ≡ get_or (get_or d b) a
get_or-or_else d none b = refl
get_or-or_else d (some a) b = refl

read_stat_lem : (t : Tag) (s : Stats) → read_stat t s ≡ stats_by_name (cons t nil) s
unfolding read_stat last_int
read_stat_lem t s = ground arith

low_id-or_else : (d : ℕ) (a b : Option ℕ) → low_id d (or_else a b) ≡ low_id (low_id d b) a
low_id-or_else d none b = refl
low_id-or_else d (some a) b = refl

stats_by_name-cons :
    (t : Tag) (ts : Tags) (s : Stats)
    → stats_by_name ts (stats_by_name (cons t nil) s) ≡ stats_by_name (cons t ts) s
unfolding last_int
stats_by_name-cons t ts s = simp (get_or-or_else, low_id-or_else)

-- The loop of `fetchStats` gives each statistic the number of the last tag of its name, and leaves
-- a statistic with no tag as it was.
pub read_stats-by_name : (ts : Tags) (s : Stats) → read_stats ts s ≡ stats_by_name ts s
unfolding read_stats
read_stats-by_name nil s = unfold last_int in refl
read_stats-by_name (cons t ts) s =
    read_stats-by_name ts (read_stat t s)
    ∙ ap (stats_by_name ts) (read_stat_lem t s)
    ∙ stats_by_name-cons t ts s
