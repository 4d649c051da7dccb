-- ===== src/Codes/FileTag.antt =====
-- core/ec/codes.h: tag names of partfiles, known files and searches.
use amule_remote_qt.Base.{ℕ}

abbrev pub partfile : ℕ
partfile = 0x0300

abbrev pub partfile_name : ℕ
partfile_name = 0x0301

abbrev pub partfile_partmetid : ℕ
partfile_partmetid = 0x0302

abbrev pub partfile_size_full : ℕ
partfile_size_full = 0x0303

abbrev pub partfile_size_xfer : ℕ
partfile_size_xfer = 0x0304

abbrev pub partfile_size_done : ℕ
partfile_size_done = 0x0306

abbrev pub partfile_speed : ℕ
partfile_speed = 0x0307

abbrev pub partfile_status : ℕ
partfile_status = 0x0308

abbrev pub partfile_prio : ℕ
partfile_prio = 0x0309

abbrev pub partfile_source_count : ℕ
partfile_source_count = 0x030a

abbrev pub partfile_source_count_xfer : ℕ
partfile_source_count_xfer = 0x030d

abbrev pub partfile_ed2k_link : ℕ
partfile_ed2k_link = 0x030e

abbrev pub partfile_cat : ℕ
partfile_cat = 0x030f

abbrev pub partfile_source_names : ℕ
partfile_source_names = 0x0315

abbrev pub partfile_source_names_counts : ℕ
partfile_source_names_counts = 0x031c

abbrev pub partfile_hash : ℕ
partfile_hash = 0x031e

abbrev pub knownfile : ℕ
knownfile = 0x0400

abbrev pub knownfile_xferred : ℕ
knownfile_xferred = 0x0401

abbrev pub knownfile_xferred_all : ℕ
knownfile_xferred_all = 0x0402

abbrev pub knownfile_req_count : ℕ
knownfile_req_count = 0x0403

abbrev pub knownfile_req_count_all : ℕ
knownfile_req_count_all = 0x0404

abbrev pub knownfile_accept_count : ℕ
knownfile_accept_count = 0x0405

abbrev pub knownfile_filename : ℕ
knownfile_filename = 0x0408

abbrev pub knownfile_complete_sources : ℕ
knownfile_complete_sources = 0x040d

abbrev pub searchfile : ℕ
searchfile = 0x0700

abbrev pub search_type : ℕ
search_type = 0x0701

abbrev pub search_name : ℕ
search_name = 0x0702

abbrev pub search_min_size : ℕ
search_min_size = 0x0703

abbrev pub search_max_size : ℕ
search_max_size = 0x0704

abbrev pub search_file_type : ℕ
search_file_type = 0x0705

abbrev pub search_extension : ℕ
search_extension = 0x0706

abbrev pub search_availability : ℕ
search_availability = 0x0707

abbrev pub search_status : ℕ
search_status = 0x0708

abbrev pub search_parent : ℕ
search_parent = 0x0709
