-- ===== src/Startup/Backups.antt =====
-- `snapshot`, `pruneBackups` and `safeForFilename` of db/db.go. Names in the directory of the
-- backups are those of `filepath.Base`.
use librelock_server.Common.{
  ltb, leb, ◌==◌, if◌then◌else◌, any, filter, drop, Text, text, text_eq, is_empty, ℕ, Bool, true,
  false, not, ◌&&◌, ◌||◌, some, List, [], ◌∷◌, ◌++◌, map,
}
use librelock_server.Common.Sorts.{sort_by}
use librelock_server.Startup.Disk.{Disk, Entry, File, BootStep}

-- `backupsKept`
abbrev pub backups_kept : ℕ
backups_kept = 3

abbrev is_safe : ℕ → Bool
is_safe c =
    leb b'a' c && leb c b'z'
    || leb b'A' c && leb c b'Z'
    || leb b'0' c && leb c b'9'
    || c == b'.'
    || c == b'-'
    || c == b'_'

-- `safeForFilename`
unfoldable pub safe_for_filename : Text → Text
safe_for_filename s = map (λ c. if is_safe c then c else b'-') s

-- `filepath.Ext(name) == ".db"`
unfoldable pub has_db_suffix : Text → Bool
has_db_suffix [] = false
has_db_suffix (c ∷ s) = text_eq (c ∷ s) (text ".db") || has_db_suffix s

unfoldable pub is_snapshot : Entry → Bool
unfolding has_db_suffix
is_snapshot e = not e.is_dir && has_db_suffix e.name

-- `snaps[i].mod.After(snaps[j].mod)`
abbrev pub is_later : Entry → Entry → Bool
is_later a b = ltb b.mod_time a.mod_time

abbrev pub is_listed : Text → List Entry → Bool
is_listed name entries = any (λ e. text_eq e.name name) entries

-- The snapshots past the newest three.
unfoldable pub surplus : List Entry → List Entry
surplus entries = drop backups_kept (sort_by is_later (filter is_snapshot entries))

-- `pruneBackups`; the fault is that of reading the directory, and a file that cannot be removed stays.
unfoldable pub prune_backups : Bool → (Text → Bool) → List Entry → List Entry
prune_backups fault stays entries =
    if fault
    then entries
    else filter (λ e. not (is_listed e.name (surplus entries)) || stays e.name) entries

abbrev pub or_unknown : Text → Text
or_unknown from = if is_empty from then text "unknown" else from

-- The name of a snapshot, from the base name of the database, the release and the formatted time.
unfoldable pub snapshot_name : Text → Text → Text → Text
snapshot_name base from stamp =
    base
    ++ (text "-" ++ (safe_for_filename (or_unknown from) ++ (text "-" ++ (stamp ++ text ".db"))))

abbrev pub snapshot_of : Text → ℕ → File → Entry
snapshot_of name now f = record { name = name; is_dir = false; mod_time = now; content = some f }

-- `snapshot`: VACUUM INTO does not write over a file that is there.
unfoldable pub snapshot : Bool → Bool → (Text → Bool) → ℕ → Text → Disk → BootStep Disk
snapshot fault unread stays now name d =
    if fault || is_listed name d.backups then record { ok = false; left = d } else record {
      ok = true;
      left = record d {
        backups = prune_backups unread stays (d.backups ++ snapshot_of name now d.file ∷ []);
      };
    }
