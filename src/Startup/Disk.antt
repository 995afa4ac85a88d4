-- ===== src/Startup/Disk.antt =====
-- The database file as a boot sees it, with the columns that the boot asks for, and the directory
-- of its backups.
use librelock_server.Common.{
  if◌then◌else◌, Text, ℕ, Bool, true, not, ◌&&◌, ◌||◌, Option, List, [], ◌∷◌, map,
}
use librelock_server.Models.{AppState, Db}

pub record File : Type 0 where
  pub has_tables : Bool
  -- app_state has the columns of the schema version and of the release
  pub has_version_columns : Bool
  -- the column that the first migration drops
  pub has_primary_color : Bool
  pub db : Db

-- A name in the directory of the backups; `content` is the file that it is a copy of.
pub record Entry : Type 0 where
  pub name : Text
  pub is_dir : Bool
  pub mod_time : ℕ
  pub content : Option File

pub record Disk : Type 0 where
  pub file : File
  pub backups : List Entry

-- `Bootstrap`
pub record Bootstrap : Type 0 where
  pub existing : Bool
  pub app_version : Text
  pub schema_version : ℕ

abbrev pub scanned : Bool → Bool → List AppState → Bootstrap
scanned fault existing [] = record { existing = existing; app_version = []; schema_version = 0 }
scanned fault existing (st ∷ _) =
    if fault then record { existing = existing; app_version = []; schema_version = 0 } else record {
      existing = existing;
      app_version = st.app_version;
      schema_version = st.schema_version;
    }

-- `inspect`: a query that fails reads as no table, no column, or no row.
unfoldable pub inspect : (ℕ → Bool) → File → Bootstrap
inspect fault f =
    scanned (fault 1 || not f.has_version_columns || fault 2) (not (fault 0) && f.has_tables)
      f.db.app_state

abbrev pub fresh_columns : AppState → AppState
fresh_columns st = record st { schema_version = 0; app_version = [] }

-- The AutoMigrate of the core tables: a column that is added holds its default.
unfoldable pub migrate_core : File → File
migrate_core f = record f {
  has_tables = true;
  has_version_columns = true;
  db =
      if f.has_version_columns
      then f.db
      else record f.db { app_state = map fresh_columns f.db.app_state };
}

-- A step of the boot leaves the disk, and whether the process goes on.
pub record BootStep (A : Type 0) : Type 0 where
  pub ok : Bool
  pub left : A
