-- ===== src/Logs.antt =====
-- The set-up of the logger (src/server/logger.go) and the file functions that go with it
-- (src/server/util.go). What the file system answers is an argument.
use singal.Common.{ℕ, Bool, true, false, String, Option, none, some, str_eq, if◌then◌else◌}
use singal.Redis.{◌<>◌}

-- What `setOutPut` and `InitLogger` set: the file and its rotation (sizes in MB, ages in days), and the
-- form of the lines.
pub record LogSettings : Type 0 where
  pub filename : String
  pub max_size : ℕ
  pub max_backups : ℕ
  pub max_age : ℕ
  pub compress : Bool
  pub to_stdout : Bool
  pub report_caller : Bool
  pub level : String
  pub timestamp_format : String

abbrev pub log_name : String
log_name = "singal"

abbrev pub log_suffix : String
log_suffix = ".log"

-- `setOutPut`, on the settings so far.
unfoldable pub set_out_put : LogSettings → String → LogSettings
set_out_put log log_file_path = record log {
  filename = log_file_path;
  max_size = 100;
  max_backups = 60;
  max_age = 30;
  compress = false;
  to_stdout = true;
}

-- `InitLogger`; `join` is `path.Join` and `fresh` what `logrus.New` gives.
unfoldable pub init_logger : (String → String → String) → LogSettings → LogSettings
init_logger join fresh = record (set_out_put fresh (join "../log/" (log_name <> log_suffix))) {
  report_caller = true;
  level = "debug";
  timestamp_format = "2006-01-02 15:04:05.000";
}

-- The error of `os.Stat`, if any: whether it is one of `os.IsExist`.
unfoldable pub is_exist : Option Bool → Bool
is_exist none = true
is_exist (some exists) = exists

-- `makeDirAll`: `dir` is `path.Dir`, `stat` the error of `os.Stat` and `mkdir` that of `os.MkdirAll`. The
-- result is the error.
unfoldable pub make_dir_all :
    (String → String) → (String → Option Bool) → (String → Option String) → String → Option String
make_dir_all dir stat mkdir log_path =
    let log_dir = dir log_path in
    if is_exist (stat log_dir) then none else elim (mkdir log_dir) [
      | none ↦ none
      | some e ↦ some ("create <" <> log_dir <> "> error: " <> e)
    ]

unfoldable pub is_window : String → Bool
is_window goos = str_eq goos "windows"
