-- ===== src/Services/SetupLog.antt =====
-- internal/services/acme_logger.go: `DomainSetupLogger`, the logs of the domains in memory and in
-- one file for each domain.
use webrana_infinimail_backe.Dict.{Dict, get, put}
use webrana_infinimail_backe.Text.{Bytes, codes}
use webrana_infinimail_backe.Prelude.{
  [], none, some, ◌∷◌, ℕ, ◌++◌, length, Option, List, Bool, if◌then◌else◌, ◌+◌, ◌==◌, leb, ◌||◌,
}

pub data LogLevel : Type 0 where
  level_info level_warning level_error level_debug : LogLevel

-- `DomainSetupLogEntry`, with the details as their text; the stack trace is never set.
pub record LogEntry : Type 0 where
  pub timestamp : ℕ
  pub level : LogLevel
  pub domain : Bytes
  pub step : Bytes
  pub text : Bytes
  pub details : Bytes
  pub duration : Bytes
  pub request_id : Bytes
  pub error_code : Bytes

-- `DomainSetupLog`
pub record DomainLog : Type 0 where
  pub domain : Bytes
  pub started_at : ℕ
  pub updated_at : ℕ
  pub status : Bytes
  pub entries : List LogEntry
  pub error_summary : Bytes
  pub total_steps : ℕ
  pub current_step : ℕ
  pub metadata : Dict Bytes

-- `DomainSetupLogSummary`
pub record LogSummary : Type 0 where
  pub domain : Bytes
  pub started_at : ℕ
  pub updated_at : ℕ
  pub status : Bytes
  pub entry_count : ℕ
  pub error_summary : Bytes
  pub total_steps : ℕ
  pub current_step : ℕ

-- The disk, the clock and encoding/json, whose texts are of the type `Json`. The names are those of the files with the extension
-- ".json" in the directory, without it; `none` if the directory cannot be read.
pub record LogFiles (W Json : Type 0) : Type 0 where
  pub write_file : Bytes → Json → W → W
  pub read_file : Bytes → W → Option Json
  pub json_names : W → Option (List Bytes)
  pub marshal : DomainLog → Option Json
  pub unmarshal : Json → Option DomainLog
  pub path : Bytes → Bytes
  pub now : W → ℕ

-- The logger's state and the disk. The locks are left out: an operation is one step.
pub record Logger (W : Type 0) : Type 0 where
  pub logs : Dict DomainLog
  pub disk : W

-- "/", "\", ":", "*", "?", a double quote, "<", ">" and "|"
unfoldable pub is_invalid_char : ℕ → Bool
is_invalid_char c =
    c == 47 || c == 92 || c == 58 || c == 42 || c == 63 || c == 34 || c == 60 || c == 62 || c == 124

unfoldable pub safe_name : Bytes → Bytes
unfolding is_invalid_char
safe_name [] = []
safe_name (c ∷ s) = (if is_invalid_char c then b'_' else c) ∷ safe_name s

unfoldable pub new_log : Bytes → ℕ → DomainLog
unfolding codes
new_log domain time = record {
  domain = domain;
  started_at = time;
  updated_at = time;
  status = codes "in_progress";
  entries = [];
  error_summary = [];
  total_steps = 0;
  current_step = 0;
  metadata = [];
}

abbrev pub with_entry : LogEntry → DomainLog → DomainLog
with_entry entry log = record log {
  entries = log.entries ++ entry ∷ [];
  updated_at = entry.timestamp;
}

unfoldable pub summary_of : DomainLog → LogSummary
summary_of log = record {
  domain = log.domain;
  started_at = log.started_at;
  updated_at = log.updated_at;
  status = log.status;
  entry_count = length log.entries;
  error_summary = log.error_summary;
  total_steps = log.total_steps;
  current_step = log.current_step;
}

unfoldable pub level_of_status : ℕ → LogLevel → LogLevel
level_of_status status_code level = if leb 400 status_code then level_error else level

module _ {W Json : Type 0} (files : LogFiles W Json) where
  -- `getLogFilename`
  unfoldable pub get_log_filename : Bytes → Bytes
  unfolding codes safe_name
  get_log_filename domain = files.path (safe_name domain ++ codes ".json")

  unfoldable pub write_log : Bytes → Option Json → W → W
  unfolding get_log_filename
  write_log domain none w = w
  write_log domain (some content) w = files.write_file (get_log_filename domain) content w

  unfoldable pub save_log : Bytes → Option DomainLog → W → W
  unfolding write_log
  save_log domain none w = w
  save_log domain (some log) w = write_log domain (files.marshal log) w

  -- `saveToFileLocked`, whose error nobody looks at
  unfoldable pub save_to_file_locked : Bytes → Logger W → Logger W
  unfolding save_log
  save_to_file_locked domain l = record l { disk = save_log domain (get domain l.logs) l.disk }

  -- `if log, exists := l.logs[domain]; exists { … }` and the saving
  unfoldable pub change_log :
      Bytes → (DomainLog → DomainLog) → Option DomainLog → Logger W → Logger W
  unfolding save_to_file_locked
  change_log domain f none l = l
  change_log domain f (some log) l =
      save_to_file_locked domain (record l { logs = put domain (f log) l.logs })

  unfoldable pub or_new : Bytes → Option DomainLog → Logger W → DomainLog
  unfolding new_log
  or_new domain none l = new_log domain (files.now l.disk)
  or_new domain (some log) l = log

  -- An entry is appended to the log, which is made if there is none, changed by `f` and saved.
  unfoldable pub append_entry :
      Bytes → (ℕ → LogEntry) → (DomainLog → DomainLog) → Logger W → Logger W
  unfolding or_new save_to_file_locked
  append_entry domain entry f l = save_to_file_locked domain (record l {
    logs =
        put domain (f (with_entry (entry (files.now l.disk)) (or_new domain (get domain l.logs) l)))
          l.logs;
  })

  unfoldable pub plain_entry : Bytes → LogLevel → Bytes → Bytes → Bytes → ℕ → LogEntry
  plain_entry domain level step text details time = record {
    timestamp = time;
    level = level;
    domain = domain;
    step = step;
    text = text;
    details = details;
    duration = [];
    request_id = [];
    error_code = [];
  }

  -- `addEntryLocked`, which `Log`, `LogInfo`, `LogWarning` and `LogDebug` call
  unfoldable pub log_entry : Bytes → LogLevel → Bytes → Bytes → Bytes → Logger W → Logger W
  unfolding append_entry plain_entry
  log_entry domain level step text details =
      append_entry domain (plain_entry domain level step text details) (λ log. log)

  -- `StartDomainLog`
  unfoldable pub start_log : Bytes → Logger W → Logger W
  unfolding codes new_log log_entry
  start_log domain l =
      log_entry domain level_info (codes "session_start") (codes "Domain setup session started") []
        (record l { logs = put domain (new_log domain (files.now l.disk)) l.logs })

  -- `SetMetadata`
  unfoldable pub set_metadata : Bytes → Bytes → Bytes → Logger W → Logger W
  unfolding change_log
  set_metadata domain key value l =
      change_log domain (λ log. record log { metadata = put key value log.metadata })
        (get domain l.logs) l

  -- `SetTotalSteps`
  unfoldable pub set_total_steps : Bytes → ℕ → Logger W → Logger W
  unfolding change_log
  set_total_steps domain total l =
      change_log domain (λ log. record log { total_steps = total }) (get domain l.logs) l

  -- `IncrementStep`
  unfoldable pub increment_step : Bytes → Logger W → Logger W
  unfolding change_log
  increment_step domain l =
      change_log domain (λ log. record log { current_step = log.current_step + 1 })
        (get domain l.logs) l

  -- `SetStatus`
  unfoldable pub set_log_status : Bytes → Bytes → Logger W → Logger W
  unfolding change_log
  set_log_status domain status l =
      change_log domain (λ log. record log { status = status; updated_at = files.now l.disk })
        (get domain l.logs) l

  unfoldable pub with_summary : Bytes → Bytes → Option DomainLog → Logger W → Logger W
  with_summary domain text none l = l
  with_summary domain text (some log) l = record l {
    logs = put domain (record log { error_summary = text }) l.logs;
  }

  -- `LogError`; the summary is set after the file was written
  unfoldable pub log_failure_entry : Bytes → Bytes → Bytes → Bytes → Logger W → Logger W
  unfolding log_entry with_summary
  log_failure_entry domain step text error l =
      let logged : Logger W = log_entry domain level_error step text error l in
      with_summary domain error (get domain logged.logs) logged

  -- `LogErrorWithCode`
  unfoldable pub log_error_with_code : Bytes → Bytes → Bytes → Bytes → Bytes → Logger W → Logger W
  unfolding append_entry plain_entry
  log_error_with_code domain step text error code =
      append_entry domain
        (λ time. record (plain_entry domain level_error step text error time) { error_code = code })
        (λ log. record log { error_summary = error })

  -- `LogWithDuration`
  unfoldable pub log_with_duration :
      Bytes → LogLevel → Bytes → Bytes → Bytes → Bytes → Logger W → Logger W
  unfolding append_entry plain_entry
  log_with_duration domain level step text duration details =
      append_entry domain
        (λ time. record (plain_entry domain level step text details time) { duration = duration })
        (λ log. log)

  -- `LogHTTPRequest`, with the message and the details as they are printed
  unfoldable pub log_http_request : Bytes → Bytes → Bytes → ℕ → Bytes → Bytes → Logger W → Logger W
  unfolding codes append_entry plain_entry level_of_status
  log_http_request domain text details status_code duration request =
      append_entry domain
        (λ time.
          record (plain_entry domain (level_of_status status_code level_info) (codes "http_request")
            text details time) { duration = duration; request_id = request })
        (λ log. log)

  -- `LogAPIResponse`
  unfoldable pub log_api_response : Bytes → Bytes → Bytes → ℕ → Logger W → Logger W
  unfolding codes log_entry level_of_status
  log_api_response domain text details status_code =
      log_entry domain (level_of_status status_code level_debug) (codes "http_response") text
        details

  -- `MarkSuccess`
  unfoldable pub mark_log_success : Bytes → Logger W → Logger W
  unfolding codes log_entry set_log_status
  mark_log_success domain l = set_log_status domain (codes "success") (
      log_entry domain level_info (codes "session_end")
        (codes "Domain setup completed successfully") [] l)

  -- `MarkFailed`
  unfoldable pub mark_log_failed : Bytes → Bytes → Logger W → Logger W
  unfolding codes log_failure_entry set_log_status
  mark_log_failed domain error l =
      set_log_status domain (codes "failed")
        (log_failure_entry domain (codes "session_end") (codes "Domain setup failed") error l)

  abbrev loaded_log : Bytes → Option DomainLog → Logger W → Option DomainLog × Logger W
  loaded_log domain none l = (none, l)
  loaded_log domain (some log) l = (some log, record l { logs = put domain log l.logs })

  unfoldable pub decode_log : Option Json → Option DomainLog
  decode_log none = none
  decode_log (some content) = files.unmarshal content

  -- `loadFromFileLocked`
  unfoldable pub load_from_file_locked : Bytes → Logger W → Option DomainLog × Logger W
  unfolding get_log_filename decode_log
  load_from_file_locked domain l =
      loaded_log domain (decode_log (files.read_file (get_log_filename domain) l.disk)) l

  -- `GetDomainLog`
  unfoldable pub get_domain_log : Bytes → Logger W → Option DomainLog × Logger W
  unfolding load_from_file_locked
  get_domain_log domain l = elim (get domain l.logs) [
    | some log ↦ (some log, l)
    | none ↦ load_from_file_locked domain l
  ]

  unfoldable pub load_names : List Bytes → Logger W → Logger W
  unfolding get_domain_log
  load_names [] l = l
  load_names (name ∷ names) l = load_names names (get_domain_log name l).1

  abbrev names_or_none : Option (List Bytes) → List Bytes
  names_or_none none = []
  names_or_none (some names) = names

  -- `loadAllFromFilesLocked`
  unfoldable pub load_all_from_files_locked : Logger W → Logger W
  unfolding load_names
  load_all_from_files_locked l = load_names (names_or_none (files.json_names l.disk)) l

  unfoldable pub summaries : Dict DomainLog → List LogSummary
  unfolding summary_of
  summaries [] = []
  summaries ((domain, log) ∷ logs) = summary_of log ∷ summaries logs

  -- `GetAllLogs`, in some order
  unfoldable pub get_all_logs : Logger W → List LogSummary × Logger W
  unfolding load_all_from_files_locked summaries
  get_all_logs l = let all : Logger W = load_all_from_files_locked l in (summaries all.logs, all)
