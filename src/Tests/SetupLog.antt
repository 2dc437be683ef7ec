-- ===== src/Tests/SetupLog.antt =====
-- The log of a domain on a disk that keeps the last content of each file.

use webrana_infinimail_backe.Text.{codes, bytes_eq}
use webrana_infinimail_backe.Services.SetupLog.{
  LogFiles, Logger, DomainLog, start_log, get_domain_log,
}
use webrana_infinimail_backe.Dict.{Dict, put, get}
use webrana_infinimail_backe.Prelude.{[], none, some, refl, ◌≡◌}

abbrev Files : Type 0
Files = Dict DomainLog

abbrev log_files : LogFiles Files DomainLog
log_files = record {
  write_file = λ p content w. put p content w;
  read_file = λ p w. get p w;
  json_names = λ w. none;
  marshal = λ log. some log;
  unmarshal = λ log. some log;
  path = λ name. name;
  now = λ w. 12;
}

abbrev started : Logger Files
started = start_log log_files (codes "a.test") (record { logs = []; disk = [] })

-- a logger that starts on the same disk gives the log that was started
started_again :
    (get_domain_log log_files (codes "a.test") (record { logs = []; disk = started.disk })).0
    ≡ get (codes "a.test") started.logs
unfolding codes start_log get_domain_log put get bytes_eq
started_again = refl
