-- ===== src/Util/Log.antt =====
-- pkg/util/log.go: what is logged, as the list of entries that klog gets. `sprintf` is fmt.Sprintf;
-- klog's verbosity is a number.
use hostpathpv_plugin.Base.{
  ℕ, Option, none, some, List, [], ◌∷◌, ◌++◌, GoString, codes, leb, if◌then◌else◌,
}
use hostpathpv_plugin.Util.Host.{decimal}

-- What a call's log lines carry.
pub record Context : Type 0 where
  pub ctx_key : Option ℕ
  pub req_id : Option GoString

pub data Severity : Type 0 where
  fatal_entry error_entry warning_entry info_entry : Severity

pub record Entry : Type 0 where
  pub severity : Severity
  pub message : GoString

abbrev pub default_level : ℕ
default_level = 1

abbrev pub useful_level : ℕ
useful_level = 2

abbrev pub extended_level : ℕ
extended_level = 3

abbrev pub debug_level : ℕ
debug_level = 4

abbrev pub trace_level : ℕ
trace_level = 5

-- Log: the numbers of the call before the format; they are part of the format.
abbrev with_req : Option GoString → GoString → GoString
with_req none format = format
with_req (some r) format = codes "Req-ID: " ++ (r ++ (codes " " ++ format))

abbrev with_id : Option ℕ → Option GoString → GoString → GoString
with_id none req format = format
with_id (some id) req format = codes "ID: " ++ (decimal id ++ (codes " " ++ with_req req format))

unfoldable pub log_format : Context → GoString → GoString
log_format ctx format = with_id ctx.ctx_key ctx.req_id format

module _ {A : Type 0} (sprintf : GoString → List A → GoString) (verbosity : ℕ) where
  abbrev entry : Severity → GoString → List Entry
  entry s text = record { severity = s; message = text } ∷ []

  -- An information is dropped where the verbosity is below its level.
  abbrev info : ℕ → GoString → List Entry
  info level text = if leb level verbosity then entry info_entry text else []

  unfoldable pub error_log_msg : GoString → List A → List Entry
  error_log_msg message args = entry error_entry (sprintf message args)

  unfoldable pub error_log : Context → GoString → List A → List Entry
  unfolding log_format
  error_log ctx message args = entry error_entry (sprintf (log_format ctx message) args)

  unfoldable pub fatal_log_msg : GoString → List A → List Entry
  fatal_log_msg message args = entry fatal_entry (sprintf message args)

  unfoldable pub warning_log_msg : GoString → List A → List Entry
  warning_log_msg message args = entry warning_entry (sprintf message args)

  unfoldable pub warning_log : Context → GoString → List A → List Entry
  unfolding log_format
  warning_log ctx message args = entry warning_entry (sprintf (log_format ctx message) args)

  unfoldable pub default_log : GoString → List A → List Entry
  default_log message args = info default_level (sprintf message args)

  unfoldable pub useful_log : Context → GoString → List A → List Entry
  unfolding log_format
  useful_log ctx message args = info useful_level (sprintf (log_format ctx message) args)

  unfoldable pub extended_log_msg : GoString → List A → List Entry
  extended_log_msg message args = info extended_level (sprintf message args)

  unfoldable pub extended_log : Context → GoString → List A → List Entry
  unfolding log_format
  extended_log ctx message args = info extended_level (sprintf (log_format ctx message) args)

  -- Where it is logged, it is logged twice.
  unfoldable pub debug_log_msg : GoString → List A → List Entry
  debug_log_msg message args =
      info debug_level (sprintf message args) ++ info debug_level (sprintf message args)

  unfoldable pub debug_log : Context → GoString → List A → List Entry
  unfolding log_format
  debug_log ctx message args = info debug_level (sprintf (log_format ctx message) args)

  unfoldable pub trace_log_msg : GoString → List A → List Entry
  trace_log_msg message args = info trace_level (sprintf message args)

  unfoldable pub trace_log : Context → GoString → List A → List Entry
  unfolding log_format
  trace_log ctx message args = info trace_level (sprintf (log_format ctx message) args)
