-- ===== src/Cmd.antt =====
-- cmd/notifier/main.go: the command line, the configuration files, and the life of the process.
pub mod Flags
use mx_chain_notifier_go.Base.{
  ℕ, ◌*◌, Bool, true, false, Option, none, some, GoString, [], codes, str_eq, if◌then◌else◌,
}
use mx_chain_notifier_go.Errors.{Result, ok, err, panicked, ◌>>=◌, GoError, invalid_api_type}
use mx_chain_notifier_go.Common.{ws_publisher_type, message_queue_publisher_type}
use mx_chain_notifier_go.Config.{MainConfig, ApiRoutesConfig, FlagsConfig, Configs}
use mx_chain_notifier_go.Logging.{
  Files, Failures, FileLogger, new_file_logging, change_file_life_span, close_logger,
}
use mx_chain_notifier_go.Notifier.{Packages, System, new_notifier_runner, start}

-- cli.Context: the value of a flag, which is its default unless it was given, and whether it was.
pub record CliContext : Type 0 where
  pub global_string : GoString → GoString
  pub global_bool : GoString → Bool
  pub is_set : GoString → Bool

-- The names and the default values of the flags.
abbrev pub log_level_flag : GoString
log_level_flag = codes "log-level"

abbrev pub log_save_file_flag : GoString
log_save_file_flag = codes "log-save"

abbrev pub general_config_file_flag : GoString
general_config_file_flag = codes "general-config"

abbrev pub api_config_file_flag : GoString
api_config_file_flag = codes "api-config"

abbrev pub working_directory_flag : GoString
working_directory_flag = codes "working-directory"

abbrev pub api_type_flag : GoString
api_type_flag = codes "api-type"

abbrev pub api_type_default : GoString
api_type_default = codes "notifier"

abbrev pub publisher_type_flag : GoString
publisher_type_flag = codes "publisher-type"

abbrev pub publisher_type_default : GoString
publisher_type_default = message_queue_publisher_type

-- `handleAPIType`
unfoldable pub handle_api_type : CliContext → Result GoString
handle_api_type ctx =
    let api_type = ctx.global_string api_type_flag in
    if str_eq api_type (codes "rabbit-api")
    then ok message_queue_publisher_type
    else if str_eq api_type (codes "notifier")
    then ok ws_publisher_type
    else err invalid_api_type

-- `getWorkingDir`, with the result of `os.Getwd`.
unfoldable pub get_working_dir : CliContext → Result GoString → Result GoString
get_working_dir ctx getwd =
    if ctx.is_set working_directory_flag
    then ok (ctx.global_string working_directory_flag)
    else getwd

-- `getFlagsConfig`. The flag of the REST interface is never set.
unfoldable pub get_flags_config : CliContext → Result GoString → Result FlagsConfig
unfolding get_working_dir handle_api_type
get_flags_config ctx getwd = do
  working_dir ← get_working_dir ctx getwd
  publisher_type ← handle_api_type ctx
  ok (record {
    log_level = ctx.global_string log_level_flag;
    save_log_file = ctx.global_bool log_save_file_flag;
    general_config_path = ctx.global_string general_config_file_flag;
    api_config_path = ctx.global_string api_config_file_flag;
    working_dir = working_dir;
    publisher_type =
        if ctx.is_set publisher_type_flag
        then ctx.global_string publisher_type_flag
        else publisher_type;
    rest_api_interface = [];
  })

-- `readConfigs`, with `LoadMainConfig` and `LoadAPIConfig`, which read a toml file.
unfoldable pub read_configs :
    (GoString → Result MainConfig)
    → (GoString → Result ApiRoutesConfig)
    → CliContext
    → Result GoString
    → Result Configs
unfolding get_flags_config
read_configs load_main_config load_api_config ctx getwd = do
  flags_config ← get_flags_config ctx getwd
  main_config ← load_main_config flags_config.general_config_path
  api_config ← load_api_config flags_config.api_config_path
  ok (record { main_config = main_config; api_routes_config = api_config; flags = flags_config })

abbrev pub log_file_life_span_sec : ℕ
log_file_life_span_sec = 86400

-- `initLogger`, with the result of `logger.SetLogLevel`. The file logger is nil unless logs are saved.
unfoldable pub init_logger :
    Failures → Option GoError → FlagsConfig → Files → Result (Option FileLogger) × Files
unfolding new_file_logging change_file_life_span
init_logger failures (some e) config fs = (err e, fs)
init_logger failures none config fs =
    let (fl, fs') = new_file_logging failures fs in
    let (changed, fl') = change_file_life_span (1_000_000_000 * log_file_life_span_sec) fl in
    if config.save_log_file then (changed >>= λ u. ok (some fl'), fs') else (ok none, fs)

module _ {R A N P : Type 0} (env : Packages R A N P) (failures : Failures) where
  -- The end of `startEventNotifierProxy`, after the runner has returned.
  unfoldable pub close_logging : Option FileLogger → Files → Result (Unit {0}) × Files
  unfolding close_logger
  close_logging none fs = (ok tt, fs)
  close_logging (some file_logging) fs =
      let (e, fl, fs') = close_logger failures file_logging fs in
      (elim e [ none ↦ ok tt | some error ↦ err error ], fs')

  -- What `Start` returned, and the system and the files after it.
  abbrev after_start :
      Option FileLogger
      → Result (Unit {0}) × System R A N P
      → Files
      → Result (Unit {0}) × Files × System R A N P
  after_start file_logging (err e, s) fs = (err e, fs, s)
  after_start file_logging (panicked, s) fs = (panicked, fs, s)
  after_start file_logging (ok u, s) fs =
      let (result, fs') = close_logging file_logging fs in (result, fs', s)

  -- `startEventNotifierProxy`, with the results of `readConfigs` and of `logger.SetLogLevel`.
  unfoldable pub start_event_notifier_proxy :
      Result Configs
      → Option GoError
      → Files
      → System R A N P
      → Result (Unit {0}) × Files × System R A N P
  unfolding init_logger close_logging new_notifier_runner start
  start_event_notifier_proxy (err e) set_level fs s = (err e, fs, s)
  start_event_notifier_proxy panicked set_level fs s = (panicked, fs, s)
  start_event_notifier_proxy (ok cfgs) set_level fs s =
      let (logging, fs') = init_logger failures set_level cfgs.flags fs in
      elim logging [
        | err e ↦ (err e, fs', s)
        | panicked ↦ (panicked, fs', s)
        | ok file_logging ↦ elim (new_notifier_runner (some cfgs)) [
          | err e ↦ (err e, fs', s)
          | panicked ↦ (panicked, fs', s)
          | ok runner ↦ after_start file_logging (start env runner s) fs'
        ]
      ]
