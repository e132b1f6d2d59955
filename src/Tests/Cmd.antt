-- ===== src/Tests/Cmd.antt =====
-- A command line without flags.
use mx_chain_notifier_go.Base.{◌≡◌, refl, ◌⊎◌, [], true, false, codes, str_eq, if◌then◌else◌}
use mx_chain_notifier_go.Errors.{ok}
use mx_chain_notifier_go.Config.{FlagsConfig}
use mx_chain_notifier_go.Cmd.{
  CliContext, api_type_flag, publisher_type_flag, handle_api_type, get_working_dir,
  get_flags_config,
}
use mx_chain_notifier_go.Cmd.Flags.{get_flags_config-publisher_type}

abbrev no_flags : CliContext
no_flags = record {
  global_string = λ name.
      if str_eq name publisher_type_flag
      then codes "rabbitmq"
      else if str_eq name api_type_flag
      then codes "notifier"
      else [];
  global_bool = λ name. false;
  is_set = λ name. false;
}

abbrev chosen : FlagsConfig
chosen = record {
  log_level = [];
  save_log_file = false;
  general_config_path = [];
  api_config_path = [];
  working_dir = codes "/";
  publisher_type = codes "ws";
  rest_api_interface = [];
}

chosen_by : get_flags_config no_flags (ok (codes "/")) ≡ ok chosen
unfolding get_flags_config get_working_dir handle_api_type str_eq
chosen_by = refl

get_flags_config-publisher_type_example :
    (false ≡ true → codes "ws" ≡ no_flags.global_string publisher_type_flag)
    × (false ≡ false
        → ((no_flags.global_string api_type_flag ≡ codes "rabbit-api")
            × (codes "ws" ≡ codes "rabbitmq"))
          ⊎ ((no_flags.global_string api_type_flag ≡ codes "notifier") × (codes "ws" ≡ codes "ws")))
    × (false ≡ false
        → false ≡ false
        → (codes "ws" ≡ codes "ws")
          × (no_flags.global_string publisher_type_flag ≡ codes "rabbitmq"))
unfolding str_eq
get_flags_config-publisher_type_example =
    get_flags_config-publisher_type no_flags (ok (codes "/")) chosen (λ h. refl) (λ h. refl)
      chosen_by
