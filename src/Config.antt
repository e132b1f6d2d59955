-- ===== src/Config.antt =====
-- config/config.go: the sections of the two configuration files and the flags, with the fields that the
-- program reads.
use mx_chain_notifier_go.Base.{ℕ, List, Bool, GoString}
use mx_chain_notifier_go.Rabbit.Publisher.{RabbitMqConfig}

pub record MarshallerConfig : Type 0 where
  pub type_name : GoString

-- `Type` is `type_name`; the length is an int.
pub record AddressConverterConfig : Type 0 where
  pub type_name : GoString
  pub prefix : GoString
  pub length : ℕ

pub record GeneralConfig : Type 0 where
  pub external_marshaller : MarshallerConfig
  pub address_converter : AddressConverterConfig
  pub check_duplicates : Bool

pub record ConnectorApiConfig : Type 0 where
  pub enabled : Bool
  pub host : GoString
  pub username : GoString
  pub password : GoString

pub record RouteConfig : Type 0 where
  pub name : GoString
  pub is_open : Bool
  pub auth : Bool

pub record ApiPackageConfig : Type 0 where
  pub routes : List RouteConfig

-- `APIPackages` is a map.
pub record ApiRoutesConfig : Type 0 where
  pub api_packages : List (GoString × ApiPackageConfig)

pub record RedisConfig : Type 0 where
  pub url : GoString
  pub master_name : GoString
  pub sentinel_url : GoString
  pub connection_type : GoString
  pub ttl : ℕ

pub record WebSocketConfig : Type 0 where
  pub enabled : Bool
  pub url : GoString
  pub mode : GoString
  pub retry_duration_in_sec : ℕ
  pub acknowledge_timeout_in_sec : ℕ
  pub with_acknowledge : Bool
  pub blocking_ack_on_error : Bool
  pub drop_messages_if_no_connection : Bool
  pub data_marshaller_type : GoString

pub record MainConfig : Type 0 where
  pub general : GeneralConfig
  pub web_socket_connector : WebSocketConfig
  pub connector_api : ConnectorApiConfig
  pub redis : RedisConfig
  pub rabbit_mq : RabbitMqConfig

pub record FlagsConfig : Type 0 where
  pub log_level : GoString
  pub save_log_file : Bool
  pub general_config_path : GoString
  pub api_config_path : GoString
  pub working_dir : GoString
  pub publisher_type : GoString
  pub rest_api_interface : GoString

pub record Configs : Type 0 where
  pub main_config : MainConfig
  pub api_routes_config : ApiRoutesConfig
  pub flags : FlagsConfig
