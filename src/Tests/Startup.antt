-- ===== src/Tests/Startup.antt =====
-- The runner with the configuration files of cmd/notifier/config, on the test's server and network.
use mx_chain_notifier_go.Base.{ℕ, List, [], none, codes, false, arith}
use mx_chain_notifier_go.Errors.{ok}
use mx_chain_notifier_go.Config.{Configs}
use mx_chain_notifier_go.Data.{Message}
use mx_chain_notifier_go.Process.EventsHandler.Serve.{recorder}
use mx_chain_notifier_go.Factory.{Marshalizer}
use mx_chain_notifier_go.Notifier.{Packages, System, start}
use mx_chain_notifier_go.Notifier.Setup.{After}
use mx_chain_notifier_go.Notifier.Refusal.{OnlyRedis, start-refused}
use mx_chain_notifier_go.Tests.Fixtures.{Server, server, converter, clock}
use mx_chain_notifier_go.Tests.Payloads
use mx_chain_notifier_go.Tests.Rabbit.{Network, amqp, network, message_marshaller}
use mx_chain_notifier_go.Tests.Sockets
use mx_chain_notifier_go.Tests.Web.{flags, configs}

abbrev marshalizer : Marshalizer
marshalizer = record {
  payloads = Payloads.marshaller;
  messages = message_marshaller;
  sockets = Sockets.marshaller;
}

abbrev packages : Packages Server Network ℕ (List Message)
packages = record {
  redis = record {
    parse_url = λ url. ok 1;
    new_client = λ options. server;
    new_failover_client = λ name address. server;
  };
  amqp = amqp;
  hosts = record {
    create_web_socket_host = λ config marshaller n. (ok 4, n);
    set_payload_handler = λ host handler n. (none, n);
    close = λ host n. (none, n);
  };
  new_marshalizer = λ kind. ok marshalizer;
  new_bech32 = λ length prefix. ok converter;
  clock = clock;
  fuel = 3;
  broadcasts = recorder;
  group = λ path. path;
  order = λ gs. gs;
  shutdown = λ http_server. none;
}

abbrev system : System Server Network ℕ (List Message)
system = record {
  redis = record { outages = 0; lossy = false; keys = [] };
  amqp = network;
  net = 0;
  publisher = none;
  web_server = none;
}

-- A type that is misspelt.
abbrev misspelt : Configs
misspelt = record configs { flags = record flags { publisher_type = codes "WS" } }

start-refused_example :
    After (λ u s. ⊥) (OnlyRedis packages system) (start packages misspelt system)
start-refused_example =
    start-refused packages misspelt system (λ e. ground (arith, e)) (λ e. ground (arith, e))
