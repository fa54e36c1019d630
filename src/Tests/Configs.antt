-- ===== src/Tests/Configs.antt =====
-- A configuration file, and a setting of the command line over it.
use text.Mathlib.Text.{◌==◌ as str_eq}
use decentralised_interledge.Prelude.{
  true, false, none, some, [], ◌∷◌, ◌++◌, ok, ◌≡◌, refl, if◌then◌else◌,
}
use decentralised_interledge.Prelude.Int.{pos}
use decentralised_interledge.Ethereum.Events.{decimal, digits}
use decentralised_interledge.Config.Texts.{
  codes, int, skip_spaces, read_digits, read_number, read_signed, split, all_spaces,
}
use decentralised_interledge.Config.Arguments.{
  Settings, get, parse_arg, parse_args, parse_args_config,
}
use decentralised_interledge.Config.Parsers.{Parser, read}
use decentralised_interledge.Config.NodeOptions.{
  NodeOptions, parse_node_config, node_options, boolean,
}
use decentralised_interledge.Config.Overrides.{written}

abbrev parser : Parser
parser = record {
  has_section = λ section. str_eq section "node";
  option = λ section key.
      if str_eq key "node_id"
      then some "0"
      else if str_eq key "node_count"
      then some "3"
      else if str_eq key "secret"
      then some "s"
      else none;
}

abbrev settings : Settings
settings = record { section = codes "node"; key = codes "node_id"; value = codes "12" } ∷ []

abbrev options : NodeOptions
options = record {
  node_id = pos 12;
  node_count = pos 3;
  secret = "s";
  timeout_initial = pos 30;
  timeout_backoff = pos 2;
  timeout_enabled = true;
  confirm_transfer = true;
  verification_enabled = true;
  route_to_first_node = false;
}

parsed_arguments :
    parse_args_config ([] ++ (written (codes "node") (codes "node_id") (decimal 12) ∷ []))
    ≡ ok settings
unfolding parse_args_config parse_args parse_arg split decimal digits
parsed_arguments = refl

parsed_file : parse_node_config parser (λ key. get (codes "node") key settings) ≡ ok options
unfolding parse_node_config node_options read get int skip_spaces read_signed read_number
    read_digits all_spaces boolean
parsed_file = refl
