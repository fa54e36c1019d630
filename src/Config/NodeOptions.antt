-- ===== src/Config/NodeOptions.antt =====
-- `parse_node_config`: the options of a node.
use Prim.Native.String.{String}
use decentralised_interledge.Prelude.{
  Bool, true, false, not, ◌||◌, Option, some, ◌∷◌, Result, ok, err, ◌>>=◌, key_error, value_error,
  if◌then◌else◌,
}
use decentralised_interledge.Prelude.Int.{ℤ, pos}
use decentralised_interledge.Interfaces.{bytes_eq}
use decentralised_interledge.Config.Texts.{Text, codes, lower, int}
use decentralised_interledge.Config.Parsers.{Parser, read, or_fallback}

-- configparser's table of truth values.
unfoldable pub boolean : String → Result Bool
boolean v =
    let word = lower (codes v) in
    if bytes_eq word (codes "1")
      || (bytes_eq word (codes "yes")
          || (bytes_eq word (codes "true") || bytes_eq word (codes "on")))
    then ok true
    else if bytes_eq word (codes "0")
        || (bytes_eq word (codes "no")
            || (bytes_eq word (codes "false") || bytes_eq word (codes "off")))
    then ok false
    else err value_error

abbrev pub negate : Result Bool → Result Bool
negate (ok b) = ok (not b)
negate (err e) = err e

-- The fields of a `NodeConfig` as they are parsed; the numbers may be negative.
pub record NodeOptions : Type 0 where
  pub node_id : ℤ
  pub node_count : ℤ
  pub secret : String
  pub timeout_initial : ℤ
  pub timeout_backoff : ℤ
  pub timeout_enabled : Bool
  pub confirm_transfer : Bool
  pub verification_enabled : Bool
  pub route_to_first_node : Bool

-- `int(args_config.get(key) or parser.get('node', key))`: an empty text counts as none.
abbrev pub override : Option Text → Result String → Result ℤ
override (some (c ∷ cs)) from_file = int (c ∷ cs)
override _ from_file = elim from_file [ err e ↦ err e | ok v ↦ int (codes v) ]

-- The options in their order. `args_config` gives the texts of the command line for the keys of the
-- section node.
unfoldable pub node_options : Parser → (args_config : Text → Option Text) → Result NodeOptions
unfolding read
node_options parser args_config = do
  node_id ← override (args_config (codes "node_id")) (read parser "node" "node_id")
  node_count ← override (args_config (codes "node_count")) (read parser "node" "node_count")
  secret ← read parser "node" "secret"
  timeout_initial ←
      or_fallback (parser.option "node" "timeout_initial") (pos 30) (λ v. int (codes v))
  timeout_backoff ←
      or_fallback (parser.option "node" "timeout_backoff") (pos 2) (λ v. int (codes v))
  timeout_enabled ← negate (or_fallback (parser.option "node" "timeout_disabled") false boolean)
  confirm_transfer ← or_fallback (parser.option "node" "confirm_transfer") true boolean
  verification_enabled ←
      negate (or_fallback (parser.option "node" "verification_disabled") false boolean)
  route_to_first_node ← or_fallback (parser.option "node" "route_to_first_node") false boolean
  ok (record {
    node_id = node_id;
    node_count = node_count;
    secret = secret;
    timeout_initial = timeout_initial;
    timeout_backoff = timeout_backoff;
    timeout_enabled = timeout_enabled;
    confirm_transfer = confirm_transfer;
    verification_enabled = verification_enabled;
    route_to_first_node = route_to_first_node;
  })

unfoldable pub parse_node_config : Parser → (args_config : Text → Option Text) → Result NodeOptions
parse_node_config parser args_config =
    if parser.has_section "node" then node_options parser args_config else err key_error
