-- ===== src/Config/LedgerOptions.antt =====
-- The options of a ledger of each kind.
use Prim.Native.String.{String}
use text.Mathlib.Text.{◌==◌ as str_eq}
use decentralised_interledge.Prelude.{
  Bool, ◌||◌, Option, none, some, List, [], ◌∷◌, Result, ok, err, ◌>>=◌, assertion_error,
  system_exit, if◌then◌else◌,
}
use decentralised_interledge.Prelude.Int.{ℤ}
use decentralised_interledge.Config.Texts.{codes, int}
use decentralised_interledge.Config.Parsers.{Parser, read, optional}

-- `Web3.toChecksumAddress`, and the reading of a JSON file, whose value stays closed.
pub record Host : Type 1 where
  pub Abi : Type 0
  pub to_checksum_address : String → Result String
  pub load_json : String → Result Abi

pub record EthereumConfig (Abi : Type 0) : Type 0 where
  pub minter : String
  pub contract_address : String
  pub contract_abi : Abi
  pub url : String
  pub port : Option String
  pub ipc_path : Option String
  pub private_key : Option String
  pub password : Option String
  pub poa : Option Bool

-- `assert net_type == …`
abbrev pub require_type : String → String → Result (Unit {0})
require_type wanted net_type = if str_eq net_type wanted then ok tt else err assertion_error

-- The file of the ABI is read under an `except` that exits.
abbrev pub or_exit : {A : Type 0} → Result A → Result A
or_exit (ok a) = ok a
or_exit (err e) = err system_exit

abbrev pub is_poa : Option String → Option Bool
is_poa none = none
is_poa (some v) = some (str_eq v "true" || str_eq v "True")

unfoldable pub parse_ethereum : (host : Host) → Parser → String → Result (EthereumConfig host.Abi)
unfolding read
parse_ethereum host parser section = do
  net_type ← read parser section "type"
  _ ← require_type "ethereum" net_type
  url ← read parser section "url"
  minter ← read parser section "minter"
  minter_address ← host.to_checksum_address minter
  contract ← read parser section "contract"
  contract_address ← host.to_checksum_address contract
  abi_file ← read parser section "contract_abi"
  abi ← or_exit (host.load_json abi_file)
  ok (record {
    minter = minter_address;
    contract_address = contract_address;
    contract_abi = abi;
    url = url;
    port = optional parser section "port";
    ipc_path = optional parser section "ipc_path";
    private_key = optional parser section "private_key";
    password = optional parser section "password";
    poa = is_poa (optional parser section "poa");
  })

-- The options of a section in their order, behind the check of its type.
unfoldable pub read_all : Parser → String → List String → Result (List String)
unfolding read
read_all parser section [] = ok []
read_all parser section (key ∷ keys) = do
  v ← read parser section key
  vs ← read_all parser section keys
  ok (v ∷ vs)

unfoldable pub parse_typed : String → List String → Parser → String → Result (List String)
unfolding read_all
parse_typed wanted keys parser section = do
  net_type ← read parser section "type"
  _ ← require_type wanted net_type
  read_all parser section keys

-- The tuple (url, hash_algorithm, username, password).
unfoldable pub parse_ksi : Parser → String → Result (List String)
unfolding parse_typed
parse_ksi = parse_typed "ksi" ("url" ∷ "hash_algorithm" ∷ "username" ∷ "password" ∷ [])

-- The tuple of the seven options of a Fabric section.
unfoldable pub parse_fabric : Parser → String → Result (List String)
unfolding parse_typed
parse_fabric = parse_typed "fabric" (
    "network_profile" ∷ "channel_name" ∷ "cc_name" ∷ "cc_version" ∷ "org_name" ∷ "user_name"
    ∷ "peer_name" ∷ [])

pub record IndyOptions : Type 0 where
  pub target_did : String
  pub pool_name : String
  pub protocol_version : ℤ
  pub genesis_file_path : String
  pub wallet_id : String
  pub wallet_key : String

unfoldable pub parse_indy : Parser → String → Result IndyOptions
unfolding read
parse_indy parser section = do
  net_type ← read parser section "type"
  _ ← require_type "indy" net_type
  target_did ← read parser section "target_did"
  pool_name ← read parser section "pool_name"
  version ← read parser section "protocol_version"
  protocol_version ← int (codes version)
  genesis_file_path ← read parser section "genesis_file_path"
  wallet_id ← read parser section "wallet_id"
  wallet_key ← read parser section "wallet_key"
  ok (record {
    target_did = target_did;
    pool_name = pool_name;
    protocol_version = protocol_version;
    genesis_file_path = genesis_file_path;
    wallet_id = wallet_id;
    wallet_key = wallet_key;
  })
