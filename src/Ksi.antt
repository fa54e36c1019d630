-- ===== src/Ksi.antt =====
-- src/interledger/adapter/ksi.py: the responder that stores the hash of the data with the KSI
-- Catena service. `hashlib`, `base64` and the service are parameters. A KSI id and a hash value are
-- the texts of the code.
pub mod Replies
use Prim.Native.String.{String}
use text.Mathlib.Text.{◌==◌ as str_eq}
use decentralised_interledge.Prelude.{
  ℕ, Bool, true, false, ◌&&◌, ◌||◌, ◌==◌, Option, none, some, List, [], Result, ok, err, ◌>>=◌,
  system_exit, if◌then◌else◌,
}
use decentralised_interledge.Interfaces.{
  Bytes, bytes_eq, ErrorCode, unsupported_ksi_hash, transaction_failure,
}

-- The constructors of `hashlib` that the responder uses.
pub data Algorithm : Type 0 where
  sha1 sha256 sha384 sha512 ripemd160 : Algorithm

-- `request['dataHash']`
pub record DataHash : Type 0 where
  pub algorithm : String
  pub value : List ℕ

-- The JSON of a reply, as far as it is read; a key that is missing raises where it is read.
pub record KsiBody : Type 0 where
  pub data_hash : Result DataHash  -- `['details']['dataHash']`
  pub verification_status : Result String  -- `['verificationResult']['status']`
  pub id : Result (List ℕ)

pub record KsiReply : Type 0 where
  pub status_code : ℕ
  pub json : Result KsiBody

-- `requests.post` is to the url of the responder, with its user name and password.
pub record Service : Type 0 where
  pub digest : Algorithm → Bytes → Result Bytes
  pub b64encode : Bytes → List ℕ
  pub post : DataHash → Result KsiReply

pub record KsiResponder : Type 0 where
  pub hash_algorithm : String

pub record KsiResponse : Type 0 where
  pub status : Bool
  pub error_code : Option ErrorCode
  pub tx_hash : List ℕ

unfoldable pub is_supported : String → Bool
is_supported name =
    str_eq name "SHA-1"
    || (str_eq name "SHA-256"
        || (str_eq name "SHA-384" || (str_eq name "SHA-512" || str_eq name "RIPEMD160")))

-- `__init__`: `exit(1)` raises.
unfoldable pub new_responder : String → Result KsiResponder
unfolding is_supported
new_responder name =
    if is_supported name then ok (record { hash_algorithm = name }) else err system_exit

-- The chain of tests at the start of `send_data`.
unfoldable pub hasher : String → Option Algorithm
hasher name =
    if str_eq name "SHA-1"
    then some sha1
    else if str_eq name "SHA-256"
    then some sha256
    else if str_eq name "SHA-384"
    then some sha384
    else if str_eq name "SHA-512"
    then some sha512
    else if str_eq name "RIPEMD160"
    then some ripemd160
    else none

abbrev pub data_hash_eq : DataHash → DataHash → Bool
data_hash_eq a b = str_eq a.algorithm b.algorithm && bytes_eq a.value b.value

-- The condition on the reply: `and` reads no further than it has to.
unfoldable pub is_verified : DataHash → KsiBody → Result Bool
is_verified request body = do
  returned ← body.data_hash
  if data_hash_eq returned request
      then (do status ← body.verification_status; ok (str_eq status "OK"))
      else ok false

unfoldable pub is_stored : DataHash → KsiReply → Result Bool
unfolding is_verified
is_stored request reply =
    if reply.status_code == 200 then (do body ← reply.json; is_verified request body) else ok false

unfoldable pub response_to : KsiReply → Bool → Result KsiResponse
response_to reply true = do
  body ← reply.json
  id ← body.id
  ok (record { status = true; error_code = none; tx_hash = id })
response_to reply false = do
  body ← reply.json
  ok (record { status = false; error_code = some transaction_failure; tx_hash = [] })

unfoldable pub send_hash : Service → String → Algorithm → Bytes → Result KsiResponse
unfolding is_stored response_to
send_hash service name algorithm payload = do
  digest ← service.digest algorithm payload
  let request : DataHash = record { algorithm = name; value = service.b64encode digest }
  reply ← service.post request
  stored ← is_stored request reply
  response_to reply stored

unfoldable pub send_data : Service → KsiResponder → Bytes → Result KsiResponse
unfolding hasher send_hash
send_data service responder payload = elim (hasher responder.hash_algorithm) [
  | none ↦ ok (record { status = false; error_code = some unsupported_ksi_hash; tx_hash = [] })
  | some algorithm ↦ send_hash service responder.hash_algorithm algorithm payload
]
