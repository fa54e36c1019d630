-- ===== src/Ethereum/Connection.antt =====
-- `Web3Initializer.__init__`: the provider that an adapter connects by. web3's providers are closed;
-- only their kind and path are kept. Texts are lists of character codes.
use decentralised_interledge.Prelude.{
  ℕ, Bool, true, false, ◌||◌, Option, none, some, [], ◌∷◌, ◌++◌, Result, ok, err, value_error,
  if◌then◌else◌, ◌≡◌, refl, arith,
}
use decentralised_interledge.Interfaces.{bytes_eq}
use decentralised_interledge.Config.Texts.{Text, codes, lower, split}

pub data Provider : Type 0 where
  ipc_provider http_provider websocket_provider : Text → Provider

-- The provider, and whether the middleware for proof of authority is injected.
pub record Connection : Type 0 where
  pub provider : Provider
  pub injects_poa : Bool

-- An option counts as false if it is None or empty.
abbrev pub is_given : Option Text → Bool
is_given none = false
is_given (some []) = false
is_given (some (c ∷ cs)) = true

abbrev text_of : Option Text → Text
text_of none = []
text_of (some cs) = cs

abbrev is_set : Option Bool → Bool
is_set none = false
is_set (some b) = b

-- The path with the port behind it, if there is one.
abbrev with_port : Text → Option Text → Text
with_port url port = if is_given port then url ++ (58 ∷ text_of port) else url

-- By the text in front of the first colon.
abbrev pub is_any : Text → Text → Text → Bool
is_any protocol a b = bytes_eq protocol a || bytes_eq protocol b

unfoldable pub provider_for : (protocol path : Text) → Result Provider
provider_for protocol path =
    if is_any protocol (codes "http") (codes "https")
    then ok (http_provider path)
    else if is_any protocol (codes "ws") (codes "wss")
    then ok (websocket_provider path)
    else err value_error

abbrev pub connection : Option Bool → Result Provider → Result Connection
connection poa (err e) = err e
connection poa (ok p) = ok (record { provider = p; injects_poa = is_set poa })

unfoldable pub new_web3 :
    (url : Text) (port : Option Text) (poa : Option Bool) (ipc_path : Option Text)
    → Result Connection
unfolding provider_for split
new_web3 url port poa ipc_path =
    let (protocol, rest) = split 58 url in
    connection poa (
      if is_given ipc_path
      then ok (ipc_provider (text_of ipc_path))
      else provider_for (lower protocol) (with_port url port))

split-append : (url port : Text) → (split 58 (url ++ (58 ∷ port))).0 ≡ (split 58 url).0
unfolding split
split-append [] port = ground arith
split-append (c ∷ url) port = ground (arith, split-append url port)

-- A port that is given apart from the url connects as the url with the port behind a colon does:
-- the protocol is that of the url, for any url, with a path of an IPC provider or without one.
pub new_web3_port :
    (url : Text) (c : ℕ) (port : Text) (poa : Option Bool) (ipc_path : Option Text)
    → new_web3 url (some (c ∷ port)) poa ipc_path
      ≡ new_web3 (url ++ (58 ∷ c ∷ port)) none poa ipc_path
unfolding new_web3
new_web3_port url c port poa ipc_path = rw (split-append url (c ∷ port)) refl
