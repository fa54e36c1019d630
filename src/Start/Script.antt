-- ===== src/Start/Script.antt =====
-- The whole start script: its command line, its configuration file, and the bridges.
use decentralised_interledge.Prelude.{
  ℕ, Option, some, none, List, [], ◌∷◌, ◌++◌, Result, ok, err, ◌>>=◌, >>=_inv, system_exit, ◌≡◌,
  ◌≢◌, ◌⊎◌, inl, inr, ap, ◌∙◌,
}
use decentralised_interledge.Prelude.Int.{ℤ, pos}
use decentralised_interledge.Ethereum.Events.{decimal}
use decentralised_interledge.Config.Texts.{Text, codes}
use decentralised_interledge.Config.Arguments.{get, parse_args_config}
use decentralised_interledge.Config.Parsers.{Parser, read}
use decentralised_interledge.Config.NodeOptions.{NodeOptions, parse_node_config}
use decentralised_interledge.Config.LedgerOptions.{Host}
use decentralised_interledge.Config.Overrides.{written, node_id_from_arguments}
use decentralised_interledge.Start.{Bridge, main}
use decentralised_interledge.Start.Made.{Constructors, setup_of}
use decentralised_interledge.Start.Sides.{HasConfig, main-HasConfig, main_starts}

module _ (host : Host) {I R : Type 0} (constructors : Constructors host.Abi I R)
    (parse : Text → Result Parser) where
  -- `main` with `sys.argv`; `configparser` reads the file, and is a parameter.
  unfoldable pub script :
      List Text → Result (Option (Bridge I R NodeOptions) × Option (Bridge I R NodeOptions))
  unfolding main setup_of parse_args_config parse_node_config read
  script (name ∷ config_file ∷ args) = do
    parser ← parse config_file
    args_config ← parse_args_config args
    direction ← read parser "service" "direction"
    left ← read parser "service" "left"
    right ← read parser "service" "right"
    main (setup_of host constructors parser) direction left right
        (parse_node_config parser (λ key. get (codes "node") key args_config))
  script _ = err system_exit

  -- The bridge, if there is one, is of the node with this number.
  abbrev pub HasNodeId : ℤ → Option (Bridge I R NodeOptions) → Type 0
  HasNodeId n none = Unit
  HasNodeId n (some bridge) = bridge.config.node_id ≡ n

  HasConfig-HasNodeId :
      (config : NodeOptions) (n : ℤ) (bridge : Option (Bridge I R NodeOptions))
      → config.node_id ≡ n
      → HasConfig config bridge
      → HasNodeId n bridge
  HasConfig-HasNodeId config n none e h = tt
  HasConfig-HasNodeId config n (some bridge) e h = ap (λ c. c.node_id) h ∙ e

  some_started :
      {A A' B B' D D' : Type 0} {there back : Option (Bridge I R NodeOptions)}
      → (A × (there ≢ none) × A') ⊎ ((B × B' × (back ≢ none)) ⊎ (D × (there ≢ none) × D'))
      → (there ≢ none) ⊎ (back ≢ none)
  some_started (inl (_, started, _)) = inl started
  some_started (inr (inl (_, _, started))) = inr started
  some_started (inr (inr (_, started, _))) = inl started

  -- If the script returns, with the setting `node.node_id=` and a number in decimal digits at the end
  -- of its command line, at least one bridge is started, and every one is of the node with this
  -- number, whatever the configuration file says.
  pub script-HasNodeId :
      (name config_file : Text) (args : List Text) (n : ℕ)
      (there back : Option (Bridge I R NodeOptions))
      → script (
          name
          ∷ config_file
          ∷ (args ++ (written (codes "node") (codes "node_id") (decimal n) ∷ [])))
        ≡ ok (there, back)
      → ((there ≢ none) ⊎ (back ≢ none)) × HasNodeId (pos n) there × HasNodeId (pos n) back
  unfolding script
  script-HasNodeId name config_file args n there back e =
      let (parser, e1, _) = >>=_inv (parse config_file) _ e in
      let (args_config, e2, parsed) =
        >>=_inv
          (parse_args_config (args ++ (written (codes "node") (codes "node_id") (decimal n) ∷ [])))
          _ e1 in
      let (direction, e3, _) = >>=_inv (read parser "service" "direction") _ e2 in
      let (left, e4, _) = >>=_inv (read parser "service" "left") _ e3 in
      let (right, e5, _) = >>=_inv (read parser "service" "right") _ e4 in
      let setup = setup_of host constructors parser in
      let node_cfg = parse_node_config parser (λ key. get (codes "node") key args_config) in
      let (config, made, first, second) =
        main-HasConfig setup direction left right node_cfg there back e5 in
      let id = node_id_from_arguments n args args_config parser config parsed made in
      (
        some_started (main_starts setup direction left right node_cfg there back e5),
        HasConfig-HasNodeId config (pos n) there id first,
        HasConfig-HasNodeId config (pos n) back id second,
      )
