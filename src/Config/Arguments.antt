-- ===== src/Config/Arguments.antt =====
-- `parse_args_config`: the settings `section.key=value` of the command line.
use decentralised_interledge.Prelude.{
  ◌&&◌, Option, none, some, List, [], ◌∷◌, Result, ok, err, ◌>>=◌, if◌then◌else◌,
}
use decentralised_interledge.Interfaces.{bytes_eq}
use decentralised_interledge.Config.Texts.{Text, split, two_of}

pub record Setting : Type 0 where
  pub section : Text
  pub key : Text
  pub value : Text

-- `config`, with the latest setting first. `config[section].get(key)` finds the latest; a section
-- that is not there is an empty dict.
abbrev pub Settings : Type 0
Settings = List Setting

unfoldable pub get : Text → Text → Settings → Option Text
get section key [] = none
get section key (s ∷ settings) =
    let rest = get section key settings in
    if bytes_eq s.section section && bytes_eq s.key key then some s.value else rest

unfoldable pub parse_arg : Text → Result Setting
unfolding split
parse_arg arg = do
  (section, setting) ← two_of (split b'.' arg)
  (key, value) ← two_of (split b'=' setting)
  ok (record { section = section; key = key; value = value })

-- The loop over the arguments, with the settings so far.
unfoldable pub parse_args : List Text → Settings → Result Settings
unfolding parse_arg
parse_args [] config = ok config
parse_args (arg ∷ args) config = elim (parse_arg arg) [
  | err e ↦ err e
  | ok setting ↦ parse_args args (setting ∷ config)
]

unfoldable pub parse_args_config : List Text → Result Settings
unfolding parse_args
parse_args_config args = parse_args args []
