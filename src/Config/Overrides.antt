-- ===== src/Config/Overrides.antt =====
-- A setting of the command line is read as it is written, and the last one for a key counts.
use decentralised_interledge.Prelude.{
  ℕ, true, false, Option, some, List, [], ◌∷◌, ◌++◌, Result, ok, err, ◌≡◌, ◌≢◌, refl, arith, All,
  sym, ◌∙◌, ap, >>=_inv, Result-cases, Bool-cases, key_error, inl, inr,
}
use Prim.Native.String.{String}
use decentralised_interledge.Prelude.Int.{ℤ, pos}
use decentralised_interledge.Interfaces.{bytes_eq}
use decentralised_interledge.Ethereum.Events.{decimal}
use decentralised_interledge.Config.Texts.{Text, codes, is_digit, split}
use decentralised_interledge.Config.Arguments.{
  Settings, get, parse_arg, parse_args, parse_args_config,
}
use decentralised_interledge.Config.Parsers.{Parser, read, or_fallback}
use decentralised_interledge.Config.NodeOptions.{
  NodeOptions, parse_node_config, node_options, override, negate,
}
use decentralised_interledge.Ethereum.Events.Seed.{value, value-decimal}
use decentralised_interledge.Config.Numerals.{
  IsNumeral, int-IsNumeral, decimal-IsNumeral, decimal-ne-nil,
}

-- The character does not occur.
abbrev pub HasNo : ℕ → Text → Type 0
HasNo c = All (λ x. x ≢ c)

split-HasNo : (c : ℕ) (a : Text) → HasNo c a → split c a ≡ (a, [])
unfolding split
split-HasNo c [] h = refl
split-HasNo c (x ∷ a) (ne, h) = ground (arith, split-HasNo c a h)

split-append : (c : ℕ) (a b : Text) → HasNo c a → HasNo c b → split c (a ++ (c ∷ b)) ≡ (a, b ∷ [])
unfolding split
split-append c [] b ha hb = ground (arith, split-HasNo c b hb)
split-append c (x ∷ a) b (ne, ha) hb = ground (arith, split-append c a b ha hb)

HasNo-append : (c : ℕ) (a b : Text) → HasNo c a → HasNo c b → HasNo c (a ++ b)
HasNo-append c [] b ha hb = hb
HasNo-append c (x ∷ a) b (ne, ha) hb = (ne, HasNo-append c a b ha hb)

bytes_eq_refl : (a : Text) → bytes_eq a a ≡ true
bytes_eq_refl [] = refl
bytes_eq_refl (x ∷ a) = ground (arith, bytes_eq_refl a)

-- The text `section.key=value`.
abbrev pub written : Text → Text → Text → Text
written section key value = section ++ (46 ∷ (key ++ (61 ∷ value)))

module _ (section key value : Text) (section_plain : HasNo 46 section) (key_plain : HasNo 46 key)
    (value_plain : HasNo 46 value) (key_equals : HasNo 61 key) (value_equals : HasNo 61 value) where
  parse_arg-written :
      parse_arg (written section key value)
      ≡ ok (record { section = section; key = key; value = value })
  unfolding parse_arg
  parse_arg-written =
      rw
        (split-append 46 section (key ++ (61 ∷ value)) section_plain
          (HasNo-append 46 key (61 ∷ value) key_plain ((λ e. omega arith), value_plain)))
        (rw (split-append 61 key value key_equals value_equals) refl)

  parse_args-last :
      (args : List Text) (before config : Settings)
      → parse_args (args ++ (written section key value ∷ [])) before ≡ ok config
      → get section key config ≡ some value
  unfolding parse_args get
  parse_args-last [] before config e =
      let opened = rw (parse_arg-written, parse_args) at e in
      ground (arith, opened, bytes_eq_refl section, bytes_eq_refl key)
  parse_args-last (arg ∷ args) before config e = elim (Result-cases (parse_arg arg)) [
    | inl (setting, parsed) ↦
        parse_args-last args (setting ∷ before) config (rw (parsed, parse_args) at e)
    | inr (x, raised) ↦
        let refused : err x ≡ ok config = rw (raised, parse_args) at e in
        absurd (ground (arith, refused))
  ]

IsNumeral-HasNo : (c : ℕ) (a : Text) → is_digit c ≡ false → IsNumeral a → HasNo c a
IsNumeral-HasNo c [] other h = tt
IsNumeral-HasNo c (x ∷ a) other (d, h) =
    ((λ e. ground (arith, e, d, other)), IsNumeral-HasNo c a other h)

-- An override that is a numeral counts, whatever the file says.
override-IsNumeral :
    (a : Text) (from_file : Result String) (z : ℤ)
    → a ≢ []
    → IsNumeral a
    → override (some a) from_file ≡ ok z
    → z ≡ pos (value 0 a)
override-IsNumeral [] from_file z ne h e = absurd (ne refl)
override-IsNumeral (c ∷ a) from_file z ne h e = ground (arith, int-IsNumeral c a h, e)

-- The last setting of a key on the command line counts, whatever the settings in front of it are:
-- if all of them can be parsed, and section, key and value have no dot and key and value no equals
-- sign, `args_config[section].get(key)` is the value.
pub parse_args_config-last :
    (section key value : Text) (args : List Text) (config : Settings)
    → HasNo 46 section
    → HasNo 46 key
    → HasNo 46 value
    → HasNo 61 key
    → HasNo 61 value
    → parse_args_config (args ++ (written section key value ∷ [])) ≡ ok config
    → get section key config ≡ some value
unfolding parse_args_config
parse_args_config-last section key value args config h1 h2 h3 h4 h5 e =
    parse_args-last section key value h1 h2 h3 h4 h5 args [] config e

-- The node id of the options comes from the setting, or else from the file.
node_id_overridden :
    (parser : Parser) (args_config : Text → Option Text) (o : NodeOptions)
    → node_options parser args_config ≡ ok o
    → override (args_config (codes "node_id")) (read parser "node" "node_id") ≡ ok o.node_id
unfolding node_options
node_id_overridden parser args_config o e =
    let (id, e1, found) =
      >>=_inv (override (args_config (codes "node_id")) (read parser "node" "node_id")) _ e in
    let (_, e2, _) =
      >>=_inv (override (args_config (codes "node_count")) (read parser "node" "node_count")) _
        e1 in
    let (_, e3, _) = >>=_inv (read parser "node" "secret") _ e2 in
    let (_, e4, _) = >>=_inv (or_fallback (parser.option "node" "timeout_initial") _ _) _ e3 in
    let (_, e5, _) = >>=_inv (or_fallback (parser.option "node" "timeout_backoff") _ _) _ e4 in
    let (_, e6, _) =
      >>=_inv (negate (or_fallback (parser.option "node" "timeout_disabled") _ _)) _ e5 in
    let (_, e7, _) = >>=_inv (or_fallback (parser.option "node" "confirm_transfer") _ _) _ e6 in
    let (_, e8, _) =
      >>=_inv (negate (or_fallback (parser.option "node" "verification_disabled") _ _)) _ e7 in
    let (_, e9, _) = >>=_inv (or_fallback (parser.option "node" "route_to_first_node") _ _) _ e8 in
    let same : id ≡ o.node_id = ground (arith, e9) in found ∙ ap ok same

parsed_options :
    (parser : Parser) (args_config : Text → Option Text) (o : NodeOptions)
    → parse_node_config parser args_config ≡ ok o
    → node_options parser args_config ≡ ok o
unfolding parse_node_config
parsed_options parser args_config o e = elim (Bool-cases (parser.has_section "node")) [
  | inl there ↦ rw there at e
  | inr missing ↦
      let stopped : err key_error ≡ ok o = rw missing at e in absurd (ground (arith, stopped))
]

-- The setting `node.node_id=` with a number in decimal digits, at the end of the command line, gives
-- the node this number, whatever the configuration file says.
pub node_id_from_arguments :
    (n : ℕ) (args : List Text) (config : Settings) (parser : Parser) (options : NodeOptions)
    → parse_args_config (args ++ (written (codes "node") (codes "node_id") (decimal n) ∷ []))
      ≡ ok config
    → parse_node_config parser (λ key. get (codes "node") key config) ≡ ok options
    → options.node_id ≡ pos n
node_id_from_arguments n args config parser options e1 e2 =
    let numeral = decimal-IsNumeral n in
    let no_dot = IsNumeral-HasNo 46 (decimal n) refl numeral in
    let no_equals = IsNumeral-HasNo 61 (decimal n) refl numeral in
    let last =
      parse_args_config-last (codes "node") (codes "node_id") (decimal n) args config node_plain
        key_plain no_dot key_equals no_equals e1 in
    let used =
      node_id_overridden parser (λ key. get (codes "node") key config) options
        (parsed_options parser (λ key. get (codes "node") key config) options e2) in
    override-IsNumeral (decimal n) (read parser "node" "node_id") options.node_id (decimal-ne-nil n)
      numeral (sym (ap (λ o. override o (read parser "node" "node_id")) last) ∙ used)
    ∙ ap pos (value-decimal n)
  where
    node_plain : HasNo 46 (codes "node")
    node_plain = ground arith

    key_plain : HasNo 46 (codes "node_id")
    key_plain = ground arith

    key_equals : HasNo 61 (codes "node_id")
    key_equals = ground arith
