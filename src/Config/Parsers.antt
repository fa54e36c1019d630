-- ===== src/Config/Parsers.antt =====
-- The parsers of the sections. The file is read by `configparser`, which is a parameter: what it
-- gives for an option, behind its defaults and interpolation.
use Prim.Native.String.{String}
use decentralised_interledge.Prelude.{
  Bool, Option, none, some, Result, ok, err, no_section_error, no_option_error, if◌then◌else◌,
}

pub record Parser : Type 0 where
  pub has_section : String → Bool
  pub option : String → String → Option String

module _ (parser : Parser) where
  -- `parser.get(section, key)`
  unfoldable pub read : String → String → Result String
  read section key =
      if parser.has_section section
      then (elim (parser.option section key) [ none ↦ err no_option_error | some v ↦ ok v ])
      else err no_section_error

  -- `try: … = parser.get(section, key)` with `except: pass`
  abbrev pub optional : String → String → Option String
  optional section key = elim (read section key) [ err _ ↦ none | ok v ↦ some v ]

-- The fallback of `getint` and `getboolean`, for an option that is not there.
abbrev pub or_fallback : {A : Type 0} → Option String → A → (String → Result A) → Result A
or_fallback none fallback convert = ok fallback
or_fallback (some v) fallback convert = convert v
