-- ===== src/Config/Startup.antt =====
-- src/config/startup_config.ts. The home directory, `path.join` and `path.resolve` are parameters.
use ghc_gateway.Base.{
  ℕ, Bool, true, false, ◌||◌, Option, none, some, List, [], ◌∷◌, Text, text, same_text, starts_with,
  trim, is_decimal, decimal_value, ltb, if◌then◌else◌,
}

pub data LogLevel : Type 0 where
  trace debug info warn error : LogLevel

pub data DataDirSource : Type 0 where
  default custom : DataDirSource

pub record StartupConfig : Type 0 where
  pub host : Text
  pub port : ℕ
  pub data_dir : Text
  pub data_dir_source : DataDirSource
  pub log_level : LogLevel
  pub diagnostics : Bool

pub data StartupConfigError : Type 0 where
  host_not_loopback port_not_integer port_out_of_range unknown_log_level : StartupConfigError
  empty_data_dir missing_startup_value : StartupConfigError
  unknown_flag requires_value : Text → StartupConfigError

pub data Parsed {ℓ} (A : Type ℓ) : Type ℓ where
  ready : A → Parsed A
  refused : StartupConfigError → Parsed A

infixl 1 ◌>>=◌ ◌>>◌
abbrev pub ◌>>=◌ {ℓ κ} : {A : Type ℓ} {B : Type κ} → Parsed A → (A → Parsed B) → Parsed B
ready a >>= f = f a
refused e >>= f = refused e

abbrev pub ◌>>◌ {ℓ κ} : {A : Type ℓ} {B : Type κ} → Parsed A → Parsed B → Parsed B
m >> k = m >>= λ _. k

abbrev pub loopback_host : Text
loopback_host = text "127.0.0.1"

abbrev pub default_port : Text
default_port = text "31400"

abbrev pub default_log_level : Text
default_log_level = text "info"

unfoldable pub assert_loopback_bind_host : Text → Parsed (Unit {0})
assert_loopback_bind_host host =
    if same_text host loopback_host then ready tt else refused host_not_loopback

pub record Flags : Type 0 where
  pub flag_port : Option Text
  pub flag_data_dir : Option Text
  pub flag_log_level : Option Text
  pub flag_diagnostics : Bool

abbrev pub no_flags : Flags
no_flags = record {
  flag_port = none;
  flag_data_dir = none;
  flag_log_level = none;
  flag_diagnostics = false;
}

-- The comparisons that the loop of `parseFlags` makes with a token, in their order.
pub data Token : Type 0 where
  diagnostics_flag port_flag data_dir_flag log_level_flag unknown positional : Token

unfoldable pub token_kind : Text → Token
token_kind token =
    if same_text token (text "--diagnostics")
    then diagnostics_flag
    else if same_text token (text "--port")
    then port_flag
    else if same_text token (text "--data-dir")
    then data_dir_flag
    else if same_text token (text "--log-level")
    then log_level_flag
    else if starts_with token (text "-")
    then unknown
    else positional

unfoldable pub require_value : Text → Option Text → Parsed Text
require_value flag none = refused (requires_value flag)
require_value flag (some value) =
    if starts_with value (text "-") then refused (requires_value flag) else ready value

-- What a token does that takes no value; a token that wants one finds none after it.
unfoldable pub lone_token : Token → Text → Flags → Parsed Flags
unfolding require_value
lone_token diagnostics_flag token flags = ready (record flags { flag_diagnostics = true })
lone_token unknown token flags = refused (unknown_flag token)
lone_token positional token flags = ready flags
lone_token _ token flags = require_value token none >>= λ value. ready flags

-- A value that follows its flag, or nothing if the token takes no value.
unfoldable pub set_value : Token → Text → Text → Flags → Option (Parsed Flags)
set_value port_flag token next flags =
    some
      (require_value token (some next) >>= λ value. ready (record flags { flag_port = some value }))
set_value data_dir_flag token next flags = some (
    require_value token (some next) >>= λ value.
    ready (record flags { flag_data_dir = some value }))
set_value log_level_flag token next flags = some (
    require_value token (some next) >>= λ value.
    ready (record flags { flag_log_level = some value }))
set_value _ token next flags = none

abbrev pub after_value :
    Option (Parsed Flags) → Parsed Flags → (skip one : Flags → Parsed Flags) → Parsed Flags
after_value (some valued) lone skip one = valued >>= skip
after_value none lone skip one = lone >>= one

-- The loop of `parseFlags`: a flag with a value steps over two tokens.
unfoldable pub read_flags : List Text → Flags → Parsed Flags
read_flags [] flags = ready flags
read_flags (token ∷ []) flags = lone_token (token_kind token) token flags
read_flags (token ∷ next ∷ rest) flags =
    after_value (set_value (token_kind token) token next flags)
      (lone_token (token_kind token) token flags) (λ changed. read_flags rest changed)
      (λ changed. read_flags (next ∷ rest) changed)

unfoldable pub parse_flags : List Text → Parsed Flags
unfolding read_flags
parse_flags argv = read_flags argv no_flags

unfoldable pub parse_port : Text → Parsed ℕ
unfolding is_decimal decimal_value
parse_port value =
    if is_decimal value
    then (let port = decimal_value 0 value in
        if ltb port 1 || ltb 65535 port then refused port_out_of_range else ready port)
    else refused port_not_integer

unfoldable pub parse_log_level : Text → Parsed LogLevel
parse_log_level value =
    if same_text value (text "trace")
    then ready trace
    else if same_text value (text "debug")
    then ready debug
    else if same_text value (text "info")
    then ready info
    else if same_text value (text "warn")
    then ready warn
    else if same_text value (text "error")
    then ready error
    else refused unknown_log_level

abbrev is_blank : Text → Bool
is_blank value = same_text (trim value) []

unfoldable pub first_defined : List (Option Text) → Parsed Text
first_defined [] = refused missing_startup_value
first_defined (none ∷ values) = first_defined values
first_defined (some [] ∷ values) = first_defined values
first_defined (some (c ∷ value) ∷ values) = ready (c ∷ value)

pub record Environment : Type 0 where
  pub env_port : Option Text
  pub env_data_dir : Option Text
  pub env_log_level : Option Text

-- `os` and `path`
pub record Platform : Type 0 where
  pub os_homedir : Text
  pub path_join : Text → Text → Text
  pub path_resolve : Text → Text

module _ (platform : Platform) where
  unfoldable pub resolve_data_dir : Text → Parsed Text
  resolve_data_dir value =
      if is_blank value then refused empty_data_dir else ready (platform.path_resolve value)

  unfoldable pub selected_data_dir : Option Text → Option Text → Text → Text × DataDirSource
  selected_data_dir (some value) env homedir = (value, custom)
  selected_data_dir none (some value) homedir = (value, custom)
  selected_data_dir none none homedir = (platform.path_join homedir (text ".ghc-gateway"), default)

  -- `options.homedir ?? os.homedir()`
  unfoldable pub home_directory : Option Text → Text
  home_directory none = platform.os_homedir
  home_directory (some given) = given

  -- The first argument is `options.homedir`.
  unfoldable pub parse_startup_config : Option Text → List Text → Environment → Parsed StartupConfig
  parse_startup_config homedir argv env = do
    flags ← parse_flags argv
    port_text ← first_defined (flags.flag_port ∷ env.env_port ∷ some default_port ∷ [])
    port ← parse_port port_text
    level_text ←
        first_defined (flags.flag_log_level ∷ env.env_log_level ∷ some default_log_level ∷ [])
    level ← parse_log_level level_text
    let selected = selected_data_dir flags.flag_data_dir env.env_data_dir (home_directory homedir)
    data_dir ← resolve_data_dir selected.0
    ready (record {
      host = loopback_host;
      port = port;
      data_dir = data_dir;
      data_dir_source = selected.1;
      log_level = level;
      diagnostics = flags.flag_diagnostics;
    })
