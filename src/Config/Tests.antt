-- ===== src/Config/Tests.antt =====
-- The theorems about src/config at concrete inputs.
use ghc_gateway.Base.{
  ◌≡◌, ◌≤◌, refl, true, false, none, some, List, [], ◌∷◌, ◌++◌, Text, text, same_text, starts_with,
  trim,
}
use ghc_gateway.Config.Startup.{
  StartupConfig, Flags, Platform, Environment, ready, default, info, parse_flags,
  parse_startup_config, selected_data_dir, set_value, token_kind, require_value, lone_token,
  first_defined, parse_port, parse_log_level, resolve_data_dir, home_directory,
  assert_loopback_bind_host,
}
use ghc_gateway.Config.Flags.{parse_flags-last_port, parse_startup_config-accepted}

abbrev two_ports : List Text
two_ports = text "--port" ∷ text "8080" ∷ text "--diagnostics" ∷ []

abbrev their_flags : Flags
their_flags = record {
  flag_port = some (text "8080");
  flag_data_dir = none;
  flag_log_level = none;
  flag_diagnostics = true;
}

two_ports-flags : parse_flags two_ports ≡ ready their_flags
unfolding parse_flags set_value token_kind same_text require_value starts_with lone_token
two_ports-flags = refl

parse_flags-last_port_example :
    parse_flags (two_ports ++ text "--port" ∷ text "9090" ∷ [])
    ≡ ready (record their_flags { flag_port = some (text "9090") })
parse_flags-last_port_example =
    parse_flags-last_port two_ports (text "9090") their_flags two_ports-flags
      (unfold starts_with in refl)

-- A platform whose paths are joined by a slash and are all absolute.
abbrev platform : Platform
platform = record {
  os_homedir = text "/root";
  path_join = λ first second. first ++ text "/" ++ second;
  path_resolve = λ path. path;
}

abbrev environment : Environment
environment = record { env_port = some (text "9000"); env_data_dir = none; env_log_level = none }

abbrev configuration : StartupConfig
configuration = record {
  host = text "127.0.0.1";
  port = 8080;
  data_dir = text "/home/.ghc-gateway";
  data_dir_source = default;
  log_level = info;
  diagnostics = true;
}

configuration_lem :
    parse_startup_config platform (some (text "/home")) two_ports environment ≡ ready configuration
unfolding parse_startup_config parse_flags set_value token_kind same_text require_value starts_with
    lone_token first_defined parse_port parse_log_level resolve_data_dir trim selected_data_dir
    home_directory
configuration_lem = refl

parse_startup_config-accepted_example :
    (flags : Flags) × (dir : Text) × (parse_flags two_ports ≡ ready flags)
    × (selected_data_dir platform flags.flag_data_dir none
          (home_directory platform (some (text "/home")))
        ≡ (dir, default))
    × (same_text (trim dir) [] ≡ false)
    × (text "/home/.ghc-gateway" ≡ dir)
    × (assert_loopback_bind_host (text "127.0.0.1") ≡ ready tt)
    × (1 ≤ 8080)
    × (8080 ≤ 65535)
parse_startup_config-accepted_example =
    parse_startup_config-accepted platform (some (text "/home")) two_ports environment configuration
      configuration_lem
