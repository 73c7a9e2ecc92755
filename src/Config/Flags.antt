-- ===== src/Config/Flags.antt =====
-- The command line of src/config/startup_config.ts.
use ghc_gateway.Base.{
  ℕ, ◌≤◌, ◌≡◌, refl, sym, ap, ◌∙◌, subst, arith, Bool, true, false, Option, none, some, List, [],
  ◌∷◌, ◌++◌, Text, text, same_text, starts_with, trim, if◌then◌else◌,
}
use ghc_gateway.Config.Startup.{
  Parsed, ready, refused, ◌>>=◌, Flags, no_flags, Token, diagnostics_flag, port_flag, data_dir_flag,
  log_level_flag, unknown, positional, default_port, default_log_level, token_kind, require_value,
  lone_token, set_value, after_value, read_flags, parse_flags, StartupConfig, parse_port,
  parse_startup_config, Environment, Platform, resolve_data_dir, selected_data_dir, home_directory,
  assert_loopback_bind_host, empty_data_dir, first_defined, parse_log_level,
}

ready_inj : {A : Type 0} {a b : A} → ready a ≡ ready b → a ≡ b
ready_inj {a = a} e = ap (λ p. elim p [ ready c ↦ c | refused x ↦ a ]) e

bind_ready :
    {A B : Type 0} (p : Parsed A) (f : A → Parsed B) (b : B)
    → (p >>= f) ≡ ready b
    → (a : A) × (p ≡ ready a) × (f a ≡ ready b)
bind_ready (ready a) f b e = (a, refl, e)
bind_ready (refused x) f b e = ground (arith, e)

bind-transfer :
    {A B : Type 0} (p : Parsed A) (f h : A → Parsed B) (b : B) (r : Parsed B)
    → ((a : A) → f a ≡ ready b → h a ≡ r)
    → (p >>= f) ≡ ready b
    → (p >>= h) ≡ r
bind-transfer (ready a) f h b r k e = k a e
bind-transfer (refused x) f h b r k e = ground (arith, e)

after_value-transfer :
    (o : Option (Parsed Flags)) (lone : Parsed Flags) (skip one skips ones : Flags → Parsed Flags)
    (g : Flags) (r : Parsed Flags)
    → ((f : Flags) → skip f ≡ ready g → skips f ≡ r)
    → ((f : Flags) → one f ≡ ready g → ones f ≡ r)
    → after_value o lone skip one ≡ ready g
    → after_value o lone skips ones ≡ r
after_value-transfer none lone skip one skips ones g r h k = bind-transfer lone one ones g r k
after_value-transfer (some valued) lone skip one skips ones g r h k =
    bind-transfer valued skip skips g r h

-- A token that is accepted with nothing after it takes no value.
lone_token-set_value :
    (k : Token) (token next : Text) (f g : Flags)
    → lone_token k token f ≡ ready g
    → set_value k token next f ≡ none
unfolding lone_token set_value require_value
lone_token-set_value diagnostics_flag token next f g e = refl
lone_token-set_value unknown token next f g e = refl
lone_token-set_value positional token next f g e = refl
lone_token-set_value port_flag token next f g e = ground (arith, e)
lone_token-set_value data_dir_flag token next f g e = ground (arith, e)
lone_token-set_value log_level_flag token next f g e = ground (arith, e)

one_token :
    (token : Text) (more : List Text) (f g : Flags)
    → lone_token (token_kind token) token f ≡ ready g
    → read_flags (token ∷ more) f ≡ read_flags more g
unfolding read_flags
one_token token [] f g e = e
one_token token (next ∷ rest) f g e =
    ap
      (λ o.
        after_value o (lone_token (token_kind token) token f) (read_flags rest)
          (read_flags (next ∷ rest)))
      (lone_token-set_value (token_kind token) token next f g e)
    ∙ ap (λ p. p >>= read_flags (next ∷ rest)) e

-- A command line that parses leaves its flags to what follows it.
read_flags-append :
    (argv more : List Text) (f g : Flags)
    → read_flags argv f ≡ ready g
    → read_flags (argv ++ more) f ≡ read_flags more g
unfolding read_flags
read_flags-append [] more f g e = ap (λ p. p >>= read_flags more) e
read_flags-append (token ∷ []) more f g e = one_token token more f g e
read_flags-append (token ∷ next ∷ rest) more f g e =
    after_value-transfer (set_value (token_kind token) token next f)
      (lone_token (token_kind token) token f) (read_flags rest) (read_flags (next ∷ rest))
      (read_flags (rest ++ more)) (read_flags (next ∷ rest ++ more)) g (read_flags more g)
      (λ h. read_flags-append rest more h g) (λ h. read_flags-append (next ∷ rest) more h g) e

-- Where a command line parses, `--port` after it sets the port to its value, which is not another
-- flag, whatever the line had set, and changes no other flag.
pub parse_flags-last_port :
    (argv : List Text) (value : Text) (flags : Flags)
    → parse_flags argv ≡ ready flags
    → starts_with value (text "-") ≡ false
    → parse_flags (argv ++ text "--port" ∷ value ∷ [])
      ≡ ready (record flags { flag_port = some value })
unfolding parse_flags read_flags set_value require_value token_kind same_text
parse_flags-last_port argv value flags e plain =
    read_flags-append argv (text "--port" ∷ value ∷ []) no_flags flags e ∙ rw plain refl

parse_port-range :
    (value : Text) (port : ℕ) → parse_port value ≡ ready port → (1 ≤ port) × (port ≤ 65535)
unfolding parse_port
parse_port-range value port e = ground (arith, e)

resolve_data_dir-ready :
    (platform : Platform) (value dir : Text)
    → resolve_data_dir platform value ≡ ready dir
    → (same_text (trim value) [] ≡ false) × (dir ≡ platform.path_resolve value)
resolve_data_dir-ready platform value dir e =
    judged (same_text (trim value) []) refl (unfold resolve_data_dir in e)
  where
    judged :
        (blank : Bool)
        → same_text (trim value) [] ≡ blank
        → (if blank then refused empty_data_dir else ready (platform.path_resolve value))
          ≡ ready dir
        → (same_text (trim value) [] ≡ false) × (dir ≡ platform.path_resolve value)
    judged true b h = ground (arith, h)
    judged false b h = (b, ground (arith, h))

-- A configuration that is accepted comes from flags that parse. It listens on the loopback address,
-- at a port of 1 to 65535, and its data directory is resolved from the selected path, which is not
-- blank.
pub parse_startup_config-accepted :
    (platform : Platform) (homedir : Option Text) (argv : List Text) (env : Environment)
    (config : StartupConfig)
    → parse_startup_config platform homedir argv env ≡ ready config
    → (flags : Flags) × (dir : Text) × (parse_flags argv ≡ ready flags)
      × (selected_data_dir platform flags.flag_data_dir env.env_data_dir
            (home_directory platform homedir)
          ≡ (dir, config.data_dir_source))
      × (same_text (trim dir) [] ≡ false)
      × (config.data_dir ≡ platform.path_resolve dir)
      × (assert_loopback_bind_host config.host ≡ ready tt)
      × (1 ≤ config.port)
      × (config.port ≤ 65535)
unfolding parse_startup_config
parse_startup_config-accepted platform homedir argv env config e =
    let (flags, parsed, e1) = bind_ready (parse_flags argv) _ config e in
    let (port_text, found, e2) =
      bind_ready (first_defined (flags.flag_port ∷ env.env_port ∷ some default_port ∷ [])) _ config
        e1 in
    let (port, ported, e3) = bind_ready (parse_port port_text) _ config e2 in
    let (level_text, chosen, e4) =
      bind_ready
        (first_defined (flags.flag_log_level ∷ env.env_log_level ∷ some default_log_level ∷ [])) _
        config e3 in
    let (level, levelled, e5) = bind_ready (parse_log_level level_text) _ config e4 in
    let (data_dir, resolved, e6) =
      bind_ready
        (resolve_data_dir platform
          (selected_data_dir platform flags.flag_data_dir env.env_data_dir
            (home_directory platform homedir)).0)
        _ config e5 in
    let (filled, from) = resolve_data_dir-ready platform _ data_dir resolved in
    let (low, high) = parse_port-range port_text port ported in
    (
      flags,
      _,
      parsed,
      ap
          (λ c. (
            (selected_data_dir platform flags.flag_data_dir env.env_data_dir
                (home_directory platform homedir)).0,
            c.data_dir_source,
          ))
          (ready_inj e6),
      filled,
      sym (ap (λ c. c.data_dir) (ready_inj e6)) ∙ from,
      subst (λ c. assert_loopback_bind_host c.host ≡ ready tt) (ready_inj e6)
          (unfold assert_loopback_bind_host same_text in refl),
      subst (λ c. 1 ≤ c.port) (ready_inj e6) low,
      subst (λ c. c.port ≤ 65535) (ready_inj e6) high,
    )
