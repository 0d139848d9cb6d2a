-- ===== src/Options/Parsed.antt =====
-- What `parse_args` (software/src/main.cc) makes of a command line.
use packet_filter.Base.{
  ℕ, ◌%◌, ◌^◌, ◌<◌, List, [], ◌∷◌, ◌++◌, Option, none, some, map, ◌≡◌, ◌≢◌, refl, ap, ◌∙◌, sym,
  ne→==, arith,
}
use mathlib.Core.List.{append-nil, append_assoc}
use packet_filter.Text.Decimal.{decimal, stoi-decimal}
use packet_filter.Mmio.{Outcome, done, fatal, bind_done, bind_fatal}
use packet_filter.Rules.{port_of_stoi}
use packet_filter.Options.{
  Opt, Arguments, default_arguments, duration_of_stoi, parse_opt, parse_opts, require_config,
  parse_args,
}
use packet_filter.Options.Tokens.{join, AreTokens, filter_tokens-join}

-- An option as its user means it.
pub data Setting : Type 0 where
  config : List ℕ → Setting
  threads : ℕ → Setting
  seconds : ℕ → Setting
  filters : List (List ℕ) → Setting

abbrev pub opt_of : Setting → Opt
opt_of (config s) = record { c = b'c'; optarg = s }
opt_of (threads n) = record { c = b't'; optarg = decimal 9 n }
opt_of (seconds n) = record { c = b'd'; optarg = decimal 9 n }
opt_of (filters ts) = record { c = b'f'; optarg = join b',' ts }

-- Numbers that an `int` holds, and filters without commas, the last one not empty.
abbrev pub AreSettings : List Setting → Type 0
AreSettings [] = Unit {0}
AreSettings (config s ∷ ss) = AreSettings ss
AreSettings (threads n ∷ ss) = (n < 2 ^ 31) × AreSettings ss
AreSettings (seconds n ∷ ss) = (n < 2 ^ 31) × AreSettings ss
AreSettings (filters ts ∷ ss) = AreTokens b',' ts × AreSettings ss

-- The last of several settings counts; filters add up.
abbrev pub config_after : Option (List ℕ) → List Setting → Option (List ℕ)
config_after o [] = o
config_after o (config s ∷ ss) = config_after (some s) ss
config_after o (threads n ∷ ss) = config_after o ss
config_after o (seconds n ∷ ss) = config_after o ss
config_after o (filters ts ∷ ss) = config_after o ss

abbrev pub threads_after : ℕ → List Setting → ℕ
threads_after k [] = k
threads_after k (config s ∷ ss) = threads_after k ss
threads_after k (threads n ∷ ss) = threads_after (n % 2 ^ 16) ss
threads_after k (seconds n ∷ ss) = threads_after k ss
threads_after k (filters ts ∷ ss) = threads_after k ss

abbrev pub seconds_after : ℕ → List Setting → ℕ
seconds_after k [] = k
seconds_after k (config s ∷ ss) = seconds_after k ss
seconds_after k (threads n ∷ ss) = seconds_after k ss
seconds_after k (seconds n ∷ ss) = seconds_after n ss
seconds_after k (filters ts ∷ ss) = seconds_after k ss

abbrev pub filters_of : List Setting → List (List ℕ)
filters_of [] = []
filters_of (config s ∷ ss) = filters_of ss
filters_of (threads n ∷ ss) = filters_of ss
filters_of (seconds n ∷ ss) = filters_of ss
filters_of (filters ts ∷ ss) = ts ++ filters_of ss

abbrev arguments_after : Arguments → List Setting → Arguments
arguments_after args ss = record {
  dpdk_config = config_after args.dpdk_config ss;
  num_threads = threads_after args.num_threads ss;
  duration = seconds_after args.duration ss;
  filter_list = args.filter_list ++ filters_of ss;
}

threads_parsed :
    (n : ℕ) (args : Arguments)
    → n < 2 ^ 31
    → parse_opt (opt_of (threads n)) args ≡ done tt (record args { num_threads = n % 2 ^ 16 })
unfolding parse_opt port_of_stoi
threads_parsed n args h = rw (stoi-decimal 9 n (omega arith) h)

seconds_parsed :
    (n : ℕ) (args : Arguments)
    → n < 2 ^ 31
    → parse_opt (opt_of (seconds n)) args ≡ done tt (record args { duration = n })
unfolding parse_opt duration_of_stoi
seconds_parsed n args h =
    let fits : n % 2 ^ 32 ≡ n = omega arith in rw (stoi-decimal 9 n (omega arith) h, fits)

filters_parsed :
    (ts : List (List ℕ)) (args : Arguments)
    → AreTokens b',' ts
    → parse_opt (opt_of (filters ts)) args
      ≡ done tt (record args { filter_list = args.filter_list ++ ts })
unfolding parse_opt
filters_parsed ts args h = rw (filter_tokens-join ts h)

setting_parsed :
    (s : Setting) (ss : List Setting) (args : Arguments)
    → AreSettings (s ∷ ss)
    → (args' : Arguments) × (parse_opt (opt_of s) args ≡ done tt args')
      × (arguments_after args' ss ≡ arguments_after args (s ∷ ss))
      × AreSettings ss
setting_parsed (config s) ss args h =
    (record args { dpdk_config = some s }, unfold parse_opt in refl, refl, h)
setting_parsed (threads n) ss args h =
    (record args { num_threads = n % 2 ^ 16 }, threads_parsed n args h.0, refl, h.1)
setting_parsed (seconds n) ss args h =
    (record args { duration = n }, seconds_parsed n args h.0, refl, h.1)
setting_parsed (filters ts) ss args h = (
  record args { filter_list = args.filter_list ++ ts },
  filters_parsed ts args h.0,
  rw (append_assoc args.filter_list ts (filters_of ss)),
  h.1,
)

-- The loop over settings, and what follows them.
settings_parsed :
    (ss : List Setting) (os : List Opt) (args : Arguments)
    → AreSettings ss
    → parse_opts (map opt_of ss ++ os) args ≡ parse_opts os (arguments_after args ss)
unfolding parse_opts
settings_parsed [] os args h =
    ap (λ (l : List (List ℕ)). parse_opts os (record args { filter_list = l }))
      (sym (append-nil args.filter_list))
settings_parsed (s ∷ ss) os args h =
    let (args', parsed, same, rest) = setting_parsed s ss args h in
    bind_done (parse_opt (opt_of s)) _ args parsed
    ∙ settings_parsed ss os args' rest
    ∙ ap (parse_opts os) same

-- The end by the check for a configuration string.
abbrev pub checked : Option (List ℕ) → Arguments → Outcome Arguments (Unit {0})
checked none args = fatal args
checked (some s) args = done tt args

end_checked : (o : Option (List ℕ)) (args : Arguments) → require_config o args ≡ checked o args
end_checked none args = refl
end_checked (some s) args = refl

-- For settings in any order, each in the form in which a user writes it, `parse_args` gives: the
-- last configuration string, and the end of the process if there was none; the last number of
-- threads modulo `2 ^ 16`, and 1 if there was none; the last duration, and 10 if there was none; and
-- the filters of all filter lists, in order.
pub parse_args-settings :
    (ss : List Setting)
    → AreSettings ss
    → parse_args (map opt_of ss) default_arguments
      ≡ checked (config_after none ss) (record {
        dpdk_config = config_after none ss;
        num_threads = threads_after 1 ss;
        duration = seconds_after 10 ss;
        filter_list = filters_of ss;
      })
unfolding parse_args parse_opts
parse_args-settings ss h =
    let args = arguments_after default_arguments ss in
    bind_done (parse_opts (map opt_of ss)) _ default_arguments (
      ap (λ (os : List Opt). parse_opts os default_arguments) (sym (append-nil (map opt_of ss)))
      ∙ settings_parsed ss [] default_arguments h)
    ∙ end_checked (config_after none ss) args

unknown :
    (o : Opt) (args : Arguments)
    → o.c ≢ b'c'
    → o.c ≢ b't'
    → o.c ≢ b'd'
    → o.c ≢ b'f'
    → parse_opt o args ≡ fatal args
unfolding parse_opt
unknown o args nc nt nd nf =
    rw (ne→== o.c b'c' nc, ne→== o.c b't' nt, ne→== o.c b'd' nd, ne→== o.c b'f' nf)

-- After any settings, an option other than these four ends the process, whatever follows.
parse_args-unknown :
    (ss : List Setting) (o : Opt) (os : List Opt)
    → AreSettings ss
    → o.c ≢ b'c'
    → o.c ≢ b't'
    → o.c ≢ b'd'
    → o.c ≢ b'f'
    → (args : Arguments) × (parse_args (map opt_of ss ++ (o ∷ os)) default_arguments ≡ fatal args)
unfolding parse_args parse_opts
parse_args-unknown ss o os h nc nt nd nf =
    let args = arguments_after default_arguments ss in
    (
      args,
      bind_fatal (parse_opts (map opt_of ss ++ (o ∷ os))) _ default_arguments (
          settings_parsed ss (o ∷ os) default_arguments h
          ∙ bind_fatal (parse_opt o) _ args (unknown o args nc nt nd nf)),
    )
