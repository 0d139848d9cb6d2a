-- ===== src/Options.antt =====
-- software/src/main.cc, `Arguments::parse_args`: the options of the program, from what `getopt`
-- returns for the option string "c:t:d:f:".
pub mod Tokens
pub mod Parsed
use packet_filter.Base.{
  ℕ, zero, suc, ◌+◌, ◌-◌, ◌%◌, ◌^◌, Bool, ◌==◌, not, List, [], ◌∷◌, ◌++◌, Option, none, some,
  length, if◌then◌else◌,
}
use packet_filter.Text.{stoi, Stoi, positive, negative, invalid_argument, out_of_range}
use packet_filter.Mmio.{Outcome, done, fatal, exception, ◌>>=◌, ◌>>◌}
use packet_filter.Rules.{port_of_stoi}

-- A call of `getopt` that did not return -1: the option's character and `optarg`.
pub record Opt : Type 0 where
  pub c : ℕ
  pub optarg : List ℕ

-- `dpdk_config` is `none` for a null pointer.
pub record Arguments : Type 0 where
  pub dpdk_config : Option (List ℕ)
  pub num_threads : ℕ
  pub duration : ℕ
  pub filter_list : List (List ℕ)

abbrev pub default_arguments : Arguments
default_arguments = record { dpdk_config = none; num_threads = 1; duration = 10; filter_list = [] }

abbrev pub token_first : ℕ → List ℕ × List ℕ → List ℕ × List ℕ
token_first x (token, rest) = (x ∷ token, rest)

-- The characters up to the first delimiter, which is dropped, and the rest.
unfoldable pub read_token : ℕ → List ℕ → List ℕ × List ℕ
read_token delim [] = ([], [])
read_token delim (x ∷ xs) = if x == delim then ([], xs) else token_first x (read_token delim xs)

-- `std::getline(ss, token, delim)`: `none` where the stream has no character left.
unfoldable pub getline : ℕ → List ℕ → Option (List ℕ × List ℕ)
unfolding read_token
getline delim [] = none
getline delim (x ∷ xs) = some (read_token delim (x ∷ xs))

-- The loop over the tokens, with fuel for its rounds.
unfoldable pub token_loop : ℕ → ℕ → List ℕ → List (List ℕ)
token_loop zero delim ss = []
token_loop (suc fuel) delim ss = elim (getline delim ss) [
  | none ↦ []
  | some (token, rest) ↦ token ∷ token_loop fuel delim rest
]

-- Each round takes a character at least.
unfoldable pub filter_tokens : List ℕ → List (List ℕ)
filter_tokens filter_str = token_loop (length filter_str) b',' filter_str

-- `static_cast<uint32_t>` of what `stoi` returned.
unfoldable pub duration_of_stoi : {C : Type 0} → Stoi → C → Outcome C ℕ
duration_of_stoi (positive n) c = done (n % 2 ^ 32) c
duration_of_stoi (negative n) c = done ((2 ^ 32 - n % 2 ^ 32) % 2 ^ 32) c
duration_of_stoi invalid_argument c = exception c
duration_of_stoi out_of_range c = exception c

abbrev pub assign : (Arguments → Arguments) → Arguments → Outcome Arguments (Unit {0})
assign f args = done tt (f args)

-- The `switch`; the arguments are the state.
unfoldable pub parse_opt : Opt → Arguments → Outcome Arguments (Unit {0})
parse_opt o =
    if o.c == b'c'
    then assign (λ args. record args { dpdk_config = some o.optarg })
    else if o.c == b't'
    then (do n ← port_of_stoi (stoi o.optarg); assign (λ args. record args { num_threads = n }))
    else if o.c == b'd'
    then (do n ← duration_of_stoi (stoi o.optarg); assign (λ args. record args { duration = n }))
    else if o.c == b'f'
    then assign (λ args. record args { filter_list = args.filter_list ++ filter_tokens o.optarg })
    else fatal

-- The loop over the options.
unfoldable pub parse_opts : List Opt → Arguments → Outcome Arguments (Unit {0})
parse_opts [] = done tt
parse_opts (o ∷ os) = do parse_opt o; parse_opts os

abbrev pub require_config : Option (List ℕ) → Arguments → Outcome Arguments (Unit {0})
require_config none args = fatal args
require_config (some config) args = done tt args

unfoldable pub parse_args : List Opt → Arguments → Outcome Arguments (Unit {0})
parse_args os = do parse_opts os; λ args. require_config args.dpdk_config args
