-- ===== src/Examples/Setup.antt =====
-- The host's start: its options, its rules, the calls of DPDK and a burst.
use packet_filter.Base.{
  ℕ, ◌/◌, ◌%◌, true, false, ◌==◌, List, [], ◌∷◌, ◌++◌, none, some, map, ◌≡◌, refl, get_or,
  if◌then◌else◌, arith,
}
use packet_filter.Hash
use packet_filter.Filter.{initial}
use packet_filter.Mmio.{done, fatal}
use packet_filter.Rules
use packet_filter.Rules.Constructed.{
  Rule, rule_text, AreRules, rules_written, filter_mmio, new-no_colon,
}
use packet_filter.Rules.Installed.{RuleRegisters}
use packet_filter.Rules.Paced.{covers, core_after, new-forwards}
use packet_filter.Options.{default_arguments, parse_args}
use packet_filter.Options.Parsed.{
  Setting, config, threads, seconds, filters, opt_of, AreSettings, checked, config_after,
  threads_after, seconds_after, filters_of, parse_args-settings,
}
use packet_filter.Dpdk.Threads.{Infos, adjust_threads, thread_infos, register_all}
use packet_filter.Dpdk.Registered.{callback_of, register_all-callbacks}
use packet_filter.Dpdk.Calls.{Answers, run_steps}
use packet_filter.Dpdk.Init.{init_dpdk}
use packet_filter.Dpdk.Init.Order.{init_steps, init_dpdk-steps}
use packet_filter.Dpdk.Burst.{rx_burst}
use packet_filter.Dpdk.Burst.Orderly.{IsOrderly, rx_burst-IsOrderly}
use packet_filter.Examples.Data.{
  server_ip, server_port, card, blank, lookup_addr, lookup_addr-IsAddress, server_text,
}

-- Two rules for the server, the second one of another port.
abbrev pub rules : List Rule
rules =
    record { ip_str = server_text; port = 8500 } ∷ record { ip_str = server_text; port = 53 } ∷ []

pub rules-AreRules : AreRules lookup_addr rules
rules-AreRules = (
  record {
    free = omega arith;
    address = omega arith;
    port_ne = omega arith;
    port_fits = omega arith;
  },
  (
    record {
      free = omega arith;
      address = omega arith;
      port_ne = omega arith;
      port_fits = omega arith;
    },
    tt,
  ),
)

new-no_colon_example :
    Rules.new card lookup_addr 0xcafe (map rule_text rules ++ (server_text ∷ [])) blank
    ≡ fatal (
        rules_written card lookup_addr lookup_addr-IsAddress
          (filter_mmio card lookup_addr lookup_addr-IsAddress 2)
          rules
          blank)
new-no_colon_example =
    new-no_colon card lookup_addr lookup_addr-IsAddress 0xcafe 2 refl (omega arith) refl rules
      server_text [] blank rules-AreRules (omega arith)

-- Each write of a whole rule, on a card that keeps what is written.
abbrev pub card_rules : RuleRegisters card (filter_mmio card lookup_addr lookup_addr-IsAddress 2)
card_rules = record {
  config_of = λ c. record { ipv4_addr = c 0x102010; udp_port = c 0x102018; action = c 0x102020 };
  ip_written = λ v c h. refl;
  port_written = λ v c h. refl;
  action_written = λ v c h. refl;
}

new-forwards_example :
    let m = filter_mmio card lookup_addr lookup_addr-IsAddress 2 in
    (Rules.new card lookup_addr 0xcafe (map rule_text rules) blank
      ≡ done m (rules_written card lookup_addr lookup_addr-IsAddress m rules blank))
    × (Hash.lookup
          (core_after card lookup_addr lookup_addr-IsAddress m card_rules rules blank
            initial).hash_table
          server_ip
          server_port
        ≡ (if covers lookup_addr initial.hash_table rules
              (Hash.index_of initial.hash_table server_ip server_port)
            then 1
            else 0))
new-forwards_example =
    new-forwards card lookup_addr lookup_addr-IsAddress 0xcafe 2 refl (omega arith) refl card_rules
      rules blank rules-AreRules server_ip server_port

abbrev settings : List Setting
settings =
    config (b'-' ∷ b'l' ∷ [])
    ∷ filters (server_text ∷ (b'x' ∷ []) ∷ [])
    ∷ threads 3
    ∷ seconds 60
    ∷ filters ((b'y' ∷ []) ∷ [])
    ∷ []

settings-AreSettings : AreSettings settings
settings-AreSettings = (
  (omega arith, (omega arith, (λ e. cc))),
  (omega arith, (omega arith, ((omega arith, (λ e. cc)), tt))),
)

parse_args-settings_example :
    parse_args (map opt_of settings) default_arguments
    ≡ checked (config_after none settings) (record {
      dpdk_config = config_after none settings;
      num_threads = threads_after 1 settings;
      duration = seconds_after 10 settings;
      filter_list = filters_of settings;
    })
parse_args-settings_example = parse_args-settings settings settings-AreSettings

-- Three threads on two ports: a fourth one is started, without a callback.
register_all-callbacks_example :
    (infos : Infos ℕ) × (register_all 0 3 7 (thread_infos (adjust_threads 3 2) 2) ≡ done tt infos)
    × (get_or infos 3 none
        ≡ some (record {
          port_id = 3 / (adjust_threads 3 2 / 2);
          queue_id = 3 % (adjust_threads 3 2 / 2);
          thread_id = 3;
          rx_callback = callback_of 7 3 3;
        }))
register_all-callbacks_example =
    register_all-callbacks 7 3 2 3 (omega arith) (omega arith)
      (unfold adjust_threads in omega arith)

-- Every call succeeds, on two ports.
abbrev answers : Answers
answers = record { succeeds = λ trace c. true; count_avail = 2; adjusted_rings = λ port. 1024 }

init_dpdk-steps_example :
    init_dpdk answers (b'-' ∷ b'l' ∷ []) 3
    ≡ run_steps answers (init_steps answers (b'-' ∷ b'l' ∷ []) (adjust_threads 3 2) 2)
init_dpdk-steps_example = init_dpdk-steps answers (b'-' ∷ b'l' ∷ []) 3 (omega arith)

-- A burst of six packets, of which the callback fails for the second.
rx_burst-IsOrderly_example : IsOrderly 6 0 0 false (rx_burst (λ i. i == 1) 6)
rx_burst-IsOrderly_example = rx_burst-IsOrderly (λ i. i == 1) 6
