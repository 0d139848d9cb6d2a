-- ===== src/Dpdk/Calls.antt =====
-- The calls of DPDK that software/src/dpdk.cc makes while it sets up, as a trace: which call comes
-- after which, and how a failure ends the sequence.
use packet_filter.Base.{
  ℕ, Bool, true, false, if◌then◌else◌, List, [], ◌∷◌, ◌++◌, ◌≡◌, refl, ap₂, ◌∙◌,
}
use packet_filter.Mmio.{Outcome, done, fatal, ◌>>=◌}

-- The calls, with the arguments that the code chooses. `notify_ready` is the code's own
-- `init_cv_.notify_all()`.
pub data Call : Type 0 where
  eal_init : List (List ℕ) → Call
  pool_create : (thread mbufs cache : ℕ) → Call
  is_valid_port : (port : ℕ) → Call
  dev_info_get : (port : ℕ) → Call
  dev_configure : (port rx_queues tx_queues : ℕ) → Call
  adjust_desc : (port rx_rings tx_rings : ℕ) → Call
  rx_queue_setup : (port queue rx_rings wthresh pool : ℕ) → Call
  dev_start : (port : ℕ) → Call
  stats_reset : (port : ℕ) → Call
  notify_ready : Call
  remote_launch : (lcore : ℕ) → Call

abbrev pub Trace : Type 0
Trace = List Call

-- DPDK's answers: whether a call succeeds after the calls of a trace, the number of ports, and the
-- number of descriptors that `rte_eth_dev_adjust_nb_rx_tx_desc` leaves for a port.
pub record Answers : Type 0 where
  pub succeeds : Trace → Call → Bool
  pub count_avail : ℕ
  pub adjusted_rings : ℕ → ℕ

-- What a failed call leads to: `log_fatal`, or `return -1`.
pub data OnFail : Type 0 where
  abort give_up : OnFail

pub data Step : Type 0 where
  attempt : OnFail → Call → Step
  note : Call → Step

-- The value is `true` for 0 and `false` for -1.
abbrev pub ended : OnFail → Trace → Outcome Trace Bool
ended abort trace = fatal trace
ended give_up trace = done false trace

module _ (answers : Answers) where
  -- A call, and what comes after it.
  abbrev pub check : OnFail → Call → (Trace → Outcome Trace Bool) → Trace → Outcome Trace Bool
  check on_fail c rest trace =
      if answers.succeeds trace c
      then rest (trace ++ (c ∷ []))
      else ended on_fail (trace ++ (c ∷ []))

  -- A sequence of calls up to the first that fails.
  unfoldable pub run_steps : List Step → Trace → Outcome Trace Bool
  run_steps [] trace = done true trace
  run_steps (note c ∷ ss) trace = run_steps ss (trace ++ (c ∷ []))
  run_steps (attempt on_fail c ∷ ss) trace = check on_fail c (run_steps ss) trace

abbrev pub go_on : (Trace → Outcome Trace Bool) → Bool → Trace → Outcome Trace Bool
go_on rest true = rest
go_on rest false = done false

branch :
    (b : Bool) (x y : Outcome Trace Bool) (f : Bool → Trace → Outcome Trace Bool) (trace : Trace)
    → ((λ (t : Trace). if b then x else y) >>= f) trace
      ≡ (if b then ((λ (t : Trace). x) >>= f) trace else ((λ (t : Trace). y) >>= f) trace)
branch true x y f trace = refl
branch false x y f trace = refl

module _ (answers : Answers) where
  ended_stays :
      (on_fail : OnFail) (rest : Trace → Outcome Trace Bool) (trace : Trace)
      → ((λ (t : Trace). ended on_fail t) >>= go_on rest) trace ≡ ended on_fail trace
  ended_stays abort rest trace = refl
  ended_stays give_up rest trace = refl

  -- Two sequences, one after the other.
  pub run_steps-append :
      (ss ts : List Step) (trace : Trace)
      → (run_steps answers ss >>= go_on (run_steps answers ts)) trace
        ≡ run_steps answers (ss ++ ts) trace
  unfolding run_steps
  run_steps-append [] ts trace = refl
  run_steps-append (note c ∷ ss) ts trace = run_steps-append ss ts (trace ++ (c ∷ []))
  run_steps-append (attempt on_fail c ∷ ss) ts trace =
      let later = trace ++ (c ∷ []) in
      let b = answers.succeeds trace c in
      branch b (run_steps answers ss later) (ended on_fail later) (go_on (run_steps answers ts))
        trace
      ∙ ap₂ (λ (x y : Outcome Trace Bool). if b then x else y) (run_steps-append ss ts later)
          (ended_stays on_fail (run_steps answers ts) later)
