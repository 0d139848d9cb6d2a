-- ===== src/Dpdk/Burst.antt =====
-- software/src/dpdk.cc, `dpdk_rx_loop`: what is done with the packets of a burst.
pub mod Once
pub mod Orderly
use packet_filter.Base.{
  ℕ, zero, suc, ◌+◌, ◌==◌, ltb, if◌then◌else◌, Bool, true, false, List, [], ◌∷◌, ◌++◌,
}

-- What the loop does with buffer `i` of a burst.
pub data Action : Type 0 where
  prefetch : ℕ → Action
  callback : ℕ → Action
  warned : ℕ → Action
  free : ℕ → Action

abbrev pub dpdk_prefetch_num : ℕ
dpdk_prefetch_num = 4

-- The first loop, from buffer `i` on, with `left` rounds until `DPDK_PREFETCH_NUM`.
unfoldable pub prefetch_first : ℕ → ℕ → ℕ → List Action
prefetch_first nb_rx i zero = []
prefetch_first nb_rx i (suc left) =
    if ltb i nb_rx then prefetch i ∷ prefetch_first nb_rx (i + 1) left else []

-- The second loop, from buffer `i` on, with `left` rounds to go; `negative i` says that the callback
-- returned a value below 0 for buffer `i`.
unfoldable pub process : (ℕ → Bool) → ℕ → ℕ → ℕ → List Action
process negative nb_rx i zero = []
process negative nb_rx i (suc left) =
    callback i
    ∷ ((if negative i then warned i ∷ [] else [])
        ++ (free i
            ∷ ((if ltb (i + dpdk_prefetch_num) nb_rx
                  then prefetch (i + dpdk_prefetch_num) ∷ []
                  else [])
                ++ process negative nb_rx (i + 1) left)))

-- The rest of a round of the receiving loop, after `rte_eth_rx_burst` returned `nb_rx`.
unfoldable pub rx_burst : (ℕ → Bool) → ℕ → List Action
rx_burst negative nb_rx =
    if nb_rx == 0
    then []
    else prefetch_first nb_rx 0 dpdk_prefetch_num ++ process negative nb_rx 0 nb_rx

-- A round: the value of `force_quit_` at its test, the size of the burst and the callbacks' returns.
pub record Round : Type 0 where
  pub force_quit : Bool
  pub nb_rx : ℕ
  pub negative : ℕ → Bool

-- The loop over the rounds that its surroundings allow; what was done, round by round.
unfoldable pub rx_loop : List Round → List (List Action)
rx_loop [] = []
rx_loop (r ∷ rs) = if r.force_quit then [] else rx_burst r.negative r.nb_rx ∷ rx_loop rs
