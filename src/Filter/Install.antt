-- ===== src/Filter/Install.antt =====
-- How rules that the host writes one after the other reach the table (hardware/src/hls/
-- packet_filter.cc, the idle branch of `process_packet`).
use packet_filter.Base.{ℕ, ◌==◌, List, [], ◌∷◌, ◌++◌, map, if◌then◌else◌, ◌≡◌, refl, ap, ◌∙◌}
use packet_filter.Hash
use packet_filter.Hash.{ToeplitzHash}
use packet_filter.Hash.Slots.{HasSlots, lookup-insert, insert-HasSlots, insert-key, index_of_congr}
use packet_filter.Filter.{
  Phit, Config, Filter, System, Event, arrive, configure, cycle, filter_phit, idle_cycle,
  process_packet, process_queue, step, run,
}
use packet_filter.Filter.Runs.{process_idle}

-- The host writes each rule and leaves the core a cycle for it.
abbrev pub paced : List Config → List Event
paced [] = []
paced (r ∷ rs) = configure r ∷ cycle ∷ paced rs

-- A core that always has a phit: registers are written, a phit arrives, a cycle runs.
abbrev pub busy : List (Config × Phit) → List Event
busy [] = []
busy ((r, p) ∷ moves) = configure r ∷ arrive p ∷ cycle ∷ busy moves

-- The table after the rules were stored, in order.
abbrev pub stored : ToeplitzHash → List Config → ToeplitzHash
stored t [] = t
stored t (r ∷ rs) = stored (Hash.insert t r.ipv4_addr r.udp_port r.action) rs

-- The action of the last rule for a slot, or what was there.
abbrev pub last_action : ToeplitzHash → ℕ → ℕ → List Config → ℕ
last_action t slot found [] = found
last_action t slot found (r ∷ rs) =
    last_action t slot (if Hash.index_of t r.ipv4_addr r.udp_port == slot then r.action else found)
      rs

last_action_congr :
    (t u : ToeplitzHash) (slot found : ℕ) (rs : List Config)
    → t.toeplitz_key ≡ u.toeplitz_key
    → last_action t slot found rs ≡ last_action u slot found rs
last_action_congr t u slot found [] e = refl
last_action_congr t u slot found (r ∷ rs) e =
    ap (λ (i : ℕ). last_action t slot (if i == slot then r.action else found) rs)
      (index_of_congr t u r.ipv4_addr r.udp_port e)
    ∙ last_action_congr t u slot
        (if Hash.index_of u r.ipv4_addr r.udp_port == slot then r.action else found) rs e

pub lookup-stored :
    (t : ToeplitzHash) (rs : List Config) (ip port : ℕ)
    → HasSlots t
    → Hash.lookup (stored t rs) ip port
      ≡ last_action t (Hash.index_of t ip port) (Hash.lookup t ip port) rs
lookup-stored t [] ip port slots = refl
lookup-stored t (r ∷ rs) ip port slots =
    let t' = Hash.insert t r.ipv4_addr r.udp_port r.action in
    let same = insert-key t r.ipv4_addr r.udp_port r.action in
    lookup-stored t' rs ip port (insert-HasSlots t r.ipv4_addr r.udp_port r.action slots)
    ∙ last_action_congr t' t (Hash.index_of t' ip port) (Hash.lookup t' ip port) rs same
    ∙ ap (λ (slot : ℕ). last_action t slot (Hash.lookup t' ip port) rs)
        (index_of_congr t' t ip port same)
    ∙ ap (λ (found : ℕ). last_action t (Hash.index_of t ip port) found rs)
        (lookup-insert t r.ipv4_addr r.udp_port r.action ip port slots)

-- An idle core with a rule in its registers.
paced_table :
    (rs : List Config) (s : System)
    → s.filter.s_axis ≡ []
    → (run (paced rs) s).filter.hash_table ≡ stored s.filter.hash_table rs
unfolding run step idle_cycle
paced_table [] s idle = refl
paced_table (r ∷ rs) s idle =
    paced_table rs (step cycle (step (configure r) s)) (queue r s.filter idle)
    ∙ ap (λ (f : Filter). stored f.hash_table rs) (process_idle r s.filter idle)
  where
    queue : (r : Config) (f : Filter) → f.s_axis ≡ [] → (process_packet r f).s_axis ≡ []
    queue r f e = ap (λ (g : Filter). g.s_axis) (process_idle r f e) ∙ e

-- If no phit is queued or arrives, and the core runs a cycle after each rule that the host wrote,
-- then every address is decided by the last of these rules that falls into its slot, and as before
-- if none does.
run-paced :
    (rs : List Config) (s : System) (ip port : ℕ)
    → s.filter.s_axis ≡ []
    → HasSlots s.filter.hash_table
    → Hash.lookup (run (paced rs) s).filter.hash_table ip port
      ≡ last_action s.filter.hash_table
          (Hash.index_of s.filter.hash_table ip port)
          (Hash.lookup s.filter.hash_table ip port)
          rs
run-paced rs s ip port idle slots =
    ap (λ (t : ToeplitzHash). Hash.lookup t ip port) (paced_table rs s idle)
    ∙ lookup-stored s.filter.hash_table rs ip port slots

-- Without a cycle between the writes, only the last of the rules is stored: the table is as if the
-- ones before it had never been asked for.
run-hasty :
    (rs : List Config) (r : Config) (s : System)
    → s.filter.s_axis ≡ []
    → (run (map configure rs ++ (configure r ∷ cycle ∷ [])) s).filter.hash_table
      ≡ Hash.insert s.filter.hash_table r.ipv4_addr r.udp_port r.action
unfolding run step idle_cycle
run-hasty [] r s idle = ap (λ (f : Filter). f.hash_table) (process_idle r s.filter idle)
run-hasty (q ∷ rs) r s idle = run-hasty rs r (step (configure q) s) idle

-- While phits keep the queue from being empty, no rule is stored: a phit that arrives before every
-- cycle leaves the table as it is, whatever is written to the registers between.
run-busy :
    (moves : List (Config × Phit)) (s : System)
    → (run (busy moves) s).filter.hash_table ≡ s.filter.hash_table
unfolding run step process_packet process_queue filter_phit
run-busy [] s = refl
run-busy ((r, p) ∷ moves) s =
    run-busy moves (run (configure r ∷ arrive p ∷ cycle ∷ []) s)
    ∙ taken (record (s.filter) { s_axis = s.filter.s_axis ++ (p ∷ []) }) s.filter.s_axis
  where
    taken :
        (f : Filter) (queue : List Phit)
        → (process_queue r f (queue ++ (p ∷ []))).hash_table ≡ f.hash_table
    taken f [] = refl
    taken f (q ∷ queue) = refl
