-- ===== src/Dpdk/Layout.antt =====
-- Which thread serves which queue of which port (software/src/dpdk.cc, `init_dpdk`).
use packet_filter.Base.{
  ℕ, zero, suc, ◌+◌, ◌*◌, ◌/◌, ◌%◌, ◌^◌, ◌≤◌, ◌<◌, ◌==◌, none, some, length, get_or, replicate, ◌≡◌,
  ◌≢◌, refl, ◌∙◌, inl, inr, Bool-cases, ==→eq, ==→ne, length-set, length-replicate, get_or-set_self,
  get_or-set_ne, arith,
}
use native.Mathlib.Nat.{
  mod-eq_of_lt, div-add-mod, div-add-mod', mul-mod_left, zero-add, div-lt_iff_lt-mul, mod-lt,
}
use packet_filter.Dpdk.Threads.{
  Infos, adjust_threads, make_info, fill_queues, fill_ports, thread_infos,
}

rounded_up :
    (n ports q r : ℕ)
    → q * ports + r ≡ n
    → r < ports
    → r ≢ 0
    → n + ports ≤ 2 ^ 16
    → ((q + 1) * ports % 2 ^ 16 ≡ (q + 1) * ports)
      × (n ≤ (q + 1) * ports)
      × ((q + 1) * ports < n + ports)
rounded_up n ports q r whole small ne room = (mod-eq_of_lt (omega arith), omega arith, omega arith)

-- For at least one port, and as long as `uint16_t` has room, the number of threads is made the least
-- multiple of the number of ports that is not below it.
pub adjust_threads-least :
    (n ports : ℕ)
    → 0 < ports
    → n + ports ≤ 2 ^ 16
    → (adjust_threads n ports % ports ≡ 0)
      × (n ≤ adjust_threads n ports)
      × (adjust_threads n ports < n + ports)
unfolding adjust_threads
adjust_threads-least n ports pos room = elim (Bool-cases (n % ports == 0)) [
  | inl e ↦
      let kept : n % 2 ^ 16 ≡ n = mod-eq_of_lt (omega arith) in
      rw (e, kept) (==→eq (n % ports) 0 e, omega arith, omega arith)
  | inr e ↦
      let (kept, above, below) =
        rounded_up n ports (n / ports) (n % ports) (div-add-mod' n ports) (mod-lt n pos)
          (==→ne (n % ports) 0 e) room in
      rw (e, kept) (mul-mod_left (n / ports + 1) ports, above, below)
]

positive_factor : (a b : ℕ) → 0 < a * b → 0 < b
positive_factor a zero h = absurd (omega arith)
positive_factor a (suc b) h = omega arith

module _ {Callback : Type 0} where
  length-fill_queues :
      (port qn q left : ℕ) (infos : Infos Callback)
      → length (fill_queues port qn q left infos) ≡ length infos
  unfolding fill_queues
  length-fill_queues port qn q zero infos = refl
  length-fill_queues port qn q (suc left) infos =
      length-fill_queues port qn (q + 1) left _ ∙ length-set infos ((port * qn + q) % 2 ^ 16) _

  -- The slots before those of queue `q` stay.
  fill_queues_below :
      (port qn q left i : ℕ) (infos : Infos Callback)
      → port * qn + q + left ≤ 2 ^ 16
      → i < port * qn + q
      → get_or (fill_queues port qn q left infos) i none ≡ get_or infos i none
  unfolding fill_queues
  fill_queues_below port qn q zero i infos room h = refl
  fill_queues_below port qn q (suc left) i infos room h =
      let tid : (port * qn + q) % 2 ^ 16 ≡ port * qn + q = mod-eq_of_lt (omega arith) in
      fill_queues_below port qn (q + 1) left i _ (omega arith) (omega arith)
      ∙ get_or-set_ne infos ((port * qn + q) % 2 ^ 16) i _ none
          (λ e. absurd (omega (arith, e, tid)))

  fill_queues_inside :
      (port qn q left j : ℕ) (infos : Infos Callback)
      → port * qn + q + left ≤ length infos
      → length infos ≤ 2 ^ 16
      → j < left
      → get_or (fill_queues port qn q left infos) (port * qn + (q + j)) none
        ≡ some (make_info port (q + j) (port * qn + (q + j)))
  unfolding fill_queues
  fill_queues_inside port qn q zero j infos room fits h = absurd (omega arith)
  fill_queues_inside port qn q (suc left) zero infos room fits h =
      let tid : (port * qn + q) % 2 ^ 16 ≡ port * qn + q = mod-eq_of_lt (omega arith) in
      let e : q + 0 ≡ q = omega arith in
      rw (e, tid)
        (fill_queues_below port qn (q + 1) left (port * qn + q) _ (omega arith) (omega arith)
          ∙ get_or-set_self infos (port * qn + q) _ none (omega arith))
  fill_queues_inside port qn q (suc left) (suc j) infos room fits h =
      let e : q + suc j ≡ q + 1 + j = omega arith in
      let same =
        length-set infos ((port * qn + q) % 2 ^ 16)
          (some (make_info {Callback = Callback} port q ((port * qn + q) % 2 ^ 16))) in
      rw e (
        fill_queues_inside port qn (q + 1) left j _ (omega (arith, same)) (omega (arith, same))
          (omega arith))

  fill_ports_below :
      (qn port left i : ℕ) (infos : Infos Callback)
      → (port + left) * qn ≤ 2 ^ 16
      → i < port * qn
      → get_or (fill_ports qn port left infos) i none ≡ get_or infos i none
  unfolding fill_ports
  fill_ports_below qn port zero i infos room h = refl
  fill_ports_below qn port (suc left) i infos room h =
      fill_ports_below qn (port + 1) left i _ (omega arith) (omega arith)
      ∙ fill_queues_below port qn 0 qn i infos (grind arith) (omega arith)

  -- The slot of queue `k` of the port `j` places after `port`.
  fill_ports_inside :
      (qn port left j k : ℕ) (infos : Infos Callback)
      → (port + left) * qn ≤ length infos
      → length infos ≤ 2 ^ 16
      → j < left
      → k < qn
      → get_or (fill_ports qn port left infos) ((port + j) * qn + k) none
        ≡ some (make_info (port + j) k ((port + j) * qn + k))
  unfolding fill_ports
  fill_ports_inside qn port zero j k infos room fits h hk = absurd (omega arith)
  fill_ports_inside qn port (suc left) zero k infos room fits h hk =
      let e : port + 0 ≡ port = omega arith in
      let first : port * qn + qn ≤ (port + suc left) * qn = grind arith in
      rw e (
        fill_ports_below qn (port + 1) left (port * qn + k) _ (omega arith) (omega arith)
        ∙ (rw zero-add at (fill_queues_inside port qn 0 qn k infos (omega arith) fits hk)))
  fill_ports_inside qn port (suc left) (suc j) k infos room fits h hk =
      let e : port + suc j ≡ port + 1 + j = omega arith in
      let same = length-fill_queues port qn 0 qn infos in
      rw e (
        fill_ports_inside qn (port + 1) left j k _ (omega (arith, same)) (omega (arith, same))
          (omega arith) hk)

  -- For at least one port and a number of threads that is a multiple of the number of ports and
  -- fits 16 bits, thread `i` serves queue `i % q` of port `i / q`, for `q` threads a port: every
  -- queue of every port has exactly one thread. No callback is registered.
  pub thread_infos-layout :
      (n ports i : ℕ)
      → 0 < ports
      → n % ports ≡ 0
      → n ≤ 2 ^ 16
      → i < n
      → let q = n / ports in
        (i / q < ports)
        × (i % q < q)
        × (get_or (thread_infos {Callback = Callback} n ports) i none
            ≡ some (make_info (i / q) (i % q) i))
  unfolding thread_infos
  thread_infos-layout n ports i pos whole fits h =
      let q = n / ports in
      let all : n ≡ ports * q = omega (arith, div-add-mod n ports) in
      let some_queue : 0 < q = positive_factor ports q (omega arith) in
      let place : q * (i / q) + i % q ≡ i = div-add-mod i q in
      let empty : Infos Callback = replicate n none in
      let size : length empty ≡ n = length-replicate n none in
      let first : 0 + i / q ≡ i / q = omega arith in
      let here : i / q * q + i % q ≡ i = omega arith in
      let port : i / q < ports = (div-lt_iff_lt-mul some_queue).1 (omega arith) in
      (
        port,
        mod-lt i some_queue,
        rw (first, here) at
            (fill_ports_inside q 0 ports (i / q) (i % q) empty (omega (arith, size))
              (omega (arith, size)) port (mod-lt i some_queue)),
      )

  length-fill_ports :
      (qn port left : ℕ) (infos : Infos Callback)
      → length (fill_ports qn port left infos) ≡ length infos
  unfolding fill_ports
  length-fill_ports qn port zero infos = refl
  length-fill_ports qn port (suc left) infos =
      length-fill_ports qn (port + 1) left _ ∙ length-fill_queues port qn 0 qn infos

pub length-thread_infos :
    (Callback : Type 0) (n ports : ℕ) → length (thread_infos {Callback = Callback} n ports) ≡ n
unfolding thread_infos
length-thread_infos Callback n ports =
    length-fill_ports (n / ports) 0 ports (replicate n none) ∙ length-replicate n none
