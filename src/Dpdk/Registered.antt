-- ===== src/Dpdk/Registered.antt =====
-- Which threads get a callback from the loop in `main` (software/src/main.cc and dpdk.cc,
-- `register_callback`).
use packet_filter.Base.{
  ℕ, zero, suc, ◌+◌, ◌/◌, ◌%◌, ◌^◌, ◌≤◌, ◌<◌, ltb, if◌then◌else◌, Bool, Option, none, some, length,
  set, get_or, ◌≡◌, refl, ap, ◌∙◌, length-set, get_or-set_self, get_or-set_ne, lt→ltb, ltb→lt,
  Bool-cases, inl, inr, arith,
}
use mathlib.Core.Option
use native.Mathlib.Nat.{zero-add}
use packet_filter.Mmio.{done, log_assert, bind_done}
use packet_filter.Dpdk.Threads.{
  Infos, adjust_threads, make_info, thread_infos, with_callback, register_callback, register_all,
}
use packet_filter.Dpdk.Layout.{adjust_threads-least, thread_infos-layout, length-thread_infos}

module _ {Callback : Type 0} (rx_callback : Callback) where
  abbrev put : ℕ → Infos Callback → Infos Callback
  put i infos = set infos i (Option.map (with_callback rx_callback) (get_or infos i none))

  abbrev all_put : ℕ → ℕ → Infos Callback → Infos Callback
  all_put i zero infos = infos
  all_put i (suc left) infos = all_put (i + 1) left (put i infos)

  one_registered :
      (i : ℕ) (infos : Infos Callback)
      → i < length infos
      → register_callback i rx_callback infos ≡ done tt (put i infos)
  unfolding register_callback
  one_registered i infos h =
      bind_done (λ (l : Infos Callback). log_assert (ltb i (length l)) l) _ infos
        (ap (λ (b : Bool). log_assert b infos) (lt→ltb i (length infos) h))

  registered :
      (i left : ℕ) (infos : Infos Callback)
      → i + left ≤ length infos
      → register_all i left rx_callback infos ≡ done tt (all_put i left infos)
  unfolding register_all
  registered i zero infos h = refl
  registered i (suc left) infos h =
      let same =
        length-set infos i (Option.map (with_callback rx_callback) (get_or infos i none)) in
      bind_done (register_callback i rx_callback) _ infos (one_registered i infos (omega arith))
      ∙ registered (i + 1) left (put i infos) (omega (arith, same))

  put_below :
      (i left j : ℕ) (infos : Infos Callback)
      → j < i
      → get_or (all_put i left infos) j none ≡ get_or infos j none
  put_below i zero j infos h = refl
  put_below i (suc left) j infos h =
      put_below (i + 1) left j (put i infos) (omega arith)
      ∙ get_or-set_ne infos i j _ none (λ e. absurd (omega (arith, e)))

  put_above :
      (i left j : ℕ) (infos : Infos Callback)
      → i + left ≤ j
      → get_or (all_put i left infos) j none ≡ get_or infos j none
  put_above i zero j infos h = refl
  put_above i (suc left) j infos h =
      put_above (i + 1) left j (put i infos) (omega arith)
      ∙ get_or-set_ne infos i j _ none (λ e. absurd (omega (arith, e)))

  put_inside :
      (i left k : ℕ) (infos : Infos Callback)
      → i + left ≤ length infos
      → k < left
      → get_or (all_put i left infos) (i + k) none
        ≡ Option.map (with_callback rx_callback) (get_or infos (i + k) none)
  put_inside i zero k infos room h = absurd (omega arith)
  put_inside i (suc left) zero infos room h =
      let e : i + 0 ≡ i = omega arith in
      rw e (
        put_below (i + 1) left i (put i infos) (omega arith)
        ∙ get_or-set_self infos i _ none (omega arith))
  put_inside i (suc left) (suc k) infos room h =
      let v = Option.map (with_callback rx_callback) (get_or infos i none) in
      let same = length-set infos i v in
      let e : i + suc k ≡ i + 1 + k = omega arith in
      rw e (
        put_inside (i + 1) left k (put i infos) (omega (arith, same)) (omega arith)
        ∙ ap (Option.map (with_callback rx_callback))
            (get_or-set_ne infos i (i + 1 + k) v none (λ p. absurd (omega (arith, p)))))

  -- What the callback of a thread is after `main` registered its handler for `n` threads.
  abbrev pub callback_of : ℕ → ℕ → Option Callback
  callback_of n i = if ltb i n then some rx_callback else none

  -- On at least one port, with room in `uint16_t`: the loop of `main` over the `n` threads that were
  -- asked for ends normally, and then thread `i` of those that were started, `n` rounded up to a
  -- multiple of the number of ports, has the handler as its callback if `i < n`, and none otherwise.
  pub register_all-callbacks :
      (n ports i : ℕ)
      → 0 < ports
      → n + ports ≤ 2 ^ 16
      → let started = adjust_threads n ports in
        i < started
        → (infos : Infos Callback) × (register_all 0 n rx_callback (thread_infos started ports)
            ≡ done tt infos)
          × (get_or infos i none
              ≡ some (record {
                port_id = i / (started / ports);
                queue_id = i % (started / ports);
                thread_id = i;
                rx_callback = callback_of n i;
              }))
  unfolding make_info
  register_all-callbacks n ports i pos room h =
      let (whole, above, below) = adjust_threads-least n ports pos room in
      let started = adjust_threads n ports in
      let infos : Infos Callback = thread_infos started ports in
      let size = length-thread_infos Callback started ports in
      let laid =
        (thread_infos-layout {Callback = Callback} started ports i pos whole (omega arith) h).2 in
      (
        all_put 0 n infos,
        registered 0 n infos (omega (arith, size)),
        elim (Bool-cases (ltb i n)) [
          | inl e ↦ rw e (
              (rw zero-add at (put_inside 0 n i infos (omega (arith, size)) (ltb→lt i n e)))
              ∙ ap (Option.map (with_callback rx_callback)) laid)
          | inr e ↦ rw e (put_above 0 n i infos (ground arith) ∙ laid)
        ],
      )
