-- ===== src/Dpdk/Fleet/Exit.antt =====
-- Whether the destructor of `DPDK` returns (software/src/dpdk.cc), as software/src/main.cc registers
-- callbacks for its threads.
use packet_filter.Base.{ℕ, ◌%◌, ◌^◌, ◌≤◌, ◌<◌, ◌≡◌, ◌≢◌, refl, sym, subst, arith}
use native.Mathlib.Nat.{mod-eq_of_lt}
use packet_filter.Dpdk.Threads.{adjust_threads}
use packet_filter.Dpdk.Handshake
use packet_filter.Dpdk.Handshake.{
  Handshake, asleep, finished, enter, pass, refuse, sleep, relock, leave, assign, lock, notify,
  shutdown, spurious, IsOwn,
}
use packet_filter.Dpdk.Fleet
use packet_filter.Dpdk.Fleet.{
  Fleet, start, put, joining, ended, Step, own, register, next_thread, destroy, join, Reach, here,
  later, IsWoken, Steady, stay, onward,
}
use packet_filter.Dpdk.Fleet.Invariant.{put-all, Reach-Inv}
use packet_filter.Dpdk.Fleet.Shutdown.{end_first}

pub adjust_threads-kept : (n ports : ℕ) → n % ports ≡ 0 → n < 2 ^ 16 → adjust_threads n ports ≡ n
unfolding adjust_threads
adjust_threads-kept n ports e small = rw e (mod-eq_of_lt small)

-- Where the number of threads is a multiple of the number of ports and an `uint16_t` holds it: from
-- any reached state in which `main` waits for the threads, whatever happened before, steps without
-- spurious wake-ups lead to a state in which every thread has finished and the wait has ended.
pub all_end :
    (num_threads ports : ℕ) (s : Fleet)
    → num_threads % ports ≡ 0
    → num_threads < 2 ^ 16
    → Reach num_threads (adjust_threads num_threads ports) start s
    → s.main ≡ joining
    → (t : Fleet) × Steady num_threads (adjust_threads num_threads ports) s t
      × (t.main ≡ ended)
      × ((j : ℕ) → j < adjust_threads num_threads ports → (t.threads j).thread ≡ finished)
all_end n ports s whole small r m =
    let started = adjust_threads n ports in
    let (t, path, inv, m', done) =
      end_first n started s started (sym (adjust_threads-kept n ports whole small)) (omega arith)
        (Reach-Inv r) m in
    (record t { main = ended }, onward path (join m' done) (λ w. w), refl, done)

awake_only : {s t : Handshake} (st : Handshake.Step s t) → IsOwn st → s.thread ≢ asleep
awake_only (enter s e f) o a = cc
awake_only (pass s e f) o a = cc
awake_only (refuse s e f) o a = cc
awake_only (sleep s e) o a = cc
awake_only (relock s e f) o a = cc
awake_only (leave s e f) o a = cc
awake_only (assign s e) o a = o
awake_only (lock s e f) o a = o
awake_only (notify s e) o a = o
awake_only (shutdown s) o a = o
awake_only (spurious s e) o a = o

-- A thread sleeps, and `main` has not ended.
record Sleeps (i : ℕ) (s : Fleet) : Type 0 where
  sleeping : (s.threads i).thread ≡ asleep
  unended : s.main ≢ ended

put_sleeping :
    (threads : ℕ → Handshake) (i k : ℕ) (h : Handshake)
    → (k ≡ i → h.thread ≡ asleep)
    → (threads i).thread ≡ asleep
    → (put threads k h i).thread ≡ asleep
put_sleeping threads i k h p a =
    put-all (λ j t. j ≡ i → t.thread ≡ asleep) threads k h p
      (λ j e. subst (λ (n : ℕ). (threads n).thread ≡ asleep) (sym e) a) i refl

Step-Sleeps :
    {asked started i : ℕ} {s t : Fleet}
    → asked ≤ i
    → i < started
    → (st : Step asked started s t) → ¬ IsWoken st
    → Sleeps i s
    → Sleeps i t
Step-Sleeps {i = i} {s = s} above below (own k {h} lt st o) w h0 = record {
  sleeping =
      put_sleeping s.threads i k h
        (λ e.
          absurd (
            awake_only st o (subst (λ (n : ℕ). (s.threads n).thread ≡ asleep) (sym e) h0.sleeping)))
        h0.sleeping;
  unended = h0.unended;
}
Step-Sleeps above below (Fleet.spurious k lt e) w h = absurd (w tt)
Step-Sleeps {i = i} {s = s} above below (register k {h} m lt st reg) w h0 = record {
  sleeping = put_sleeping s.threads i k h (λ e. absurd (omega arith)) h0.sleeping;
  unended = h0.unended;
}
Step-Sleeps above below (next_thread k e lt m) w h = record {
  sleeping = h.sleeping;
  unended = λ e'. cc;
}
Step-Sleeps above below (destroy e) w h = record { sleeping = h.sleeping; unended = λ e'. cc }
Step-Sleeps {i = i} above below (join e done) w h =
    let f = done i below in let a = h.sleeping in absurd cc

Steady-Sleeps :
    {asked started i : ℕ} {s t : Fleet}
    → asked ≤ i
    → i < started
    → Steady asked started s t
    → Sleeps i s
    → Sleeps i t
Steady-Sleeps above below stay h = h
Steady-Sleeps above below (onward r st w) h =
    Step-Sleeps above below st w (Steady-Sleeps above below r h)

pub own_unfinished : {s t : Handshake} (st : Handshake.Step s t) → IsOwn st → s.thread ≢ finished
own_unfinished (enter s e f) o a = cc
own_unfinished (pass s e f) o a = cc
own_unfinished (refuse s e f) o a = cc
own_unfinished (sleep s e) o a = cc
own_unfinished (relock s e f) o a = cc
own_unfinished (leave s e f) o a = cc
own_unfinished (assign s e) o a = o
own_unfinished (lock s e f) o a = o
own_unfinished (notify s e) o a = o
own_unfinished (shutdown s) o a = o
own_unfinished (spurious s e) o a = o

-- Once the wait has ended, every thread has finished.
pub ended_finished :
    {asked started i : ℕ} {s : Fleet}
    → i < started
    → Reach asked started start s
    → s.main ≡ ended
    → (s.threads i).thread ≡ finished
ended_finished below here m = cc
ended_finished {i = i} below (later {t} r (own k {h} lt st o)) m =
    put-all (λ j u. j ≡ i → u.thread ≡ finished) t.threads k h
      (λ e. absurd (
        own_unfinished st o
          (subst (λ (n : ℕ). (t.threads n).thread ≡ finished) (sym e) (ended_finished below r m))))
      (λ j e. subst (λ (n : ℕ). (t.threads n).thread ≡ finished) (sym e) (ended_finished below r m))
      i refl
ended_finished {i = i} below (later {t} r (Fleet.spurious k lt a)) m =
    put-all (λ j u. j ≡ i → u.thread ≡ finished) t.threads k _
      (λ e.
        let f =
          subst (λ (n : ℕ). (t.threads n).thread ≡ finished) (sym e) (ended_finished below r m) in
        absurd cc)
      (λ j e. subst (λ (n : ℕ). (t.threads n).thread ≡ finished) (sym e) (ended_finished below r m))
      i refl
ended_finished below (later r (register k e lt st reg)) m = absurd cc
ended_finished below (later r (next_thread k e lt f)) m = absurd cc
ended_finished below (later r (destroy e)) m = absurd cc
ended_finished {i = i} below (later r (join e done)) m = done i below

-- A thread that the number of ports added, and that went to sleep before `trigger_shutdown`: as long
-- as no spurious wake-up happens it sleeps on, and the wait for the threads does not end, whatever
-- steps follow.
pub exit_hangs :
    (num_threads ports i : ℕ) (s t : Fleet)
    → num_threads ≤ i
    → i < adjust_threads num_threads ports
    → Reach num_threads (adjust_threads num_threads ports) start s
    → (s.threads i).thread ≡ asleep
    → Steady num_threads (adjust_threads num_threads ports) s t
    → ((t.threads i).thread ≡ asleep) × (t.main ≢ ended)
exit_hangs n ports i s t above below r a path =
    let h =
      Steady-Sleeps above below path
        (record { sleeping = a; unended = λ e. let f = ended_finished below r e in absurd cc }) in
    (h.sleeping, h.unended)
