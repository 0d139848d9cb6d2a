-- ===== src/Dpdk/Fleet.antt =====
-- software/src/main.cc and dpdk.cc: all receiving threads together with the main thread, which
-- registers the callbacks one after the other, sets `force_quit_` in the destructor of `DPDK` and
-- waits for the threads in `shutdown`.
pub mod Invariant
pub mod Shutdown
pub mod Exit
pub mod Termination
pub mod Rest
use packet_filter.Base.{ℕ, suc, ◌<◌, ◌==◌, Bool, true, if◌then◌else◌, ◌≡◌}
use packet_filter.Dpdk.Handshake
use packet_filter.Dpdk.Handshake.{Handshake, finished, registered, IsOwn}

-- Before the registration of thread `i` (behind the last one, `main` waits for its time), in
-- `main_thread_.join()` and `rte_eal_mp_wait_lcore()`, and behind them.
pub data Main : Type 0 where
  registering : ℕ → Main
  joining ended : Main

-- A thread is a handshake with the main thread; all read one `force_quit_`.
pub record Fleet : Type 0 where
  pub threads : ℕ → Handshake
  pub main : Main

abbrev pub start : Fleet
start = record { threads = λ j. Handshake.start; main = registering 0 }

abbrev pub put : (ℕ → Handshake) → ℕ → Handshake → ℕ → Handshake
put threads i h j = if i == j then h else threads j

-- The steps of `register_callback`.
abbrev pub IsRegistration : {s t : Handshake} → Handshake.Step s t → Type 0
IsRegistration (Handshake.enter s e f) = ⊥
IsRegistration (Handshake.pass s e f) = ⊥
IsRegistration (Handshake.refuse s e f) = ⊥
IsRegistration (Handshake.sleep s e) = ⊥
IsRegistration (Handshake.relock s e f) = ⊥
IsRegistration (Handshake.leave s e f) = ⊥
IsRegistration (Handshake.assign s e) = Unit {0}
IsRegistration (Handshake.lock s e f) = Unit {0}
IsRegistration (Handshake.notify s e) = Unit {0}
IsRegistration (Handshake.shutdown s) = ⊥
IsRegistration (Handshake.spurious s e) = ⊥

abbrev pub quit : Handshake → Handshake
quit h = record h { force_quit = true }

-- `asked` threads are registered, of the `started` ones.
pub data Step (asked started : ℕ) (s : Fleet) : Fleet → Type 0 where
  own :
      (i : ℕ) {h : Handshake}
      → i < started
      → (st : Handshake.Step (s.threads i) h) → IsOwn st
      → Step asked started s (record s { threads = put s.threads i h })
  spurious :
      (i : ℕ)
      → i < started
      → (s.threads i).thread ≡ Handshake.asleep
      → Step asked started s (record s {
        threads = put s.threads i (record (s.threads i) { thread = Handshake.woken });
      })
  register :
      (i : ℕ) {h : Handshake}
      → s.main ≡ registering i
      → i < asked
      → (st : Handshake.Step (s.threads i) h) → IsRegistration st
      → Step asked started s (record s { threads = put s.threads i h })
  next_thread :
      (i : ℕ)
      → s.main ≡ registering i
      → i < asked
      → (s.threads i).main ≡ registered
      → Step asked started s (record s { main = registering (suc i) })
  destroy :
      s.main ≡ registering asked
      → Step asked started s (record { threads = λ j. quit (s.threads j); main = joining })
  join :
      s.main ≡ joining
      → ((j : ℕ) → j < started → (s.threads j).thread ≡ finished)
      → Step asked started s (record s { main = ended })

pub data Reach (asked started : ℕ) (s : Fleet) : Fleet → Type 0 where
  here : Reach asked started s s
  later : {t u : Fleet} → Reach asked started s t → Step asked started t u → Reach asked started s u

-- Without spurious wake-ups.
abbrev pub IsWoken : {asked started : ℕ} {s t : Fleet} → Step asked started s t → Type 0
IsWoken (own i lt st o) = ⊥
IsWoken (spurious i lt e) = Unit {0}
IsWoken (register i e lt st r) = ⊥
IsWoken (next_thread i e lt m) = ⊥
IsWoken (destroy e) = ⊥
IsWoken (join e all) = ⊥

pub data Steady (asked started : ℕ) (s : Fleet) : Fleet → Type 0 where
  stay : Steady asked started s s
  onward :
      {t u : Fleet}
      → Steady asked started s t
      → (st : Step asked started t u) → ¬ IsWoken st
      → Steady asked started s u
