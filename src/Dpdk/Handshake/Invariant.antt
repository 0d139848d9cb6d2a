-- ===== src/Dpdk/Handshake/Invariant.antt =====
-- What holds in every state of the handshake that is reached from its start.
use packet_filter.Base.{true, false, ◌≡◌, ◌≢◌, arith}
use packet_filter.Dpdk.Handshake.{
  receiver, registrar, testing, blocking, asleep, looping, finished, unregistered, locked,
  registered, Handshake, start, may_start, Step, enter, pass, refuse, sleep, relock, leave, assign,
  lock, notify, shutdown, spurious, Reach, here, next,
}

pub record Inv (s : Handshake) : Type 0 where
  pub tests_locked : s.thread ≡ testing → s.mutex ≡ receiver
  pub blocks_locked : s.thread ≡ blocking → s.mutex ≡ receiver
  pub locked_tests : s.mutex ≡ receiver → s.thread ≢ testing → s.thread ≡ blocking
  pub blocks : s.thread ≡ blocking → (s.main ≢ registered)
  pub notifies_locked : s.main ≡ locked → s.mutex ≡ registrar
  pub locked_notifies : s.mutex ≡ registrar → s.main ≡ locked
  pub fresh : s.main ≡ unregistered → s.callback ≡ false
  pub used : s.callback ≡ false → s.main ≡ unregistered
  pub waits : s.thread ≡ asleep → (s.main ≢ registered)
  pub runs : s.thread ≡ looping → may_start s ≡ true
  pub ended : s.thread ≡ finished → s.force_quit ≡ true

start-Inv : Inv start
start-Inv = ground arith

Step-Inv : {s t : Handshake} → Step s t → Inv s → Inv t
Step-Inv (enter s e f) inv = ground arith
Step-Inv (pass s e f) inv = ground arith
Step-Inv (refuse s e f) inv = ground arith
Step-Inv (sleep s e) inv = ground arith
Step-Inv (relock s e f) inv = ground arith
Step-Inv (leave s e f) inv = ground arith
Step-Inv (assign s e) inv = ground arith
Step-Inv (lock s e f) inv = ground arith
Step-Inv (notify s e) inv = ground arith
Step-Inv (shutdown s) inv = ground arith
Step-Inv (spurious s e) inv = ground arith

pub Reach-Inv : {s : Handshake} → Reach start s → Inv s
Reach-Inv here = start-Inv
Reach-Inv (next r st) = Step-Inv st (Reach-Inv r)
