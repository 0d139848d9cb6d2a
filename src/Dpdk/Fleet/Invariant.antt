-- ===== src/Dpdk/Fleet/Invariant.antt =====
-- What holds in every state of the threads and `main` that is reached from the start.
use packet_filter.Base.{
  ℕ, suc, ◌≤◌, ◌<◌, ◌==◌, Bool, true, false, if◌then◌else◌, ◌≡◌, refl, ◌∙◌, subst, ==→eq, arith,
}
use native.Mathlib.Decide.{dec_lt}
use packet_filter.Dpdk.Handshake
use packet_filter.Dpdk.Handshake.{
  Handshake, finished, registered, unregistered, assigned, enter, pass, refuse, sleep, relock,
  leave, assign, lock, notify, shutdown, spurious, next, IsOwn,
}
use packet_filter.Dpdk.Fleet
use packet_filter.Dpdk.Fleet.{
  Main, registering, joining, ended, Fleet, start, put, quit, IsRegistration, Step, own, register,
  next_thread, destroy, join, Reach, here, later,
}

-- A property of all threads that the changed thread has, too.
pub put-all :
    (P : ℕ → Handshake → Type 0) (threads : ℕ → Handshake) (i : ℕ) (h : Handshake)
    → P i h
    → ((j : ℕ) → P j (threads j))
    → (j : ℕ) → P j (put threads i h j)
put-all P threads i h p all j = either (i == j) refl
  where
    either : (b : Bool) → (i == j) ≡ b → P j (if b then h else threads j)
    either true e = subst (λ (k : ℕ). P k h) (==→eq i j e) p
    either false e = all j

-- What a step of the receiving thread leaves alone.
own-main : {s t : Handshake} (st : Handshake.Step s t) → IsOwn st → t.main ≡ s.main
own-main (enter s e f) o = refl
own-main (pass s e f) o = refl
own-main (refuse s e f) o = refl
own-main (sleep s e) o = refl
own-main (relock s e f) o = refl
own-main (leave s e f) o = refl
own-main (assign s e) o = absurd o
own-main (lock s e f) o = absurd o
own-main (notify s e) o = absurd o
own-main (shutdown s) o = absurd o
own-main (spurious s e) o = absurd o

pub own-force_quit :
    {s t : Handshake} (st : Handshake.Step s t) → IsOwn st → t.force_quit ≡ s.force_quit
own-force_quit (enter s e f) o = refl
own-force_quit (pass s e f) o = refl
own-force_quit (refuse s e f) o = refl
own-force_quit (sleep s e) o = refl
own-force_quit (relock s e f) o = refl
own-force_quit (leave s e f) o = refl
own-force_quit (assign s e) o = absurd o
own-force_quit (lock s e f) o = absurd o
own-force_quit (notify s e) o = absurd o
own-force_quit (shutdown s) o = absurd o
own-force_quit (spurious s e) o = absurd o

-- The threads before the one that is being registered are registered, those from `asked` on are
-- not, and behind `trigger_shutdown` all see `force_quit_`.
pub record Inv (asked : ℕ) (s : Fleet) : Type 0 where
  pub reached : (j : ℕ) → Handshake.Reach Handshake.start (s.threads j)
  pub before : (k j : ℕ) → s.main ≡ registering k → j < k → (s.threads j).main ≡ registered
  pub bounded : (k : ℕ) → s.main ≡ registering k → k ≤ asked
  pub fresh : (j : ℕ) → asked ≤ j → (s.threads j).main ≡ unregistered
  pub all : (j : ℕ) → s.main ≡ joining → j < asked → (s.threads j).main ≡ registered
  pub told : (j : ℕ) → s.main ≡ joining → (s.threads j).force_quit ≡ true

-- The same for all threads, whatever number is registered: a thread changed by a step of its own.
own_kept :
    {asked : ℕ} (s : Fleet) (i : ℕ) (h : Handshake)
    → Handshake.Reach Handshake.start h
    → h.main ≡ (s.threads i).main
    → h.force_quit ≡ (s.threads i).force_quit
    → Inv asked s
    → Inv asked (record s { threads = put s.threads i h })
own_kept {asked} s i h r same_main same_quit inv = record {
  reached = put-all (λ k t. Handshake.Reach Handshake.start t) s.threads i h r inv.reached;
  before = λ k j e lt.
      put-all (λ n t. n < k → t.main ≡ registered) s.threads i h
        (λ b. same_main ∙ inv.before k i e b) (λ n b. inv.before k n e b) j lt;
  bounded = inv.bounded;
  fresh = λ j le.
      put-all (λ n t. asked ≤ n → t.main ≡ unregistered) s.threads i h
        (λ b. same_main ∙ inv.fresh i b) inv.fresh j le;
  all = λ j e lt.
      put-all (λ n t. n < asked → t.main ≡ registered) s.threads i h
        (λ b. same_main ∙ inv.all i e b) (λ n b. inv.all n e b) j lt;
  told = λ j e.
      put-all (λ n t. t.force_quit ≡ true) s.threads i h (same_quit ∙ inv.told i e)
        (λ n. inv.told n e) j;
}

registration_kept :
    {asked : ℕ} (s : Fleet) (i : ℕ) (h : Handshake)
    → s.main ≡ registering i
    → i < asked
    → Handshake.Reach Handshake.start h
    → Inv asked s
    → Inv asked (record s { threads = put s.threads i h })
registration_kept {asked} s i h now lt r inv = record {
  reached = put-all (λ k t. Handshake.Reach Handshake.start t) s.threads i h r inv.reached;
  before = λ k j e lt.
      put-all (λ n t. n < k → t.main ≡ registered) s.threads i h
        (λ b. let same : k ≡ i = same_place k e in absurd (omega arith)) (λ n b. inv.before k n e b)
        j lt;
  bounded = inv.bounded;
  fresh = λ j le.
      put-all (λ n t. asked ≤ n → t.main ≡ unregistered) s.threads i h (λ b. absurd (omega arith))
        inv.fresh j le;
  all = λ j e lt. cc;
  told = λ j e. cc;
}
  where
    same_place : (k : ℕ) → s.main ≡ registering k → k ≡ i
    same_place k e = cc

next_kept :
    {asked : ℕ} (s : Fleet) (i : ℕ)
    → s.main ≡ registering i
    → i < asked
    → (s.threads i).main ≡ registered
    → Inv asked s
    → Inv asked (record s { main = registering (suc i) })
next_kept {asked} s i now lt m inv = record {
  reached = inv.reached;
  before = λ k j e b. elim (dec_lt j i) [
    | yes h ↦ inv.before i j now h
    | no h ↦
        let place : k ≡ suc i = one_on k e in
        let same : i ≡ j = omega arith in subst (λ (n : ℕ). (s.threads n).main ≡ registered) same m
  ];
  bounded = λ k e. let place : k ≡ suc i = one_on k e in omega arith;
  fresh = inv.fresh;
  all = λ j e b. cc;
  told = λ j e. cc;
}
  where
    one_on : (k : ℕ) → registering (suc i) ≡ registering k → k ≡ suc i
    one_on k e = cc

pub Step-Inv :
    {asked started : ℕ} {s t : Fleet} → Step asked started s t → Inv asked s → Inv asked t
Step-Inv (own i lt st o) inv =
    own_kept _ i _ (next (inv.reached i) st) (own-main st o) (own-force_quit st o) inv
Step-Inv (Fleet.spurious i lt e) inv =
    own_kept _ i _ (next (inv.reached i) (spurious _ e)) refl refl inv
Step-Inv (register i e lt st reg) inv = registration_kept _ i _ e lt (next (inv.reached i) st) inv
Step-Inv (next_thread i e lt m) inv = next_kept _ i e lt m inv
Step-Inv (destroy e) inv = record {
  reached = λ j. next (inv.reached j) (shutdown _);
  before = λ k j e' b. cc;
  bounded = λ k e'. cc;
  fresh = inv.fresh;
  all = λ j e' b. inv.before _ j e b;
  told = λ j e'. refl;
}
Step-Inv (join e done) inv = record {
  reached = inv.reached;
  before = λ k j e' b. cc;
  bounded = λ k e'. cc;
  fresh = inv.fresh;
  all = λ j e' b. cc;
  told = λ j e'. cc;
}

start-Inv : (asked : ℕ) → Inv asked start
start-Inv asked = record {
  reached = λ j. Handshake.here;
  before = λ k j e b. let place : k ≡ 0 = first k e in absurd (omega arith);
  bounded = λ k e. let place : k ≡ 0 = first k e in omega arith;
  fresh = λ j le. refl;
  all = λ j e b. cc;
  told = λ j e. cc;
}
  where
    first : (k : ℕ) → registering 0 ≡ registering k → k ≡ 0
    first k e = cc

pub Reach-Inv : {asked started : ℕ} {s : Fleet} → Reach asked started start s → Inv asked s
Reach-Inv {asked} here = start-Inv asked
Reach-Inv (later r st) = Step-Inv st (Reach-Inv r)
