-- ===== src/Dpdk/Fleet/Termination.antt =====
-- How long the destructor of `DPDK` waits (software/src/dpdk.cc), in steps of the threads.
use packet_filter.Base.{
  ℕ, zero, suc, ◌+◌, ◌*◌, ◌%◌, ◌^◌, ◌≤◌, ◌<◌, true, ◌≡◌, ◌≢◌, ◌⊎◌, inl, inr, refl, ap, sym, subst,
  arith,
}
use native.Mathlib.Decide.{dec_lt}
use packet_filter.Dpdk.Threads.{adjust_threads}
use packet_filter.Dpdk.Handshake
use packet_filter.Dpdk.Handshake.{
  Handshake, Receiver, entering, testing, blocking, asleep, woken, looping, finished, registered,
  enter, pass, refuse, sleep, relock, leave, assign, lock, notify, shutdown, spurious, IsOwn,
}
use packet_filter.Dpdk.Handshake.Invariant as HandshakeInvariant
use packet_filter.Dpdk.Handshake.Progress.{registered_runs}
use packet_filter.Dpdk.Fleet
use packet_filter.Dpdk.Fleet.{
  Fleet, start, put, joining, ended, own, register, next_thread, destroy, join, Step, Reach, here,
  later, Steady, stay, onward,
}
use packet_filter.Dpdk.Fleet.Invariant.{Reach-Inv}
use packet_filter.Dpdk.Fleet.Shutdown.{put_same, put_other}
use packet_filter.Dpdk.Fleet.Exit.{own_unfinished, ended_finished, adjust_threads-kept, all_end}

-- The steps that are left to a thread that sees `force_quit_`.
rank : Receiver → ℕ
rank entering = 3
rank testing = 2
rank blocking = 3
rank asleep = 3
rank woken = 3
rank looping = 1
rank finished = 0

total : (ℕ → Handshake) → ℕ → ℕ
total threads zero = 0
total threads (suc n) = rank (threads n).thread + total threads n

rank-le : (x : Receiver) → rank x ≤ 3
unfolding rank
rank-le entering = omega arith
rank-le testing = omega arith
rank-le blocking = omega arith
rank-le asleep = omega arith
rank-le woken = omega arith
rank-le looping = omega arith
rank-le finished = omega arith

total-le : (threads : ℕ → Handshake) (n : ℕ) → total threads n ≤ 3 * n
unfolding total
total-le threads zero = omega arith
total-le threads (suc n) =
    let one = rank-le (threads n).thread in let rest = total-le threads n in omega arith

own-rank :
    {s t : Handshake} (st : Handshake.Step s t)
    → IsOwn st
    → s.force_quit ≡ true
    → s.thread ≢ blocking
    → rank t.thread < rank s.thread
unfolding rank
own-rank (enter s e f) o q n = rw e (omega arith)
own-rank (pass s e f) o q n = rw e (omega arith)
own-rank (refuse s e f) o q n = absurd cc
own-rank (sleep s e) o q n = absurd (n e)
own-rank (relock s e f) o q n = rw e (omega arith)
own-rank (leave s e f) o q n = rw e (omega arith)
own-rank (assign s e) o q n = absurd o
own-rank (lock s e f) o q n = absurd o
own-rank (notify s e) o q n = absurd o
own-rank (shutdown s) o q n = absurd o
own-rank (spurious s e) o q n = absurd o

total-put_above :
    (threads : ℕ → Handshake) (i n : ℕ) (h : Handshake)
    → n ≤ i
    → total (put threads i h) n ≡ total threads n
unfolding total
total-put_above threads i zero h le = refl
total-put_above threads i (suc n) h le =
    let same =
      ap (λ (x : Handshake). rank x.thread) (put_other threads i n h (λ e. absurd (omega arith))) in
    let rest = total-put_above threads i n h (omega arith) in omega arith

total-put :
    (threads : ℕ → Handshake) (i n : ℕ) (h : Handshake)
    → i < n
    → rank h.thread < rank (threads i).thread
    → total (put threads i h) n < total threads n
unfolding total
total-put threads i zero h lt less = absurd (omega arith)
total-put threads i (suc n) h lt less = elim (dec_lt i n) [
  | yes below ↦
      let same =
        ap (λ (x : Handshake). rank x.thread)
          (put_other threads i n h (λ e. absurd (omega arith))) in
      let rest = total-put threads i n h below less in omega arith
  | no above ↦
      let at : i ≡ n = omega arith in
      let rest = total-put_above threads i n h (omega arith) in
      let now : rank (put threads i h n).thread ≡ rank h.thread =
        subst (λ (k : ℕ). rank (put threads i h k).thread ≡ rank h.thread) at
          (ap (λ (x : Handshake). rank x.thread) (put_same threads i h)) in
      let old : rank (threads i).thread ≡ rank (threads n).thread =
        ap (λ (k : ℕ). rank (threads k).thread) at in
      omega arith
]

pub steps : {asked started : ℕ} {s t : Fleet} → Reach asked started s t → ℕ
steps here = 0
steps (later r st) = suc (steps r)

module _ (asked started : ℕ) (same : asked ≡ started) where
  Reach-trans :
      {s t u : Fleet} → Reach asked started s t → Reach asked started t u → Reach asked started s u
  Reach-trans r here = r
  Reach-trans r (later q st) = later (Reach-trans r q) st

  -- While `main` waits, a step leaves fewer steps to the threads, or it is the end of the wait.
  waiting_step :
      {u v : Fleet}
      → Reach asked started start u
      → u.main ≡ joining
      → Step asked started u v
      → ((v.main ≡ joining) × (total v.threads started < total u.threads started))
        ⊎ ((v.main ≡ ended) × (total v.threads started ≡ total u.threads started))
  waiting_step {u} r m (own i {h} lt st o) =
      let inv = Reach-Inv r in
      let awake = λ (b : (u.threads i).thread ≡ blocking).
        (HandshakeInvariant.Reach-Inv (inv.reached i)).blocks b (inv.all i m (omega arith)) in
      inl (m, total-put u.threads i started h lt (own-rank st o (inv.told i m) awake))
  waiting_step {u} r m (Fleet.spurious i lt e) =
      let inv = Reach-Inv r in
      absurd ((registered_runs (inv.reached i) (inv.all i m (omega arith)) (λ f. cc)).0 e)
  waiting_step r m (register i e lt st reg) = absurd cc
  waiting_step r m (next_thread i e lt f) = absurd cc
  waiting_step r m (destroy e) = absurd cc
  waiting_step r m (join e done) = inr (refl, refl)

  pub ended_still :
      {u v : Fleet} → Reach asked started start u → u.main ≡ ended → Step asked started u v → ⊥
  ended_still r m (own i lt st o) = own_unfinished st o (ended_finished lt r m)
  ended_still r m (Fleet.spurious i lt e) = let f = ended_finished lt r m in cc
  ended_still r m (register i e lt st reg) = cc
  ended_still r m (next_thread i e lt f) = cc
  ended_still r m (destroy e) = cc
  ended_still r m (join e done) = cc

  abbrev Waits : Fleet → Fleet → ℕ → Type 0
  Waits s t k =
      ((t.main ≡ joining) × (k + total t.threads started ≤ total s.threads started))
      ⊎ ((t.main ≡ ended) × (k + total t.threads started ≤ total s.threads started + 1))

  run-Waits :
      {s t : Fleet}
      → Reach asked started start s
      → s.main ≡ joining
      → (p : Reach asked started s t) → Waits s t (steps p)
  unfolding steps
  run-Waits r m here = inl (m, omega arith)
  run-Waits {s} {t} r m (later {u} p st) = elim (run-Waits r m p) [
    | inl (j, le) ↦ elim (waiting_step (Reach-trans r p) j st) [
      | inl (j', less) ↦ inl (j', omega arith)
      | inr (e, kept) ↦ inr (e, omega arith)
    ]
    | inr (e, le) ↦ absurd (ended_still (Reach-trans r p) e st)
  ]

first_step :
    {asked started : ℕ} {s t : Fleet}
    → Steady asked started s t
    → (s ≡ t) ⊎ ((u : Fleet) × Step asked started s u)
first_step stay = inl refl
first_step {asked} {started} (onward {u = v} r st w) = elim (first_step r) [
  | inl e ↦ inr (v, subst (λ (x : Fleet). Step asked started x v) (sym e) st)
  | inr found ↦ inr found
]

-- Where the number of threads is a multiple of the number of ports and an `uint16_t` holds it: from
-- any reached state in which `main` waits for the threads, every run of any steps whatever, spurious
-- wake-ups included, has at most three steps for each thread and one more, and where it stops before
-- the wait has ended a further step is possible. So the wait ends, however the threads are scheduled.
pub exit_terminates :
    (num_threads ports : ℕ) (s t : Fleet)
    → num_threads % ports ≡ 0
    → num_threads < 2 ^ 16
    → Reach num_threads (adjust_threads num_threads ports) start s
    → s.main ≡ joining
    → (p : Reach num_threads (adjust_threads num_threads ports) s t)
    → (steps p ≤ 3 * num_threads + 1)
      × ((t.main ≡ ended) ⊎ ((u : Fleet) × Step num_threads (adjust_threads num_threads ports) t u))
exit_terminates n ports s t whole small r m p = elim (run-Waits n started kept r m p) [
  | inl (j, le) ↦ (omega (arith, le, most, kept), inr (moves j))
  | inr (e, le) ↦ (omega (arith, le, most, kept), inl e)
]
  where
    started : ℕ
    started = adjust_threads n ports

    kept : n ≡ started
    kept = sym (adjust_threads-kept n ports whole small)

    most : total s.threads started ≤ 3 * started
    most = total-le s.threads started

    moves : t.main ≡ joining → (u : Fleet) × Step n started t u
    moves j =
        let (v, path, e, done) = all_end n ports t whole small (Reach-trans n started kept r p) j in
        elim (first_step path) [
          | inl same ↦ absurd (let other = ap Fleet.main same in cc)
          | inr found ↦ found
        ]
