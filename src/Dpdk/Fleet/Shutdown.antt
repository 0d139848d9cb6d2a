-- ===== src/Dpdk/Fleet/Shutdown.antt =====
-- The threads that are registered end behind `trigger_shutdown`, whatever the others do
-- (software/src/dpdk.cc).
use packet_filter.Base.{
  ℕ, zero, suc, ◌≤◌, ◌<◌, Bool, true, if◌then◌else◌, ◌≡◌, ◌≢◌, refl, ap, ◌∙◌, sym, subst, ==_refl,
  ne→==, arith,
}
use native.Mathlib.Decide.{dec_lt}
use packet_filter.Dpdk.Handshake
use packet_filter.Dpdk.Handshake.{
  Handshake, Receiver, entering, testing, blocking, asleep, woken, looping, finished, registered,
  enter, pass, sleep, relock, leave, assign, lock, notify, shutdown, spurious, IsOwn, Alone, still,
  move,
}
use packet_filter.Dpdk.Handshake.Progress.{registered_runs}
use packet_filter.Dpdk.Fleet.{joining, Fleet, put, own, Steady, stay, onward}
use packet_filter.Dpdk.Fleet.Invariant.{own-force_quit, Inv, Step-Inv}

Alone-force_quit : {s t : Handshake} → Alone s t → t.force_quit ≡ s.force_quit
Alone-force_quit still = refl
Alone-force_quit (move r st o) = own-force_quit st o ∙ Alone-force_quit r

-- A registered thread that sees `force_quit_` ends by its own steps.
quits :
    {s : Handshake}
    → Handshake.Reach Handshake.start s
    → s.main ≡ registered
    → s.force_quit ≡ true
    → (t : Handshake) × Alone s t × (t.thread ≡ finished)
quits {s} r m q = go s.thread refl
  where
    leaves : s.thread ≢ finished → (t : Handshake) × Alone s t × (t.thread ≡ finished)
    leaves n =
        let (awake, (t, path, e)) = registered_runs r m n in
        (record t { thread = finished }, move path (leave t e (Alone-force_quit path ∙ q)) tt, refl)

    go : (x : Receiver) → s.thread ≡ x → (t : Handshake) × Alone s t × (t.thread ≡ finished)
    go finished e = (s, still, e)
    go entering e = leaves (λ f. cc)
    go testing e = leaves (λ f. cc)
    go blocking e = leaves (λ f. cc)
    go asleep e = leaves (λ f. cc)
    go woken e = leaves (λ f. cc)
    go looping e = leaves (λ f. cc)

pub put_same : (threads : ℕ → Handshake) (k : ℕ) (h : Handshake) → put threads k h k ≡ h
put_same threads k h = ap (λ (b : Bool). if b then h else threads k) (==_refl k)

pub put_other :
    (threads : ℕ → Handshake) (k j : ℕ) (h : Handshake) → j ≢ k → put threads k h j ≡ threads j
put_other threads k j h ne =
    ap (λ (b : Bool). if b then h else threads j) (ne→== k j (λ e. ne (sym e)))

module _ (asked started : ℕ) where
  Steady-trans :
      {s t u : Fleet}
      → Steady asked started s t
      → Steady asked started t u
      → Steady asked started s u
  Steady-trans r stay = r
  Steady-trans r (onward q st w) = onward (Steady-trans r q) st w

  Steady-Inv : {s t : Fleet} → Steady asked started s t → Inv asked s → Inv asked t
  Steady-Inv stay inv = inv
  Steady-Inv (onward r st w) inv = Step-Inv st (Steady-Inv r inv)

  -- A state of the threads and `main` in which thread `k` alone moved, to `h`.
  record Moved (s : Fleet) (k : ℕ) (h : Handshake) : Type 0 where
    after : Fleet
    path : Steady asked started s after
    moved : after.threads k ≡ h
    others : (j : ℕ) → j ≢ k → after.threads j ≡ s.threads j
    same_main : after.main ≡ s.main

  -- What a thread can do alone, it can do among the others.
  among : (s : Fleet) (k : ℕ) {h : Handshake} → k < started → Alone (s.threads k) h → Moved s k h
  among s k lt still = record {
    after = s;
    path = stay;
    moved = refl;
    others = λ j ne. refl;
    same_main = refl;
  }
  among s k {h} lt (move r st o) =
      let m = among s k lt r in
      let (st', o') =
        subst (λ (x : Handshake). (q : Handshake.Step x h) × IsOwn q) (sym m.moved) (st, o) in
      record {
        after = record (m.after) { threads = put m.after.threads k h };
        path = onward m.path (own k lt st' o') (λ w. w);
        moved = put_same m.after.threads k h;
        others = λ j ne. put_other m.after.threads k j h ne ∙ m.others j ne;
        same_main = m.same_main;
      }

  -- While `main` waits, the first `k` threads end one after the other.
  pub end_first :
      (s : Fleet) (k : ℕ)
      → asked ≡ started
      → k ≤ started
      → Inv asked s
      → s.main ≡ joining
      → (t : Fleet) × Steady asked started s t
        × Inv asked t
        × (t.main ≡ joining)
        × ((j : ℕ) → j < k → (t.threads j).thread ≡ finished)
  end_first s zero same le inv m = (s, stay, inv, m, λ j lt. absurd (omega arith))
  end_first s (suc k) same le inv m =
      let (t, path, inv', m', done) = end_first s k same (omega arith) inv m in
      let (h, alone, e) = quits (inv'.reached k) (inv'.all k m' (omega arith)) (inv'.told k m') in
      let step = among t k (omega arith) alone in
      let path' = Steady-trans path step.path in
      (
        step.after,
        path',
        Steady-Inv path' inv,
        step.same_main ∙ m',
        λ j lt. elim (dec_lt j k) [
          | yes h ↦ ap Handshake.thread (step.others j (λ e. absurd (omega arith))) ∙ done j h
          | no h ↦
              let at : k ≡ j = omega arith in
              subst (λ (i : ℕ). (step.after.threads i).thread ≡ finished) at
                (ap Handshake.thread step.moved ∙ e)
        ],
      )
