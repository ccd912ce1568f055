-- ===== src/Pool/Invariant/MainTokens.antt =====
-- The steps of the main loop keep the tokens.
use bridge_core.Prelude.{
  ℕ, suc, ◌+◌, ◌<◌, ◌≡◌, ◌++◌, sym, refl, Bool, true, false, some, List, [], ◌∷◌, get_elem?, set,
  length, arith, inl, inr, subst, if◌then◌else◌, ◌==◌, Option-cases, ◌≤◌, ==_iff, length-set,
  length-append,
}
use bridge_core.Pool.Channel.{close}
use bridge_core.Pool.State.{
  Worker, Pool, MainPc, selecting, dispatching, sending, closing_worker, waiting_worker,
}
use bridge_core.Pool.Main.{
  Choice, failed_case, retry_case, job_case, done_case, select, dispatch, hand_out, close_worker,
  back_to,
}
use bridge_core.Pool.Invariant.Phases.{stage, Phases}
use bridge_core.Pool.Invariant.Tokens.{Tokens-main, count, main_token, get_elem?-set, Tokens}

pub early : {J : Type 0} (last : Bool) (job : J) → stage (dispatching last job) < 3
early true job = omega arith
early false job = omega arith

pub early_sending : {J : Type 0} (last : Bool) (i : ℕ) (job : J) → stage (sending last i job) < 3
early_sending true i job = omega arith
early_sending false i job = omega arith

late : {J : Type 0} {m : MainPc J} (n : ℕ) → stage m < 3 → m ≡ waiting_worker n → ⊥
late n s is = ground (arith, s, is)

back-token : (J : Type 0) (last : Bool) (j : ℕ) → main_token {J = J} (back_to last) j ≡ 0
back-token J true j = refl
back-token J false j = refl

module _ {J : Type 0} (p q : Pool J) (t : Tokens p) where
  pub select-Tokens :
      (c : Choice) (saved : Bool) → p.main ≡ selecting → select c saved p ≡ some q → Tokens q
  unfolding select
  select-Tokens failed_case saved now e =
      Tokens-main p q (ground (arith, e)) (ground (arith, e)) (λ j. ground (arith, now, e))
        (λ s. rw now (omega arith)) t
  select-Tokens retry_case saved now e =
      Tokens-main p q (ground (arith, e)) (ground (arith, e)) (λ j. ground (arith, now, e))
        (λ s. rw now (omega arith)) t
  select-Tokens job_case saved now e =
      Tokens-main p q (ground (arith, e)) (ground (arith, e)) (λ j. ground (arith, now, e))
        (λ s. rw now (omega arith)) t
  select-Tokens done_case saved now e =
      Tokens-main p q (ground (arith, e)) (ground (arith, e)) (λ j. ground (arith, now, e))
        (λ s. rw now (omega arith)) t

  -- The main loop takes a token out of the queue.
  pub dispatch-Tokens :
      (last : Bool) (job : J) (items : List ℕ)
      → p.queue.items ≡ items
      → p.main ≡ dispatching last job
      → dispatch last job p ≡ some q
      → Tokens q
  unfolding dispatch
  dispatch-Tokens last job [] has now e = ground (arith, has, e)
  dispatch-Tokens last job (i ∷ rest) has now e =
      let workers_are : q.workers ≡ p.workers = ground (arith, has, e) in
      let items_are : q.queue.items ≡ rest = ground (arith, has, e) in
      let cap_is : q.queue.cap ≡ p.queue.cap = ground (arith, has, e) in
      let main_is : q.main ≡ sending last i job = ground (arith, has, e) in
      record {
        token = λ j k at.
            let old = t.token j k (subst (λ ks. get_elem? ks j ≡ some k) workers_are at) in
            let before : count j p.queue.items ≡ (if i == j then 1 else 0) + count j rest =
              rw has refl in
            let nothing : main_token p.main j ≡ 0 = rw now refl in
            rw (items_are, main_is) (omega (arith, old, before, nothing));
        strange = λ j beyond.
            let old = t.strange j (subst (λ ks. length ks ≤ j) workers_are beyond) in
            let before : count j p.queue.items ≡ (if i == j then 1 else 0) + count j rest =
              rw has refl in
            let nothing : main_token p.main j ≡ 0 = rw now refl in
            rw (items_are, main_is) (omega (arith, old, before, nothing));
        still_open = λ j k at s.
            t.still_open j k (subst (λ ks. get_elem? ks j ≡ some k) workers_are at)
              (rw now (early last job));
        within =
            let longer : suc (length rest) ≡ length p.queue.items = rw has refl in
            rw (items_are, cap_is) (omega (arith, t.within, longer));
      }

  -- The main loop hands a job to the worker whose token it has.
  module _ (f : Phases p) (last : Bool) (i : ℕ) (job : J) (now : p.main ≡ sending last i job) where
    given :
        (k : Worker J)
        → get_elem? p.workers i ≡ some k
        → q.workers
          ≡ set p.workers i (record k {
            worker_chan = record (k.worker_chan) { items = k.worker_chan.items ++ job ∷ [] };
          })
        → q.main ≡ back_to last
        → q.queue ≡ p.queue
        → Tokens q
    given k at workers_are main_is queue_is =
        let opened : k.worker_chan.closed ≡ false =
          t.still_open i k at (rw now (early_sending last i job)) in
        let given_worker : Worker J = record k {
          worker_chan = record (k.worker_chan) { items = k.worker_chan.items ++ job ∷ [] };
        } in
        let no_token : (j : ℕ) → main_token q.main j ≡ 0 = λ j. rw main_is (back-token J last j) in
        record {
          token = λ j x found.
              elim (get_elem?-set p.workers i j _ x
                (subst (λ ks. get_elem? ks j ≡ some x) workers_are found)) [
                  | inl (same, is) ↦
                      let old = t.token i k at in
                      let mine : main_token p.main i ≡ 1 = rw now (ground (arith, ==_iff i i)) in
                      let given_away = no_token i in
                      rw (is, same, queue_is)
                        (omega (
                          arith,
                          old,
                          mine,
                          given_away,
                          length-append k.worker_chan.items (job ∷ []),
                        ))
                  | inr (other, there) ↦
                      let old = t.token j x there in
                      let nothing : main_token p.main j ≡ 0 = rw now (rw other refl) in
                      let given_away = no_token j in
                      rw queue_is (omega (arith, old, nothing, given_away))
                ];
          strange = λ j beyond.
              let old = t.strange j (
                omega (
                  arith,
                  length-set p.workers i given_worker,
                  subst (λ ks. length ks ≤ j) workers_are beyond,
                )) in
              let given_away = no_token j in rw queue_is (omega (arith, old, given_away));
          still_open = λ j x found s.
              elim (get_elem?-set p.workers i j _ x
                (subst (λ ks. get_elem? ks j ≡ some x) workers_are found)) [
                  | inl (same, is) ↦
                      subst (λ (y : Worker J). y.worker_chan.closed ≡ false) (sym is) opened
                  | inr (other, there) ↦ t.still_open j x there (rw now (early_sending last i job))
                ];
          within = rw queue_is (t.within);
        }

    pub hand_out-Tokens : (saved : Bool) → hand_out saved last i job p ≡ some q → Tokens q
    unfolding hand_out
    hand_out-Tokens saved e = elim (Option-cases (get_elem? p.workers i)) [
      | inl gone ↦ ground (arith, gone, e)
      | inr (k, at) ↦
          let opened : k.worker_chan.closed ≡ false =
            t.still_open i k at (rw now (early_sending last i job)) in
          given k at (ground (arith, at, opened, e)) (ground (arith, at, opened, e))
            (ground (arith, at, opened, e))
    ]

  pub close_worker-Tokens : (n : ℕ) → p.main ≡ closing_worker n → close_worker n p ≡ q → Tokens q
  unfolding close_worker
  close_worker-Tokens n now e = elim (Option-cases (get_elem? p.workers n)) [
    | inl gone ↦
        Tokens-main p q (ground (arith, gone, e)) (ground (arith, gone, e))
          (λ j. ground (arith, now, gone, e)) (λ s. ground (arith, gone, e, s)) t
    | inr (k, at) ↦
        let closed_worker : Worker J = record k { worker_chan = close k.worker_chan } in
        let workers_are : q.workers
            ≡ set p.workers n (record k { worker_chan = close k.worker_chan }) =
          ground (arith, at, e) in
        let main_is : q.main ≡ waiting_worker n = ground (arith, at, e) in
        let queue_is : q.queue ≡ p.queue = ground (arith, at, e) in
        record {
          token = λ j x found.
              let less : main_token p.main j ≡ 0 = rw now refl in
              let none_left : main_token q.main j ≡ 0 = rw main_is refl in
              elim (get_elem?-set p.workers n j _ x
                (subst (λ ks. get_elem? ks j ≡ some x) workers_are found)) [
                  | inl (same, is) ↦
                      let old = t.token n k at in
                      let nothing : main_token p.main n ≡ 0 = rw now refl in
                      let none_there : main_token q.main n ≡ 0 = rw main_is refl in
                      rw (is, same, queue_is) (omega (arith, old, nothing, none_there))
                  | inr (other, there) ↦
                      let old = t.token j x there in
                      rw queue_is (omega (arith, old, less, none_left))
                ];
          strange = λ j beyond.
              let old = t.strange j (
                omega (
                  arith,
                  length-set p.workers n closed_worker,
                  subst (λ ks. length ks ≤ j) workers_are beyond,
                )) in
              let less : main_token p.main j ≡ 0 = rw now refl in
              let none_left : main_token q.main j ≡ 0 = rw main_is refl in
              rw queue_is (omega (arith, old, less, none_left));
          still_open = λ j x found s. absurd (late n s main_is);
          within = rw queue_is (t.within);
        }
  ]
