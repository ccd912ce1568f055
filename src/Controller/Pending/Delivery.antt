-- ===== src/Controller/Pending/Delivery.antt =====
-- Which rows become jobs when the database, the breaker and the listeners work.
use bridge_core.Prelude.{
  ℕ, zero, suc, ◌<◌, ◌≡◌, ◌≢◌, ◌∙◌, refl, sym, ap, String, true, false, Option, some, List, [], ◌∷◌,
  ◌++◌, if◌then◌else◌, All, take, drop, take-drop, length-drop, All-take, All-drop, length, arith,
  append_assoc, append-nil, Bool-cases, inl, inr,
}
use bridge_core.Prelude.Map.{string_eq, lookup}
use bridge_core.Types.{Listener}
use bridge_core.Models.{JobRow}
use bridge_core.Models.Status.{failed, processed}
use bridge_core.Controller.Pending.Rows.{
  World, executed, is_invalid, is_empty, names, listener_row, pending_row, pending_rows,
  enqueue_built, request, pending_loop, process_pending_jobs,
}

-- Over a world: the rows that match the search, the jobs that the pool was given, oldest first,
-- and what the methods do to both while nothing fails. An update of the first matching row takes it
-- from the matching rows, since its status is pending no more.
pub record Works {W J : Type 0} (world : World W J) (listeners : List (String × Listener))
    (processing_frame : ℕ) : Type 0 where
  pub table : W → List JobRow
  pub queue : W → List J
  pub job_of : JobRow → J
  pub not_done : (w : W) → world.is_done w ≡ false
  pub finds :
      (w : W)
      → world.search_jobs (request world listeners processing_frame) w
        ≡ (w, some (take 200 (table w)))
  pub update_table :
      (w : W) (r : JobRow) (rs : List JobRow)
      → table w ≡ r ∷ rs
      → table (world.update (record r { status = processed }) w) ≡ rs
  pub update_queue : (w : W) (r : JobRow) → queue (world.update r w) ≡ queue w
  pub listener_update_table :
      (w : W) (l : Listener) (r : JobRow) (rs : List JobRow)
      → table w ≡ r ∷ rs
      → table (world.listener_update l (record r { status = failed }) w) ≡ rs
  pub listener_update_queue :
      (w : W) (l : Listener) (r : JobRow) → queue (world.listener_update l r w) ≡ queue w
  pub loads :
      (w : W) (l : Listener) (r : JobRow) → world.new_job_from_db l r w ≡ (w, some (job_of r))
  pub executes : (f : W → W × Option J) (w : W) → world.execute f w ≡ ((f w).0, executed (f w).1)
  pub enqueue_table : (w : W) (j : J) → table (world.enqueue j w) ≡ table w
  pub enqueue_queue : (w : W) (j : J) → queue (world.enqueue j w) ≡ queue w ++ j ∷ []

-- The row's listener is there and enabled.
abbrev pub IsServed : List (String × Listener) → JobRow → Type 0
IsServed listeners r =
    (l : Listener) × (lookup r.listener listeners ≡ some l) × (l.is_disabled ≡ false)

-- The jobs of the rows, without the invalid ones.
abbrev pub valid_jobs : {J : Type 0} → (JobRow → J) → List JobRow → List J
valid_jobs job_of [] = []
valid_jobs job_of (r ∷ rs) =
    let rest = valid_jobs job_of rs in if is_invalid r then rest else job_of r ∷ rest

valid_jobs-append :
    {J : Type 0} (job_of : JobRow → J) (xs ys : List JobRow)
    → valid_jobs job_of (xs ++ ys) ≡ valid_jobs job_of xs ++ valid_jobs job_of ys
valid_jobs-append job_of [] ys = refl
valid_jobs-append job_of (x ∷ xs) ys = elim (Bool-cases (is_invalid x)) [
  | inl invalid ↦ rw invalid (valid_jobs-append job_of xs ys)
  | inr valid ↦ rw valid (ap (◌∷◌ (job_of x)) (valid_jobs-append job_of xs ys))
]

pub is_empty-false : (xs : List String) → xs ≢ [] → is_empty xs ≡ false
is_empty-false [] some_name = absurd (some_name refl)
is_empty-false (x ∷ xs) some_name = refl

module _ {W J : Type 0} (world : World W J) (listeners : List (String × Listener))
    (processing_frame : ℕ) (works : Works world listeners processing_frame) where
  open works use {table, queue, job_of}

  enqueue_built-works :
      (r : JobRow) (l : Listener) (rs : List JobRow) (w : W)
      → table w ≡ r ∷ rs
      → (w' : W) × (enqueue_built world listeners r (world.execute (world.new_job_from_db l r) w)
          ≡ (w', true))
        × (table w' ≡ rs)
        × (queue w' ≡ queue w ++ job_of r ∷ [])
  enqueue_built-works r l rs w e = (
    world.update (record r { status = processed }) (world.enqueue (job_of r) w),
    rw (works.executes (world.new_job_from_db l r) w, works.loads w l r) refl,
    works.update_table (world.enqueue (job_of r) w) r rs (works.enqueue_table w (job_of r) ∙ e),
    works.update_queue (world.enqueue (job_of r) w) (record r { status = processed })
        ∙ works.enqueue_queue w (job_of r),
  )

  served_row :
      (r : JobRow) (l : Listener) (w : W)
      → lookup r.listener listeners ≡ some l
      → pending_row world listeners r w ≡ listener_row world listeners l r w
  unfolding pending_row
  served_row r l w known = rw (known, pending_row) refl

  invalid_row :
      (r : JobRow) (l : Listener) (w : W)
      → l.is_disabled ≡ false
      → is_invalid r ≡ true
      → listener_row world listeners l r w
        ≡ (world.listener_update l (record r { status = failed }) w, true)
  unfolding listener_row
  invalid_row r l w enabled invalid = ground (arith, enabled, invalid)

  valid_row :
      (r : JobRow) (l : Listener) (w : W)
      → l.is_disabled ≡ false
      → is_invalid r ≡ false
      → listener_row world listeners l r w
        ≡ enqueue_built world listeners r (world.execute (world.new_job_from_db l r) w)
  unfolding listener_row
  valid_row r l w enabled valid = ground (arith, enabled, valid)

  pending_row-works :
      (r : JobRow) (rs : List JobRow) (w : W)
      → IsServed listeners r
      → table w ≡ r ∷ rs
      → (w' : W) × (pending_row world listeners r w ≡ (w', true))
        × (table w' ≡ rs)
        × (queue w' ≡ queue w ++ valid_jobs job_of (r ∷ []))
  pending_row-works r rs w (l, known, enabled) e = elim (Bool-cases (is_invalid r)) [
    | inl invalid ↦ (
      world.listener_update l (record r { status = failed }) w,
      served_row r l w known ∙ invalid_row r l w enabled invalid,
      works.listener_update_table w l r rs e,
      rw invalid
          (works.listener_update_queue w l (record r { status = failed }) ∙ sym (append-nil _)),
    )
    | inr valid ↦
        let (w', built, t, q) = enqueue_built-works r l rs w e in
        (w', served_row r l w known ∙ valid_row r l w enabled valid ∙ built, t, rw valid q)
  ]

  pending_rows-works :
      (batch rest : List JobRow) (w : W)
      → All (IsServed listeners) batch
      → table w ≡ batch ++ rest
      → (table (pending_rows world listeners batch w) ≡ rest)
        × (queue (pending_rows world listeners batch w) ≡ queue w ++ valid_jobs job_of batch)
  unfolding pending_rows
  pending_rows-works [] rest w served e = (e, sym (append-nil _))
  pending_rows-works (r ∷ rs) rest w served e =
      let (w', ran, t, q) = pending_row-works r (rs ++ rest) w served.0 e in
      let (t', q') = pending_rows-works rs rest w' served.1 t in
      (
        rw (ran, pending_rows) t',
        rw (ran, pending_rows)
            (q'
              ∙ ap (λ js. js ++ valid_jobs job_of rs) q
              ∙ append_assoc (queue w) (valid_jobs job_of (r ∷ [])) (valid_jobs job_of rs)
              ∙ ap (λ js. queue w ++ js) (sym (valid_jobs-append job_of (r ∷ []) rs))),
      )

  pending_loop-works :
      (fuel : ℕ) (rows : List JobRow) (w : W)
      → All (IsServed listeners) rows
      → table w ≡ rows
      → length rows < fuel
      → (w' : W) × (pending_loop world listeners processing_frame fuel w ≡ some w')
        × (table w' ≡ [])
        × (queue w' ≡ queue w ++ valid_jobs job_of rows)
  unfolding pending_loop
  pending_loop-works zero rows w served e f = absurd (omega arith)
  pending_loop-works (suc fuel) [] w served e f =
      (w, rw (works.not_done w, works.finds w, e) refl, e, sym (append-nil _))
  pending_loop-works (suc fuel) (r ∷ rs) w served e f =
      let batch : List JobRow = take 200 (r ∷ rs) in
      let rest : List JobRow = drop 200 (r ∷ rs) in
      let whole : batch ++ rest ≡ r ∷ rs = take-drop 200 (r ∷ rs) in
      let (t, q) =
        pending_rows-works batch rest w (All-take (IsServed listeners) 200 (r ∷ rs) served)
          (e ∙ sym whole) in
      let (w', ran, t', q') =
        pending_loop-works fuel rest (pending_rows world listeners batch w)
          (All-drop (IsServed listeners) 200 (r ∷ rs) served) t
          (omega (arith, length-drop 200 (r ∷ rs))) in
      (
        w',
        rw (works.not_done w, works.finds w, e) ran,
        t',
        q'
            ∙ ap (λ js. js ++ valid_jobs job_of rest) q
            ∙ append_assoc (queue w) (valid_jobs job_of batch) (valid_jobs job_of rest)
            ∙ ap (λ js. queue w ++ js)
                (sym (valid_jobs-append job_of batch rest) ∙ ap (valid_jobs job_of) whole),
      )

  -- While the context is not done and the database, the breaker and the listeners work, and when every
  -- pending row that matches the search belongs to a listener that is there and enabled, the call
  -- ends within one round for each row and one more: no row is pending any more, and the pool was
  -- given the jobs of the rows in the order of the search, each once, without those of callbacks that
  -- have no method.
  pub process_pending_jobs_lem :
      (fuel : ℕ) (w : W)
      → All (IsServed listeners) (table w)
      → length (table w) < fuel
      → names listeners ≢ []
      → (w' : W) × (process_pending_jobs world listeners processing_frame fuel w ≡ some w')
        × (table w' ≡ [])
        × (queue w' ≡ queue w ++ valid_jobs job_of (table w))
  unfolding process_pending_jobs
  process_pending_jobs_lem fuel w served enough some_listeners =
      let (w', ran, t, q) = pending_loop-works fuel (table w) w served refl enough in
      (w', rw (is_empty-false (names listeners) some_listeners, process_pending_jobs) ran, t, q)
