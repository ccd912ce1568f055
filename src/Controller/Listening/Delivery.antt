-- ===== src/Controller/Listening/Delivery.antt =====
-- What the loop of startListening hands to the pool over many rounds.
use bridge_core.Controller.Batch.Current.{
  after_effects, Keeper, IsKeeper, StandsAt, process_batch_logs-StandsAt,
}
use mathlib.Core.Path.{ap₂}
use bridge_core.Controller.Behind.Txs.{TxTools}
use bridge_core.Prelude.Outcome.{returns}
use bridge_core.Controller.Behind.Whole.{process_behind_block-logs}
use bridge_core.Types.{Log, log_event, Listener, Block}
use bridge_core.Controller.Filters.{Filters, add_subscriptions, no_filters}
use bridge_core.Controller.Batch.Coverage.{AnswersFrom, logs_between, logs_between-add}
use bridge_core.Controller.Behind.Range.{times_mono, Serves}
use bridge_core.Controller.Batch.Jobs.{jobs_of, enqueued_jobs, jobs_of-append}
use bridge_core.Controller.Behind.Blocks.{
  has_subscription_type, worked, sub64, process_behind_block, no_safe_block, no_work,
}
use bridge_core.Controller.Logs.{LogTools}
use bridge_core.Controller.Listening.Watch.{
  Round, Moment, went_behind, watch_round, is_last, latest_failed, in_safe_range, watch,
  with_current, after_round,
}
use bridge_core.Prelude.{
  ℕ, ◌+◌, arith, List, some, ◌++◌, ◌*◌, ltb, ◌∷◌, ◌≤◌, ◌≡◌, String, false, ◌<◌, ◌-◌, refl, true,
  ◌^◌, [], Option-cases, inr, inl, Bool-cases, ltb→lt, sym, ap, ◌∙◌, All,
}

module _ {J : Type 0} where
  -- The jobs of logs that a round enqueues.
  abbrev pub round_jobs : Round J → List J
  round_jobs (went_behind (worked w)) = enqueued_jobs w.log_effects
  round_jobs _ = []

  abbrev pub rounds_jobs : List (Round J) → List J
  rounds_jobs [] = []
  rounds_jobs (r ∷ rs) = round_jobs r ++ rounds_jobs rs

module _ {S : Type 0} {J : Type 0} (keeper : Keeper S) (tools : LogTools J) (tx_tools : TxTools J)
    (hex_to_address : String → ℕ) (listener : Listener) (batch_size safe_block_range : ℕ)
    (chain : ℕ → List Log) (blocks : ℕ → Block) (k chain_id : ℕ) (f : Filters) where
  -- A moment in which the listener goes on and the node answers from a chain: the latest height, the
  -- safe block and FilterLogs may each be an error; GetBlock succeeds in processBatchLogs, and for
  -- each block of transactions after some attempts.
  pub record Steady (m : Moment) : Type 0 where
    pub going : m.context_done ≡ false
    pub pool_open : m.pool_closed ≡ false
    pub known : m.node.get_chain_id ≡ some chain_id
    pub answers : AnswersFrom chain f m.node
    pub serves : Serves blocks k m.tx_block
    pub height_of : (a : ℕ) (b : Block) → m.get_safe_block a ≡ some b → b.height ≡ a
    pub finds :
        (latest : ℕ)
        → m.latest_height ≡ some latest
        → (n a : ℕ) → a ≤ latest
        → (b : Block) × (m.node.get_block n a ≡ some b) × (b.height ≡ a)
    pub fits :
        (latest : ℕ)
        → m.latest_height ≡ some latest
        → (safe_block_range ≤ latest)
          × (latest + batch_size < 2 ^ 64)
          × (k + latest * (k + 1) + 1 < m.tx_fuel)

  abbrev next_state : Round J → S → S
  next_state = after_round keeper tools tx_tools hex_to_address listener batch_size safe_block_range

  -- What a round from a state at a height does.
  abbrev Delivered : S → ℕ → Round J → Type 0
  Delivered s h r =
      (is_last r ≡ false)
      × (h' : ℕ) × (h ≤ h')
      × StandsAt keeper (next_state r s) h'
      × (round_jobs r ≡ jobs_of tools chain_id f.event_ids (logs_between chain h (h' - h)))

  idle : (h : ℕ) → [] ≡ jobs_of tools chain_id f.event_ids (logs_between chain h (h - h))
  idle h = let none_yet : h - h ≡ 0 = omega arith in rw none_yet refl

  module _ (is_keeper : IsKeeper keeper)
      (built : add_subscriptions hex_to_address listener.subscriptions no_filters ≡ returns f)
      (logs : has_subscription_type log_event listener.subscriptions ≡ true) where
    -- A round that has work to do.
    worked-Delivered :
        (m : Moment) (s : S) (h latest : ℕ) (b safe : Block)
        → Steady m
        → m.latest_height ≡ some latest
        → keeper.get_current_block s ≡ some b
        → b.height ≡ h
        → h < sub64 latest safe_block_range
        → m.get_safe_block (sub64 latest safe_block_range) ≡ some safe
        → (r : Round J) × (watch_round tools tx_tools hex_to_address listener batch_size
              safe_block_range
              (with_current keeper tools tx_tools hex_to_address listener batch_size
                safe_block_range s m)
            ≡ some (returns r))
          × Delivered s h r
    unfolding watch_round
    worked-Delivered m s h latest b safe st known_latest current at behind found =
        let (above, small, enough) = st.fits latest known_latest in
        let same = st.height_of (sub64 latest safe_block_range) safe found in
        let (w, r, ran, batch, trace, low, jobs) =
          process_behind_block-logs tools tx_tools m.node hex_to_address listener batch_size
            safe_block_range m.get_safe_block m.tx_block chain blocks k chain_id m.tx_fuel h latest
            f safe st.known built st.answers st.serves logs behind found (omega arith) (omega arith)
            (times_mono (safe.height - h) latest k m.tx_fuel (omega arith) enough) in
        let stands =
          process_batch_logs-StandsAt keeper is_keeper tools m.node hex_to_address listener
            batch_size chain_id h safe.height f s r st.known built (omega arith) (omega arith)
            (λ n a le. st.finds latest known_latest n a (omega arith)) (b, current, at) batch in
        (
          went_behind (worked w),
          ground (arith, st.going, st.pool_open, known_latest, current, at, ran),
          (refl, r.from_height, low, rw trace stands, jobs),
        )

    -- A round that leaves the listener where it is.
    stays :
        (s : S) (h : ℕ) (r : Round J)
        → StandsAt keeper s h
        → is_last r ≡ false
        → round_jobs r ≡ []
        → next_state r s ≡ s
        → Delivered s h r
    stays s h r at goes none_new same = (goes, h, omega arith, rw same at, none_new ∙ idle h)

    -- A round at a moment, whatever fails in it.
    round-Delivered :
        (m : Moment) (s : S) (h : ℕ) (b : Block)
        → Steady m
        → keeper.get_current_block s ≡ some b
        → b.height ≡ h
        → (r : Round J) × (watch_round tools tx_tools hex_to_address listener batch_size
              safe_block_range
              (with_current keeper tools tx_tools hex_to_address listener batch_size
                safe_block_range s m)
            ≡ some (returns r))
          × Delivered s h r
    unfolding watch_round process_behind_block after_effects
    round-Delivered m s h b st current at = elim (Option-cases m.latest_height) [
      | inl failed ↦ (
        latest_failed,
        ground (arith, st.going, st.pool_open, failed),
        stays s h latest_failed (b, current, at) refl refl refl,
      )
      | inr (latest, known_latest) ↦ elim (Bool-cases (ltb h (sub64 latest safe_block_range))) [
        | inl behind ↦ elim (Option-cases (m.get_safe_block (sub64 latest safe_block_range))) [
          | inl none_safe ↦ (
            went_behind no_safe_block,
            ground (arith, st.going, st.pool_open, known_latest, current, at, none_safe, behind),
            stays s h (went_behind no_safe_block) (b, current, at) refl refl refl,
          )
          | inr (safe, found) ↦
              worked-Delivered m s h latest b safe st known_latest current at (ltb→lt _ _ behind)
                found
        ]
        | inr near ↦ elim (Bool-cases (ltb (sub64 latest safe_block_range) h)) [
          | inl within ↦ (
            in_safe_range,
            ground (arith, st.going, st.pool_open, known_latest, current, at, within),
            stays s h in_safe_range (b, current, at) refl refl refl,
          )
          | inr level ↦ (
            went_behind (worked no_work),
            ground (arith, st.going, st.pool_open, known_latest, current, at, near, level),
            stays s h (went_behind (worked no_work)) (b, current, at) refl refl refl,
          )
        ]
      ]
    ]

    join_jobs :
        (h a b : ℕ)
        → h ≤ a
        → a ≤ b
        → jobs_of tools chain_id f.event_ids (logs_between chain h (a - h))
            ++ jobs_of tools chain_id f.event_ids (logs_between chain a (b - a))
          ≡ jobs_of tools chain_id f.event_ids (logs_between chain h (b - h))
    join_jobs h a b low high =
        let whole : a - h + (b - a) ≡ b - h = omega arith in
        sym (
          jobs_of-append tools chain_id f.event_ids (logs_between chain h (a - h))
            (logs_between chain a (b - a)))
        ∙ ap (jobs_of tools chain_id f.event_ids) (
            logs_between-add chain h (a - h) (b - a) a (omega arith)
            ∙ ap (logs_between chain h) whole)

    -- Let a listener have a subscription to logs and keep the blocks that UpdateCurrentBlock hands it,
    -- and let it stand at some height. Let each moment be one in which it goes on and the node answers
    -- from a chain: the questions for the latest height, for the safe block and for logs may fail,
    -- while GetBlock answers with the block of the height up to the latest one in processBatchLogs,
    -- and for the blocks of transactions after some attempts. Then no round ends the loop or the
    -- goroutine; at the end the listener stands at a height not below the first; and the jobs of logs
    -- that all the rounds together enqueue are those of the chain's logs from the first height up to,
    -- not including, that one, each once and in order.
    pub watch-delivers :
        (ms : List Moment) (s : S) (h : ℕ)
        → All Steady ms
        → StandsAt keeper s h
        → (rs : List (Round J)) × (s' : S) × (h' : ℕ) × (watch keeper tools tx_tools hex_to_address
              listener batch_size safe_block_range ms s
            ≡ some (rs, true, s'))
          × StandsAt keeper s' h'
          × (h ≤ h')
          × (rounds_jobs rs ≡ jobs_of tools chain_id f.event_ids (logs_between chain h (h' - h)))
    unfolding watch
    watch-delivers [] s h _ at = ([], s, h, refl, at, omega arith, idle h)
    watch-delivers (m ∷ ms) s h (st, later) (b, current, at) =
        let (r, ran, (goes_on, a, up, stands, jobs)) = round-Delivered m s h b st current at in
        let (rs, s', h', rest, stands', up', jobs') =
          watch-delivers ms (next_state r s) a later stands in
        (
          r ∷ rs,
          s',
          h',
          rw (ran, goes_on, rest) refl,
          stands',
          omega arith,
          ap₂ ◌++◌ jobs jobs' ∙ join_jobs h a h' up up',
        )
