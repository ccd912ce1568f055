-- ===== src/Controller/Behind/Range.antt =====
-- For which heights transactions become jobs.
use bridge_core.Prelude.{
  ℕ, zero, suc, ◌+◌, ◌-◌, ◌*◌, ◌≤◌, ◌<◌, ◌≡◌, ◌≢◌, ◌∙◌, sym, ap, String, Option, none, some, List,
  [], ◌++◌, append_assoc, append-nil, Option-cases, inl, inr, arith, subst,
}
use bridge_core.Types.{Subscribe, Block}
use bridge_core.Controller.Behind.Txs.{TxTools, tx_loop, process_txs}

-- GetBlock answers from a chain, and for each block at the latest at the k-th attempt after the first.
pub record Serves (chain : ℕ → Block) (k : ℕ) (get_block : ℕ → ℕ → Option Block) : Type 0 where
  pub honest : (c h : ℕ) (b : Block) → get_block c h ≡ some b → b ≡ chain h
  pub patient : (c h : ℕ) → (n : ℕ) × (n ≤ k) × (get_block (c + n) h ≢ none)

plus_zero : (c : ℕ) → c ≡ c + 0
plus_zero c = omega arith

plus_suc : (c n : ℕ) → c + suc n ≡ c + 1 + n
plus_suc c n = omega arith

times_le : (a b c : ℕ) → a ≤ b → a * c ≤ b * c
times_le zero b c p = omega arith
times_le (suc a) zero c p = absurd (omega arith)
times_le (suc a) (suc b) c p = let rest = times_le a b c (omega arith) in grind arith

pub times_mono : (a b k fuel : ℕ) → a ≤ b → k + b * (k + 1) + 1 < fuel → k + a * (k + 1) + 1 < fuel
times_mono a b k fuel p enough = let more = times_le a b (k + 1) p in omega arith

module _ {J : Type 0} (tools : TxTools J) (subscriptions : List (String × Subscribe))
    (chain : ℕ → Block) where
  -- The jobs of the transactions of `n` blocks from the height `a` on.
  abbrev pub txs_between : ℕ → ℕ → List J
  txs_between a zero = []
  txs_between a (suc n) =
      process_txs tools subscriptions (chain a).transactions ++ txs_between (a + 1) n

  module _ (k : ℕ) (get_block : ℕ → ℕ → Option Block) (serves : Serves chain k get_block)
      (to : ℕ) where
    tx_loop_past :
        (fuel c h : ℕ)
        → 0 < fuel
        → to < h
        → tx_loop tools get_block subscriptions fuel c h to ≡ some []
    unfolding tx_loop
    tx_loop_past zero c h f p = absurd (omega arith)
    tx_loop_past (suc fuel) c h f p = ground arith

    -- What is left after a block at `h`, if the later blocks are dealt with.
    following :
        (fuel c h r n : ℕ)
        → h + r ≡ to
        → n + r * (k + 1) + 1 < suc fuel
        → ((r' n' : ℕ)
            → h + 1 + r' ≡ to
            → get_block (c + 1 + n') (h + 1) ≢ none
            → n' + r' * (k + 1) + 1 < fuel
            → tx_loop tools get_block subscriptions fuel (c + 1) (h + 1) to
              ≡ some (txs_between (h + 1) (suc r')))
        → tx_loop tools get_block subscriptions fuel (c + 1) (h + 1) to
          ≡ some (txs_between (h + 1) r)
    following fuel c h zero n e f later =
        tx_loop_past fuel (c + 1) (h + 1) (omega arith) (omega arith)
    following fuel c h (suc r) n e f later =
        let (n', few, some_time) = serves.patient (c + 1) (h + 1) in
        later r n' (omega arith) some_time (grind arith)

    -- One attempt for the block at `h`.
    attempt :
        (fuel c h r n : ℕ)
        → h + r ≡ to
        → get_block (c + n) h ≢ none
        → n + r * (k + 1) + 1 < suc fuel
        → ((n' : ℕ)
            → h + r ≡ to
            → get_block (c + 1 + n') h ≢ none
            → n' + r * (k + 1) + 1 < fuel
            → tx_loop tools get_block subscriptions fuel (c + 1) h to
              ≡ some (txs_between h (suc r)))
        → tx_loop tools get_block subscriptions fuel (c + 1) (h + 1) to
          ≡ some (txs_between (h + 1) r)
        → tx_loop tools get_block subscriptions (suc fuel) c h to ≡ some (txs_between h (suc r))
    unfolding tx_loop
    attempt fuel c h r zero e g f again rest = elim (Option-cases (get_block c h)) [
      | inl missing ↦ absurd (g (subst (λ m. get_block m h ≡ none) (plus_zero c) missing))
      | inr (b, got) ↦ ground (arith, got, serves.honest c h b got, rest)
    ]
    attempt fuel c h r (suc n) e g f again rest = elim (Option-cases (get_block c h)) [
      | inl missing ↦
          ground (arith, missing, again n e (subst (λ m. get_block m h ≢ none) (plus_suc c n) g))
      | inr (b, got) ↦ ground (arith, got, serves.honest c h b got, rest)
    ]

    -- With `n` more attempts for the block at `h` and `r` blocks after it.
    tx_loop_block :
        (fuel c h r n : ℕ)
        → h + r ≡ to
        → get_block (c + n) h ≢ none
        → n + r * (k + 1) + 1 < fuel
        → tx_loop tools get_block subscriptions fuel c h to ≡ some (txs_between h (suc r))
    tx_loop_block zero c h r n e g f = absurd (omega arith)
    tx_loop_block (suc fuel) c h r n e g f =
        attempt fuel c h r n e g f (tx_loop_block fuel (c + 1) h r)
          (following fuel c h r n e f (tx_loop_block fuel (c + 1) (h + 1)))

    -- Let GetBlock answer from a chain, for each block at the latest at the k-th attempt after the
    -- first. Then the loop over the blocks, from a height not above its last one and with fuel for
    -- k + 1 attempts for each block, ends, and its jobs are those of the transactions of all these
    -- blocks, the last one included, each block once and in order.
    pub tx_loop_lem :
        (fuel h : ℕ)
        → h ≤ to
        → k + (to - h) * (k + 1) + 1 < fuel
        → tx_loop tools get_block subscriptions fuel 0 h to ≡ some (txs_between h (suc (to - h)))
    tx_loop_lem fuel h ordered enough =
        let (n, few, some_time) = serves.patient 0 h in
        tx_loop_block fuel 0 h (to - h) n (omega arith) some_time (grind arith)

  txs_between_last :
      (a n : ℕ)
      → txs_between a (suc n)
        ≡ txs_between a n ++ process_txs tools subscriptions (chain (a + n)).transactions
  txs_between_last a zero = rw (sym (plus_zero a)) (append-nil _)
  txs_between_last a (suc n) =
      let here : a + 1 + n ≡ a + suc n = omega arith in
      ap (λ js. process_txs tools subscriptions (chain a).transactions ++ js)
        (txs_between_last (a + 1) n)
      ∙ sym (
          append_assoc (process_txs tools subscriptions (chain a).transactions)
            (txs_between (a + 1) n)
            (process_txs tools subscriptions (chain (a + 1 + n)).transactions))
      ∙ ap (λ h. txs_between a (suc n) ++ process_txs tools subscriptions (chain h).transactions)
          here

  -- Let GetBlock answer from a chain as above. When one call of the loop ends at a height and the next
  -- one starts at it, both make the jobs of the transactions of the block at that height.
  pub tx_loop-twice :
      (k : ℕ) (get_block next_get_block : ℕ → ℕ → Option Block)
      → Serves chain k get_block
      → Serves chain k next_get_block
      → (fuel from middle to : ℕ) → from ≤ middle
      → middle ≤ to
      → k + (to - from) * (k + 1) + 1 < fuel
      → (js ks : List J) × (tx_loop tools get_block subscriptions fuel 0 from middle
          ≡ some (js ++ process_txs tools subscriptions (chain middle).transactions))
        × (tx_loop tools next_get_block subscriptions fuel 0 middle to
            ≡ some (process_txs tools subscriptions (chain middle).transactions ++ ks))
  tx_loop-twice k get_block next_get_block serves serves' fuel from middle to low high enough =
      let last : from + (middle - from) ≡ middle = omega arith in
      (
        txs_between from (middle - from),
        txs_between (middle + 1) (to - middle),
        tx_loop_lem k get_block serves middle fuel from low
              (times_mono (middle - from) (to - from) k fuel (omega arith) enough)
            ∙ ap some (
                txs_between_last from (middle - from)
                ∙ ap
                    (λ h.
                      txs_between from (middle - from)
                      ++ process_txs tools subscriptions (chain h).transactions)
                    last),
        tx_loop_lem k next_get_block serves' to fuel middle high
            (times_mono (to - middle) (to - from) k fuel (omega arith) enough),
      )
