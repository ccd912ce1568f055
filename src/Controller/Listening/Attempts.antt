-- ===== src/Controller/Listening/Attempts.antt =====
-- How startListening gives up.
use bridge_core.Controller.Behind.Blocks.{no_safe_block, worked, Behind}
use bridge_core.Prelude.Outcome.{Outcome, panics, returns}
use bridge_core.Types.{Listener, Block}
use bridge_core.Controller.Behind.Txs.{TxTools}
use bridge_core.Controller.Listening.Watch.{Moment, behind_at}
use bridge_core.Controller.Logs.{LogTools}
use bridge_core.Controller.Listening.Start.{
  reset_init, Started, Ending, closes_listener, start_listening, after_pause, starts_watching,
  caught_up, dies, attempt,
}
use bridge_core.Prelude.{
  ℕ, zero, suc, ◌+◌, Option, none, List, [], ◌∷◌, ◌≤◌, ◌-◌, refl, ◌↔◌, ◌≡◌, ◌<◌, arith, String, ◌≢◌,
  some, ap, leb, ◌∙◌, false,
}

-- n numbers from a on
abbrev pub count_up : ℕ → ℕ → List ℕ
count_up a zero = []
count_up a (suc n) = a ∷ count_up (a + 1) n

module _ {J : Type 0} (tools : LogTools J) (tx_tools : TxTools J) (hex_to_address : String → ℕ)
    (listener : Listener) (batch_size safe_block_range process_within : ℕ) (at : ℕ → Moment)
    (ends : (n h latest : ℕ)
      → behind_at tools tx_tools hex_to_address listener batch_size safe_block_range (at n) h latest
        ≢ none) where
  abbrev run : ℕ → ℕ → ℕ → ℕ → Option (Started J)
  run =
      start_listening tools tx_tools hex_to_address listener batch_size safe_block_range
        process_within at

  -- The pauses, and that the listener is closed exactly when the tries are used up.
  abbrev Tried : ℕ → Started J → Type 0
  Tried left s =
      (n : ℕ) × (n ≤ left)
      × (s.slept ≡ count_up (11 - left) n)
      × ((s.ending ≡ closes_listener) ↔ (n ≡ left))

  once :
      (left init : ℕ) (e : Ending J)
      → 0 < left
      → e ≢ closes_listener
      → Tried left (record { slept = []; init_height = init; ending = e })
  once left init e more other =
      (0, omega arith, refl, ((λ closes. absurd (other closes)), λ used. absurd (omega arith)))

  abbrev Ends : ℕ → Option (Started J) → Type 0
  Ends left o = (s : Started J) × (o ≡ some s) × (Tried left s)

  ended-Ends :
      (left init : ℕ) (e : Ending J)
      → 0 < left
      → e ≢ closes_listener
      → Ends left (some (record { slept = []; init_height = init; ending = e }))
  ended-Ends left init e more other =
      (record { slept = []; init_height = init; ending = e }, refl, once left init e more other)

  behind-Ends :
      (again : ℕ → Option (Started J)) (left init : ℕ) (o : Option (Outcome (Behind J)))
      → 0 < left
      → o ≢ none
      → Ends left (again init)
      → Ends left (
          caught_up tools tx_tools hex_to_address listener batch_size safe_block_range
            process_within at again init o)
  behind-Ends again left init none more there next = absurd (there refl)
  behind-Ends again left init (some panics) more there next =
      ended-Ends left init dies more (λ e. cc)
  behind-Ends again left init (some (returns no_safe_block)) more there next = next
  behind-Ends again left init (some (returns (worked w))) more there next =
      ended-Ends left init (starts_watching (some w)) more (λ e. cc)

  attempt-Ends :
      (again : ℕ → Option (Started J)) (left init calls : ℕ) (latest : Option ℕ) (b : Option Block)
      → (at calls).current_block ≡ b
      → 0 < left
      → ((i : ℕ) → Ends left (again i))
      → Ends left (
          attempt tools tx_tools hex_to_address listener batch_size safe_block_range process_within
            at again init
            (at calls)
            latest)
  attempt-Ends again left init calls none b e more next = next init
  attempt-Ends again left init calls (some latest) none e more next = rw e (
      ended-Ends left (reset_init process_within latest init) (starts_watching none) more
        (λ e'. cc))
  attempt-Ends again left init calls (some latest) (some b) e more next = rw e (
      behind-Ends again left (reset_init process_within latest init)
        (behind_at tools tx_tools hex_to_address listener batch_size safe_block_range (at calls)
          b.height latest)
        more (ends calls b.height latest) (next (reset_init process_within latest init)))

  paused :
      (left seconds : ℕ) (o : Option (Started J))
      → seconds + left ≡ 11
      → 0 < left
      → Ends (left - 1) o
      → Ends left (
          after_pause tools tx_tools hex_to_address listener batch_size safe_block_range
            process_within at seconds o)
  paused left seconds o sum more (s, e, (n, few, slept, last)) =
      let first : 11 - left ≡ seconds = omega arith in
      let rest : 11 - (left - 1) ≡ seconds + 1 = omega arith in
      (
        record s { slept = seconds ∷ s.slept },
        rw e refl,
        (
          suc n,
          omega arith,
          rw first (ap (◌∷◌ seconds) (slept ∙ ap (λ a. count_up a n) rest)),
          ((λ closes. omega (arith, last.0 closes)), λ used. last.1 (omega arith)),
        ),
      )

  run-Ends :
      (fuel left calls try_count init : ℕ)
      → try_count + left ≡ 10
      → left < fuel
      → Ends left (run fuel calls try_count init)
  unfolding start_listening
  run-Ends zero left calls try_count init sum enough = absurd (omega arith)
  run-Ends (suc fuel) zero calls try_count init sum enough =
      let used : try_count ≡ 10 = omega arith in
      rw used (
        record { slept = []; init_height = init; ending = closes_listener },
        refl,
        (0, omega arith, refl, ((λ _. refl), λ _. refl)),
      )
  run-Ends (suc fuel) (suc left) calls try_count init sum enough =
      let more : leb 10 try_count ≡ false = ground arith in
      let less : suc left - 1 ≡ left = omega arith in
      rw more (
        attempt-Ends _ (suc left) init calls (at calls).latest_height (at calls).current_block refl
          (omega arith)
          (λ i.
            paused (suc left) (try_count + 1) (run fuel (calls + 1) (try_count + 1) i) (omega arith)
              (omega arith)
              (rw less
                (run-Ends fuel left (calls + 1) (try_count + 1) i (omega arith) (omega arith)))))

  -- Let no call of processBehindBlock run for ever. Then startListening, from any number of tries up to
  -- ten, reaches its endless loop, dies in a panic, or closes the listener: it pauses for one
  -- second more after each failed try than after the one before, beginning with one more than the
  -- tries so far, and it closes the listener exactly when all ten tries are used up.
  pub start_listening_lem :
      (left try_count fuel calls init : ℕ)
      → try_count + left ≡ 10
      → left < fuel
      → (s : Started J) × (run fuel calls try_count init ≡ some s)
        × (n : ℕ) × (n ≤ left)
        × (s.slept ≡ count_up (try_count + 1) n)
        × ((s.ending ≡ closes_listener) ↔ (n ≡ left))
  start_listening_lem left try_count fuel calls init sum enough =
      let (s, ran, (n, few, slept, last)) = run-Ends fuel left calls try_count init sum enough in
      let first : 11 - left ≡ try_count + 1 = omega arith in
      (s, ran, n, few, slept ∙ ap (λ a. count_up a n) first, last)
