-- ===== src/Controller/Behind/Txs.antt =====
-- processTxs: the jobs of a block's transactions, and the loop of processBehindBlock over blocks.
use bridge_core.Prelude.{
  ℕ, zero, suc, ◌+◌, String, Bool, true, false, ◌||◌, Option, none, some, List, [], ◌∷◌, ◌++◌,
  length, take, drop, ltb, leb, ◌==◌, if◌then◌else◌, not,
}
use bridge_core.Types.{Subscribe, Transaction, Block, tx_event}

-- GetReceipt (the status, `none` for an error), Bytes2Hex and GetListenHandleJob.
pub record TxTools (J : Type 0) : Type 0 where
  pub get_receipt : ℕ → Option ℕ
  pub bytes_hex : List ℕ → String
  pub get_listen_handle_job : String → Transaction → String → List ℕ → Option J

abbrev is_none : {A : Type 0} → Option A → Bool
is_none none = true
is_none (some a) = false

-- `err != nil || receipt.Status != 1`
abbrev pub failed_receipt : Option ℕ → Bool
failed_receipt none = true
failed_receipt (some status) = not (status == 1)

module _ {J : Type 0} (tools : TxTools J) where
  abbrev push : Option J → List J → List J
  push none js = js
  push (some j) js = j ∷ js

  -- The loop over the subscriptions for one transaction.
  unfoldable pub tx_jobs : Transaction → List (String × Subscribe) → List J
  tx_jobs tx [] = []
  tx_jobs tx ((name, s) ∷ rest) =
      let others = tx_jobs tx rest in
      if is_none s.handler || not (s.type_of == tx_event)
      then others
      else push
          (tools.get_listen_handle_job name tx (tools.bytes_hex (take 4 tx.payload))
            (drop 4 tx.payload))
          others

  unfoldable pub process_txs : List (String × Subscribe) → List Transaction → List J
  unfolding tx_jobs
  process_txs subscriptions [] = []
  process_txs subscriptions (tx ∷ txs) =
      (if ltb (length tx.payload) 4
        then []
        else (if failed_receipt (tools.get_receipt tx.hash) then [] else tx_jobs tx subscriptions))
      ++ process_txs subscriptions txs

  abbrev pub join : List J → Option (List J) → Option (List J)
  join js none = none
  join js (some ks) = some (js ++ ks)

  -- for height <= processedToHeight { ... }, on fuel; a failed GetBlock is asked again.
  unfoldable pub tx_loop :
      (ℕ → ℕ → Option Block) → List (String × Subscribe) → ℕ → ℕ → ℕ → ℕ → Option (List J)
  unfolding process_txs
  tx_loop get_block subscriptions zero calls height to = none
  tx_loop get_block subscriptions (suc fuel) calls height to =
      let round : Option (List J) = elim (get_block calls height) [
        | none ↦ tx_loop get_block subscriptions fuel (calls + 1) height to
        | some block ↦
            join (process_txs subscriptions block.transactions)
              (tx_loop get_block subscriptions fuel (calls + 1) (height + 1) to)
      ] in
      if leb height to then round else some []
