-- ===== src/Tests/UtilsRuns.antt =====
-- Transactions that are sent and signed, and a signature of the KMS.
use bridge_core.Prelude.{ℕ, ◌+◌, ◌≡◌, refl, some, List, [], ◌∷◌, if◌then◌else◌, ◌==◌}
use bridge_core.Utils.Transactor.{
  Answer, ok, SignMethod, TxLib, TransactOpts, bumped, sign_with, send_contract_transaction,
  new_keyed_transactor,
}

abbrev key : SignMethod
key = record { sign = λ raw kind. some (7 ∷ raw); get_address = 9 }

-- A transaction is its gas.
abbrev plain : TxLib ℕ
plain = record {
  rlp_encode = λ gas chain_id. some (gas ∷ chain_id ∷ []);
  with_signature = λ chain_id gas s. some (gas + 1);
  gas_of = λ gas. gas;
}

-- The world is the list of the gas limits that were sent; for a limit of 0 it is estimated.
abbrev limit_of : ℕ → ℕ
limit_of n = if n == 0 then 30000 else n

abbrev call : TransactOpts ℕ → List ℕ → List ℕ × Answer ℕ
call opts sent =
    if opts.no_send then (sent, ok 21000) else (limit_of opts.gas_limit ∷ sent, ok 21000)

sent_run : (send_contract_transaction plain call (some key) 2020 120 []).0 ≡ 25200 ∷ []
unfolding send_contract_transaction new_keyed_transactor bumped
sent_run = refl

-- Without a ratio the gas is an estimate.
unbumped_run : (send_contract_transaction plain call (some key) 2020 0 []).0 ≡ 30000 ∷ []
unfolding send_contract_transaction new_keyed_transactor bumped
unbumped_run = refl

signed_run : sign_with plain key 2020 9 50 ≡ ok 51
unfolding sign_with
signed_run = refl
