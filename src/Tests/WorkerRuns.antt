-- ===== src/Tests/WorkerRuns.antt =====
-- A BaseJob in a worker, and a signature of typed data.
use bridge_core.Prelude.{
  ℕ, ◌≡◌, ◌⊎◌, ◌≤◌, ◌+◌, ◌%◌, refl, String, Bool, true, Option, some, List, [], ◌∷◌, ◌++◌, length,
  get_elem?, take, drop, suc, zero, false,
}
use bridge_core.Prelude.Outcome.{returns, panics}
use bridge_core.Types.{Transaction}
use bridge_core.Job.Base.{BaseJob, Codec, process}
use bridge_core.Job.Handler.{base_handler}
use bridge_core.Pool.State.{Pool, Worker, processing, registering, exited}
use bridge_core.Pool.Workers.{start_worker, complete, crash, goto, succeeds}
use bridge_core.Pool.Channel.{make_chan}
use bridge_core.Models.{Event}
use bridge_core.Pool.Processing.{process_job, base_work}
use bridge_core.Pool.Processing.OfBase.{start_worker-base}
use bridge_core.Utils.Transactor.{SignMethod}
use bridge_core.Utils.Sign.{TypedData, sign_typed_data}
use bridge_core.Utils.Sign.Typed.{sign_typed_data_lem}
use bridge_core.Tests.Samples.{job_numbered, idle_pool}
use bridge_core.Tests.Batches.{watcher}

abbrev texts : Codec
texts = record {
  encode_big = λ n. "0x7e4";
  decode_big = λ s. some 2020;
  bytes_to_hex = λ bs. "";
  hex_to_bytes = λ s. [];
  hash_hex = λ n. "0x4d";
}

abbrev deposit : BaseJob
deposit = record (job_numbered 4) { subscription_name = "Deposits"; listener = watcher }

-- The world is the names of the events that were saved; the event store answers with an error.
abbrev refusing : Event → List String → List String × Bool
refusing event w = (w, false)

abbrev accepting : Event → List String → List String × Bool
accepting event w = (event.event_name ∷ w, true)

-- The callbacks are noted by the name of their subscription.
abbrev calling :
    BaseJob → Unit {0} → String → Transaction → Option (List ℕ) → List String → List String × Bool
calling e listeners name tx val w = (name ∷ w, true)

-- The event is saved before the callbacks go out, and an error of the event store is no error of
-- the job.
deposit_runs :
    (process_job (base_work texts 60 accepting calling) tt deposit []
      ≡ ("Deposits" ∷ "Deposited" ∷ [], succeeds))
    × (process_job (base_work texts 60 refusing calling) tt deposit []
        ≡ ("Deposits" ∷ [], succeeds))
unfolding process_job process
deposit_runs = (refl, refl)

-- A worker that took the job from its channel.
abbrev busy : Worker BaseJob
busy = record { id = 0; worker_chan = make_chan 2; pc = processing deposit }

abbrev busy_pool : Pool BaseJob
busy_pool = record idle_pool { workers = busy ∷ [] }

start_worker-base_example :
    (start_worker base_handler
        (process_job (base_work texts 60 refusing calling) tt deposit []).1
        true
        0
        busy_pool
      ≡ some (complete deposit (goto busy_pool 0 busy registering)))
    ⊎ (start_worker base_handler
          (process_job (base_work texts 60 refusing calling) tt deposit []).1
          true
          0
          busy_pool
        ≡ some (crash deposit (goto busy_pool 0 busy exited)))
start_worker-base_example =
    start_worker-base texts 60 refusing calling tt true busy_pool 0 busy deposit [] refl refl

-- A method whose signatures have 65 bytes, the last of which is V.
abbrev zeros : ℕ → List ℕ
zeros zero = []
zeros (suc n) = 0 ∷ zeros n

abbrev with_v : ℕ → List ℕ
with_v v = zeros 64 ++ v ∷ []

abbrev signing : SignMethod
signing = record { sign = λ raw kind. some (with_v 1); get_address = 9 }

abbrev typed : TypedData
typed = record { hash_domain = some (5 ∷ []); hash_message = some (6 ∷ []) }

signed_typed : sign_typed_data typed (some signing) ≡ returns (some (with_v 28))
unfolding sign_typed_data
signed_typed = refl

sign_typed_data_lem_example :
    ((length (with_v 1) ≤ 64) × (sign_typed_data typed (some signing) ≡ panics))
    ⊎ ((v : ℕ) × (signature' : List ℕ) × (get_elem? (with_v 1) 64 ≡ some v)
        × (sign_typed_data typed (some signing) ≡ returns (some signature'))
        × (get_elem? signature' 64 ≡ some ((v + 27) % 256))
        × (take 64 signature' ≡ take 64 (with_v 1))
        × (drop 65 signature' ≡ drop 65 (with_v 1)))
sign_typed_data_lem_example =
    sign_typed_data_lem typed signing (5 ∷ []) (6 ∷ []) (with_v 1) refl refl refl
