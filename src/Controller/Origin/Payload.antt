-- ===== src/Controller/Origin/Payload.antt =====
-- What UnpackLog makes of the data of a job that processBatchLogs made of a log.
use bridge_core.Prelude.{
  ℕ, ◌≡◌, refl, String, some, List, [], ◌∷◌, arith, ==_iff, Option-cases, inr,
}
use bridge_core.Prelude.Map.{lookup}
use bridge_core.Prelude.Outcome.{returns}
use bridge_core.Types.{Abi, Subscribe, Log, event_id}
use bridge_core.Controller.Filters.{EventMapKey, key_eq, Filters, no_filters, add_subscriptions}
use bridge_core.Controller.Origin.{Origin, add_subscriptions-Origin, inl}
use bridge_core.Controller.Logs.{LogTools, log_job}
use bridge_core.Controller.Batch.Jobs.{job_of}
use bridge_core.Utils.Arguments.{Decoders, unpack_log, unpack_topics, unpack_data}

module _ {J V O : Type 0} (tools : LogTools J) (decoders : Decoders V O) where
  -- The job is one that the listener made, under a subscription's name, of the log's data; and with
  -- the subscription's ABI and event, UnpackLog gets past the signature of that data.
  pub record Unpacks (hex_to_address : String → ℕ) (ss : List (String × Subscribe)) (chain_id : ℕ)
      (event_ids : List (EventMapKey × String)) (l : Log) (j : J) : Type 0 where
    pub topic : ℕ
    pub topics : List ℕ
    pub name : String
    pub payload : List ℕ
    pub its_topics : l.topics ≡ topic ∷ topics
    pub origin : Origin hex_to_address ss (record { topic = topic; contract = l.address }) name
    pub made : log_job tools chain_id event_ids topic l name payload ≡ some j
    pub unpacked :
        (out : O)
        → unpack_log decoders origin.is_key.abi out origin.is_key.handler.name payload
          ≡ returns (
              unpack_topics decoders origin.is_key.abi origin.is_key.handler.name topics
                (unpack_data decoders origin.is_key.abi out origin.is_key.handler.name l.log_data))

  past_signature :
      (abi : Abi) (event : String) (l : Log) (topic : ℕ) (topics payload : List ℕ) (out : O)
      → decoders.unmarshal_log payload ≡ some l
      → l.topics ≡ topic ∷ topics
      → event_id event abi ≡ topic
      → unpack_log decoders abi out event payload
        ≡ returns (
            unpack_topics decoders abi event topics (unpack_data decoders abi out event l.log_data))
  unfolding unpack_log
  past_signature abi event l topic topics payload out decoded its_topics its_event =
      ground (arith, decoded, its_topics, its_event, ==_iff topic (event_id event abi))

  of_entry :
      (hex_to_address : String → ℕ) (ss : List (String × Subscribe)) (f : Filters) (chain_id : ℕ)
      (l : Log) (j : J)
      → add_subscriptions hex_to_address ss no_filters ≡ returns f
      → ((payload : List ℕ)
          → tools.marshal l ≡ some payload
          → decoders.unmarshal_log payload ≡ some l)
      → (ts : List ℕ) → l.topics ≡ ts
      → job_of tools chain_id f.event_ids l ≡ some j
      → Unpacks hex_to_address ss chain_id f.event_ids l j
  of_entry hex ss f chain_id l j added round [] its job = ground (arith, its, job)
  of_entry hex ss f chain_id l j added round (t ∷ ts) its job =
      elim (Option-cases (lookup (record { topic = t; contract = l.address }) f.event_ids)) [
        | inl no_entry ↦ ground (arith, its, job, no_entry)
        | inr (name, entry) ↦ elim (Option-cases (tools.marshal l)) [
          | inl unmarshallable ↦ ground (arith, its, job, entry, unmarshallable)
          | inr (payload, coded) ↦
              let o =
                add_subscriptions-Origin hex ss f added (record { topic = t; contract = l.address })
                  name entry in
              record {
                topic = t;
                topics = ts;
                name = name;
                payload = payload;
                its_topics = its;
                origin = o;
                made = ground (arith, its, job, entry, coded);
                unpacked = λ out.
                    past_signature o.is_key.abi o.is_key.handler.name l t ts payload out
                      (round payload coded) its o.is_key.its_topic;
              }
        ]
      ]

  -- Let json.Unmarshal read back what json.Marshal wrote of the log. When processBatchLogs, with the filters of a
  -- listener's subscriptions, makes a job of the log, then the job's data comes from a subscription
  -- of the job's name with the log's contract, and UnpackLog, called with that data and the ABI and
  -- the event of the subscription's handler, neither panics nor finds another signature, but decodes
  -- the log's data and then its other topics.
  pub job_of-unpack_log :
      (hex_to_address : String → ℕ) (ss : List (String × Subscribe)) (f : Filters) (chain_id : ℕ)
      (l : Log) (j : J)
      → add_subscriptions hex_to_address ss no_filters ≡ returns f
      → ((payload : List ℕ)
          → tools.marshal l ≡ some payload
          → decoders.unmarshal_log payload ≡ some l)
      → job_of tools chain_id f.event_ids l ≡ some j
      → Unpacks hex_to_address ss chain_id f.event_ids l j
  job_of-unpack_log hex ss f chain_id l j added round job =
      of_entry hex ss f chain_id l j added round l.topics refl job
