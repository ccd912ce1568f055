-- ===== src/Utils/Filter.antt =====
-- FilterLogs of utils/main.go: the query that the node is asked. MakeTopics, which the code calls with
-- hashes, and the client are parameters; `abi_at` is what an ABI pointer points to, and the maps
-- are iterated in the order of their lists.
use bridge_core.Prelude.{ℕ, String, Option, none, some, List, [], ◌∷◌, ◌++◌}
use bridge_core.Prelude.Map.{lookup, string_eq}
use bridge_core.Types.{Abi, Log}

pub record FilterOpts : Type 0 where
  pub start : ℕ
  pub end : Option ℕ

pub record FilterQuery : Type 0 where
  pub addresses : List ℕ
  pub query_topics : List (List ℕ)
  pub from_block : ℕ
  pub to_block : Option ℕ

abbrev topic_of : String → Abi → List ℕ
topic_of name abi = elim (lookup name abi.events) [ none ↦ [] | some e ↦ e.id ∷ [] ]

module _ (abi_at : ℕ → Abi) where
  abbrev pub method_topics : Abi → List (String × Unit {0}) → List ℕ
  method_topics abi [] = []
  method_topics abi ((name, _) ∷ rest) = topic_of name abi ++ method_topics abi rest

  -- The ids of the events named by the methods of each ABI.
  unfoldable pub event_topics : List (ℕ × List (String × Unit {0})) → List ℕ
  event_topics [] = []
  event_topics ((pointer, methods) ∷ rest) =
      method_topics (abi_at pointer) methods ++ event_topics rest

  abbrev opts_or_new : Option FilterOpts → FilterOpts
  opts_or_new none = record { start = 0; end = none }
  opts_or_new (some opts) = opts

  unfoldable pub filter_query : Option FilterOpts → List ℕ → List (List ℕ) → FilterQuery
  filter_query opts addresses topics = record {
    addresses = addresses;
    query_topics = topics;
    from_block = (opts_or_new opts).start;
    to_block = (opts_or_new opts).end;
  }

  unfoldable pub filter_logs :
      (List (List ℕ) → Option (List (List ℕ)))
      → (FilterQuery → Option (List Log))
      → Option FilterOpts
      → List ℕ
      → List (ℕ × List (String × Unit {0}))
      → Option (List Log)
  unfolding event_topics filter_query
  filter_logs make_topics ask opts addresses methods =
      elim (make_topics (event_topics methods ∷ [])) [
        | none ↦ none
        | some topics ↦ ask (filter_query opts addresses topics)
      ]
