-- ===== src/Tests/Messages.antt =====
-- An engine core that two clients' messages reach.
use lean_vllm.Prelude.{ℕ, true, none, some, List, [], ◌∷◌}
use lean_vllm.OutputProcessor.{Decoded}
use lean_vllm.Engine.{Tokenizer, ModelRunner, SampledTokens, Engine}
use lean_vllm.Engine.Core.{Message, Core, handle_all}
use lean_vllm.Engine.Core.Replies.{Answers, handle_all_lem}
use lean_vllm.KvTransfer.{nothing}
use lean_vllm.Tests.Requests.{sampling}
use lean_vllm.Tests.Schedulers.{start}
use lean_vllm.Tests.Counts.{nothing_counted}

-- Each token is the code point of its text.
abbrev letters : Tokenizer (Unit {0})
letters = record {
  encode = λ text. text;
  fresh = λ ids skip. tt;
  restarted = λ s. s;
  decode_step = λ s token. Decoded.decoded tt (some (token ∷ []));
}

-- A runner that always samples 9 for one row.
abbrev nines : ModelRunner (Unit {0})
nines = record {
  run = λ r seqs. some (tt, SampledTokens.plain (9 ∷ []));
  kv_connector_step = λ r metadata. some (tt, nothing);
  step_kind = λ r. "decode";
}

abbrev idle_engine : Engine (Unit {0}) (Unit {0})
idle_engine = record {
  config = record {
    vocab_size = 10;
    max_model_len = 16;
    kv_transfer = none;
    async_scheduling = true;
    speculative = none;
  };
  next_seq_id = 0;
  runner = tt;
  scheduler = start;
  metrics = nothing_counted;
  output_processor = none;
  in_flight = none;
}

abbrev idle_core : Core (Unit {0}) (Unit {0})
idle_core = record { engine = idle_engine; running = true; sent = [] }

-- An empty prompt, a good one, and one behind a shutdown.
abbrev inbox : List (ℕ × Message)
inbox =
    (1, Message.add_message "empty" [] sampling)
    ∷ (2, Message.add_message "good" (1 ∷ 2 ∷ 3 ∷ []) sampling)
    ∷ (3, Message.shutdown_message)
    ∷ (4, Message.add_message "late" (1 ∷ []) sampling)
    ∷ []

handle_all_example :
    Answers [] inbox
      (handle_all letters nines (λ n. "unnamed") (λ n. "moved") (λ m. []) idle_core inbox)
handle_all_example =
    handle_all_lem letters nines (λ n. "unnamed") (λ n. "moved") (λ m. []) idle_core inbox
