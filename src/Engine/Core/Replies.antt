-- ===== src/Engine/Core/Replies.antt =====
-- What the client of the engine core (lean_vllm/engine/core.py) can rely on: each add that is read
-- is answered, in the order of the adds.
use mathlib.Core.List.{append-nil, append_assoc}
use lean_vllm.Prelude.{
  ℕ, String, ◌≡◌, refl, sym, ap, ◌∙◌, inl, inr, Bool, true, false, Option, none, some, List, [],
  ◌∷◌, ◌++◌, Bool-cases,
}
use lean_vllm.Metrics.{Metrics}
use lean_vllm.Engine.{Tokenizer, ModelRunner, Engine, Answer}
use lean_vllm.Engine.Core.{
  Message, Reply, Core, Outcome, answer_add, after_abort, and_then, error_of, handle, handle_all,
}

-- The requests that messages ask to add.
unfoldable pub asked : List (ℕ × Message) → List String
asked [] = []
asked ((now, Message.add_message request_id ids params) ∷ ms) = request_id ∷ asked ms
asked ((now, Message.abort_message request_id reason) ∷ ms) = asked ms
asked ((now, Message.metrics_message call_id) ∷ ms) = asked ms
asked ((now, Message.shutdown_message) ∷ ms) = asked ms
asked ((now, Message.unknown_message) ∷ ms) = asked ms

-- The requests that replies answer.
unfoldable pub answered : List Reply → List String
answered [] = []
answered (Reply.added request_id error ∷ replies) = request_id ∷ answered replies
answered (Reply.outputs os ∷ replies) = answered replies
answered (Reply.metrics_text call_id text ∷ replies) = answered replies
answered (Reply.dead ∷ replies) = answered replies

answered-append : (xs ys : List Reply) → answered (xs ++ ys) ≡ answered xs ++ answered ys
unfolding answered
answered-append [] ys = refl
answered-append (Reply.added request_id error ∷ xs) ys = ap (◌∷◌ request_id) (answered-append xs ys)
answered-append (Reply.outputs os ∷ xs) ys = answered-append xs ys
answered-append (Reply.metrics_text call_id text ∷ xs) ys = answered-append xs ys
answered-append (Reply.dead ∷ xs) ys = answered-append xs ys

asked-append : (xs ys : List (ℕ × Message)) → asked (xs ++ ys) ≡ asked xs ++ asked ys
unfolding asked
asked-append [] ys = refl
asked-append ((now, Message.add_message request_id ids params) ∷ xs) ys =
    ap (◌∷◌ request_id) (asked-append xs ys)
asked-append ((now, Message.abort_message request_id reason) ∷ xs) ys = asked-append xs ys
asked-append ((now, Message.metrics_message call_id) ∷ xs) ys = asked-append xs ys
asked-append ((now, Message.shutdown_message) ∷ xs) ys = asked-append xs ys
asked-append ((now, Message.unknown_message) ∷ xs) ys = asked-append xs ys

module _ {S : Type 0} {R : Type 0} where
  unfoldable pub sent_of : Outcome S R → List Reply
  sent_of (Outcome.served c) = c.sent
  sent_of (Outcome.raised sent) = sent

  unfoldable pub goes_on : Outcome S R → Bool
  goes_on (Outcome.served c) = c.running
  goes_on (Outcome.raised sent) = false

  -- The messages from the front that an outcome has read, whose adds are answered in order; it has
  -- left none if the core goes on.
  pub record Answers (sent : List Reply) (ms : List (ℕ × Message)) (o : Outcome S R) : Type 0 where
    pub seen : List (ℕ × Message)
    pub left : List (ℕ × Message)
    pub split : ms ≡ seen ++ left
    pub replies : answered (sent_of o) ≡ answered sent ++ asked seen
    pub all : goes_on o ≡ true → left ≡ []

  answered-add :
      (c : Core S R) (request_id : String) (r : Option (Engine S R × Answer))
      → answered ((answer_add c request_id r).sent) ≡ answered c.sent ++ request_id ∷ []
  unfolding answered
  answered-add c request_id none = answered-append c.sent (Reply.added request_id _ ∷ [])
  answered-add c request_id (some (e, answer)) =
      answered-append c.sent (Reply.added request_id (error_of answer) ∷ [])

  answered-abort :
      (c : Core S R) (r : Option (Engine S R × Bool))
      → answered (sent_of (after_abort c r)) ≡ answered c.sent
  unfolding sent_of
  answered-abort c none = refl
  answered-abort c (some r) = refl

  unread :
      (c : Core S R) (ms : List (ℕ × Message))
      → c.running ≡ false
      → Answers c.sent ms (Outcome.served c)
  unfolding sent_of goes_on asked
  unread c ms off = record {
    seen = [];
    left = ms;
    split = refl;
    replies = sym (append-nil _);
    all = λ h. cc;
  }

  -- A message that raises leaves the others unread.
  read_first :
      (c : Core S R) (m : ℕ × Message) (ms : List (ℕ × Message)) (o : Outcome S R)
      (f : Core S R → Outcome S R)
      → answered (sent_of o) ≡ answered c.sent ++ asked (m ∷ [])
      → ((c' : Core S R) → Answers c'.sent ms (f c'))
      → Answers c.sent (m ∷ ms) (and_then o f)
  unfolding sent_of goes_on
  read_first c m ms (Outcome.raised sent) f h rest = record {
    seen = m ∷ [];
    left = ms;
    split = refl;
    replies = h;
    all = λ g. cc;
  }
  read_first c m ms (Outcome.served c') f h rest =
      let r = rest c' in
      record {
        seen = m ∷ r.seen;
        left = r.left;
        split = ap (◌∷◌ m) r.split;
        replies =
            r.replies
            ∙ ap (λ xs. xs ++ asked r.seen) h
            ∙ append_assoc (answered c.sent) (asked (m ∷ [])) (asked r.seen)
            ∙ ap (λ xs. answered c.sent ++ xs) (sym (asked-append (m ∷ []) r.seen));
        all = r.all;
      }

module _ {S : Type 0} {R : Type 0} (tokenizer : Tokenizer S) (model_runner : ModelRunner R)
    (default_name : ℕ → String) (transfer_name : ℕ → String) (render : Metrics → List ℕ) where
  handle-answers :
      (c : Core S R) (now : ℕ) (m : Message)
      → answered (sent_of (handle tokenizer model_runner default_name transfer_name render c now m))
        ≡ answered c.sent ++ asked ((now, m) ∷ [])
  unfolding handle sent_of answered asked
  handle-answers c now (Message.add_message request_id ids params) = answered-add c request_id _
  handle-answers c now (Message.abort_message request_id reason) =
      answered-abort c _ ∙ sym (append-nil _)
  handle-answers c now (Message.metrics_message call_id) =
      answered-append c.sent (Reply.metrics_text call_id _ ∷ [])
  handle-answers c now Message.shutdown_message = sym (append-nil _)
  handle-answers c now Message.unknown_message = sym (append-nil _)

  -- The loop over the messages that are there reads them from the front: the adds that it reads
  -- are answered one by one in their order, after all that was answered before, whether or not a
  -- message raises, and a core that goes on has read them all.
  pub handle_all_lem :
      (c : Core S R) (ms : List (ℕ × Message))
      → Answers c.sent ms (handle_all tokenizer model_runner default_name transfer_name render c ms)
  unfolding handle_all sent_of goes_on asked
  handle_all_lem c [] = record {
    seen = [];
    left = [];
    split = refl;
    replies = sym (append-nil _);
    all = λ h. refl;
  }
  handle_all_lem c ((now, m) ∷ ms) = elim (Bool-cases c.running) [
    | inl on ↦ simp on (
        read_first c (now, m) ms
          (handle tokenizer model_runner default_name transfer_name render c now m)
          (λ c'. handle_all tokenizer model_runner default_name transfer_name render c' ms)
          (handle-answers c now m) (λ c'. handle_all_lem c' ms))
    | inr off ↦ simp off (unread c ((now, m) ∷ ms) off)
  ]
