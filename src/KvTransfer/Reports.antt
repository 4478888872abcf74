-- ===== src/KvTransfer/Reports.antt =====
-- Counting the ranks' reports: a transfer is over once every rank has reported it.
use lean_vllm.Prelude.{
  Bool-cases, subst, sym, ap, ◌∙◌, ◌||◌, ◌&&◌, ℕ, ◌+◌, ◌≤◌, ◌<◌, ◌≡◌, refl, List, [], ◌∷◌, arith,
  ◌==◌, if◌then◌else◌, inl, inr,
}
use lean_vllm.Prelude.Counting.{count, contains}
use lean_vllm.Prelude.Dict
use lean_vllm.KvTransfer.{tally, report, gather_sent, KvOutputAggregator, KvConnectorOutput}

tally-report :
    (w id other : ℕ) (counts : List (ℕ × ℕ))
    → tally other (report w id counts).0 ≡ (
        if id == other
        then (if tally id counts + 1 == w then 0 else tally id counts + 1)
        else tally other counts)
unfolding tally report
tally-report w id other counts =
    ground
      (arith, Dict.get-put id other (tally id counts + 1) counts, Dict.get-without id other counts)

report-done :
    (w id : ℕ) (counts : List (ℕ × ℕ)) → (report w id counts).1 ≡ (tally id counts + 1 == w)
unfolding report
report-done w id counts = ground arith

-- One round of gather_sent.
module _ (x : ℕ) (ids : List ℕ) (a : KvOutputAggregator) (r : KvConnectorOutput) where
  record Round : Type 0 where
    next : KvOutputAggregator
    result : KvConnectorOutput
    returns : gather_sent (x ∷ ids) a r ≡ gather_sent ids next result
    same_size : next.world_size ≡ a.world_size
    counts : next.sent ≡ (report a.world_size x a.sent).0
    sent :
        (id : ℕ)
        → contains id result.finished_sending
          ≡ (contains id r.finished_sending || x == id && (tally x a.sent + 1 == a.world_size))

  round : Round
  unfolding gather_sent
  round = elim (Bool-cases ((report a.world_size x a.sent).1)) [
    | inr waits ↦ record {
      next = record a { sent = (report a.world_size x a.sent).0 };
      result = r;
      returns = simp waits;
      same_size = refl;
      counts = refl;
      sent = λ id. ground (arith, report-done a.world_size x a.sent);
    }
    | inl all ↦ elim (Bool-cases (contains x a.expired)) [
      | inl late ↦ record {
        next = record a {
          sent = (report a.world_size x a.sent).0;
          expired = Dict.discard x a.expired;
        };
        result = record r {
          finished_sending = Dict.add x r.finished_sending;
          expired_sending = Dict.add x r.expired_sending;
        };
        returns = simp (all, late);
        same_size = refl;
        counts = refl;
        sent = λ id.
            ground
              (arith, report-done a.world_size x a.sent, Dict.contains-add x id r.finished_sending);
      }
      | inr timely ↦ record {
        next = record a { sent = (report a.world_size x a.sent).0 };
        result = record r { finished_sending = Dict.add x r.finished_sending };
        returns = simp (all, timely);
        same_size = refl;
        counts = refl;
        sent = λ id.
            ground
              (arith, report-done a.world_size x a.sent, Dict.contains-add x id r.finished_sending);
      }
    ]
  ]

-- A request's counter and its report, after the reports of some ids.
abbrev Counts :
    ℕ
    → List ℕ
    → KvOutputAggregator
    → KvConnectorOutput
    → KvOutputAggregator × KvConnectorOutput
    → Type 0
Counts id ids a r after =
    (tally id after.0.sent ≡ (
      if tally id a.sent + count id ids == a.world_size then 0 else tally id a.sent + count id ids))
    × (contains id after.1.finished_sending
        ≡ (contains id r.finished_sending || (tally id a.sent + count id ids == a.world_size)))

-- For a request that the ranks have not all reported, nor more often than there are ranks: the loop
-- over the reports adds up its counter, and if that reaches the number of ranks, the request is
-- among the finished ones and its counter starts again at 0; otherwise it joins them not.
pub gather_sent_lem :
    (ids : List ℕ) (id : ℕ) (a : KvOutputAggregator) (r : KvConnectorOutput)
    → tally id a.sent < a.world_size
    → tally id a.sent + count id ids ≤ a.world_size
    → (tally id (gather_sent ids a r).0.sent ≡ (
        if tally id a.sent + count id ids == a.world_size
        then 0
        else tally id a.sent + count id ids))
      × (contains id (gather_sent ids a r).1.finished_sending
          ≡ (contains id r.finished_sending || (tally id a.sent + count id ids == a.world_size)))
unfolding gather_sent
gather_sent_lem [] id a r p h = (ground arith, ground arith)
gather_sent_lem (x ∷ ids) id a r p h =
    let k = round x ids a r in
    let t : tally id k.next.sent ≡ (
        if x == id
        then (if tally x a.sent + 1 == a.world_size then 0 else tally x a.sent + 1)
        else tally id a.sent) =
      ap (tally id) k.counts ∙ tally-report a.world_size x id a.sent in
    let same : x ≡ id → tally x a.sent ≡ tally id a.sent = λ e. ap (λ y. tally y a.sent) e in
    let (n, f) =
      gather_sent_lem ids id k.next k.result (ground (arith, t, same, k.same_size))
        (ground (arith, t, same, k.same_size)) in
    let more = k.sent id in
    subst (Counts id (x ∷ ids) a r) (sym k.returns)
      (n ∙ ground (arith, t, same, k.same_size), f ∙ ground (arith, t, same, k.same_size, more))
