-- ===== src/Proxy.antt =====
-- lean_vllm/entrypoints/disagg_proxy.py: the proxy in front of prefill and decode servers. A JSON
-- object is a dict of values of any type J; the servers are a function from a request to its
-- response, and HTTP itself is not part of this.
pub mod Turns
use lean_vllm.Prelude.{
  ℕ, String, Bool, true, false, not, ◌||◌, Option, none, some, List, [], ◌∷◌, ◌++◌, ◌==◌,
  if◌then◌else◌,
}
use lean_vllm.Prelude.Names

-- `next(itertools.cycle(urls))`: the first in turn, and the turns after it; `none` is the
-- StopIteration of no servers.
unfoldable pub next_turn {ℓ} : {A : Type ℓ} → List A → Option (A × List A)
next_turn [] = none
next_turn (url ∷ urls) = some (url, urls ++ url ∷ [])

-- The values that the proxy writes and reads.
pub record Json (J : Type 0) : Type 0 where
  pub number : ℕ → J
  pub flag : Bool → J
  pub object : List (String × J) → J
  pub truthy : J → Bool

pub record Response (J : Type 0) : Type 0 where
  pub status : ℕ
  pub content : List (String × J)

-- The answer to the client: a server's response as a whole, or its stream.
pub data ProxyReply (J : Type 0) : Type 0 where
  relayed streamed : Response J → ProxyReply J

-- The answer to a health check: it is the first server that is not well, or all are.
unfoldable pub first_unhealthy : (String → Bool) → List String → Option String
first_unhealthy healthy [] = none
first_unhealthy healthy (url ∷ urls) =
    let rest = first_unhealthy healthy urls in if healthy url then rest else some url

module _ {J : Type 0} (json : Json J)
    (post : String → String → List (String × J) → Response J) where
  -- `body.get(key)`, which counts if it is true.
  abbrev asked : Option J → Option J
  asked none = none
  asked (some value) = if json.truthy value then some value else none

  abbrev is_asked : Option J → Bool
  is_asked none = false
  is_asked (some value) = json.truthy value

  -- The body for the prefill server.
  unfoldable pub prefill_body : List (String × J) → List (String × J)
  prefill_body body = Names.without "stream_options" (
      Names.put "kv_transfer_params" (json.object (("do_remote_decode", json.flag true) ∷ []))
        (Names.put "stream" (json.flag false) (Names.put "max_tokens" (json.number 1) body)))

  -- The body for the decode server, with the parameters that the prefill server gave, if any.
  unfoldable pub decode_body : List (String × J) → Option J → List (String × J)
  decode_body body none = body
  decode_body body (some params) = Names.put "kv_transfer_params" params body

  abbrev answer : List (String × J) → Response J → ProxyReply J
  answer body upstream =
      if not (upstream.status == 200) || not (is_asked (Names.get "stream" body))
      then relayed upstream
      else streamed upstream

  -- _disaggregate
  unfoldable pub disaggregate : String → String → String → List (String × J) → ProxyReply J
  disaggregate prefill_url decode_url path body =
      let prefill = post prefill_url path (prefill_body body) in
      if prefill.status == 200
      then answer body (
          post decode_url path
            (decode_body body (asked (Names.get "kv_transfer_params" prefill.content))))
      else relayed prefill
