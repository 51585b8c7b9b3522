-- ===== src/Coap/Server/Repeated.antt =====
-- What the server of src/library/coap.cpp answers to a request that it receives once more.
use ot_commissioner.Common.{
  or_else, ℕ, ◌≤◌, ◌≡◌, refl, arith, true, List, [], ◌∷◌, Option, none, some, Result, ok, ErrorCode,
  Ensures, Ensures-ok, if-Ensures, >>=-Ensures, ◌⊎◌, inl, inr, ◌∙◌, ap, ◌==◌, if◌then◌else◌,
}
use ot_commissioner.Coap.OptionType
use ot_commissioner.Coap.Message.{Message, get_option}
use ot_commissioner.Coap.Server.{
  Addressed, Resources, ResponsesCache, Server, set_token, ServerEvent, Outcome, put_response,
  answers, match_response, address_response, send_message, send_response, send_responses,
  run_handler, run_resource, run_default, dispatch, answer_request, handle_path, handle_request,
  send_header_response, code_not_found, send_not_found, alloc_message_id,
}
use ot_commissioner.Coap.Client.{type_confirmable}
use ot_commissioner.Coap.Client.Exchange.{type_non_confirmable}
use ot_commissioner.Coap.Server.Responses.{
  IsRecent, AllBy-later, put_response-IsRecent, match-put_response,
}

-- The responses that were found are found.
abbrev pub Extends : ℕ → ResponsesCache → ResponsesCache → Type 0
Extends now cache next =
    IsRecent now next
    × ((endpoint id : ℕ) (r : Addressed)
        → match_response endpoint id cache ≡ some r
        → match_response endpoint id next ≡ some r)

Extends-refl : (now : ℕ) (cache : ResponsesCache) → IsRecent now cache → Extends now cache cache
Extends-refl now cache recent = (recent, λ endpoint id r e. e)

Extends-trans :
    (now : ℕ) (a b c : ResponsesCache) → Extends now a b → Extends now b c → Extends now a c
Extends-trans now a b c (hb, ab) (hc, bc) =
    (hc, λ endpoint id r e. bc endpoint id r (ab endpoint id r e))

put_response-Extends :
    (now : ℕ) (r : Addressed) (cache : ResponsesCache)
    → IsRecent now cache
    → Extends now cache (put_response now r cache)
put_response-Extends now r cache recent = (
  put_response-IsRecent now r cache recent,
  λ endpoint id x e.
      match-put_response endpoint id now r cache recent
      ∙ ap (λ found. or_else found (if answers endpoint id r then some r else none)) e,
)

module _ (transmit : ℕ → List ℕ → Option ErrorCode) (responds : ℕ → Addressed → List Message)
    (now : ℕ) (request : Addressed) where
  send_response-Extends :
      (response : Message) (server : Server)
      → IsRecent now server.responses
      → Ensures
          (λ (out : Outcome). Extends now server.responses out.1.responses)
          (send_response transmit now request response server)
  unfolding send_response
  send_response-Extends response server recent =
      >>=-Ensures _ (send_message transmit (address_response request response)) _
        (λ sent e. put_response-Extends now (address_response request response) _ recent)

  send_header_response-Keeps :
      (code : ℕ) (server : Server)
      → IsRecent now server.responses
      → Ensures
          (λ (out : Outcome). Extends now server.responses out.1.responses)
          (send_header_response transmit now code request server)
  unfolding send_header_response alloc_message_id
  send_header_response-Keeps code server recent =
      let type = request.message.header.type in
      if-Ensures _ (type == type_confirmable) _ _ (send_response-Extends _ server recent) (
        if-Ensures _ (type == type_non_confirmable) _ _
          (send_response-Extends _ (alloc_message_id server).1 recent) (Extends-refl now _ recent))

  abbrev KeepsResponses : Server → Result (List ServerEvent × Server) → Type 0
  KeepsResponses server result =
      Ensures (λ out. Extends now server.responses out.1.responses) result

  send_responses-Keeps :
      (responses : List Message) (server : Server)
      → IsRecent now server.responses
      → KeepsResponses server (send_responses transmit responds now request responses server)
  unfolding send_responses
  send_responses-Keeps [] server recent = Extends-refl now _ recent
  send_responses-Keeps (response ∷ more) server recent =
      >>=-Ensures _ (send_response transmit now request response server) _ (λ out e.
        let first =
          Ensures-ok (λ (out : Outcome). Extends now server.responses out.1.responses) e
            (send_response-Extends response server recent) in
        >>=-Ensures _ (send_responses transmit responds now request more out.1) _ (λ end f.
          Extends-trans now _ _ _ first (
            Ensures-ok (λ end. Extends now out.1.responses end.1.responses) f
              (send_responses-Keeps more out.1 first.0))))

  run_handler-Keeps :
      (handler : ℕ) (server : Server)
      → IsRecent now server.responses
      → KeepsResponses server (run_handler transmit responds now request handler server)
  unfolding run_handler
  run_handler-Keeps handler server recent =
      >>=-Ensures _ (send_responses transmit responds now request (responds handler request) server)
        _
        (λ out e.
          Ensures-ok (λ out. Extends now server.responses out.1.responses) e
            (send_responses-Keeps _ server recent))

  run_default-Keeps :
      (handler : Option ℕ) (server : Server)
      → IsRecent now server.responses
      → KeepsResponses server (run_default transmit responds now request handler server)
  unfolding run_default send_not_found
  run_default-Keeps none server recent =
      >>=-Ensures _ (send_header_response transmit now code_not_found request server) _ (λ out e.
        Ensures-ok (λ (out : Outcome). Extends now server.responses out.1.responses) e
          (send_header_response-Keeps code_not_found server recent))
  run_default-Keeps (some handler) server recent = run_handler-Keeps handler server recent

  dispatch-Keeps :
      (resource : Option (Option ℕ)) (server : Server)
      → IsRecent now server.responses
      → KeepsResponses server (dispatch transmit responds now request resource server)
  unfolding dispatch run_resource
  dispatch-Keeps none server recent = run_default-Keeps server.default_handler server recent
  dispatch-Keeps (some none) server recent = Extends-refl now _ recent
  dispatch-Keeps (some (some handler)) server recent = run_handler-Keeps handler server recent

  answer_request-Keeps :
      (path : List ℕ) (found : Option Addressed) (server : Server)
      → IsRecent now server.responses
      → KeepsResponses server (answer_request transmit responds now request path found server)
  unfolding answer_request
  answer_request-Keeps path none server recent = dispatch-Keeps _ server recent
  answer_request-Keeps path (some response) server recent =
      >>=-Ensures _ (send_message transmit response) _ (λ out e. Extends-refl now _ recent)

  handle_path-Keeps :
      (path : Option (List ℕ)) (server : Server)
      → IsRecent now server.responses
      → KeepsResponses server (handle_path transmit responds now request path server)
  unfolding handle_path
  handle_path-Keeps none server recent = Extends-refl now _ recent
  handle_path-Keeps (some path) server recent = answer_request-Keeps path _ server recent

  handle_request-Keeps :
      (server : Server)
      → IsRecent now server.responses
      → KeepsResponses server (handle_request transmit responds now request server)
  unfolding handle_request
  handle_request-Keeps server recent = handle_path-Keeps _ server recent

module _ (transmit : ℕ → List ℕ → Option ErrorCode) (responds : ℕ → Addressed → List Message) where
  -- What happens to a server, in the order of the times: a request comes in, a response is sent, and
  -- its resources and its default handler change. The timer of the cache is not among them, since
  -- no line of the source starts it.
  pub data Serves (start : ℕ) (from : Server) : ℕ → Server → Type 0 where
    idle : Serves start from start from
    waits :
        {now later : ℕ} {server : Server}
        → Serves start from now server
        → now ≤ later
        → Serves start from later server
    receives :
        {now : ℕ} {server : Server}
        → Serves start from now server
        → (request : Addressed) (out : List ServerEvent × Server)
        → handle_request transmit responds now request server ≡ ok out
        → Serves start from now out.1
    responded :
        {now : ℕ} {server : Server}
        → Serves start from now server
        → (request : Addressed) (response : Message) (out : Outcome)
        → send_response transmit now request response server ≡ ok out
        → Serves start from now out.1
    configures :
        {now : ℕ} {server : Server}
        → Serves start from now server
        → (resources : Resources) (default_handler : Option ℕ)
        → Serves start from now
            (record server { resources = resources; default_handler = default_handler })

  Serves-Extends :
      {start : ℕ} {from : Server} {now : ℕ} {server : Server}
      → IsRecent start from.responses
      → Serves start from now server
      → Extends now from.responses server.responses
  Serves-Extends recent idle = Extends-refl _ _ recent
  Serves-Extends recent (waits {now} {later} {server} run le) =
      let (r, e) = Serves-Extends recent run in
      (AllBy-later _ _ server.responses (omega arith) r, e)
  Serves-Extends recent (receives {now} {server} run request out e) =
      let before = Serves-Extends recent run in
      Extends-trans now _ _ _ before (
        Ensures-ok
          (λ (out : List ServerEvent × Server). Extends now server.responses out.1.responses) e
          (handle_request-Keeps transmit responds now request server before.0))
  Serves-Extends recent (responded {now} {server} run request response out e) =
      let before = Serves-Extends recent run in
      Extends-trans now _ _ _ before (
        Ensures-ok (λ (out : Outcome). Extends now server.responses out.1.responses) e
          (send_response-Extends transmit responds now request response server before.0))
  Serves-Extends recent (configures run resources default_handler) = Serves-Extends recent run

  send_response_sent :
      (now : ℕ) (request : Addressed) (response : Message) (server : Server)
      → Ensures
          (λ (out : Outcome).
            (send_message transmit (address_response request response) ≡ ok (out.0, out.2))
            × (out.1.responses
                ≡ put_response now (address_response request response) server.responses))
          (send_response transmit now request response server)
  unfolding send_response
  send_response_sent now request response server =
      >>=-Ensures _ (send_message transmit (address_response request response)) _
        (λ sent e. (e, refl))

  address-answers :
      (request : Addressed) (response : Message)
      → ((response.header.message_id ≡ 0)
          ⊎ (response.header.message_id ≡ request.message.header.message_id))
      → answers request.endpoint request.message.header.message_id
          (address_response request response)
        ≡ true
  unfolding answers address_response set_token
  address-answers request response (inl e) = ground (arith, e)
  address-answers request response (inr e) = ground (arith, e)

  -- A response that was sent for a request, and has its message id or none of its own, is what the
  -- server sends when it receives the request again, byte for byte, calling no handler, whatever it
  -- receives and sends in the meantime, and however late, if the cache of responses is not cleared: the
  -- request has a path, no response to it was in the cache, and no time in the cache is later than
  -- that of a response put there now.
  pub handle_request_again :
      {now later : ℕ} (server : Server) {after : Server} (request : Addressed) (response : Message)
      (path : List ℕ) (out : Outcome)
      → IsRecent now server.responses
      → match_response request.endpoint request.message.header.message_id server.responses ≡ none
      → ((response.header.message_id ≡ 0)
          ⊎ (response.header.message_id ≡ request.message.header.message_id))
      → get_option OptionType.uri_path request.message.options ≡ some path
      → send_response transmit now request response server ≡ ok out
      → Serves now out.1 later after
      → handle_request transmit responds later request after ≡ ok (out.0, after)
  unfolding handle_request handle_path answer_request
  handle_request_again {now} {later} server {after} request response path out recent fresh id has e
        run =
      let id' = request.message.header.message_id in
      let addressed = address_response request response in
      let (kept, message) =
        Ensures-ok (λ (out : Outcome). Extends now server.responses out.1.responses) e
          (send_response-Extends transmit responds now request response server recent) in
      let (sent, cached) =
        Ensures-ok
          (λ (out : Outcome).
            (send_message transmit addressed ≡ ok (out.0, out.2))
            × (out.1.responses ≡ put_response now addressed server.responses))
          e (send_response_sent now request response server) in
      let found : match_response request.endpoint id' out.1.responses ≡ some addressed = rw cached (
        match-put_response request.endpoint id' now addressed server.responses recent
        ∙ rw (fresh, address-answers request response id) refl) in
      let there = (Serves-Extends kept run).1 request.endpoint id' addressed found in
      rw (has, there, sent) refl
