-- ===== src/Coap/Client/Tests.antt =====
-- A run of `Coap::Retransmit` of src/library/coap.cpp, and the theorems at concrete inputs.
use ot_commissioner.Common.{
  ℕ, ◌≡◌, refl, arith, true, false, [], ◌∷◌, Option, none, some, ErrorCode, cancelled, timeout,
  died,
}
use ot_commissioner.Coap.Client.{
  Request, RequestHolder, RequestsCache, is_confirmable, sent, finalized, put, delayed, after_send,
  retransmit_one, retransmit_loop, retransmit, finalize_transaction, eliminate, cancel_requests,
  cancel_loop,
}
use ot_commissioner.Coap.Client.Cache.{held, ended}
use ot_commissioner.Coap.Client.Transmissions.{transmissions}
use ot_commissioner.Coap.Client.Exchange.{
  send_request, after_first_send, new_holder, numbered, handle_response, handle_found, handle_ack,
  match_request, matches, is_token_equal, is_empty, is_response, is_request,
}
use ot_commissioner.Coap.Client.Reachable.{
  Reaches, started, sends, retransmits, cancels, Reaches-IsClient,
}
use ot_commissioner.Coap.Client.Sending.{IsClient}
use ot_commissioner.Coap.Client.Retransmit.{IsDone, retransmit-IsDone}
use ot_commissioner.Coap.Client.Cancel.{cancellations, cancel_requests_lem}

-- A confirmable POST.
abbrev post : ℕ → Request
post n = record {
  identity = n;
  endpoint = 0;
  header = record {
    version = 1;
    type = 0;
    token_length = 2;
    code = 2;
    message_id = n;
    token = n ∷ 7 ∷ [];
  };
}

abbrev holder : ℕ → ℕ → ℕ → RequestHolder
holder request count next = record {
  request = post request;
  handler = true;
  retransmission_count = count;
  retransmission_delay = 2500;
  next_timer_shot = next;
  acknowledged = false;
}

-- The first request has been sent five times, the second once.
abbrev outstanding : RequestsCache
outstanding = holder 1 4 9000 ∷ holder 2 0 9500 ∷ []

abbrev send : RequestHolder → Option ErrorCode
send h = none

one_given_up : retransmit send 10000 outstanding ≡ (
  finalized 1 true (some timeout) ∷ sent 2 ∷ [],
  record (holder 2 1 15000) { retransmission_delay = 5000 } ∷ [],
)
unfolding retransmit retransmit_loop retransmit_one delayed after_send finalize_transaction
    eliminate put is_confirmable
one_given_up = refl

retransmit-IsDone_example : IsDone send 10000 outstanding (retransmit send 10000 outstanding)
retransmit-IsDone_example =
    retransmit-IsDone send 10000 outstanding ((omega arith, tt), (tt, tt))
      (omega arith, (omega arith, tt)) (λ request. unfold held in ground arith)

cancel_requests_lem_example :
    cancel_requests outstanding
    ≡ (finalized 1 true (some cancelled) ∷ finalized 2 true (some cancelled) ∷ [], [])
unfolding cancellations
cancel_requests_lem_example = cancel_requests_lem outstanding

abbrev unsent : Request
unsent = record (post 1) {
  header = record (post 1).header { message_id = 0; token_length = 0; token = [] };
}

-- A request that is sent twice and then cancelled.
history : Reaches [] (sent 1 ∷ sent 1 ∷ finalized 1 true (some cancelled) ∷ [])
unfolding send_request numbered after_first_send new_holder is_confirmable put retransmit
    retransmit_loop retransmit_one delayed after_send cancel_requests cancel_loop
    finalize_transaction eliminate held ended transmissions
history =
    cancels
      (retransmits (sends started unsent true 1 (1 ∷ 7 ∷ []) 2500 0 none _ refl refl) send 10000)

Reaches-IsClient_example : IsClient [] (sent 1 ∷ sent 1 ∷ finalized 1 true (some cancelled) ∷ [])
Reaches-IsClient_example = Reaches-IsClient history

-- A request that has a message id aborts.
numbered_twice : send_request (post 1) true 2 (1 ∷ 7 ∷ []) 2500 0 none [] ≡ died
unfolding send_request is_confirmable
numbered_twice = refl

-- A piggybacked response ends the transaction of its request.
piggybacked :
    handle_response 0
      (record {
        version = 1;
        type = 2;
        token_length = 2;
        code = 68;
        message_id = 2;
        token = 2 ∷ 7 ∷ [];
      })
      outstanding
    ≡ (finalized 2 true none ∷ [], holder 1 4 9000 ∷ [])
unfolding handle_response handle_found handle_ack match_request matches is_token_equal is_empty
    is_response is_request finalize_transaction eliminate
piggybacked = refl
