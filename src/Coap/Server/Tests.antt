-- ===== src/Coap/Server/Tests.antt =====
-- The server of src/library/coap.cpp at concrete inputs.
use ot_commissioner.Common.{
  ℕ, ◌≡◌, refl, arith, List, [], ◌∷◌, Option, none, some, ok, ErrorCode, inl,
}
use ot_commissioner.Coap.Header.{serialize_header, header_is_valid}
use ot_commissioner.Coap.Message.{Message, get_option, serialize, serialize_options, put_payload}
use ot_commissioner.Coap.Client.Exchange.{is_token_equal}
use ot_commissioner.Coap.Server.{
  Addressed, Server, sent_bytes, handled, emplace_response, put_response, match_response,
  eliminate_expired, find_resource, set_token, address_response, header_message, send_serialized,
  send_message, send_response, send_responses, run_handler, run_resource, dispatch, answer_request,
  handle_path, handle_request, run_default, send_not_found, send_header_response, alloc_message_id,
}
use ot_commissioner.Coap.Server.Repeated.{idle, waits, handle_request_again}

abbrev transmit : ℕ → List ℕ → Option ErrorCode
transmit endpoint bytes = none

-- A confirmable GET of the path "a".
abbrev request : Addressed
request = record {
  endpoint = 3;
  message = record {
    header = record {
      version = 1;
      type = 0;
      token_length = 1;
      code = 1;
      message_id = 9;
      token = 5 ∷ [];
    };
    options = (11, 0x61 ∷ []) ∷ [];
    payload = [];
  };
}

abbrev content : Message
content = record (header_message 2 0x45 0) { payload = 1 ∷ 2 ∷ [] }

abbrev responds : ℕ → Addressed → List Message
responds handler _ = content ∷ []

abbrev server : Server
server = record {
  message_id = 0;
  resources = (0x61 ∷ [], some 7) ∷ [];
  responses = [];
  default_handler = none;
}

abbrev wire : List ℕ
wire = 0x61 ∷ 0x45 ∷ 0 ∷ 9 ∷ 5 ∷ 0xff ∷ 1 ∷ 2 ∷ []

abbrev answered : Server
answered = record server { responses = (247100, address_response request content) ∷ [] }

first_request :
    handle_request transmit responds 100 request server
    ≡ ok (handled 7 ∷ sent_bytes 3 wire ∷ [], answered)
unfolding handle_request handle_path answer_request match_response dispatch find_resource
    is_token_equal run_resource run_handler send_responses send_response send_message
    send_serialized address_response set_token put_response emplace_response get_option serialize
    serialize_options serialize_header header_is_valid put_payload
first_request = refl

-- The path "b" has no resource: the response is 4.04.
not_found_request :
    handle_request transmit responds 100 request (record server { resources = [] })
    ≡ ok (
      sent_bytes 3 (0x61 ∷ 0x84 ∷ 0 ∷ 9 ∷ 5 ∷ []) ∷ [],
      record server {
        resources = [];
        responses = (247100, address_response request (header_message 2 0x84 9)) ∷ [];
      },
    )
unfolding handle_request handle_path answer_request match_response dispatch find_resource
    is_token_equal run_default send_not_found send_header_response alloc_message_id send_response
    send_message send_serialized address_response set_token put_response emplace_response get_option
    serialize serialize_options serialize_header header_is_valid put_payload
not_found_request = refl

-- The timer would have removed it.
expired : eliminate_expired 247100 answered.responses ≡ []
unfolding eliminate_expired
expired = refl

handle_request_again_example :
    handle_request transmit responds 900000 request answered ≡ ok (sent_bytes 3 wire ∷ [], answered)
unfolding match_response get_option send_response send_message send_serialized address_response
    set_token put_response emplace_response serialize serialize_options serialize_header
    header_is_valid put_payload
handle_request_again_example =
    handle_request_again transmit responds {now = 100} {later = 900000} server request content
      (0x61 ∷ []) (sent_bytes 3 wire ∷ [], answered, none) tt refl (inl refl) refl refl
      (waits idle (omega arith))
