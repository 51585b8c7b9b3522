-- ===== src/Lib.antt =====
-- OpenThread Commissioner: the parts that turn what a Thread commissioner says into
-- bytes and back, the CoAP client and server, the state machine of a petition and its keep-alives, and
-- the application of src/app that keeps what it knows of the network; and the UDP proxy, the queries and
-- the sessions of the joiners that go through the border agent.
--
-- A commissioner manages a Thread network from outside of it. It speaks CoAP over DTLS to a border
-- agent; the payload of nearly every CoAP message is a list of TLVs; a TLV holds integers and byte
-- arrays. The files follow these layers, and each file names the code that it is about:
--
--   Common              ErrorCode and the Error of include/commissioner/error.hpp, with the macros of
--                       src/common/error_macros.hpp; Booleans, lists and bits for all files
--   Bytes               src/common/utils.hpp, src/common/utils.cpp: Encode, Decode and Hex
--   Tlv                 src/library/tlv.hpp, src/library/tlv.cpp: the class Tlv, GetTlvSet, GetTlv
--   Tlv.Types           the enum Type; Tlv.Length the rules of Tlv::IsValid
--   Tlv.Message         AppendTlv of src/library/commissioner_impl.cpp on the payload of a message
--   Coap.Header         src/library/coap.hpp, src/library/coap.cpp: Header and its codec
--   Coap.OptionType     the enum OptionType; Coap.Options the codec of one option
--   Coap.UriPath        SplitUriPath and NormalizeUriPath
--   Coap.Message        the class Message: AppendOption, Serialize, Deserialize
--   Coap.Client         the class Coap as a client: the cache of requests, SendRequest, HandleResponse,
--                       Retransmit and CancelRequests
--   Coap.Server         the class Coap as a server: its resources, the cache of responses,
--                       HandleRequest, SendResponse and the responses made of a header
--   Dataset             include/commissioner/network_data.hpp, src/library/network_data.cpp and the
--                       codecs of datasets in src/library/commissioner_impl.cpp: Timestamps, Masks,
--                       Active, Pending, Commissioner, and the requested TLV types in Requests
--   Commissioner        Petition, SendPetition, SendKeepAlive, Resign and Disconnect of
--                       src/library/commissioner_impl.cpp with their response handlers, without CCM
--   App                 src/app/commissioner_app.hpp, src/app/commissioner_app.cpp: the state, Start, Stop,
--                       SyncNetworkData and the reports; App.Merge has MergeDataset, App.Network the
--                       fields of the datasets, App.Joiners the joiners and their PSKds
--   Address             src/common/address.hpp, src/common/address.cpp: the bytes of an IP address
--   Proxy               src/library/udp_proxy.hpp, src/library/udp_proxy.cpp: the requests that go through
--                       the border agent, and the prefix that they wait for
--   Queries             AnnounceBegin, PanIdQuery, EnergyScan and MakeChannelMask of
--                       src/library/commissioner_impl.cpp, which go through the proxy
--   Relay               HandleRlyRx and HandleJoinerSessionTimer of src/library/commissioner_impl.cpp, and
--                       src/library/joiner_session.cpp: the sessions of the joiners, RLY_TX and JOIN_FIN.
--                       It asks the application of App for the PSKds
--   Steering            src/library/openthread/crc16.cpp, src/library/openthread/bloom_filter.cpp and
--                       AddJoiner of src/library/commissioner_impl.cpp
--
-- Conventions. A byte, and any integer of the source, is a number, with its wrap-around written out
-- where the source cuts it; a ByteArray or a std::string is a list of numbers. A size_t offset that
-- runs through a buffer is the rest of the buffer. An Error is a Result: `ok` with what the function
-- leaves in its arguments, `err` with the code of the error, and `died` where VerifyOrDie, or an
-- assertion in a build without NDEBUG, aborts the program. An argument that is written before an
-- error is returned is not seen by the callers modelled here, which drop it. Texts of error messages
-- and logging are left out.
--
-- Fuel. The loop of GetTlvSet and the loop of Message::Deserialize run on fuel, one unit for each byte
-- of the buffer; each round takes a byte at least, and running out is `died`, which the results
-- exclude. The loops of Retransmit and CancelRequests have a unit for each holder of the cache, and
-- DecodeChannelMask one for each byte.
--
-- Surroundings. What the handlers of the server respond, what the endpoint answers to a send, and what
-- the commissioner answers to the application are arguments: functions, or a record of answers. The id
-- of a joiner is a hash that third-party code computes, and a parameter too; so is the state that DTLS
-- leaves a session in. The times of the sessions are milliseconds on one clock.
--
-- Not modelled: the block options that the source does not support either, DTLS and sockets, the
-- token manager and COSE, the command line and JSON, and the requests that only a commissioner with
-- CCM sends. What a handler does when it is called is no part of the client or of the commissioner,
-- and the threads of the application and of the commissioner are not told apart. COSE, CBOR, mbedtls,
-- libevent and fmt are third-party code.
pub mod Address
pub mod App
pub mod Bytes
pub mod Coap
pub mod Commissioner
pub mod Common
pub mod Dataset
pub mod Proxy
pub mod Queries
pub mod Relay
pub mod Steering
pub mod Tlv
