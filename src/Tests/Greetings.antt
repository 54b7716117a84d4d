-- ===== src/Tests/Greetings.antt =====
-- The example client and the example server, with messages that are written as their place in a list.
use quic_serve.Prelude.{
  ℕ, ◌≡◌, refl, sym, ap, ◌∙◌, Option-cases, String, Option, none, some, List, [], ◌∷◌, inl, inr,
  get, insert, remove, string_eq,
}
use quic_serve.Error.{ok}
use quic_serve.Message.{Bytes, protobuf}
use quic_serve.Transport.{frame_codec}
use quic_serve.Transport.Framing.{with_sent}
use quic_serve.Config.Server.{build_server_config}
use quic_serve.Server.{Server, register_service}
use quic_serve.Server
use quic_serve.Server.Session.{handle_message}
use quic_serve.Client.{Shared, begin_call}
use quic_serve.Client.Calls.{next_channel}
use quic_serve.Client.Handler.{handle_response}
use quic_serve.Client.Wait.{received, finish_call}
use quic_serve.Examples.Echo.{EchoRequest, EchoResponse, EchoCodecs, echo_service}
use quic_serve.Examples.Started.{config, start}
use quic_serve.Examples.Certificates.{prepare, generate_self_signed_cert}
use quic_serve.Examples.Conversation.{IsSent, AreLawful, start-round_trip}
use quic_serve.Tests.Toy.{
  toy_codec, toy_codec-IsLawful, index_of, nth, nth-index_of, requests, responses,
  requests-IsLawful, responses-IsLawful,
}
use quic_serve.Tests.Setup.{wire, timer, stuck, asking, ready}
use quic_serve.Tests.Commands.{bind}
use quic_serve.Tests.Machines.{echo_codecs}
use quic_serve.Tests.Disk.{files, rcgen, disk_tls, both}

abbrev greetings : List String
greetings = "hi" ∷ "Echo: hi" ∷ []

abbrev alone : Option ℕ → Option Bytes
alone none = none
alone (some i) = some (i ∷ [])

abbrev into : {T : Type 0} → (String → T) → Option String → Option T
into make none = none
into make (some t) = some (make t)

abbrev enc_word : String → Option Bytes
enc_word s = alone (index_of s greetings)

abbrev dec_word : {T : Type 0} → (String → T) → Bytes → Option T
dec_word make (i ∷ []) = into make (nth i greetings)
dec_word make _ = none

enc_word-law :
    {T : Type 0} (make : String → T) (s : String) (b : Bytes)
    → enc_word s ≡ some b
    → dec_word make b ≡ some (make s)
enc_word-law make s b h = elim (Option-cases (index_of s greetings)) [
  | inl missing ↦ cc (h, ap alone missing)
  | inr (i, found) ↦
      let same : b ≡ i ∷ [] = cc (sym h ∙ ap alone found) in
      rw (same, nth-index_of s greetings i found) refl
]

abbrev ask : String → EchoRequest
ask s = record { message = s }

abbrev echoed : String → EchoResponse
echoed s = record { message = s }

abbrev codecs : EchoCodecs
codecs = record echo_codecs {
  echo_request = toy_codec (λ r. enc_word r.message) (dec_word ask);
  echo_response = toy_codec (λ r. enc_word r.message) (dec_word echoed);
}

lawful : AreLawful codecs requests responses
lawful = record {
  echo_request = toy_codec-IsLawful _ _ (λ r b. enc_word-law ask r.message b);
  echo_response = toy_codec-IsLawful _ _ (λ r b. enc_word-law echoed r.message b);
  request = requests-IsLawful;
  response = responses-IsLawful;
}

abbrev server : Server ℕ ℕ
server = record {
  config = config;
  endpoint = 1;
  services = ("compute", stuck) ∷ ("echo", echo_service codecs (λ w. w)) ∷ [];
}

sent :
    IsSent codecs wire wire requests responses "hi" ready
      (0 ∷ [])
      (0 ∷ 4 ∷ 0 ∷ [])
      (1 ∷ [])
      (0 ∷ 0 ∷ 1 ∷ [])
unfolding frame_codec
sent = record {
  payload_bytes = refl;
  request_bytes = refl;
  request_taken = λ before. refl;
  reply_bytes = refl;
  response_bytes = refl;
  response_taken = λ before. refl;
}

start-round_trip_example :
    (after : Shared String) × (begin_call wire codecs.echo_request requests protobuf "echo.echo"
        (ask "hi")
        ready
      ≡ (ok (next_channel ready), after))
    × (handle_message timer config server.services wire requests responses (0 ∷ 4 ∷ 0 ∷ []) asking 0
        ≡ (ok tt, with_sent ((0 ∷ 0 ∷ 1 ∷ []) ∷ []) asking, 0))
    × ((handle_response responses protobuf (0 ∷ 0 ∷ 1 ∷ []) after).delivered
        ≡ (next_channel ready, ok (1 ∷ [])) ∷ [])
    × (finish_call codecs.echo_response protobuf (received (ok (1 ∷ []))) ≡ ok (echoed "Echo: hi"))
unfolding start prepare generate_self_signed_cert get Server.new build_server_config
    register_service insert remove
start-round_trip_example =
    start-round_trip codecs (λ w. w) wire wire requests responses timer rcgen files disk_tls bind
      (λ e. 1) stuck [] both server "hi" ready asking asking (0 ∷ []) (0 ∷ 4 ∷ 0 ∷ []) (1 ∷ [])
      (0 ∷ 0 ∷ 1 ∷ []) 0 refl lawful sent refl refl refl
