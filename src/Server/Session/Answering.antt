-- ===== src/Server/Session/Answering.antt =====
-- Messages that answer requests, as a session of src/server.rs writes them.
use quic_serve.Prelude.{◌≡◌, List, [], ◌∷◌, ◌++◌}
use quic_serve.Error.{ok}
use quic_serve.Message.{Bytes, Request, Response, Codec, SerializationFormat, deserialize}
use quic_serve.Server.Session.Dispatch.{IsAnswer}

module _ (responses : Codec Response) (format : SerializationFormat) where
  -- The message is a response that answers the request.
  abbrev pub Answers : Request → Bytes → Type 0
  Answers r o = (a : Response) × (deserialize responses o format ≡ ok a) × IsAnswer r.id a

  -- The messages are, one for one, responses that answer these requests.
  abbrev pub AreAnswers : List Request → List Bytes → Type 0
  AreAnswers [] [] = Unit
  AreAnswers (r ∷ rs) (o ∷ os) = Answers r o × AreAnswers rs os
  AreAnswers _ _ = ⊥

  pub AreAnswers-append :
      (rs : List Request) (os : List Bytes) (r : Request) (o : Bytes)
      → AreAnswers rs os
      → Answers r o
      → AreAnswers (rs ++ r ∷ []) (os ++ o ∷ [])
  AreAnswers-append [] [] r o h k = (k, tt)
  AreAnswers-append [] (o' ∷ os) r o h k = absurd h
  AreAnswers-append (r' ∷ rs) [] r o h k = absurd h
  AreAnswers-append (r' ∷ rs) (o' ∷ os) r o (h, hs) k = (h, AreAnswers-append rs os r o hs k)
