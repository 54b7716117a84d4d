-- ===== src/Tests/Setup.antt =====
-- A server with one service that echoes and counts its calls, and a client of it.
use quic_serve.Prelude.{
  ℕ, ◌+◌, ◌<◌, ◌≡◌, refl, String, Bool, true, false, Option, none, some, [], ◌∷◌, ltb, leb, length,
  if◌then◌else◌, arith,
}
use quic_serve.Error.{ok, err}
use quic_serve.Message.{json}
use quic_serve.Transport.{frame_codec, MessageStream, Wire}
use quic_serve.Config.{Config, default}
use quic_serve.Service.{Service, Timer}
use quic_serve.Server.{Services}
use quic_serve.Client.{Shared, initial}

-- A frame past the limit is refused, as tokio-util does.
abbrev pub wire : Wire
wire = record {
  accepts = λ codec sent b.
      if leb (length b) codec.max_frame_length then ok tt else err "frame size too big";
}

abbrev pub fires : ℕ → Option ℕ → Bool
fires limit none = true
fires limit (some took) = ltb limit took

pub fires_in_time : (limit took : ℕ) → took < limit → fires limit (some took) ≡ false
fires_in_time limit took h = ground arith

pub fires_too_late : (limit took : ℕ) → limit < took → fires limit (some took) ≡ true
fires_too_late limit took h = ground arith

abbrev pub timer : Timer
timer = record {
  fires = fires;
  in_time = fires_in_time;
  too_late = fires_too_late;
  never = λ limit. refl;
}

-- The world of the services is the number of calls that have completed.
abbrev pub echo : Service ℕ
echo = record {
  call = λ method payload w. record {
    took = some 5;
    outcome = ok payload;
    after = w + 1;
    dropped = λ limit. w;
  };
  methods = λ w. "say" ∷ [];
}

abbrev pub stuck : Service ℕ
stuck = record {
  call = λ method payload w. record {
    took = none;
    outcome = ok [];
    after = w + 1;
    dropped = λ limit. w;
  };
  methods = λ w. "say" ∷ [];
}

abbrev pub services : Services ℕ
services = ("echo", echo) ∷ ("stuck", stuck) ∷ []

abbrev pub config : Config
config = record default { format = json }

abbrev pub asking : MessageStream
asking = record { codec = frame_codec; stream = record { inbox = []; sent = [] } }

-- A client that is connected, its handler not yet started.
abbrev pub ready : Shared String
ready = record initial { session = some "/rpc"; message_stream = some asking }
