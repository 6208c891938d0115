-- ===== src/Nats/Tests.antt =====
-- Runs of messaging/nats/nats.go, and its theorems at concrete inputs.
use idp_sdk.Common.{
  ℕ, zero, suc, ◌+◌, ◌-◌, String, inl, inr, Bool-cases, eq_iff, ◌≡◌, refl, Bool, true, false,
  Option, none, some, List, [], ◌∷◌, pos, arith, if◌then◌else◌, ◌==◌, GoError, Result, ok, err,
}
use idp_sdk.Common.{◌++◌}
use idp_sdk.Common.Failure.{plain, wrap_with}
use idp_sdk.Nats.{
  Nats, Client, Handler, new, check, connect_options, ensure_stream, publish_durable, Consumption,
  returned,
}
use idp_sdk.Nats.Streams.{Streams, Ensured, Kept, ensure_stream-Ensured}
use idp_sdk.Verdicts.{succeeded}
use idp_sdk.Nats.Durable.{View}

-- A server with at most one stream, and what was done with its messages. A stream's configuration is
-- its name.
record Server : Type 0 where
  name : Option String
  handled : List (ℕ × Bool)
  settled : List (ℕ × Bool)
  running : ℕ

abbrev found : String → Option String → Result String
found key none = err (plain "stream not found")
found key (some s) = if s == key then ok s else err (plain "stream not found")

abbrev add : String → Option String → Server → Result String × Server
add s none w = (ok s, record w { name = some s })
add s (some other) w = (err (plain "maximum number of streams reached"), w)

abbrev named : String → Option String → Option String
named key none = none
named key (some s) = if s == key then some s else none

abbrev server : Nats
server = record {
  World = Server;
  Conn = String;
  JetStream = String;
  Subscription = String;
  Stream = String;
  StreamConfig = String;
  Consumer = String;
  ConsumeContext = String;
  Message = ℕ;
  connect = λ url opts w. (ok opts.name, w);
  new_jetstream = λ conn w. (ok "js", w);
  close = λ conn w. w;
  is_connected = λ conn w. false;
  status = λ conn w. "RECONNECTING";
  drain = λ conn w. (none, w);
  publish = λ conn subject bytes w. (none, w);
  subscribe = λ conn subject f w. (ok subject, w);
  unsubscribe = λ sub w. (none, w);
  stream_name = λ cfg. cfg;
  stream = λ js key w. (found key w.name, w);
  create_stream = λ js cfg w. add cfg w.name w;
  publish_js = λ js subject bytes w. (some (plain "no response from stream"), w);
  create_or_update_consumer = λ s cfg w. (ok cfg.durable, w);
  consume = λ c f w. (ok c, record w { running = w.running + 1 });
  stop = λ cons w. record w { running = w.running - 1 };
  ack = λ m w. (none, record w { settled = w.settled ++ ((m, true) ∷ []) });
  nak = λ m w. (none, record w { settled = w.settled ++ ((m, false) ∷ []) });
  context_error = λ w. plain "context canceled";
}

abbrev streams : Server → String → Option String
streams w key = named key w.name

found-named :
    (key : String) (o : Option String) (s : String)
    → found key o ≡ ok s
    → (c : String) × (named key o ≡ some c)
found-named key none s h = cc
found-named key (some x) s h = elim (Bool-cases (x == key)) [
  | inl same ↦ (x, rw same refl)
  | inr differs ↦ ground (arith, h)
]

add_named :
    (cfg : String) (o : Option String) (w : Server) (s : String)
    → (add cfg o w).0 ≡ ok s
    → streams (add cfg o w).1 cfg ≡ some cfg
add_named cfg none w s h = ground (arith, eq_iff cfg cfg)
add_named cfg (some other) w s h = cc

keeps_named :
    (cfg : String) (o : Option String) (w : Server)
    → w.name ≡ o
    → (key c : String) → streams w key ≡ some c
    → streams (add cfg o w).1 key ≡ some c
keeps_named cfg none w same key c h = cc
keeps_named cfg (some other) w same key c h = h

server-Streams : Streams server streams
server-Streams = record {
  looks_up = λ js name key w. refl;
  finds = λ js name w s h. found-named name w.name s h;
  adds = λ js cfg w s h. add_named cfg w.name w s h;
  keeps = λ js cfg w key c h. keeps_named cfg w.name w refl key c h;
}

abbrev fresh : Server
fresh = record { name = none; handled = []; settled = []; running = 0 }

abbrev client : Client server
client = record { conn = "conn"; js = "js" }

ensure_stream-Ensured_example :
    Ensured server streams server-Streams client "ORDERS" fresh
      (ensure_stream server client "ORDERS" fresh)
    × Kept server streams server-Streams fresh (ensure_stream server client "ORDERS" fresh).1
ensure_stream-Ensured_example =
    ensure_stream-Ensured server streams server-Streams client "ORDERS" fresh

-- A second call on the stream of the first.
twice :
    ensure_stream server client "ORDERS" (ensure_stream server client "ORDERS" fresh).1
    ≡ (ok "ORDERS", record fresh { name = some "ORDERS" })
unfolding ensure_stream
twice = refl

-- A handler that fails at the message 0.
abbrev verdict_at : ℕ → Option GoError
verdict_at zero = some (plain "poison")
verdict_at (suc k) = none

abbrev handle : Handler server
handle m w =
    (verdict_at m, record w { handled = w.handled ++ ((m, succeeded (verdict_at m)) ∷ []) })

abbrev view : Server → View server
view w = record {
  history = record { handled = w.handled; settled = w.settled };
  running = w.running;
}

abbrev with_orders : Server
with_orders = record fresh { name = some "ORDERS" }

-- A message is handled, the context ends, the call stops the loop and returns, and then only is the
-- message settled.
abbrev handled : Server
handled = (handle 0 (record with_orders { running = 1 })).1

abbrev gone : Consumption server
gone = record {
  phase = returned (plain "context canceled");
  in_flight = none;
  world = record handled { running = 0; settled = (0, false) ∷ [] };
}

disconnected : check server client fresh ≡ some (plain "nats: not connected (status: RECONNECTING)")
unfolding check
disconnected = refl

connected :
    new server
      (record { url = "nats://nats:4222"; connect_name = ""; connect_timeout = pos 0 })
      fresh
    ≡ (ok (record { conn = "sdk-client"; js = "js" }), fresh)
unfolding new connect_options
connected = refl

unanswered :
    (publish_durable server client "orders.new" "1" fresh).0
    ≡ some (wrap_with "nats: jetstream publish to orders.new: " (plain "no response from stream"))
unfolding publish_durable
unanswered = refl
