-- ===== src/HttpClient/Tests.antt =====
-- Runs of database/httpclient/httpclient.go, and its theorems at concrete inputs.
use idp_sdk.Common.{
  ℕ, ◌+◌, ◌-◌, ◌^◌, ◌<◌, String, ◌≡◌, refl, true, none, List, [], ◌∷◌, ℤ, pos, negsuc, arith,
  GoError, Result, ok, err,
}
use idp_sdk.Common.Failure.{plain}
use idp_sdk.HttpClient.Net.{Transport, Response}
use idp_sdk.HttpClient.{
  Client, new, is_transient, attempts_from, do_request, backoff, to_float, spare_bits,
}
use idp_sdk.HttpClient.Backoff.{backoff_lem}
use idp_sdk.HttpClient.Ends.{Ended}
use idp_sdk.HttpClient.Retries.{Ledger, left_open, do_request-Ended, do_request-live}

-- A server that answers with the given statuses in turn, and then not at all.
record Server : Type 0 where
  sent : ℕ
  live : ℕ
  script : List ℕ

abbrev send_script : List ℕ → ℕ → ℕ → Result (Response String) × Server
send_script [] sent live =
    (err (plain "connection refused"), record { sent = sent + 1; live = live; script = [] })
send_script (status ∷ script) sent live = (
  ok (record { status = status; body = "" }),
  record { sent = sent + 1; live = live + 1; script = script },
)

abbrev net : Transport
net = record {
  World = Server;
  Http = ℤ;
  Request = String;
  Payload = String;
  Body = String;
  new_http = λ timeout. timeout;
  new_get = λ url. ok url;
  has_get_body = λ req. true;
  get_body = λ req w. (ok req, w);
  with_body = λ body req. req;
  wait = λ req d w. (none, w);
  send = λ h req w. send_script w.script w.sent w.live;
  discard = λ b w. w;
  close = λ b w. record w { live = w.live - 1 };
  out_of_range = negsuc (2 ^ 63 - 1);
}

send_script_sent :
    (script : List ℕ) (sent live : ℕ) → (send_script script sent live).1.sent ≡ sent + 1
send_script_sent [] sent live = refl
send_script_sent (status ∷ script) sent live = refl

send_script_opens :
    (script : List ℕ) (sent live : ℕ) (resp : Response String)
    → (send_script script sent live).0 ≡ ok resp
    → (send_script script sent live).1.live ≡ live + 1
send_script_opens [] sent live resp h = cc
send_script_opens (status ∷ script) sent live resp h = refl

send_script_fails :
    (script : List ℕ) (sent live : ℕ) (e : GoError)
    → (send_script script sent live).0 ≡ err e
    → (send_script script sent live).1.live ≡ live
send_script_fails [] sent live e h = refl
send_script_fails (status ∷ script) sent live e h = cc

net-Ledger : Ledger net (λ w. w.sent) (λ w. w.live)
net-Ledger = record {
  sends = λ h req w. send_script_sent w.script w.sent w.live;
  opens = λ h req w resp e. send_script_opens w.script w.sent w.live resp e;
  fails = λ h req w e q. send_script_fails w.script w.sent w.live e q;
  sent_get_body = λ req w. refl;
  live_get_body = λ req w. refl;
  sent_wait = λ req d w. refl;
  live_wait = λ req d w. refl;
  sent_discard = λ b w. refl;
  live_discard = λ b w. refl;
  sent_close = λ b w. refl;
  live_close = λ b w h. omega arith;
}

abbrev c : Client net
c = record { http = pos 10_000_000_000; retries = pos 3; delay = pos 200_000_000 }

defaults : new net (record { timeout = pos 0; max_retries = pos 0; base_delay = pos 0 }) ≡ c
unfolding new
defaults = refl

abbrev flaky : Server
flaky = record { sent = 0; live = 0; script = 503 ∷ 429 ∷ 200 ∷ 200 ∷ [] }

third_answer :
    (do_request net c "GET /users" flaky).2 ≡ record { sent = 3; live = 1; script = 200 ∷ [] }
unfolding do_request attempts_from is_transient
third_answer = refl

do_request-Ended_example :
    (0 < (do_request net c "GET /users" flaky).2.sent)
    × Ended net c
        (λ w. w.sent)
        4
        0
        (do_request net c "GET /users" flaky).2.sent
        (do_request net c "GET /users" flaky).0
do_request-Ended_example =
    do_request-Ended net (λ w. w.sent) (λ w. w.live) net-Ledger c 3 refl "GET /users" flaky

do_request-live_example :
    (do_request net c "GET /users" flaky).2.live
    ≡ 0 + left_open (do_request net c "GET /users" flaky).0
do_request-live_example =
    do_request-live net (λ w. w.sent) (λ w. w.live) net-Ledger c 3 refl "GET /users" flaky

backoff_lem_example :
    (backoff net (pos 200_000_000) 1 ≡ pos 200_000_000)
    × (backoff net (pos 200_000_000) 3 ≡ pos 800_000_000)
    × (backoff net (pos 200_000_000) 4 ≡ pos 1_600_000_000)
backoff_lem_example = backoff_lem net 200_000_000 2 (omega arith) (omega arith) (omega arith)

-- Above 2 ^ 53 a float64 rounds, to the even one of two.
rounded : to_float (2 ^ 53 + 1) ≡ 2 ^ 53
unfolding to_float spare_bits
rounded = refl

overflowed : backoff net (pos (2 ^ 62)) 2 ≡ negsuc (2 ^ 63 - 1)
unfolding backoff to_float spare_bits
overflowed = refl
