-- ===== src/Kafka/Probe.antt =====
-- The readiness probe of a service with the producer of messaging/kafka/kafka.go.
use idp_sdk.Common.{
  ℕ, ◌<◌, String, ◌≡◌, ◌≢◌, refl, inl, inr, Bool, true, false, ◌||◌, none, List, [], ◌∷◌, ℤ, ◌==◌,
  Result, ok, err, Bool-cases,
}
use idp_sdk.Common.{All, Memᴰ, insert, length}
use idp_sdk.Kafka.Producer.{Broker, Writer, check, dialed}
use idp_sdk.Health.{Registry, Checker, register}
use idp_sdk.Health as Health
use idp_sdk.Health.Ready.{AllHealthy, check_ready}

-- The networks on which a stream can be dialled.
abbrev pub is_network : String → Bool
is_network s = s == "tcp" || s == "tcp4" || s == "tcp6" || s == "unix" || s == "unixpacket"

-- net.Dialer as documented: another network is an error.
abbrev pub DialsNetworks : Broker → Type 0
DialsNetworks b =
    (network address : String) (timeout : ℤ) (w : b.World) (conn : b.Conn)
    → (b.dial_context network address timeout w).0 ≡ ok conn
    → is_network network ≡ true

module _ (b : Broker) (d : DialsNetworks b) where
  -- The producer's Check in a probe that finds the world as it is.
  abbrev pub producer_checker : Writer → b.World → Checker
  producer_checker p w timeout = (check b p timeout w).0

  dialed-some :
      (r : Result b.Conn × b.World)
      → ((conn : b.Conn) → r.0 ≡ ok conn → is_network "tpc" ≡ true)
      → (dialed b r).0 ≢ none
  dialed-some (err e, w) opens h = cc
  dialed-some (ok conn, w) opens h = cc (opens conn refl)

  check-some : (p : Writer) (timeout : ℤ) (w : b.World) → (check b p timeout w).0 ≢ none
  unfolding check
  check-some p timeout w =
      dialed-some (b.dial_context "tpc" (b.tcp_text p.brokers) timeout w)
        (d "tpc" (b.tcp_text p.brokers) timeout w)

  inserted :
      (P : String × Checker → Type 0) (name : String) (c : Checker) (cs : List (String × Checker))
      → All P (insert name c cs)
      → P (name, c)
  unfolding insert
  inserted P name c [] h = h.0
  inserted P name c ((k, x) ∷ cs) h = elim (Bool-cases (k == name)) [
    | inl same ↦ (rw same at h).0
    | inr other ↦ inserted P name c cs (rw other at h).1
  ]

  unhealthy :
      (p : Writer) (w : b.World) (name : String) (r : Registry)
      → ¬ AllHealthy (register name (producer_checker p w) r)
  unfolding register
  unhealthy p w name r healthy =
      check-some p r.timeout w
        (inserted (λ c. c.1 r.timeout ≡ none) name (producer_checker p w) r.checkers healthy)

  -- A service that registers its Kafka producer with the health registry is never ready, whatever the
  -- brokers, the other checkers and the order in which the probes end, the dialer refusing networks
  -- that do not exist: the producer's Check names one.
  pub never_ready :
      (p : Writer) (w : b.World) (name : String) (r : Registry) (order : List ℕ)
      → ((i : ℕ) → i < length (register name (producer_checker p w) r).checkers → Memᴰ i order)
      → (Health.check (register name (producer_checker p w) r) order).ready ≡ false
  never_ready p w name r order finished =
      elim (Bool-cases (Health.check (register name (producer_checker p w) r) order).ready) [
        | inl ready ↦ absurd (
            unhealthy p w name r
              ((check_ready (register name (producer_checker p w) r) order finished).0.0 ready))
        | inr waiting ↦ waiting
      ]
