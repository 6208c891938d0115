-- ===== src/HttpClient/Retries.antt =====
-- The retry loop of database/httpclient/httpclient.go: how often it sends, and what it leaves open.
use idp_sdk.Common.{
  ℕ, zero, suc, ◌+◌, ◌≤◌, ◌<◌, ◌≡◌, refl, sym, ap, ◌∙◌, inl, inr, Option, none, some, ℤ, pos, arith,
  eqb, GoError, Result, ok, err, Bool-cases,
}
use mathlib.Core.Path.{subst}
use idp_sdk.HttpClient.Ends.{
  IsRetried, IsErrorOf, Ended, Stops, prepare-Stops, IsRetried-is_transient, not-IsRetried,
}
use idp_sdk.HttpClient.Net.{Transport, Response}
use idp_sdk.HttpClient.{
  Client, is_transient, Attempt, done, again, judge, pause, after_rewind, prepare, attempts_from,
  do_request, Ending, Rest, judged, prepared, rounds,
}

-- The requests that went out, and the response bodies that are open, as net/http counts them: a
-- request goes out by each `Do` and by nothing else, and a response opens a body.
pub record Ledger (n : Transport) (sent live : n.World → ℕ) : Type 0 where
  pub sends : (h : n.Http) (req : n.Request) (w : n.World) → sent (n.send h req w).1 ≡ sent w + 1
  pub opens :
      (h : n.Http) (req : n.Request) (w : n.World) (resp : Response n.Body)
      → (n.send h req w).0 ≡ ok resp
      → live (n.send h req w).1 ≡ live w + 1
  pub fails :
      (h : n.Http) (req : n.Request) (w : n.World) (e : GoError)
      → (n.send h req w).0 ≡ err e
      → live (n.send h req w).1 ≡ live w
  pub sent_get_body : (req : n.Request) (w : n.World) → sent (n.get_body req w).1 ≡ sent w
  pub live_get_body : (req : n.Request) (w : n.World) → live (n.get_body req w).1 ≡ live w
  pub sent_wait : (req : n.Request) (d : ℤ) (w : n.World) → sent (n.wait req d w).1 ≡ sent w
  pub live_wait : (req : n.Request) (d : ℤ) (w : n.World) → live (n.wait req d w).1 ≡ live w
  pub sent_discard : (b : n.Body) (w : n.World) → sent (n.discard b w) ≡ sent w
  pub live_discard : (b : n.Body) (w : n.World) → live (n.discard b w) ≡ live w
  pub sent_close : (b : n.Body) (w : n.World) → sent (n.close b w) ≡ sent w
  pub live_close : (b : n.Body) (w : n.World) → 0 < live w → live (n.close b w) + 1 ≡ live w

-- The bodies that a result leaves to the caller.
abbrev pub left_open : {Body : Type 0} → Result (Response Body) → ℕ
left_open (ok resp) = 1
left_open (err e) = 0

module _ (n : Transport) (sent live : n.World → ℕ) (t : Ledger n sent live) (c : Client n) where
  -- Nothing went out, and the bodies that are open are as many as before.
  abbrev Still : n.World → n.World → Type 0
  Still w w' = (sent w' ≡ sent w) × (live w' ≡ live w)

  pause-Still : (attempt : ℕ) (req : n.Request) (w : n.World) → Still w (pause n c attempt req w).2
  pause-Still attempt req w = (t.sent_wait req _ w, t.live_wait req _ w)

  after_rewind-Still :
      (attempt : ℕ) (req : n.Request) (w : n.World) (r : Result n.Payload × n.World)
      → Still w r.1
      → Still w (after_rewind n c attempt req r).2
  after_rewind-Still attempt req w (err e, w') same = same
  after_rewind-Still attempt req w (ok body, w') same =
      let (s, l) = pause-Still attempt (n.with_body body req) w' in (s ∙ same.0, l ∙ same.1)

  prepare-Still :
      (attempt : ℕ) (req : n.Request) (w : n.World) → Still w (prepare n c attempt req w).2
  prepare-Still attempt req w = elim (Bool-cases (eqb attempt 0)) [
    | inl first ↦ rw first (refl, refl)
    | inr later ↦ elim (Bool-cases (n.has_get_body req)) [
      | inl fresh ↦
          rw (later, fresh)
            (after_rewind-Still attempt req w (n.get_body req w)
              (t.sent_get_body req w, t.live_get_body req w))
      | inr bare ↦ rw (later, bare) (pause-Still attempt req w)
    ]
  ]

  -- An attempt that is over without a response for the caller leaves no body open.
  abbrev Judged : ℕ → ℕ → Attempt n × n.World → Type 0
  Judged out lasting (done resp, w) =
      (¬ IsRetried resp.status) × (sent w ≡ out) × (live w ≡ lasting + 1)
  Judged out lasting (again e, w) = IsErrorOf n c sent out e × (sent w ≡ out) × (live w ≡ lasting)

  judge-Judged :
      (req : n.Request) (v : n.World) (r : Result (Response n.Body) × n.World)
      → n.send c.http req v ≡ r
      → sent r.1 ≡ sent v + 1
      → ((resp : Response n.Body) → r.0 ≡ ok resp → live r.1 ≡ live v + 1)
      → ((e : GoError) → r.0 ≡ err e → live r.1 ≡ live v)
      → Judged (sent v + 1) (live v) (judge n r)
  judge-Judged req v (err e, w) q s opens fails =
      ((req, v, t.sends c.http req v, inl (ap (λ x. x.0) q)), s, fails e refl)
  judge-Judged req v (ok resp, w) q s opens fails =
      let more = opens resp refl in
      let w' = n.discard resp.body w in
      elim (Bool-cases (is_transient n resp.status)) [
        | inl transient ↦ rw transient (
          (
            req,
            v,
            t.sends c.http req v,
            inr (
              resp,
              ap (λ x. x.0) q,
              IsRetried-is_transient n c sent resp.status transient,
              refl,
            ),
          ),
          t.sent_close resp.body w' ∙ t.sent_discard resp.body w ∙ s,
          omega (
            arith,
            more,
            t.live_discard resp.body w,
            t.live_close resp.body w' (omega (arith, more, t.live_discard resp.body w)),
          ),
        )
        | inr final ↦ rw final (not-IsRetried n c sent resp.status final, s, more)
      ]

  send-Judged :
      (req : n.Request) (w : n.World) → Judged (sent w + 1) (live w) (judge n (n.send c.http req w))
  send-Judged req w =
      judge-Judged req w (n.send c.http req w) refl (t.sends c.http req w) (t.opens c.http req w)
        (t.fails c.http req w)

  -- A run of the loop from a world, with k attempts left.
  abbrev Over : ℕ → n.World → Ending n → Type 0
  Over k w r = Ended n c sent k (sent w) (sent r.2) r.0 × (live r.2 ≡ live w + left_open r.0)

  -- One more attempt in front of a run.
  more_attempts :
      (k : ℕ) (w w' : n.World) (r : Ending n)
      → sent w' ≡ sent w + 1
      → live w' ≡ live w
      → Over k w' r
      → Over (suc k) w r
  more_attempts k w w' (ok resp, req, v) s l ((final, before, after), o) =
      ((final, omega arith, omega arith), omega arith)
  more_attempts k w w' (err e, req, v) s l (inl (all, why), o) =
      (inl (omega arith, why), omega arith)
  more_attempts k w w' (err e, req, v) s l (inr (from, to, why), o) =
      (inr (omega arith, omega arith, why), omega arith)

  -- The rest of the loop, behind an attempt that went out last.
  abbrev Runs : ℕ → Rest n → Type 0
  Runs k rest =
      (e : GoError) (req : n.Request) (v : n.World)
      → IsErrorOf n c sent (sent v) e
      → Over k v (rest e req v)

  judged-Over :
      (k : ℕ) (rest : Rest n) (w w' : n.World) (req : n.Request) (o : Attempt n × n.World)
      → Runs k rest
      → Still w w'
      → Judged (sent w' + 1) (live w') o
      → Over (suc k) w (judged n rest req o)
  judged-Over k rest w w' req (done resp, v) ih (s, l) (final, out, lasting) =
      ((final, omega arith, omega arith), omega arith)
  judged-Over k rest w w' req (again e, v) ih (s, l) (why, out, lasting) =
      more_attempts k w v (rest e req v) (omega arith) (omega arith) (ih e req v (rw out why))

  prepared-Over :
      (k : ℕ) (rest : Rest n) (w : n.World) (o : Option GoError × n.Request × n.World)
      → Runs k rest
      → Still w o.2
      → Stops n c sent o
      → Over (suc k) w (prepared n c rest o)
  prepared-Over k rest w (some e, req, w') ih (s, l) why =
      (inr (omega arith, omega arith, why), omega arith)
  prepared-Over k rest w (none, req, w') ih still why =
      judged-Over k rest w w' req (judge n (n.send c.http req w')) ih still (send-Judged req w')

  -- The loop behind an attempt that failed.
  attempts_from-Over :
      (k attempt : ℕ) (last : GoError) (req : n.Request) (w : n.World)
      → IsErrorOf n c sent (sent w) last
      → Over k w (attempts_from n c k attempt (some last) req w)
  unfolding attempts_from
  attempts_from-Over zero attempt last req w why =
      (inl (omega arith, (last, why, refl)), omega arith)
  attempts_from-Over (suc k) attempt last req w why =
      prepared-Over k _ w (prepare n c attempt req w) (λ e. attempts_from-Over k (suc attempt) e)
        (prepare-Still attempt req w) (prepare-Stops n c sent attempt req w)

  Ended-le :
      (k before after : ℕ) (r : Result (Response n.Body))
      → Ended n c sent k before after r
      → before ≤ after
  Ended-le k before after (ok resp) (final, more, most) = omega arith
  Ended-le k before after (err e) (inl (all, why)) = omega arith
  Ended-le k before after (err e) (inr (from, to, why)) = from

  judged_sent :
      (k : ℕ) (rest : Rest n) (w : n.World) (req : n.Request) (o : Attempt n × n.World)
      → Runs k rest
      → Judged (sent w + 1) (live w) o
      → sent w < sent (judged n rest req o).2
  judged_sent k rest w req (done resp, v) ih (final, out, lasting) = omega arith
  judged_sent k rest w req (again e, v) ih (why, out, lasting) = omega (
    arith,
    Ended-le k (sent v) (sent (rest e req v).2) (rest e req v).0 (ih e req v (rw out why)).0,
  )

  module _ (r : ℕ) (retries : c.retries ≡ pos r) (req : n.Request) (w : n.World) where
    -- The whole loop, with k rounds.
    abbrev Whole : ℕ → Type 0
    Whole k =
        (sent w < sent (attempts_from n c k 0 none req w).2)
        × Over (suc r) w (attempts_from n c k 0 none req w)

    all_rounds : Whole (suc r)
    unfolding attempts_from
    all_rounds =
        let rest : Rest n = λ e. attempts_from n c r 1 (some e) in
        let ih : Runs r rest = λ e. attempts_from-Over r 1 e in
        (
          judged_sent r rest w req (judge n (n.send c.http req w)) ih (send-Judged req w),
          judged-Over r rest w w req (judge n (n.send c.http req w)) ih (refl, refl)
              (send-Judged req w),
        )

    whole : (sent w < sent (do_request n c req w).2) × Over (suc r) w (do_request n c req w)
    unfolding do_request
    whole = subst Whole (sym (ap (rounds n) retries)) all_rounds

    -- With r retries, net/http counting requests as documented: a call sends the request at least once
    -- and at most r + 1 times. It returns a response only if its status is neither 429 nor 500 and
    -- above. It gives up only after r + 1 requests, and its error wraps that of the last of them:
    -- net/http's own, or the one that names the status, where that is 429 or 500 and above. It ends
    -- earlier with an error only where the body could not be rewound or the context was done.
    pub do_request-Ended :
        (sent w < sent (do_request n c req w).2)
        × Ended n c sent (suc r) (sent w) (sent (do_request n c req w).2) (do_request n c req w).0
    do_request-Ended = (whole.0, whole.1.0)

    -- With r retries, net/http counting response bodies as documented: a call that returns a response
    -- leaves just its body open, for the caller; one that fails leaves none of those that it received.
    pub do_request-live :
        live (do_request n c req w).2 ≡ live w + left_open (do_request n c req w).0
    do_request-live = whole.1.1
