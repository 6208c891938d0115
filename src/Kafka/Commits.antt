-- ===== src/Kafka/Commits.antt =====
-- At-least-once delivery of the consumer in messaging/kafka/kafka.go.
use idp_sdk.Common.{
  ℕ, zero, suc, ◌≡◌, refl, sym, ap, ◌∙◌, ◌⊎◌, inl, inr, Option, none, some, List, [], ◌∷◌, GoError,
  Result, ok, err,
}
use idp_sdk.Common.{◌++◌}
use mathlib.Core.List.{append_assoc, append-nil}
use idp_sdk.Common.Failure.{wrap_with}
use idp_sdk.Kafka.{
  Reader, Handler, Round, not_fetched, committed, handled, fetched, consume_round, or_rounds,
  consume,
}

-- The messages whose handling returned nil, and those whose offset was committed, in order: the
-- handler adds to the first, CommitMessages to the second, and fetching to neither.
pub record Ledger (k : Reader) (handler : Handler k) (done kept : k.World → List k.Message)
    : Type 0 where
  pub fetch_adds_none :
      (w : k.World) → (done (k.fetch_message w).1 ≡ done w) × (kept (k.fetch_message w).1 ≡ kept w)
  pub succeeds :
      (m : k.Message) (w : k.World)
      → (handler m w).0 ≡ none
      → done (handler m w).1 ≡ done w ++ (m ∷ [])
  pub handler_fails :
      (m : k.Message) (w : k.World) (e : GoError)
      → (handler m w).0 ≡ some e
      → done (handler m w).1 ≡ done w
  pub kept_handler : (m : k.Message) (w : k.World) → kept (handler m w).1 ≡ kept w
  pub commits :
      (m : k.Message) (w : k.World)
      → (k.commit_messages m w).0 ≡ none
      → kept (k.commit_messages m w).1 ≡ kept w ++ (m ∷ [])
  pub commit_fails :
      (m : k.Message) (w : k.World) (e : GoError)
      → (k.commit_messages m w).0 ≡ some e
      → kept (k.commit_messages m w).1 ≡ kept w
  pub done_commit : (m : k.Message) (w : k.World) → done (k.commit_messages m w).1 ≡ done w

module _ (k : Reader) (handler : Handler k) (done kept : k.World → List k.Message)
    (t : Ledger k handler done kept) where
  -- A run: the messages that it committed are those that it handled, in order; only where an error
  -- ends it, one more may be handled.
  abbrev pub Run : k.World → Round k → Type 0
  Run w (none, w') = (ms : List k.Message) × (kept w' ≡ kept w ++ ms) × (done w' ≡ done w ++ ms)
  Run w (some e, w') =
      (ms : List k.Message) × (kept w' ≡ kept w ++ ms)
      × ((done w' ≡ done w ++ ms)
          ⊎ ((last : k.Message) × (done w' ≡ done w ++ (ms ++ (last ∷ [])))))

  ended : (w w' : k.World) (e : GoError) → done w' ≡ done w → kept w' ≡ kept w → Run w (some e, w')
  ended w w' e d s = ([], s ∙ sym (append-nil (kept w)), inl (d ∙ sym (append-nil (done w))))

  committed-Run :
      (w : k.World) (m : k.Message) (o : Option GoError × k.World)
      → done o.1 ≡ done w ++ (m ∷ [])
      → (o.0 ≡ none → kept o.1 ≡ kept w ++ (m ∷ []))
      → ((e : GoError) → o.0 ≡ some e → kept o.1 ≡ kept w)
      → Run w (committed k o)
  committed-Run w m (none, w') d good bad = (m ∷ [], good refl, d)
  committed-Run w m (some e, w') d good bad =
      ([], bad e refl ∙ sym (append-nil (kept w)), inr (m, d))

  handled-Run :
      (w : k.World) (m : k.Message) (o : Option GoError × k.World)
      → kept o.1 ≡ kept w
      → (o.0 ≡ none → done o.1 ≡ done w ++ (m ∷ []))
      → ((e : GoError) → o.0 ≡ some e → done o.1 ≡ done w)
      → Run w (handled k m o)
  handled-Run w m (some e, w') s good bad =
      ended w w' (wrap_with "kafka: handler error, stopping consume loop: " e) (bad e refl) s
  handled-Run w m (none, w') s good bad =
      committed-Run w m (k.commit_messages m w') (t.done_commit m w' ∙ good refl)
        (λ h. t.commits m w' h ∙ ap (λ l. l ++ (m ∷ [])) s) (λ e h. t.commit_fails m w' e h ∙ s)

  fetched-Run :
      (w : k.World) (r : Result k.Message × k.World)
      → done r.1 ≡ done w
      → kept r.1 ≡ kept w
      → Run w (fetched k handler r)
  fetched-Run w (ok m, w') d s =
      handled-Run w m (handler m w') (t.kept_handler m w' ∙ s)
        (λ h. t.succeeds m w' h ∙ ap (λ l. l ++ (m ∷ [])) d) (λ e h. t.handler_fails m w' e h ∙ d)
  fetched-Run w (err e, w') d s = by_context (k.context_error w')
    where
      by_context : (o : Option GoError) → Run w (not_fetched k e o, w')
      by_context none = ended w w' (wrap_with "kafka: fetch message: " e) d s
      by_context (some c) = ended w w' c d s

  longer : (a b c xs ys : List k.Message) → b ≡ a ++ xs → c ≡ b ++ ys → c ≡ a ++ (xs ++ ys)
  longer a b c xs ys p q = q ∙ ap (λ l. l ++ ys) p ∙ append_assoc a xs ys

  -- A run behind rounds that did not end the loop.
  behind :
      (w w' : k.World) (ms : List k.Message)
      → kept w' ≡ kept w ++ ms
      → done w' ≡ done w ++ ms
      → (o : Round k) → Run w' o
      → Run w o
  behind w w' ms s d (none, v) (ns, s', d') = (
    ms ++ ns,
    longer (kept w) (kept w') (kept v) ms ns s s',
    longer (done w) (done w') (done v) ms ns d d',
  )
  behind w w' ms s d (some e, v) (ns, s', inl d') = (
    ms ++ ns,
    longer (kept w) (kept w') (kept v) ms ns s s',
    inl (longer (done w) (done w') (done v) ms ns d d'),
  )
  behind w w' ms s d (some e, v) (ns, s', inr (last, d')) = (
    ms ++ ns,
    longer (kept w) (kept w') (kept v) ms ns s s',
    inr (
      last,
      longer (done w) (done w') (done v) ms (ns ++ (last ∷ [])) d d'
          ∙ ap (λ l. done w ++ l) (sym (append_assoc ms ns (last ∷ []))),
    ),
  )

  or_rounds-Run :
      (w : k.World) (r : Round k) (rest : k.World → Round k)
      → Run w r
      → ((v : k.World) → Run v (rest v))
      → Run w (or_rounds k r rest)
  or_rounds-Run w (some e, w') rest run later = run
  or_rounds-Run w (none, w') rest (ms, s, d) later = behind w w' ms s d (rest w') (later w')

  -- However many rounds the loop makes, kafka-go and the handler counting as documented: the offsets
  -- that it commits are those of the messages that the handler handled without an error, in order, so
  -- that none is committed unhandled; and where an error ends the loop, at most the last message was
  -- handled without being committed.
  pub consume-Run : (n : ℕ) (w : k.World) → Run w (consume k n handler w)
  unfolding consume consume_round
  consume-Run zero w = ([], sym (append-nil (kept w)), sym (append-nil (done w)))
  consume-Run (suc n) w =
      let (d, s) = t.fetch_adds_none w in
      or_rounds-Run w (consume_round k handler w) (λ v. consume k n handler v)
        (fetched-Run w (k.fetch_message w) d s) (consume-Run n)
