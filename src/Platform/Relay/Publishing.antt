-- ===== src/Platform/Relay/Publishing.antt =====
-- What reaches the firehose when a drain publishes.
use spidey.Base.{
  suc, ◌+◌, ◌≤◌, ◌≡◌, refl, String, List, [], ◌∷◌, ◌++◌, str_eq, length, map, arith, Bool-cases,
  inl, inr, length-append, ap, ◌*◌,
}
use mathlib.Core.List.{append-nil, append_assoc}
use spidey.Platform.Outbox.{OutboxRecord, firehose}
use spidey.Platform.Streams.{Redis, default_maxlen, publish}
use spidey.Platform.Streams.Backlog.{for_firehose, backlog, backlog-publish}
use spidey.Platform.Relay.{Codec, fan_out, publish_all}

module _ {Content : Type 0} (redis : Redis Content) (group : String) where
  length-publish :
      (key : String) (content : Content) (s : redis.State)
      → suc (length (backlog redis group s)) ≤ default_maxlen
      → length (backlog redis group (publish redis key content s))
        ≤ suc (length (backlog redis group s))
  length-publish key content s h =
      rw (backlog-publish redis group key content s h) (elim (Bool-cases (str_eq key firehose)) [
        | inl e ↦ rw (e, length-append) (omega arith)
        | inr e ↦ rw (e, append-nil) (omega arith)
      ])

  pub backlog-publish_all :
      (codec : Codec Content) (ms : List (String × Content)) (s : redis.State)
      → length ms + length (backlog redis group s) ≤ default_maxlen
      → backlog redis group (publish_all redis codec ms s)
        ≡ backlog redis group s ++ for_firehose ms
  unfolding publish_all
  backlog-publish_all codec [] s h = rw append-nil refl
  backlog-publish_all codec ((key, content) ∷ ms) s h =
      let room : suc (length (backlog redis group s)) ≤ default_maxlen = omega arith in
      let s' = publish redis key content s in
      let rest : backlog redis group (publish_all redis codec ms s')
          ≡ backlog redis group s' ++ for_firehose ms =
        backlog-publish_all codec ms (publish redis key content s)
          (omega (arith, length-publish key content s room)) in
      rw (rest, backlog-publish redis group key content s room)
        (elim (Bool-cases (str_eq key firehose)) [
          | inl e ↦ rw e (simp append_assoc)
          | inr e ↦ rw (e, append-nil) refl
        ])

module _ {Content : Type 0} (redis : Redis Content) (codec : Codec Content) where
  -- Each row goes to the firehose once, in the order of the claim.
  pub for_firehose-fan_out :
      (rows : List OutboxRecord)
      → for_firehose (fan_out redis codec rows) ≡ map (λ r. codec.dumps r.envelope) rows
  for_firehose-fan_out [] = refl
  for_firehose-fan_out (r ∷ rows) = elim (Bool-cases (str_eq r.stream_key firehose)) [
    | inl e ↦ rw e (ap (λ xs. codec.dumps r.envelope ∷ xs) (for_firehose-fan_out rows))
    | inr e ↦ rw (e, e) (ap (λ xs. codec.dumps r.envelope ∷ xs) (for_firehose-fan_out rows))
  ]

  pub length-fan_out :
      (rows : List OutboxRecord) → length (fan_out redis codec rows) ≤ 2 * length rows
  length-fan_out [] = omega arith
  length-fan_out (r ∷ rows) = elim (Bool-cases (str_eq r.stream_key firehose)) [
    | inl e ↦ rw e (omega (arith, length-fan_out rows))
    | inr e ↦ rw e (omega (arith, length-fan_out rows))
  ]
