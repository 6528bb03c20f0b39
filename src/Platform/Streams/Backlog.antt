-- ===== src/Platform/Streams/Backlog.antt =====
-- What a consumer group has still to read of the firehose, as the contents of its messages.
use spidey.Base.{
  ℕ, zero, suc, ◌≤◌, ◌≡◌, refl, String, List, [], ◌∷◌, ◌++◌, str_eq, if◌then◌else◌, length, take,
  sym, ap, Option, none, some, is_empty, drop, arith, Bool-cases, inl, inr, false,
}
use spidey.Platform.Outbox.{firehose}
use spidey.Platform.Streams.{
  Redis, default_maxlen, publish, ensure_group, read_group, answer_of, ack, ack_all,
}

abbrev pub contents : {Content : Type 0} → List (ℕ × Content) → List Content
contents [] = []
contents ((_, content) ∷ ms) = content ∷ contents ms

pub length-contents :
    {Content : Type 0} (ms : List (ℕ × Content)) → length (contents ms) ≡ length ms
length-contents [] = refl
length-contents (m ∷ ms) = omega (arith, length-contents ms)

pub contents-append :
    {Content : Type 0} (xs ys : List (ℕ × Content))
    → contents (xs ++ ys) ≡ contents xs ++ contents ys
contents-append [] ys = refl
contents-append (x ∷ xs) ys = simp (contents-append xs ys)

pub contents-take :
    {Content : Type 0} (n : ℕ) (ms : List (ℕ × Content))
    → contents (take n ms) ≡ take n (contents ms)
contents-take zero ms = refl
contents-take (suc n) [] = refl
contents-take (suc n) (m ∷ ms) = simp (contents-take n ms)

pub contents-drop :
    {Content : Type 0} (n : ℕ) (ms : List (ℕ × Content))
    → contents (drop n ms) ≡ drop n (contents ms)
contents-drop zero ms = refl
contents-drop (suc n) [] = refl
contents-drop (suc n) (m ∷ ms) = contents-drop n ms

-- The messages for the firehose among those that are published.
abbrev pub for_firehose : {Content : Type 0} → List (String × Content) → List Content
for_firehose [] = []
for_firehose ((key, content) ∷ ms) =
    if str_eq key firehose then content ∷ for_firehose ms else for_firehose ms

module _ {Content : Type 0} (redis : Redis Content) (group : String) where
  abbrev pub backlog : redis.State → List Content
  backlog s = contents (redis.waiting firehose group s)

  pub backlog-publish :
      (key : String) (content : Content) (s : redis.State)
      → suc (length (backlog s)) ≤ default_maxlen
      → backlog (publish redis key content s)
        ≡ backlog s ++ (if str_eq key firehose then content ∷ [] else [])
  unfolding publish
  backlog-publish key content s h =
      rw
        (
          redis.waiting-xadd firehose group key content default_maxlen s
              (omega (arith, length-contents (redis.waiting firehose group s))),
          contents-append,
        )
        (elim (Bool-cases (str_eq key firehose)) [ inl e ↦ rw e refl | inr e ↦ rw e refl ])

  pub backlog-ensure_group :
      (g : String) (s : redis.State) → backlog (ensure_group redis firehose g s) ≡ backlog s
  unfolding ensure_group
  backlog-ensure_group g s = rw (redis.waiting-xgroup_create firehose group firehose g s) refl

  pub backlog-ack_all :
      (key g : String) (ms : List (ℕ × Content)) (s : redis.State)
      → backlog (ack_all redis key g ms s) ≡ backlog s
  unfolding ack_all ack
  backlog-ack_all key g [] s = refl
  backlog-ack_all key g ((mid, _) ∷ ms) s =
      rw
        (
          backlog-ack_all key g ms (redis.xack key g mid s),
          redis.waiting-xack firehose group key g mid s,
        )
        refl

  -- What an answer holds: some messages, or the timeout where there are none.
  abbrev pub Answers : Option (List (ℕ × Content)) → List Content → Type 0
  Answers none cs = cs ≡ []
  Answers (some ms) cs = (contents ms ≡ cs) × (is_empty cs ≡ false)

  answer_of-Answers :
      (ms : List (ℕ × Content)) (cs : List Content)
      → contents ms ≡ cs
      → Answers (answer_of redis ms) cs
  answer_of-Answers [] cs h = sym h
  answer_of-Answers (m ∷ ms) cs h = (h, ap is_empty (sym h))

  pub read_group-Answers :
      (consumer : String) (n : ℕ) (s : redis.State)
      → Answers (read_group redis firehose group consumer n s).0 (take n (backlog s))
  unfolding read_group
  read_group-Answers consumer n s =
      answer_of-Answers (redis.xreadgroup firehose group consumer n s).0 (take n (backlog s))
        (rw (redis.xreadgroup_messages firehose group consumer n s, contents-take) refl)

  pub backlog-read_group :
      (consumer : String) (n : ℕ) (s : redis.State)
      → backlog (read_group redis firehose group consumer n s).1 ≡ drop n (backlog s)
  unfolding read_group
  backlog-read_group consumer n s =
      rw (redis.waiting-xreadgroup firehose group consumer n s, contents-drop) refl

  pub backlog-read_group_other :
      (g consumer : String) (n : ℕ) (s : redis.State)
      → str_eq g group ≡ false
      → backlog (read_group redis firehose g consumer n s).1 ≡ backlog s
  unfolding read_group
  backlog-read_group_other g consumer n s h =
      rw (redis.waiting-xreadgroup_other firehose group firehose g consumer n s h) refl
