-- ===== src/Platform/Streams.antt =====
-- backend/src/spidey/platform/events/streams.py: the commands of Redis Streams that the event plane
-- uses. Redis is a parameter, by what its documentation says of the commands. `waiting` is what a
-- group has not been handed yet of a stream. `MAXLEN` trims only streams that are longer than it, so
-- the law of XADD asks for room.
pub mod Backlog
use spidey.Base.{
  ℕ, ◌<◌, ◌≡◌, String, Bool, false, Option, none, some, List, [], ◌∷◌, ◌++◌, str_eq, if◌then◌else◌,
  length, take, drop,
}

pub record Redis (Content : Type 0) : Type 1 where
  pub State : Type 0
  -- XADD answers the id of the message.
  pub xadd : (key : String) (content : Content) (maxlen : ℕ) → State → ℕ × State
  -- XGROUP CREATE … 0 MKSTREAM: false is the answer BUSYGROUP.
  pub xgroup_create : (key group : String) → State → Bool × State
  -- XREADGROUP with the id `>` and BLOCK 0. On an empty backlog the server does not answer, so the
  -- client raises when its socket times out; that is the empty list here.
  pub xreadgroup : (key group consumer : String) (count : ℕ) → State → List (ℕ × Content) × State
  pub xack : (key group : String) (message_id : ℕ) → State → State
  pub waiting : (key group : String) → State → List (ℕ × Content)
  pub waiting-xadd :
      (k g key : String) (content : Content) (maxlen : ℕ) (s : State)
      → length (waiting k g s) < maxlen
      → waiting k g (xadd key content maxlen s).1
        ≡ waiting k g s
          ++ (if str_eq key k then ((xadd key content maxlen s).0, content) ∷ [] else [])
  pub waiting-xgroup_create :
      (k g key group : String) (s : State)
      → waiting k g (xgroup_create key group s).1 ≡ waiting k g s
  pub xreadgroup_messages :
      (k g consumer : String) (n : ℕ) (s : State)
      → (xreadgroup k g consumer n s).0 ≡ take n (waiting k g s)
  pub waiting-xreadgroup :
      (k g consumer : String) (n : ℕ) (s : State)
      → waiting k g (xreadgroup k g consumer n s).1 ≡ drop n (waiting k g s)
  -- Groups are handed a stream independently of one another.
  pub waiting-xreadgroup_other :
      (k g key group consumer : String) (n : ℕ) (s : State)
      → str_eq group g ≡ false
      → waiting k g (xreadgroup key group consumer n s).1 ≡ waiting k g s
  pub waiting-xack :
      (k g key group : String) (message_id : ℕ) (s : State)
      → waiting k g (xack key group message_id s) ≡ waiting k g s

abbrev pub default_maxlen : ℕ
default_maxlen = 10_000

-- `StreamBus`
module _ {Content : Type 0} (redis : Redis Content) where
  open redis use {State}

  unfoldable pub publish : (stream_key : String) (content : Content) → State → State
  publish stream_key content s = (redis.xadd stream_key content default_maxlen s).1

  -- A group that exists already is no error.
  unfoldable pub ensure_group : (stream_key group : String) → State → State
  ensure_group stream_key group s = (redis.xgroup_create stream_key group s).1

  -- The callers pass `block_ms=0`: none is the timeout that the client raises while the server blocks.
  abbrev pub answer_of : List (ℕ × Content) → Option (List (ℕ × Content))
  answer_of [] = none
  answer_of (m ∷ ms) = some (m ∷ ms)

  unfoldable pub read_group :
      (stream_key group consumer : String) (count : ℕ) → State → Option (List (ℕ × Content)) × State
  read_group stream_key group consumer count s =
      let (ms, s') = redis.xreadgroup stream_key group consumer count s in (answer_of ms, s')

  unfoldable pub ack : (stream_key group : String) (message_id : ℕ) → State → State
  ack stream_key group message_id s = redis.xack stream_key group message_id s

  -- The acknowledgements of a batch, one by one.
  unfoldable pub ack_all : (stream_key group : String) → List (ℕ × Content) → State → State
  unfolding ack
  ack_all stream_key group [] s = s
  ack_all stream_key group ((mid, _) ∷ ms) s =
      ack_all stream_key group ms (ack stream_key group mid s)
