-- ===== src/Identity/Lockout.antt =====
-- backend/src/spidey/identity/infrastructure/redis_guard.py `RedisLockoutStore`: two kinds of keys with
-- their times of expiry. Each method talks to Redis once here: it answers, or it does not.
use spidey.Base.{
  ℕ, ◌+◌, String, Bool, false, Option, none, some, List, [], ◌∷◌, ltb, leb, if◌then◌else◌, str_eq,
}

-- The streak of failures of a key, and when it decays.
pub record Streak : Type 0 where
  pub count : ℕ
  pub until : ℕ

pub record LockoutStore : Type 0 where
  pub streaks : List (String × Streak)
  pub locks : List (String × ℕ)

module _ {V : Type 0} where
  abbrev pub look : String → List (String × V) → Option V
  look k [] = none
  look k ((j, v) ∷ t) = if str_eq j k then some v else look k t

  abbrev pub drop_key : String → List (String × V) → List (String × V)
  drop_key k [] = []
  drop_key k ((j, v) ∷ t) = if str_eq j k then drop_key k t else (j, v) ∷ drop_key k t

  abbrev pub set_key : String → V → List (String × V) → List (String × V)
  set_key k v t = (k, v) ∷ drop_key k t

abbrev live_until : ℕ → Option ℕ → Bool
live_until now none = false
live_until now (some t) = ltb now t

unfoldable pub is_locked : (key : String) (now : ℕ) → LockoutStore → Bool
is_locked key now s = live_until now (look key s.locks)

abbrev streak_count : ℕ → Option Streak → ℕ
streak_count now none = 0
streak_count now (some s) = if ltb now s.until then s.count else 0

-- The failures of a key in its running streak.
unfoldable pub failures_of : (key : String) (now : ℕ) → LockoutStore → ℕ
failures_of key now s = streak_count now (look key s.streaks)

unfoldable pub register_failure :
    (key : String) (threshold lock_seconds now : ℕ) → LockoutStore → ℕ × LockoutStore
register_failure key threshold lock_seconds now s =
    let failures = failures_of key now s + 1 in
    (
      failures,
      if leb threshold failures
          then record {
            streaks = drop_key key s.streaks;
            locks = set_key key (now + lock_seconds) s.locks;
          }
          else record s {
            streaks =
                set_key key (record { count = failures; until = now + lock_seconds }) s.streaks;
          },
    )

unfoldable pub reset : String → LockoutStore → LockoutStore
reset key s = record { streaks = drop_key key s.streaks; locks = drop_key key s.locks }
