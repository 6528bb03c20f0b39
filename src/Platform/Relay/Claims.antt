-- ===== src/Platform/Relay/Claims.antt =====
-- Which rows a drain claims, and what its marks change.
use spidey.Base.{
  ℕ, zero, suc, ◌≡◌, refl, Bool, false, ◌||◌, none, some, List, [], ◌∷◌, ◌==◌, leb, if◌then◌else◌,
  is_some, Table, find, update, map_option, find-update, take, All, arith, Bool-cases, inl, inr,
}
use spidey.Platform.Outbox.{OutboxRecord}
use spidey.Platform.Relay.{insert_row, unrelayed, claim, set_relayed, mark_relayed, mark_all}

-- The rows stand behind their event ids, once each.
abbrev pub Keyed : Table OutboxRecord → Type 0
Keyed [] = Unit
Keyed ((k, r) ∷ t) = (r.event_id ≡ k) × (r.envelope.event_id ≡ k) × (find k t ≡ none) × Keyed t

abbrev pub is_row : ℕ → List OutboxRecord → Bool
is_row i [] = false
is_row i (r ∷ rows) = r.event_id == i || is_row i rows

-- The row stands in the table and waits for the relay.
abbrev pub Stands : Table OutboxRecord → OutboxRecord → Type 0
Stands t r =
    (find r.event_id t ≡ some r) × (r.envelope.event_id ≡ r.event_id) × (r.relayed_at ≡ none)

All-insert_row :
    (P : OutboxRecord → Type 0) (r : OutboxRecord) (xs : List OutboxRecord)
    → P r
    → All P xs
    → All P (insert_row r xs)
All-insert_row P r [] p a = (p, tt)
All-insert_row P r (x ∷ xs) p a = elim (Bool-cases (leb r.created_at x.created_at)) [
  | inl e ↦ rw e (p, a)
  | inr e ↦ rw e (a.0, All-insert_row P r xs p a.1)
]

pub All-take {ℓ κ} :
    {A : Type ℓ} (P : A → Type κ) (n : ℕ) (xs : List A) → All P xs → All P (take n xs)
All-take P zero xs a = tt
All-take P (suc n) [] a = tt
All-take P (suc n) (x ∷ xs) a = (a.0, All-take P n xs a.1)

Stands-older :
    (k : ℕ) (q : OutboxRecord) (t : Table OutboxRecord) (xs : List OutboxRecord)
    → find k t ≡ none
    → All (Stands t) xs
    → All (Stands ((k, q) ∷ t)) xs
Stands-older k q t [] f a = tt
Stands-older k q t (x ∷ xs) f a = (
  elim (Bool-cases (x.event_id == k)) [ inl e ↦ absurd (ground (arith, a.0.0)) | inr e ↦ rw e a.0 ],
  Stands-older k q t xs f a.1,
)

All-unrelayed : (t : Table OutboxRecord) → Keyed t → All (Stands t) (unrelayed t)
All-unrelayed [] h = tt
All-unrelayed ((k, r) ∷ t) h =
    let rest = Stands-older k r t (unrelayed t) h.2 (All-unrelayed t h.3) in
    elim (Bool-cases (is_some r.relayed_at)) [
      | inl e ↦ rw e rest
      | inr e ↦ rw e (
          All-insert_row (Stands ((k, r) ∷ t)) r (unrelayed t)
            (ground (arith, h.0), omega (arith, h.0, h.1), ground arith) rest)
    ]

pub All-claim : (batch : ℕ) (t : Table OutboxRecord) → Keyed t → All (Stands t) (claim batch t)
unfolding claim
All-claim batch t h = All-take (Stands t) batch (unrelayed t) (All-unrelayed t h)

pub find-mark_all :
    (i now : ℕ) (rows : List OutboxRecord) (t : Table OutboxRecord)
    → find i (mark_all now rows t)
      ≡ (if is_row i rows then map_option (set_relayed now) (find i t) else find i t)
unfolding mark_relayed
find-mark_all i now [] t = refl
find-mark_all i now (r ∷ rows) t = ground (
  arith,
  find-mark_all i now rows (mark_relayed now r t),
  find-update i r.event_id (set_relayed now) t,
)

Keyed-update : (j now : ℕ) (t : Table OutboxRecord) → Keyed t → Keyed (update j (set_relayed now) t)
Keyed-update j now [] h = tt
Keyed-update j now ((k, r) ∷ t) h =
    ground (arith, Keyed-update j now t h.3, find-update k j (set_relayed now) t)

pub Keyed-mark_all :
    (now : ℕ) (rows : List OutboxRecord) (t : Table OutboxRecord)
    → Keyed t
    → Keyed (mark_all now rows t)
unfolding mark_relayed
Keyed-mark_all now [] t h = h
Keyed-mark_all now (r ∷ rows) t h =
    Keyed-mark_all now rows (mark_relayed now r t) (Keyed-update r.event_id now t h)

pub Keyed-find :
    (i : ℕ) (r : OutboxRecord) (t : Table OutboxRecord)
    → Keyed t
    → find i t ≡ some r
    → (r.event_id ≡ i) × (r.envelope.event_id ≡ i)
Keyed-find i r [] h e = absurd (ground arith)
Keyed-find i r ((k, q) ∷ t) h e = ground (arith, Keyed-find i r t h.3)
