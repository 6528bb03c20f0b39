-- ===== src/Memory/Service/Deletion.antt =====
-- `delete` in backend/src/spidey/memory/application/memory_service.py.
use spidey.Base.{
  ℕ, ◌≡◌, refl, true, false, none, ◌==◌, is_some, find, find-delete_row, ==_iff, Bool-cases, inl,
  inr, arith,
}
use spidey.Memory.Store
use spidey.Memory.Service.{Recall, MemoryWorld, delete}

-- A deletion that answers true leaves neither the record nor its vector, and every other record and vector as
-- it was.
pub delete_erases :
    (R : Recall) (user_id memory_id : ℕ) (w : MemoryWorld R)
    → (delete R user_id memory_id w).0 ≡ true
    → (find memory_id (delete R user_id memory_id w).1.rows ≡ none)
      × (find memory_id (delete R user_id memory_id w).1.points ≡ none)
      × ((k : ℕ)
          → (k == memory_id) ≡ false
          → (find k (delete R user_id memory_id w).1.rows ≡ find k w.rows)
            × (find k (delete R user_id memory_id w).1.points ≡ find k w.points))
unfolding delete Store.delete
delete_erases R user_id memory_id w =
    elim (Bool-cases (is_some (Store.get R.F user_id memory_id w.rows))) [
      | inl e ↦
          let own : (memory_id == memory_id) ≡ true = (==_iff memory_id memory_id).1 refl in
          rw e (λ h. (
            rw (find-delete_row memory_id memory_id w.rows, own) refl,
            rw (find-delete_row memory_id memory_id w.points, own) refl,
            λ k other. (
              rw (find-delete_row k memory_id w.rows, other) refl,
              rw (find-delete_row k memory_id w.points, other) refl,
            ),
          ))
      | inr e ↦ rw e (λ h. absurd (ground (arith, h)))
    ]
