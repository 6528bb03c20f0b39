-- ===== src/Workspaces/Edits/Applied.antt =====
-- `apply_exact_edit` in backend/src/spidey/workspaces/application/edits.py: what becomes of the file.
use Prim.Native.Char.{Char}
use Prim.Native.String.{◌++◌ as append}
use text.Mathlib.TextEquality.{Char-path}
use text.Mathlib.TextLemmas.{nil-append, cons-append}
use spidey.Base.{
  ℕ, zero, suc, ◌≤◌, ◌≡◌, ◌≢◌, refl, sym, ap, subst, ◌∙◌, String, Bool, true, false, Option, none,
  some, List, [], ◌∷◌, is_empty, starts_with, str_len, str_truthy, ltb, Bool-cases, inl, inr, arith,
  ◌⊎◌,
}
use spidey.Workspaces.Edits.{
  Fault, Read, value, fault, SafeFileSystem, EditOutcome, applied, impossible, refused, Screens,
  str_drop, occurrences, replace_first, Resolved, contents, cannot, unique_match, match_text,
  check_size, replace_in, create_in, resolve, written, apply_resolved, apply_exact_edit,
  max_edit_bytes,
}

starts_with-append : (p s : String) → starts_with p s ≡ true → s ≡ append p (str_drop (str_len p) s)
starts_with-append String.[] s h = sym (nil-append s)
starts_with-append (String.◌∷◌ c p) String.[] h = absurd (ground arith)
starts_with-append (String.◌∷◌ c p) (String.◌∷◌ d s) h =
    let same : d ≡ c = Char-path d c (ground (arith, h)) in
    let rest = starts_with-append p s (ground (arith, h)) in
    rw cons-append (
      subst (λ (e : Char). String.◌∷◌ e s ≡ String.◌∷◌ c (append p (str_drop (str_len p) s)))
        (sym same) (ap (String.◌∷◌ c) rest))

-- A text with an occurrence falls into a part before it, the occurrence and a part behind it, and the
-- replacement puts the new text between the same parts.
replaced_between :
    (old new s : String)
    → occurrences old 0 s ≢ 0
    → (pre : String) × (post : String) × (s ≡ append pre (append old post))
      × (replace_first old new s ≡ append pre (append new post))
replaced_between old new String.[] h = absurd (h refl)
replaced_between old new (String.◌∷◌ c s) h = elim (Bool-cases (starts_with old (String.◌∷◌ c s))) [
  | inl e ↦
      let post = str_drop (str_len old) (String.◌∷◌ c s) in
      (
        String.[],
        post,
        starts_with-append old (String.◌∷◌ c s) e ∙ sym (nil-append (append old post)),
        rw e (sym (nil-append (append new post))),
      )
  | inr e ↦
      let (pre, post, whole, new_whole) =
        replaced_between old new s (λ z. h (rw e (omega (arith, z)))) in
      (
        String.◌∷◌ c pre,
        post,
        ap (String.◌∷◌ c) whole ∙ sym (cons-append c pre (append old post)),
        rw e (ap (String.◌∷◌ c) new_whole ∙ sym (cons-append c pre (append new post))),
      )
]

not_truthy : (s : String) → str_truthy s ≡ false → s ≡ String.[]
not_truthy String.[] h = refl
not_truthy (String.◌∷◌ c s) h = absurd (ground arith)

list_cases : {A : Type 0} (xs : List A) → (xs ≡ []) ⊎ ((is_empty xs ≡ false) × (xs ≢ []))
list_cases [] = inl refl
list_cases (x ∷ xs) = inr (refl, λ z. ground (arith, z))

module _ (fs : SafeFileSystem) (path old new : String) where
  open fs use {State, exists, is_file, size, read_text, write_text}

  -- The contents before and after that an edit of a file in a state may have.
  pub data Change (s : State) : (before after : String) → Type 0 where
    created : old ≡ String.[] → exists path s ≡ value false → Change s "" new
    replaced :
        {before after : String} (n : ℕ) (pre post : String)
        → is_file path s ≡ value true
        → size path s ≡ value n
        → n ≤ max_edit_bytes
        → read_text path s ≡ value before
        → before ≡ append pre (append old post)
        → occurrences old 0 before ≡ 1
        → after ≡ append pre (append new post)
        → Change s before after

  pub data IsSettled (s : State) : Read Resolved → Type 0 where
    has_contents :
        {before after : String}
        → Change s before after
        → IsSettled s (value (contents before after))
    is_cannot : (e : String) → IsSettled s (value (cannot e))
    is_fault : (f : Fault) → IsSettled s (fault f)

  match_text-IsSettled :
      (s : State) (n : ℕ)
      → is_file path s ≡ value true
      → size path s ≡ value n
      → n ≤ max_edit_bytes
      → (t : Read String) → read_text path s ≡ t
      → IsSettled s (match_text fs old new t)
  match_text-IsSettled s n file sized small (fault f) h = is_fault f
  match_text-IsSettled s n file sized small (value before) h = go (occurrences old 0 before) refl
    where
      go :
          (k : ℕ)
          → occurrences old 0 before ≡ k
          → IsSettled s (value (unique_match old new before k))
      go zero e = is_cannot _
      go (suc zero) e =
          let (pre, post, whole, new_whole) =
            replaced_between old new before (λ z. omega (arith, e, z)) in
          has_contents (replaced n pre post file sized small h whole e new_whole)
      go (suc (suc k)) e = is_cannot _

  check_size-IsSettled :
      (s : State)
      → is_file path s ≡ value true
      → (n : Read ℕ) → size path s ≡ n
      → IsSettled s (check_size fs path old new n s)
  check_size-IsSettled s file (fault f) sized = is_fault f
  check_size-IsSettled s file (value n) sized = elim (Bool-cases (ltb max_edit_bytes n)) [
    | inl e ↦ rw e (is_cannot _)
    | inr e ↦ rw e (match_text-IsSettled s n file sized (ground (arith, e)) (read_text path s) refl)
  ]

  replace_in-IsSettled :
      (s : State) (b : Read Bool)
      → is_file path s ≡ b
      → IsSettled s (replace_in fs path old new b s)
  replace_in-IsSettled s (fault f) h = is_fault f
  replace_in-IsSettled s (value false) h = is_cannot _
  replace_in-IsSettled s (value true) h = check_size-IsSettled s h (size path s) refl

  create_in-IsSettled :
      (s : State) (b : Read Bool)
      → exists path s ≡ b
      → old ≡ String.[]
      → IsSettled s (create_in fs path new b)
  create_in-IsSettled s (fault f) h e = is_fault f
  create_in-IsSettled s (value true) h e = is_cannot _
  create_in-IsSettled s (value false) h e = has_contents (created e h)

  resolve-IsSettled : (s : State) → IsSettled s (resolve fs path old new s)
  unfolding resolve
  resolve-IsSettled s = elim (Bool-cases (str_truthy old)) [
    | inl e ↦ rw e (replace_in-IsSettled s (is_file path s) refl)
    | inr e ↦ rw e (create_in-IsSettled s (exists path s) refl (not_truthy old e))
  ]

  module _ {Finding : Type 0} (S : Screens Finding) where
    -- An edit that is applied or whose write faults has a diff without a finding; any other edit leaves
    -- the state.
    pub data IsEdit (s : State) : Read EditOutcome × State → Type 0 where
      is_applied :
          {before after : String} {s' : State}
          → Change s before after
          → S.scan_for_secrets (S.unified_diff path before after) ≡ []
          → write_text path after s ≡ (none, s')
          → IsEdit s (value (applied (S.unified_diff path before after)), s')
      is_write_fault :
          {before after : String} {s' : State} {f : Fault}
          → Change s before after
          → S.scan_for_secrets (S.unified_diff path before after) ≡ []
          → write_text path after s ≡ (some f, s')
          → IsEdit s (fault f, s')
      is_refused :
          {before after : String}
          → Change s before after
          → S.scan_for_secrets (S.unified_diff path before after) ≢ []
          → IsEdit s (
            value (
                refused
                  (S.describe_findings (S.scan_for_secrets (S.unified_diff path before after)))),
            s,
          )
      is_impossible : (e : String) → IsEdit s (value (impossible e), s)
      is_read_fault : (f : Fault) → IsEdit s (fault f, s)

    written-IsEdit :
        {before after : String} (s : State)
        → Change s before after
        → S.scan_for_secrets (S.unified_diff path before after) ≡ []
        → (r : Option Fault × State) → write_text path after s ≡ r
        → IsEdit s (written fs S (S.unified_diff path before after) r)
    written-IsEdit s c clean (none, s') h = is_applied c clean h
    written-IsEdit s c clean (some f, s') h = is_write_fault c clean h

    apply_resolved-IsEdit :
        (s : State) (r : Read Resolved) → IsSettled s r → IsEdit s (apply_resolved fs S path r s)
    apply_resolved-IsEdit s (fault f) h = is_read_fault f
    apply_resolved-IsEdit s (value (cannot e)) h = is_impossible e
    apply_resolved-IsEdit s (value (contents before after)) (has_contents c) =
        elim (list_cases (S.scan_for_secrets (S.unified_diff path before after))) [
          | inl e ↦ rw e (written-IsEdit s c e (write_text path after s) refl)
          | inr (e, n) ↦ rw e (is_refused c n)
        ]

    -- `apply_exact_edit` ends in one of five ways.
    pub apply_exact_edit-IsEdit : (s : State) → IsEdit s (apply_exact_edit fs S path old new s)
    unfolding apply_exact_edit
    apply_exact_edit-IsEdit s =
        apply_resolved-IsEdit s (resolve fs path old new s) (resolve-IsSettled s)
