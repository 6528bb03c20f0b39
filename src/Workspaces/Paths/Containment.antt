-- ===== src/Workspaces/Paths/Containment.antt =====
-- What a path that passes is like.
use Prim.Native.Char.{Char, code}
use spidey.Base.{
  ℕ, ◌≡◌, refl, sym, ap, ◌∙◌, String, Bool, true, false, not, ◌||◌, List, [], ◌∷◌, ◌++◌, ◌==◌,
  if◌then◌else◌, keep, All, Bool-cases, inl, inr, arith, str_eq, str_len, str_truthy, str_strip,
  is_space, subst, is_empty,
}
use mathlib.Core.List.{append-nil, append_assoc}
use spidey.Workspaces.Paths.{
  Normalized, violation, relative, has_code, unify, is_drive, starts_slash, extend, segments,
  is_part, parts, has_parent, cleaned, normalize_relative_path, slash,
}

-- A name of one entry of a directory: no empty text, no dot, no parent, no separator, no NUL byte.
pub record IsName (p : String) : Type 0 where
  pub truthy : str_truthy p ≡ true
  pub dot : str_eq p "." ≡ false
  pub parent : str_eq p ".." ≡ false
  pub no_slash : has_code 47 p ≡ false
  pub no_backslash : has_code 92 p ≡ false
  pub no_nul : has_code 0 p ≡ false

-- A text without a code point, as a predicate on texts.
abbrev Lacks : ℕ → String → Type 0
Lacks k p = has_code k p ≡ false

Lacks-extend :
    (k : ℕ) (c : Char) (ps : List String)
    → (code c == k) ≡ false
    → All (Lacks k) ps
    → All (Lacks k) (extend c ps)
Lacks-extend k c [] h a = (rw h refl, tt)
Lacks-extend k c (p ∷ ps) h a = (rw (h, a.0) refl, a.1)

no_slash-segments : (s : String) → All (Lacks 47) (segments s)
no_slash-segments String.[] = (refl, tt)
no_slash-segments (String.◌∷◌ c s) = elim (Bool-cases (code c == 47)) [
  | inl e ↦ rw e (refl, no_slash-segments s)
  | inr e ↦ rw e (Lacks-extend 47 c (segments s) e (no_slash-segments s))
]

Lacks-segments : (k : ℕ) (s : String) → has_code k s ≡ false → All (Lacks k) (segments s)
Lacks-segments k String.[] h = (refl, tt)
Lacks-segments k (String.◌∷◌ c s) h =
    let rest = Lacks-segments k s (ground (arith, h)) in
    elim (Bool-cases (code c == 47)) [
      | inl e ↦ rw e (refl, rest)
      | inr e ↦ rw e (Lacks-extend k c (segments s) (ground (arith, h)) rest)
    ]

no_backslash-unify : (s : String) → has_code 92 (unify s) ≡ false
no_backslash-unify String.[] = refl
no_backslash-unify (String.◌∷◌ c s) = elim (Bool-cases (code c == 92)) [
  | inl e ↦ rw e (no_backslash-unify s)
  | inr e ↦ rw (e, e) (no_backslash-unify s)
]

no_nul-unify : (s : String) → has_code 0 s ≡ false → has_code 0 (unify s) ≡ false
no_nul-unify String.[] h = refl
no_nul-unify (String.◌∷◌ c s) h =
    let rest = no_nul-unify s (ground (arith, h)) in
    elim (Bool-cases (code c == 92)) [ inl e ↦ rw e rest | inr e ↦ rw e (ground (arith, h, rest)) ]

All-keep :
    (P : String → Type 0) (f : String → Bool) (ps : List String) → All P ps → All P (keep f ps)
All-keep P f [] a = tt
All-keep P f (p ∷ ps) a = elim (Bool-cases (f p)) [
  | inl e ↦ rw e (a.0, All-keep P f ps a.1)
  | inr e ↦ rw e (All-keep P f ps a.1)
]

kept_parts : (ps : List String) → All (λ p. is_part p ≡ true) (keep is_part ps)
kept_parts [] = tt
kept_parts (p ∷ ps) = elim (Bool-cases (is_part p)) [
  | inl e ↦ rw e (e, kept_parts ps)
  | inr e ↦ rw e (kept_parts ps)
]

no_parents : (ps : List String) → has_parent ps ≡ false → All (λ p. str_eq p ".." ≡ false) ps
no_parents [] h = tt
no_parents (p ∷ ps) h = (ground (arith, h), no_parents ps (ground (arith, h)))

all_names :
    (ps : List String)
    → All (λ p. is_part p ≡ true) ps
    → All (λ p. str_eq p ".." ≡ false) ps
    → All (Lacks 47) ps
    → All (Lacks 92) ps
    → All (Lacks 0) ps
    → All IsName ps
all_names [] a b c d e = tt
all_names (p ∷ ps) a b c d e = (
  record {
    truthy = ground (arith, a.0);
    dot = ground (arith, a.0);
    parent = b.0;
    no_slash = c.0;
    no_backslash = d.0;
    no_nul = e.0;
  },
  all_names ps a.1 b.1 c.1 d.1 e.1,
)

keep_twice : (f : String → Bool) (ps : List String) → keep f (keep f ps) ≡ keep f ps
keep_twice f [] = refl
keep_twice f (p ∷ ps) = elim (Bool-cases (f p)) [
  | inl e ↦ rw (e, e) (ap (λ qs. p ∷ qs) (keep_twice f ps))
  | inr e ↦ rw e (keep_twice f ps)
]

parts-names :
    (raw : String)
    → has_code 0 raw ≡ false
    → has_parent (parts (unify raw)) ≡ false
    → All IsName (parts (unify raw))
parts-names raw nul up =
    let s = unify raw in
    all_names (parts s) (kept_parts (segments s)) (no_parents (parts s) up)
      (All-keep (Lacks 47) is_part (segments s) (no_slash-segments s))
      (All-keep (Lacks 92) is_part (segments s) (Lacks-segments 92 s (no_backslash-unify raw)))
      (All-keep (Lacks 0) is_part (segments s) (Lacks-segments 0 s (no_nul-unify raw nul)))

gates :
    (empty nul drive slashed above : Bool) (x : Normalized) (ps : List String)
    → (if empty
        then violation "path must not be empty"
        else if nul
        then violation "path must not contain a NUL byte"
        else if drive
        then violation "drive-qualified paths are not permitted"
        else if slashed
        then violation "absolute paths are not permitted"
        else if above
        then violation "parent-directory traversal is not permitted"
        else x)
      ≡ relative ps
    → (nul ≡ false) × (above ≡ false) × (drive ≡ false) × (x ≡ relative ps)
gates empty nul drive slashed above x ps h = ground arith

passes :
    (raw : String) (ps : List String)
    → normalize_relative_path raw ≡ relative ps
    → (has_code 0 raw ≡ false)
      × (has_parent (parts (unify raw)) ≡ false)
      × (is_drive (unify raw) ≡ false)
      × (cleaned (keep is_part (parts (unify raw))) ≡ relative ps)
unfolding normalize_relative_path
passes raw ps h =
    let s = unify raw in
    gates (not (str_truthy raw) || not (str_truthy (str_strip is_space raw))) (has_code 0 raw)
      (is_drive s) (starts_slash s) (has_parent (parts s)) (cleaned (keep is_part (parts s))) ps h

abbrev said : Normalized → ℕ
said (violation t) = str_len t
said (relative _) = 0

not_nul :
    (empty nul : Bool) (x : Normalized)
    → (if empty
        then violation "path must not be empty"
        else if nul
        then violation "path must not contain a NUL byte"
        else x)
      ≡ violation "drive-qualified paths are not permitted"
    → nul ≡ false
not_nul true nul x h = absurd (omega (arith, ap said h))
not_nul false true x h = absurd (omega (arith, ap said h))
not_nul false false x h = refl

abbrev dot : Char
dot = "."

-- Where the operating system gets from a directory by a path's parts.
abbrev up : List String → List String
up [] = []
up (d ∷ []) = []
up (d ∷ e ∷ ds) = d ∷ up (e ∷ ds)

pub resolve_parts : List String → List String → List String
resolve_parts dir [] = dir
resolve_parts dir (p ∷ ps) =
    resolve_parts
      (if str_eq p ".."
        then up dir
        else if not (str_truthy p) || str_eq p "."
        then dir
        else dir ++ (p ∷ []))
      ps

resolve_parts-names : (dir ps : List String) → All IsName ps → resolve_parts dir ps ≡ dir ++ ps
unfolding resolve_parts
resolve_parts-names dir [] a = sym (append-nil dir)
resolve_parts-names dir (p ∷ ps) a =
    rw (a.0.parent, a.0.truthy, a.0.dot)
      (resolve_parts-names (dir ++ (p ∷ [])) ps a.1 ∙ append_assoc dir (p ∷ []) ps)

cleaned-relative :
    (ps qs : List String) → cleaned ps ≡ relative qs → (ps ≡ qs) × (is_empty ps ≡ false)
cleaned-relative [] qs h = absurd (ground arith)
cleaned-relative (p ∷ ps) qs h = (ground arith, refl)

-- A path that passes leads strictly below the workspace's root, one name at a time: every part of it is
-- a name with neither a separator nor a NUL byte, and resolving it from any root only descends.
pub normalize_relative_path-Names :
    (raw : String) (root ps : List String)
    → normalize_relative_path raw ≡ relative ps
    → All IsName ps × (resolve_parts root ps ≡ root ++ ps) × (is_empty ps ≡ false)
normalize_relative_path-Names raw root ps h =
    let (nul, above, drive, c) = passes raw ps h in
    let twice = keep_twice is_part (segments (unify raw)) in
    let (same, some_part) = cleaned-relative (keep is_part (parts (unify raw))) ps c in
    let names : All IsName ps = subst (All IsName) (sym twice ∙ same) (parts-names raw nul above) in
    (names, resolve_parts-names root ps names, subst (λ qs. is_empty qs ≡ false) same some_part)

-- A path that is refused for its drive passes behind `./`, with the drive as its first part, if
-- it has no parent segment.
pub normalize_relative_path_drive :
    (s p : String) (ps : List String)
    → normalize_relative_path s ≡ violation "drive-qualified paths are not permitted"
    → has_parent (parts (unify s)) ≡ false
    → parts (unify s) ≡ p ∷ ps
    → normalize_relative_path (String.◌∷◌ dot (String.◌∷◌ slash s)) ≡ relative (p ∷ ps)
unfolding normalize_relative_path str_strip
normalize_relative_path_drive s p ps h above q =
    let nul : has_code 0 s ≡ false =
      not_nul (not (str_truthy s) || not (str_truthy (str_strip is_space s))) (has_code 0 s) _ h in
    rw (nul, above, keep_twice is_part (segments (unify s)), q) refl
