-- ===== src/Memory/Gate/Admission.antt =====
-- `evaluate` in backend/src/spidey/memory/domain/gate.py: what an accepted candidate has passed.
use spidey.Base.{
  ◌≤◌, ◌≡◌, refl, String, false, ◌||◌, none, List, ltb, is_space, str_len, str_strip, Bool-cases,
  Option-cases, inl, inr, arith,
}
use spidey.Memory.Records.{Floats, MemoryCandidate}
use spidey.Memory.Gate.{
  TextScreens, GateDecision, rejected, accepted, scope_reason, is_duplicate, evaluate,
}

module _ (T : TextScreens) (F : Floats) where
  open T use {looks_like_injection, imperative, scrub_text}

  -- A candidate that is a bounded fact of a proper scope, with the content to store: the scrubbed text, which
  -- no existing content duplicates.
  pub record IsAdmitted (candidate : MemoryCandidate F) (existing : List String) (content : String)
      : Type 0 where
    pub long : 3 ≤ str_len (str_strip is_space candidate.content)
    pub short : str_len (str_strip is_space candidate.content) ≤ 2000
    pub fact : looks_like_injection (str_strip is_space candidate.content) ≡ false
    pub no_order : imperative (str_strip is_space candidate.content) ≡ false
    pub scoped : scope_reason candidate.kind candidate.scope ≡ none
    pub scrubbed : content ≡ scrub_text (str_strip is_space candidate.content)
    pub apart : is_duplicate T content existing ≡ false

  abbrev pub Decided : MemoryCandidate F → List String → GateDecision → Type 0
  Decided candidate existing (rejected reason) = Unit
  Decided candidate existing (accepted content) = IsAdmitted candidate existing content

  pub evaluate-Decided :
      (candidate : MemoryCandidate F) (existing : List String)
      → Decided candidate existing (evaluate T F candidate existing)
  unfolding evaluate
  evaluate-Decided candidate existing =
      let raw = str_strip is_space candidate.content in
      elim (Bool-cases (ltb (str_len raw) 3)) [
        | inl e ↦ rw e tt
        | inr long ↦ elim (Bool-cases (ltb 2000 (str_len raw))) [
          | inl e ↦ rw (long, e) tt
          | inr short ↦ elim (Bool-cases (looks_like_injection raw || imperative raw)) [
            | inl e ↦ rw (long, short, e) tt
            | inr plain ↦
                rw (long, short, plain)
                  (elim (Option-cases (scope_reason candidate.kind candidate.scope)) [
                    | inl scoped ↦
                        rw scoped (elim (Bool-cases (is_duplicate T (scrub_text raw) existing)) [
                          | inl e ↦ rw e tt
                          | inr apart ↦ rw apart (record {
                            long = ground (arith, long);
                            short = ground (arith, short);
                            fact = ground (arith, plain);
                            no_order = ground (arith, plain);
                            scoped = scoped;
                            scrubbed = refl;
                            apart = apart;
                          })
                        ])
                    | inr (reason, e) ↦ rw e tt
                  ])
          ]
        ]
      ]
