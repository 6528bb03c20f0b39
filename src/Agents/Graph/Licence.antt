-- ===== src/Agents/Graph/Licence.antt =====
-- backend/src/spidey/agents/graph/nodes.py: the tool calls that a run may leave in the log.
pub mod Steps
pub mod Drive
use spidey.Base.{
  ℕ, zero, suc, ◌+◌, String, Bool, true, false, not, ◌&&◌, ◌||◌, Option, none, some, ◌≡◌, ◌≢◌, refl,
  sym, subst, ◌∙◌, ◌⊎◌, inl, inr, List, [], ◌∷◌, ◌++◌, arith, All, All-append, Bool-cases,
  Option-cases, if◌then◌else◌, find, find-add_row, str_eq, eq_iff,
}
use spidey.Base.Action.{Action, Result, ok, err, ◌>>=◌}
use spidey.Agents.Runs.{Approval, ApprovalStatus}
use spidey.Agents.Store
use spidey.Agents.Tools.{ToolSpec, ToolContext, is_read}
use spidey.Agents.Registry
use spidey.Agents.Registry.{ToolCall}
use spidey.Agents.Registry.Gate.{calls-invoke, admitted, IsGrant, granted-IsGrant}
use spidey.Agents.Registry.Naming.{Named, get_entry-Named}
use spidey.Agents.Graph.{Nodes, State, GraphWorld, tool_spec, invoke_tool, tool_context}
use spidey.Agents.Graph.Coding.{writes}

module _ (N : Nodes) where
  open N use {services}

  -- A call of a tool that at most reads, or one behind an approval that the store holds as granted, for
  -- this very tool and the run of the call.
  abbrev pub Licensed : GraphWorld N → ToolCall services → Type 0
  Licensed w c =
      (writes N (tool_spec N c.tool) ≡ none)
      ⊎ ((id : ℕ) × (a : Approval) × (Store.get_approval id w.store ≡ some a)
          × (a.status ≡ ApprovalStatus.approved)
          × (a.tool ≡ c.tool)
          × (c.context.run_id ≡ some a.run_id))

  -- The approvals that were there are there, as they were.
  abbrev pub Extends : GraphWorld N → GraphWorld N → Type 0
  Extends w w' =
      (id : ℕ) (a : Approval)
      → Store.get_approval id w.store ≡ some a
      → Store.get_approval id w'.store ≡ some a

  pub record Safe (w w' : GraphWorld N) : Type 0 where
    pub extends : Extends w w'
    pub licensed : All (Licensed w) w.log.calls → All (Licensed w') w'.log.calls

  Licensed-Extends :
      (w w' : GraphWorld N) → Extends w w' → (c : ToolCall services) → Licensed w c → Licensed w' c
  Licensed-Extends w w' x c (inl r) = inl r
  Licensed-Extends w w' x c (inr (id, a, g, s, t, r)) = inr (id, a, x id a g, s, t, r)

  All-Extends :
      (w w' : GraphWorld N) (x : Extends w w') (cs : List (ToolCall services))
      → All (Licensed w) cs
      → All (Licensed w') cs
  All-Extends w w' x [] h = tt
  All-Extends w w' x (c ∷ cs) h = (Licensed-Extends w w' x c h.0, All-Extends w w' x cs h.1)

  pub Safe-trans : {w w' w'' : GraphWorld N} → Safe w w' → Safe w' w'' → Safe w w''
  Safe-trans a b = record {
    extends = λ id x g. b.extends id x (a.extends id x g);
    licensed = λ h. b.licensed (a.licensed h);
  }

  pub grow-Safe : (w w' : GraphWorld N) → Extends w w' → w'.log.calls ≡ w.log.calls → Safe w w'
  grow-Safe w w' x calls = record {
    extends = x;
    licensed = λ h. rw calls (All-Extends w w' x w.log.calls h);
  }

  -- What touches neither the approvals nor the calls is safe.
  pub quiet-Safe :
      (w w' : GraphWorld N)
      → w'.store.approvals ≡ w.store.approvals
      → w'.log.calls ≡ w.log.calls
      → Safe w w'
  unfolding Store.get_approval
  quiet-Safe w w' same calls = record {
    extends = λ id a g. rw same g;
    licensed = λ h. rw calls (All-Extends w w' (λ id a g. rw same g) w.log.calls h);
  }

  pub bind-Safe :
      {A B : Type 0} (m : Action (GraphWorld N) A) (f : A → Action (GraphWorld N) B)
      (w : GraphWorld N)
      → Safe w (m w).1
      → ((a : A) (u : GraphWorld N) → Safe u (f a u).1)
      → Safe w ((m >>= f) w).1
  bind-Safe {A} {B} m f w h k = go (m w) h
    where
      go :
          (p : Result A × GraphWorld N)
          → Safe w p.1
          → Safe w
              (elim p.0 as (λ x. Result B × GraphWorld N) [
                | ok a ↦ f a p.1
                | err e ↦ (err e, p.1)
              ]).1
      go (ok a, u) s = Safe-trans s (k a u)
      go (err e, u) s = s

  module _ (closed : N.registry.allow_mutations ≡ false)
      (named : Named services N.registry.by_name) where
    -- What the registry admits is licensed, if the approval that it is shown is the store's.
    admitted-Licensed :
        (name : String) (arguments : services.Json) (context : ToolContext)
        (approval : Option Approval) (w : GraphWorld N) (run : ℕ)
        → context.run_id ≡ some run
        → ((a : Approval) → approval ≡ some a → (id : ℕ) × (Store.get_approval id w.store ≡ some a))
        → admitted services N.registry name arguments context approval ≡ true
        → Licensed w (record { tool = name; arguments = arguments; context = context })
    unfolding Registry.spec_for Registry.mutation_permitted
    admitted-Licensed name arguments context approval w run at_run held go =
        elim (Option-cases (Registry.get_entry services name N.registry.by_name)) [
          | inl absent ↦ absurd (ground arith)
          | inr ((p, spec), found) ↦ elim (Bool-cases (is_read spec.side_effect)) [
            | inl reads ↦ inl (ground arith)
            | inr writes_it ↦ elim (Option-cases approval) [
              | inl nothing ↦ absurd (ground arith)
              | inr (a, shown) ↦
                  let grant = granted-IsGrant services spec context a (ground arith) in
                  let (id, stored) = held a shown in
                  inr (
                    id,
                    a,
                    stored,
                    grant.approved,
                    grant.same_tool
                        ∙ get_entry-Named services name N.registry.by_name {p = p} {s = spec} named
                            found,
                    ground (arith, grant.same_run),
                  )
            ]
          ]
        ]

    abbrev logs :
        String
        → services.Json
        → ToolContext
        → Option Approval
        → GraphWorld N
        → List (ToolCall services)
    logs name arguments context approval w =
        (Registry.invoke services N.registry name arguments context approval (N.latency w.tick)
          w.log).1.calls

    pub invoke_tool-Safe :
        (name : String) (arguments : services.Json) (context : ToolContext)
        (approval : Option Approval) (w : GraphWorld N) (run : ℕ)
        → context.run_id ≡ some run
        → ((a : Approval) → approval ≡ some a → (id : ℕ) × (Store.get_approval id w.store ≡ some a))
        → Safe w (invoke_tool N name arguments context approval w).1
    invoke_tool-Safe name arguments context approval w run at_run held =
        let c =
          calls-invoke services N.registry name arguments context approval (N.latency w.tick)
            w.log in
        elim (Bool-cases (admitted services N.registry name arguments context approval)) [
          | inl go ↦
              let call : ToolCall services = record {
                tool = name;
                arguments = arguments;
                context = context;
              } in
              let logged : logs name arguments context approval w ≡ w.log.calls ++ (call ∷ []) =
                ground (arith, c) in
              record {
                extends = λ id a g. g;
                licensed = λ h.
                    subst (λ cs. All (Licensed w) cs) (sym logged)
                      (All-append (Licensed w) w.log.calls (call ∷ []) h (
                        admitted-Licensed name arguments context approval w run at_run held go,
                        tt,
                      ));
              }
          | inr stop ↦
              let logged : logs name arguments context approval w ≡ w.log.calls =
                ground (arith, c) in
              record {
                extends = λ id a g. g;
                licensed = λ h. subst (λ cs. All (Licensed w) cs) (sym logged) h;
              }
        ]
