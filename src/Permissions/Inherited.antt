-- ===== src/Permissions/Inherited.antt =====
-- Where a task's permissions come from.
use mathlib.Core.List.{Memᴰ}
use codex_threadhub.Base.{
  String, true, not, ◌||◌, Option, none, some, List, [], ◌∷◌, ◌=s=◌, ok, throw_if-eq_ok, bind-eq_ok,
  ok_inj, ◌≡◌, refl, sym, ap, subst, ◌∙◌, arith, Bool-cases, inl, inr, ◌⊎◌,
}
use codex_threadhub.Contracts.{Contract, Digest, includes, sandboxes, approval_policies}
use codex_threadhub.Contracts.Compile.{TaskRequest, Defaults, Matcher, compile_execution_contract}
use codex_threadhub.Contracts.Granted.{compile_execution_contract-Grants}
use codex_threadhub.Permissions.{
  TurnContext, Row, session_meta, turn_context, other, Origin, Permissions, PermissionError,
  no_context, unsupported_sandbox, unsupported_approval, Found, same_turn, read_row, read_rows,
  is_text, supported, granted, permissions_from_rollout, inherit_permissions,
}

module _ (origin : Origin) where
  -- The context is in the file, and of the turn that asks.
  pub record ReadFrom (rows : List Row) (c : TurnContext) : Type 0 where
    pub listed : Memᴰ (turn_context c) rows
    pub asking : same_turn origin.turn_id c.turn_id ≡ true

  later :
      (row : Row) (rows : List Row) (c : TurnContext) → ReadFrom rows c → ReadFrom (row ∷ rows) c
  later row rows c r = record { listed = Memᴰ.tail r.listed; asking = r.asking }

  read_rows-ReadFrom :
      (found : Found) (rows : List Row) (c : TurnContext)
      → (read_rows origin found rows).context ≡ some c
      → ReadFrom rows c ⊎ (found.context ≡ some c)
  unfolding read_rows
  read_rows-ReadFrom found [] c h = inr h
  read_rows-ReadFrom found (session_meta a b ∷ rows) c h =
      elim (read_rows-ReadFrom (read_row origin found (session_meta a b)) rows c h) [
        | inl r ↦ inl (later (session_meta a b) rows c r)
        | inr e ↦ inr e
      ]
  read_rows-ReadFrom found (other ∷ rows) c h = elim (read_rows-ReadFrom found rows c h) [
    | inl r ↦ inl (later other rows c r)
    | inr e ↦ inr e
  ]
  read_rows-ReadFrom found (turn_context d ∷ rows) c h =
      elim (read_rows-ReadFrom (read_row origin found (turn_context d)) rows c h) [
        | inl r ↦ inl (later (turn_context d) rows c r)
        | inr e ↦ elim (Bool-cases (same_turn origin.turn_id d.turn_id)) [
          | inl y ↦
              let same : d ≡ c = some_inj (rw y at e) in
              inl record {
                listed = Memᴰ.head (ap turn_context (sym same));
                asking = subst (λ x. same_turn origin.turn_id x.turn_id ≡ true) same y;
              }
          | inr n ↦ inr (rw n at e)
        ]
      ]
    where
      some_inj : {a b : TurnContext} → some a ≡ some b → a ≡ b
      some_inj h = ground arith

  -- The permissions are those of one context, and they are supported.
  pub record GrantedBy (c : TurnContext) (p : Permissions) : Type 0 where
    pub sandbox : c.sandbox_type ≡ some p.sandbox
    pub known : includes sandboxes p.sandbox ≡ true
    pub approval : c.approval_policy ≡ some p.approval_policy
    pub known_approval : includes approval_policies p.approval_policy ≡ true
    pub network : p.network_access ≡ (p.sandbox =s= "danger-full-access" || c.network_access)
    pub turn : p.turn_id ≡ c.turn_id
    pub thread : p.thread_id ≡ origin.thread_id

  given :
      (names : List String) (o : Option String) (e : PermissionError) {s : String}
      → supported names o e ≡ ok s
      → (o ≡ some s) × (includes names s ≡ true)
  given names none e h = cc h
  given names (some t) e h =
      let (y, h1) = throw_if-eq_ok (not (includes names t)) e _ h in
      let same = ok_inj h1 in
      (ap some same, subst (λ x. includes names x ≡ true) same (ground arith))

  granted-GrantedBy :
      (o : Option TurnContext) (p : Permissions)
      → granted origin o ≡ ok p
      → (c : TurnContext) × (o ≡ some c) × GrantedBy c p
  granted-GrantedBy none p h = cc h
  granted-GrantedBy (some c) p h =
      let (sandbox, a, h1) =
        bind-eq_ok (supported sandboxes c.sandbox_type unsupported_sandbox) _ h in
      let (approval, b, h2) =
        bind-eq_ok (supported approval_policies c.approval_policy unsupported_approval) _ h1 in
      let (a0, a1) = given sandboxes c.sandbox_type unsupported_sandbox a in
      let (b0, b1) = given approval_policies c.approval_policy unsupported_approval b in
      (
        c,
        refl,
        subst (GrantedBy c) (ok_inj h2) record {
          sandbox = a0;
          known = a1;
          approval = b0;
          known_approval = b1;
          network = refl;
          turn = refl;
          thread = refl;
        },
      )

-- Permissions are read from one context in the file of the thread that asks, and from one of its turn
-- if it names a turn: the sandbox and the approval policy are that context's and supported, and there
-- is network access exactly if that sandbox is without limits or that context grants it.
pub permissions_from_rollout-GrantedBy :
    (rows : List Row) (origin : Origin) (p : Permissions)
    → permissions_from_rollout rows origin ≡ ok p
    → (c : TurnContext) × ReadFrom origin rows c × GrantedBy origin c p
unfolding permissions_from_rollout
permissions_from_rollout-GrantedBy rows origin p h =
    let start : Found = record { identity = none; context = none } in
    let found = read_rows origin start rows in
    let (_, h1) = throw_if-eq_ok (not (is_text found.identity origin.thread_id)) no_context _ h in
    let (c, context, g) = granted-GrantedBy origin found.context p h1 in
    elim (read_rows-ReadFrom origin start rows c context) [ inl r ↦ (c, r, g) | inr e ↦ cc e ]

-- A contract that is compiled for a task with inherited permissions has those permissions, whatever
-- the task and the defaults ask for: their sandbox, their approval policy, and network access, with
-- its capability, exactly if they have it.
pub compile-inherit_permissions :
    (digest : Digest) (matches : Matcher) (task : TaskRequest) (p : Permissions)
    (defaults : Defaults) (role : Option String) (c : Contract)
    → compile_execution_contract digest matches (inherit_permissions task (some p)) defaults role
      ≡ ok c
    → (c.sandbox ≡ p.sandbox)
      × (c.approval_policy ≡ p.approval_policy)
      × (c.network_access ≡ p.network_access)
      × (includes c.execution_capabilities "external-network" ≡ p.network_access)
unfolding inherit_permissions
compile-inherit_permissions digest matches task p defaults role c h =
    let (g, safe) =
      compile_execution_contract-Grants digest matches (inherit_permissions task (some p)) defaults
        role c h in
    (g.sandbox, g.approval, g.network, sym safe.network ∙ g.network)
