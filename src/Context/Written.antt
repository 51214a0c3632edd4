-- ===== src/Context/Written.antt =====
-- What `activateContextClaim` of src/registry.js writes into the tables of claims and supersessions.
use codex_threadhub.Base.{
  ℕ, ◌≡◌, refl, sym, ◌∙◌, String, Bool, true, false, ◌&&◌, ◌||◌, List, [], ◌∷◌, map, any, All,
  Bool-cases, inl, inr, eq_iff, eq_refl, subst, ◌=s=◌, if◌then◌else◌, arith,
}
use codex_threadhub.Base.Table.{map_same, map-update_where}
use codex_threadhub.Context.{
  candidate, active, disputed, superseded, status_in, ContextClaim, Claims, Supersession, distinct,
  activated, retired, note_supersession, retire, retire_all, activate,
}

abbrev is_standing : ContextClaim → Bool
is_standing c = status_in (active ∷ disputed ∷ []) c.status

abbrev is_opened : String → ContextClaim → Bool
is_opened id c = c.id =s= id && status_in (candidate ∷ disputed ∷ []) c.status

-- What retiring these ids makes of a row.
abbrev fate : ℕ → List String → ContextClaim → ContextClaim
fate now ts c = if any (λ t. c.id =s= t) ts && is_standing c then retired now c else c

module _ (now : ℕ) where
  fate_stays : (ts : List String) (c : ContextClaim) → fate now ts (retired now c) ≡ retired now c
  fate_stays ts c = elim (Bool-cases (any (λ t. c.id =s= t) ts)) [
    | inl y ↦ rw y refl
    | inr n ↦ rw n refl
  ]

  fate_step :
      (t : String) (ts : List String) (c : ContextClaim)
      → fate now ts (if c.id =s= t && is_standing c then retired now c else c) ≡ fate now (t ∷ ts) c
  fate_step t ts c = go (c.id =s= t) (is_standing c) refl
    where
      go :
          (a b : Bool)
          → is_standing c ≡ b
          → fate now ts (if a && b then retired now c else c)
            ≡ (if (a || any (λ t. c.id =s= t) ts) && b then retired now c else c)
      go true true e = fate_stays ts c
      go true false e = rw e (off (any (λ t. c.id =s= t) ts))
        where
          off : (b : Bool) → (if b && false then retired now c else c) ≡ c
          off true = refl
          off false = refl
      go false b e = rw e refl

  retire_all-rows :
      (id : String) (ts : List String) (s : Claims)
      → (retire_all id now ts s).rows ≡ map (fate now ts) s.rows
  unfolding retire_all
  retire_all-rows id [] s = sym (map_same (fate now []) s.rows (λ c. refl))
  retire_all-rows id (t ∷ ts) s =
      retire_all-rows id ts (retire id now t s)
      ∙ map-update_where (fate now ts) (fate now (t ∷ ts)) (λ c. c.id =s= t && is_standing c)
          (retired now) s.rows (fate_step t ts)

eq_sym : (a b : String) → (a =s= b) ≡ (b =s= a)
eq_sym a b = elim (Bool-cases (a =s= b)) [
  | inl y ↦ let same = (eq_iff a b).0 y in subst (λ z. (a =s= z) ≡ (z =s= a)) same refl
  | inr n ↦ elim (Bool-cases (b =s= a)) [
    | inl y ↦
        let same = sym ((eq_iff b a).0 y) in
        absurd (cc (n, subst (λ z. (a =s= z) ≡ true) same (eq_refl a)))
    | inr m ↦ n ∙ sym m
  ]
]

-- The members of a list without its repetitions.
any-distinct :
    (y : String) (seen xs : List String)
    → any (λ t. y =s= t) seen ≡ false
    → any (λ t. y =s= t) (distinct seen xs) ≡ any (λ t. y =s= t) xs
unfolding distinct
any-distinct y seen [] h = refl
any-distinct y seen (x ∷ xs) h = elim (Bool-cases (any (λ z. z =s= x) seen)) [
  | inl e ↦ rw e (any-distinct y seen xs h ∙ sym (other e))
  | inr n ↦ rw n (elim (Bool-cases (y =s= x)) [
    | inl k ↦ rw k refl
    | inr k ↦ rw k (any-distinct y (x ∷ seen) xs (rw k h))
  ])
]
  where
    flip : (zs : List String) → any (λ z. z =s= x) zs ≡ any (λ z. x =s= z) zs
    flip [] = refl
    flip (z ∷ zs) = rw (eq_sym z x, flip zs) refl

    other :
        any (λ z. z =s= x) seen ≡ true → (y =s= x || any (λ t. y =s= t) xs) ≡ any (λ t. y =s= t) xs
    other e = elim (Bool-cases (y =s= x)) [
      | inl k ↦
          let same = (eq_iff y x).0 k in
          let seen_y = subst (λ z. any (λ t. z =s= t) seen ≡ false) same h in
          absurd (cc (sym seen_y ∙ sym (flip seen) ∙ e))
      | inr k ↦ rw k refl
    ]

module _ (id : String) (now : ℕ) where
  -- The row of a claim after the activation, and the retirement of these claims.
  pub activate-rows :
      (supersedes : List String) (s : Claims)
      → (retire_all id now (distinct [] supersedes) (activate id now s)).rows
        ≡ map
            (λ c.
              if is_opened id c
              then record c {
                status = if any (λ t. c.id =s= t) supersedes then superseded else active;
                updated_at = now;
              }
              else if any (λ t. c.id =s= t) supersedes && is_standing c
              then record c { status = superseded; updated_at = now }
              else c)
            s.rows
  activate-rows supersedes s =
      retire_all-rows now id (distinct [] supersedes) (activate id now s)
      ∙ map-update_where (fate now (distinct [] supersedes)) _ (is_opened id) (activated now) s.rows
          row
    where
      row :
          (c : ContextClaim)
          → fate now (distinct [] supersedes) (if is_opened id c then activated now c else c) ≡ (
              if is_opened id c
              then record c {
                status = if any (λ t. c.id =s= t) supersedes then superseded else active;
                updated_at = now;
              }
              else if any (λ t. c.id =s= t) supersedes && is_standing c
              then record c { status = superseded; updated_at = now }
              else c)
      row c = elim (Bool-cases (is_opened id c)) [
        | inl y ↦
            rw (y, any-distinct c.id [] supersedes refl)
              (elim (Bool-cases (any (λ t. c.id =s= t) supersedes)) [
                | inl k ↦ rw k refl
                | inr k ↦ rw k refl
              ])
        | inr n ↦ rw (n, any-distinct c.id [] supersedes refl) refl
      ]

  abbrev notes : String → Supersession → Bool
  notes t x = x.incoming =s= id && x.superseded =s= t

  noted : (t : String) (xs : List Supersession) → any (notes t) (note_supersession id t xs) ≡ true
  noted t xs = elim (Bool-cases (any (notes t) xs)) [
    | inl y ↦ rw y y
    | inr n ↦ rw (n, eq_refl id, eq_refl t) refl
  ]

  note_kept :
      (q : Supersession → Bool) (t : String) (xs : List Supersession)
      → any q xs ≡ true
      → any q (note_supersession id t xs) ≡ true
  note_kept q t xs h = elim (Bool-cases (any (notes t) xs)) [
    | inl y ↦ rw y h
    | inr n ↦ rw (n, h) (ground arith)
  ]

  retire_all-kept :
      (q : Supersession → Bool) (ts : List String) (s : Claims)
      → any q s.supersessions ≡ true
      → any q (retire_all id now ts s).supersessions ≡ true
  unfolding retire_all
  retire_all-kept q [] s h = h
  retire_all-kept q (t ∷ ts) s h =
      retire_all-kept q ts (retire id now t s) (note_kept q t s.supersessions h)

  -- Each claim that is retired has its entry.
  pub retire_all-noted :
      (ts : List String) (s : Claims)
      → All (λ t. any (notes t) (retire_all id now ts s).supersessions ≡ true) ts
  unfolding retire_all
  retire_all-noted [] s = tt
  retire_all-noted (t ∷ ts) s = (
    retire_all-kept (notes t) ts (retire id now t s) (noted t s.supersessions),
    retire_all-noted ts (retire id now t s),
  )
