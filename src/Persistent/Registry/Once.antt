-- ===== src/Persistent/Registry/Once.antt =====
-- No preparation is executed twice, however the blocks that hold the lock are interleaved.
use g502x_onboard.Base.{
  ℕ, String, zero, suc, ◌<◌, ◌≡◌, refl, sym, subst, Bool, true, false, ◌&&◌, ◌||◌, Option, none,
  some, List, [], ◌∷◌, ◌==◌, if◌then◌else◌, ltb, length, arith, All, All-append, ◌∙◌, Option-cases,
  Bool-cases, inl, inr,
}
use package.text.Mathlib.Text.{◌==◌ as str_eq}
use text.Mathlib.TextEquality.{eq_iff}
use g502x_onboard.Persistent.Registry.{
  IssuedId, equal_id, IssuedPreparation, Registry, lookup_id, delete_id, keep_where, missing_id,
  retire, reclaim_dead, first_idle, make_room, issue, register, mark, accept, accept_found,
  retire_found, finish_accepted, LockBlock, registering, screening, claiming, finishing,
  accepted_id, claim, run_block, add_accepted, run_steps, empty_registry, max_active,
}

abbrev pub used_id : IssuedId → List IssuedId → Bool
used_id id [] = false
used_id id (used ∷ rest) = equal_id used id || used_id id rest

-- No id stands twice in the list.
abbrev pub IsOnce : List IssuedId → Type 0
IsOnce [] = Unit
IsOnce (id ∷ used) = (used_id id used ≡ false) × IsOnce used

module _ {V : Type 0} (Q : IssuedId × V → Type 0) where
  All-keep_where : (f : V → Bool) (xs : List (IssuedId × V)) → All Q xs → All Q (keep_where f xs)
  unfolding keep_where
  All-keep_where f [] h = tt
  All-keep_where f ((id, v) ∷ xs) h = elim (Bool-cases (f v)) [
    | inl e ↦ rw e (h.0, All-keep_where f xs h.1)
    | inr e ↦ rw e (All-keep_where f xs h.1)
  ]

  All-delete_id : (id : IssuedId) (xs : List (IssuedId × V)) → All Q xs → All Q (delete_id id xs)
  unfolding delete_id
  All-delete_id id [] h = tt
  All-delete_id id ((other, v) ∷ xs) h = elim (Bool-cases (equal_id id other)) [
    | inl e ↦ rw e (All-delete_id id xs h.1)
    | inr e ↦ rw e (h.0, All-delete_id id xs h.1)
  ]

  -- What holds of an entry that is found.
  All-lookup_id :
      (id : IssuedId) (v : V) (xs : List (IssuedId × V))
      → All Q xs
      → lookup_id id xs ≡ some v
      → (other : IssuedId) × ((equal_id id other ≡ true) × Q (other, v))
  unfolding lookup_id
  All-lookup_id id v [] h found = absurd cc
  All-lookup_id id v ((other, w) ∷ xs) h found = elim (Bool-cases (equal_id id other)) [
    | inl e ↦
        let same : ◌≡◌ {A = Option V} (some w) (some v) = rw e at found in
        (other, (e, subst (λ u. Q (other, u)) (let r : w ≡ v = cc in r) h.0))
    | inr e ↦ All-lookup_id id v xs h.1 (rw e at found)
  ]

module _ {A B : Type 0} (Q : IssuedId × IssuedPreparation A B → Type 0) where
  -- Of a registry that was cut down.
  abbrev Cut : Registry A B → Registry A B → Type 0
  Cut before after = All Q after.preparations × (after.serial ≡ before.serial)

  retire_found-Cut :
      (id : IssuedId) (consumed : Bool) (found : Option (IssuedPreparation A B))
      (registry : Registry A B)
      → All Q registry.preparations
      → Cut registry (retire_found id consumed found registry)
  retire_found-Cut id consumed none registry h = (h, refl)
  retire_found-Cut id consumed (some issued) registry h =
      (All-delete_id Q id registry.preparations h, refl)

  retire-Cut :
      (id : IssuedId) (consumed : Bool) (registry : Registry A B)
      → All Q registry.preparations
      → Cut registry (retire id consumed registry)
  unfolding retire
  retire-Cut id consumed registry h =
      retire_found-Cut id consumed (lookup_id id registry.preparations) registry h

  make_room-Cut :
      (rounds : ℕ) (registry : Registry A B)
      → All Q registry.preparations
      → Cut registry (make_room rounds registry).1
  unfolding make_room
  make_room-Cut zero registry h = (h, refl)
  make_room-Cut (suc rounds) registry h =
      elim (Bool-cases (ltb (length registry.preparations) max_active)) [
        | inl a ↦ rw a (h, refl)
        | inr a ↦ elim (Option-cases (first_idle registry.preparations)) [
          | inl b ↦ rw (a, b) (h, refl)
          | inr ((id, issued), b) ↦
              let cut = retire-Cut id issued.consumed registry h in
              let rest = make_room-Cut rounds (retire id issued.consumed registry) cut.0 in
              rw (a, b) (rest.0, rest.1 ∙ cut.1)
        ]
      ]

-- An entry has an earlier serial, and one that is not consumed was not executed.
abbrev Entry : {A B : Type 0} → List IssuedId → ℕ → IssuedId × IssuedPreparation A B → Type 0
Entry used serial (id, issued) =
    (id.1 < serial) × (issued.consumed ≡ false → used_id id used ≡ false)

record Fresh {A B : Type 0} (used : List IssuedId) (registry : Registry A B) : Type 0 where
  entries : All (Entry used registry.serial) registry.preparations
  past : All (λ id. id.1 < registry.serial) used
  once : IsOnce used

All-weaken :
    {A : Type 0} {P Q : A → Type 0} (xs : List A) → ((x : A) → P x → Q x) → All P xs → All Q xs
All-weaken [] f h = tt
All-weaken (x ∷ xs) f h = (f x h.0, All-weaken xs f h.1)

-- A new serial was not used.
used_id-new :
    (candidate : String) (serial : ℕ) (used : List IssuedId)
    → All (λ id. id.1 < serial) used
    → used_id (candidate, serial) used ≡ false
used_id-new candidate serial [] h = refl
used_id-new candidate serial ((name, n) ∷ used) h =
    let rest = used_id-new candidate serial used h.1 in ground (arith, h.0, rest)

module _ {A B : Type 0} (used : List IssuedId) where
  counted-Entry :
      (n : ℕ) (e : IssuedId × IssuedPreparation A B) → Entry used n e → Entry used (suc n) e
  counted-Entry n (id, issued) h = (omega (arith, h.0), h.1)

  counted-Fresh :
      (registry : Registry A B)
      → Fresh used registry
      → Fresh used (record registry { serial = suc registry.serial })
  counted-Fresh registry f = record {
    entries = All-weaken registry.preparations (counted-Entry registry.serial) f.entries;
    past = All-weaken used (λ id h. omega (arith, h)) f.past;
    once = f.once;
  }

  reclaim-Fresh :
      (alive : ℕ → Bool) (registry : Registry A B)
      → Fresh used registry
      → Fresh used (reclaim_dead alive registry)
  unfolding reclaim_dead
  reclaim-Fresh alive registry f = record {
    entries = All-keep_where (Entry used registry.serial) _ registry.preparations f.entries;
    past = f.past;
    once = f.once;
  }

  Cut-Fresh :
      (before after : Registry A B)
      → Fresh used before
      → Cut (Entry used before.serial) before after
      → Fresh used after
  Cut-Fresh before after f cut = record {
    entries = subst (λ n. All (Entry used n) after.preparations) (sym cut.1) cut.0;
    past = subst (λ n. All (λ id. id.1 < n) used) (sym cut.1) f.past;
    once = f.once;
  }

  issue-Fresh :
      (owner : ℕ) (candidate : String) (public : A) (intent : B) (registry : Registry A B)
      → Fresh used registry
      → Fresh used (
          issue owner
            (candidate, registry.serial)
            public
            intent
            (record registry { serial = suc registry.serial }))
  issue-Fresh owner candidate public intent registry f =
      let g = counted-Fresh registry f in
      record {
        entries =
            All-append (Entry used (suc registry.serial)) registry.preparations _ g.entries
              ((omega arith, λ e. used_id-new candidate registry.serial used f.past), tt);
        past = g.past;
        once = f.once;
      }

  register-Fresh :
      (alive : ℕ → Bool) (owner : ℕ) (candidate : String) (public : A) (intent : B)
      (registry : Registry A B)
      → Fresh used registry
      → Fresh used (register alive owner candidate public intent registry).1
  unfolding register
  register-Fresh alive owner candidate public intent registry f =
      let reclaimed = reclaim_dead alive registry in
      let g = reclaim-Fresh alive registry f in
      let roomy = make_room (length reclaimed.preparations) reclaimed in
      let h =
        Cut-Fresh reclaimed roomy.1 g
          (make_room-Cut (Entry used reclaimed.serial) _ reclaimed g.entries) in
      let id : IssuedId = (candidate, roomy.1.serial) in
      elim (Bool-cases roomy.0) [
        | inl a ↦
            elim (Bool-cases
              (missing_id id roomy.1.preparations && missing_id id roomy.1.tombstones)) [
                | inl b ↦ rw (a, b) (issue-Fresh owner candidate public intent roomy.1 h)
                | inr b ↦ rw (a, b) (counted-Fresh roomy.1 h)
              ]
        | inr a ↦ rw a h
      ]

  finish_accepted-Fresh :
      (alive : ℕ → Bool) (id : IssuedId) (registry : Registry A B)
      → Fresh used registry
      → Fresh used (finish_accepted alive id registry)
  unfolding finish_accepted
  finish_accepted-Fresh alive id registry f =
      let g =
        Cut-Fresh registry (retire id true registry) f
          (retire-Cut (Entry used registry.serial) id true registry f.entries) in
      let h = reclaim-Fresh alive (retire id true registry) g in
      record { entries = h.entries; past = h.past; once = h.once }

equal_id→eq : (a b : IssuedId) → equal_id a b ≡ true → a ≡ b
equal_id→eq (s, m) (t, n) h =
    let numbers : m ≡ n = ground (arith, h) in
    let names : str_eq s t ≡ true = ground (arith, h) in let texts = (eq_iff s t).0 names in cc

module _ {A B : Type 0} (used : List IssuedId) (id : IssuedId) where
  -- Once an id is executed, its entries are consumed.
  mark-Entry :
      (serial : ℕ) (xs : List (IssuedId × IssuedPreparation A B))
      → All (Entry used serial) xs
      → All (Entry (id ∷ used) serial) (mark id xs)
  unfolding mark
  mark-Entry serial [] h = tt
  mark-Entry serial ((other, issued) ∷ xs) h = elim (Bool-cases (equal_id id other)) [
    | inl e ↦ rw e ((h.0.0, λ c. absurd cc), mark-Entry serial xs h.1)
    | inr e ↦ rw e ((h.0.0, λ c. ground (arith, e, h.0.1 c)), mark-Entry serial xs h.1)
  ]

  mark-Fresh :
      (issued : IssuedPreparation A B) (registry : Registry A B)
      → Fresh used registry
      → lookup_id id registry.preparations ≡ some issued
      → issued.consumed ≡ false
      → Fresh
          (id ∷ used)
          (record registry { preparations = mark id registry.preparations; claimed = true })
  mark-Fresh issued registry f found fresh =
      let (other, (e, entry)) =
        All-lookup_id (Entry used registry.serial) id issued registry.preparations f.entries
          found in
      let same = sym (equal_id→eq id other e) in
      record {
        entries = mark-Entry registry.serial registry.preparations f.entries;
        past = (subst (λ i. i.1 < registry.serial) same entry.0, f.past);
        once = (subst (λ i. used_id i used ≡ false) same (entry.1 fresh), f.once);
      }

  accept_found-Fresh :
      (eq : A → A → Bool) (owner : ℕ) (prepared : A) (found : Option (IssuedPreparation A B))
      (registry : Registry A B)
      → Fresh used registry
      → lookup_id id registry.preparations ≡ found
      → Fresh
          (add_accepted (accepted_id id (accept_found eq owner id prepared found registry).0) used)
          (accept_found eq owner id prepared found registry).1
  accept_found-Fresh eq owner prepared none registry f e = f
  accept_found-Fresh eq owner prepared (some issued) registry f e =
      elim (Bool-cases (issued.owner == owner && eq prepared issued.public)) [
        | inl a ↦ elim (Bool-cases issued.consumed) [
          | inl b ↦ rw (a, b) f
          | inr b ↦ rw (a, b) (mark-Fresh issued registry f e b)
        ]
        | inr a ↦ rw a f
      ]

if-Fresh :
    {A B : Type 0} (used : List IssuedId) (b : Bool) (left right : Option IssuedId × Registry A B)
    → Fresh (add_accepted left.0 used) left.1
    → Fresh (add_accepted right.0 used) right.1
    → Fresh (add_accepted (if b then left else right).0 used) (if b then left else right).1
if-Fresh used true left right f g = f
if-Fresh used false left right f g = g

module _ {A B : Type 0} (eq : A → A → Bool) where
  claim-Fresh :
      (alive : ℕ → Bool) (owner : ℕ) (id : IssuedId) (prepared : A) (used : List IssuedId)
      (registry : Registry A B)
      → Fresh used registry
      → Fresh
          (add_accepted (claim eq alive owner id prepared registry).0 used)
          (claim eq alive owner id prepared registry).1
  unfolding claim accept
  claim-Fresh alive owner id prepared used registry f =
      let reclaimed = reclaim_dead alive registry in
      if-Fresh used registry.claimed _ _ f (
        accept_found-Fresh used id eq owner prepared (lookup_id id reclaimed.preparations) reclaimed
          (reclaim-Fresh used alive registry f) refl)

  run_block-Fresh :
      (alive : ℕ → Bool) (event : LockBlock A B) (used : List IssuedId) (registry : Registry A B)
      → Fresh used registry
      → Fresh
          (add_accepted (run_block eq alive event registry).0 used)
          (run_block eq alive event registry).1
  unfolding run_block
  run_block-Fresh alive (registering owner candidate public intent) used registry f =
      register-Fresh used alive owner candidate public intent registry f
  run_block-Fresh alive (screening owner id prepared) used registry f =
      reclaim-Fresh used alive registry f
  run_block-Fresh alive (claiming owner id prepared) used registry f =
      claim-Fresh alive owner id prepared used registry f
  run_block-Fresh alive (finishing id) used registry f =
      finish_accepted-Fresh used alive id registry f

  run-Fresh :
      (events : List ((ℕ → Bool) × LockBlock A B)) (used : List IssuedId) (registry : Registry A B)
      → Fresh used registry
      → IsOnce (run_steps eq events (used, registry)).0
  unfolding run_steps
  run-Fresh [] used registry f = f.once
  run-Fresh ((alive, event) ∷ events) used registry f =
      run-Fresh events _ (run_block eq alive event registry).1
        (run_block-Fresh alive event used registry f)

  -- However registrations, claims and ends of executions are interleaved, and whichever owners die in
  -- between, no id is accepted for execution twice.
  pub run_steps-IsOnce :
      (events : List ((ℕ → Bool) × LockBlock A B))
      → IsOnce (run_steps eq events ([], empty_registry)).0
  run_steps-IsOnce events =
      run-Fresh events [] empty_registry record { entries = tt; past = tt; once = tt }
