-- ===== src/Persistent/Registry/Bounds.antt =====
-- How large the registry of preparations gets.
use g502x_onboard.Base.{
  ℕ, String, zero, suc, ◌-◌, ◌≤◌, ◌<◌, ◌≡◌, refl, ap, Bool, true, false, ◌&&◌, ◌||◌, ◌==◌, Option,
  none, some, List, [], ◌∷◌, if◌then◌else◌, ltb, ltb→lt, length, length-append, length-drop, arith,
  Bool-cases, Option-cases, inl, inr,
}
use g502x_onboard.Persistent.Registry.{
  IssuedId, equal_id, IssuedPreparation, PreparationTombstone, Registry, delete_id, keep_where,
  trim, missing_id, retire, retire_found, reclaim_dead, first_idle, make_room, register, mark,
  accept, accept_found, finish_accepted, LockBlock, registering, screening, claiming, finishing,
  claim, run_block, run_steps, empty_registry, max_active,
}

record Bounded {A B : Type 0} (registry : Registry A B) : Type 0 where
  active : length registry.preparations ≤ 32
  kept : length registry.tombstones ≤ 128

length-keep_where :
    {V : Type 0} (f : V → Bool) (xs : List (IssuedId × V)) → length (keep_where f xs) ≤ length xs
unfolding keep_where
length-keep_where f [] = omega arith
length-keep_where f ((id, v) ∷ xs) = elim (Bool-cases (f v)) [
  | inl e ↦ rw e (omega (arith, length-keep_where f xs))
  | inr e ↦ rw e (omega (arith, length-keep_where f xs))
]

length-delete_id :
    {V : Type 0} (id : IssuedId) (xs : List (IssuedId × V)) → length (delete_id id xs) ≤ length xs
unfolding delete_id
length-delete_id id [] = omega arith
length-delete_id id ((other, v) ∷ xs) = elim (Bool-cases (equal_id id other)) [
  | inl e ↦ rw e (omega (arith, length-delete_id id xs))
  | inr e ↦ rw e (omega (arith, length-delete_id id xs))
]

length-trim : (xs : List (IssuedId × PreparationTombstone)) → length (trim xs) ≤ 128
unfolding trim
length-trim xs = omega (arith, length-drop (length xs - 128) xs)

module _ {A B : Type 0} where
  length-mark :
      (id : IssuedId) (xs : List (IssuedId × IssuedPreparation A B))
      → length (mark id xs) ≡ length xs
  unfolding mark
  length-mark id [] = refl
  length-mark id (x ∷ xs) = ap suc (length-mark id xs)

  retire_found-Bounded :
      (id : IssuedId) (consumed : Bool) (found : Option (IssuedPreparation A B))
      (registry : Registry A B)
      → Bounded registry
      → Bounded (retire_found id consumed found registry)
  retire_found-Bounded id consumed none registry b = b
  retire_found-Bounded id consumed (some issued) registry b = record {
    active = omega (arith, b.active, length-delete_id id registry.preparations);
    kept = length-trim _;
  }

  retire-Bounded :
      (id : IssuedId) (consumed : Bool) (registry : Registry A B)
      → Bounded registry
      → Bounded (retire id consumed registry)
  unfolding retire
  retire-Bounded id consumed registry b = retire_found-Bounded id consumed _ registry b

  reclaim-Bounded :
      (alive : ℕ → Bool) (registry : Registry A B)
      → Bounded registry
      → Bounded (reclaim_dead alive registry)
  unfolding reclaim_dead
  reclaim-Bounded alive registry b = record {
    active = omega (
      arith,
      b.active,
      length-keep_where (λ issued. alive issued.owner || issued.executing) registry.preparations,
    );
    kept =
        omega (
          arith,
          b.kept,
          length-keep_where (λ tombstone. alive tombstone.owner) registry.tombstones,
        );
  }

  -- Room was made, if the loop says so.
  abbrev HasRoom : Bool × Registry A B → Type 0
  HasRoom (room, registry) = Bounded registry × (room ≡ true → length registry.preparations < 32)

  make_room-HasRoom :
      (rounds : ℕ) (registry : Registry A B)
      → Bounded registry
      → HasRoom (make_room rounds registry)
  unfolding make_room
  make_room-HasRoom zero registry b = (b, λ h. ltb→lt _ _ h)
  make_room-HasRoom (suc rounds) registry b =
      elim (Bool-cases (ltb (length registry.preparations) max_active)) [
        | inl a ↦ rw a (b, λ h. ltb→lt _ _ a)
        | inr a ↦ elim (Option-cases (first_idle registry.preparations)) [
          | inl e ↦ rw (a, e) (b, λ h. absurd cc)
          | inr ((id, issued), e) ↦
              rw (a, e)
                (make_room-HasRoom rounds (retire id issued.consumed registry)
                  (retire-Bounded id issued.consumed registry b))
        ]
      ]

  register-Bounded :
      (alive : ℕ → Bool) (owner : ℕ) (candidate : String) (public : A) (intent : B)
      (registry : Registry A B)
      → Bounded registry
      → Bounded (register alive owner candidate public intent registry).1
  unfolding register
  register-Bounded alive owner candidate public intent registry b =
      let reclaimed = reclaim_dead alive registry in
      let roomy = make_room (length reclaimed.preparations) reclaimed in
      let h =
        make_room-HasRoom (length reclaimed.preparations) reclaimed
          (reclaim-Bounded alive registry b) in
      let id : IssuedId = (candidate, roomy.1.serial) in
      elim (Bool-cases roomy.0) [
        | inl a ↦
            elim (Bool-cases
              (missing_id id roomy.1.preparations && missing_id id roomy.1.tombstones)) [
                | inl e ↦
                    rw (a, e)
                      record {
                        active = omega (
                          arith,
                          h.1 a,
                          length-append roomy.1.preparations (
                              (
                                id,
                                record {
                                  owner = owner;
                                  public = public;
                                  intent = intent;
                                  consumed = false;
                                  executing = false;
                                },
                              )
                              ∷ []),
                        );
                        kept = h.0.kept;
                      }
                | inr e ↦ rw (a, e) record { active = h.0.active; kept = h.0.kept }
              ]
        | inr a ↦ rw a h.0
      ]

  finish_accepted-Bounded :
      (alive : ℕ → Bool) (id : IssuedId) (registry : Registry A B)
      → Bounded registry
      → Bounded (finish_accepted alive id registry)
  unfolding finish_accepted
  finish_accepted-Bounded alive id registry b =
      let g = reclaim-Bounded alive (retire id true registry) (retire-Bounded id true registry b) in
      record { active = g.active; kept = length-trim _ }

module _ {A B : Type 0} (eq : A → A → Bool) where
  accept_found-Bounded :
      (owner : ℕ) (id : IssuedId) (prepared : A) (found : Option (IssuedPreparation A B))
      (registry : Registry A B)
      → Bounded registry
      → Bounded (accept_found eq owner id prepared found registry).1
  accept_found-Bounded owner id prepared none registry b = b
  accept_found-Bounded owner id prepared (some issued) registry b =
      elim (Bool-cases (issued.owner == owner && eq prepared issued.public)) [
        | inl a ↦ elim (Bool-cases issued.consumed) [
          | inl c ↦ rw (a, c) b
          | inr c ↦
              rw (a, c)
                record {
                  active = omega (arith, b.active, length-mark id registry.preparations);
                  kept = b.kept;
                }
        ]
        | inr a ↦ rw a b
      ]

  if-Bounded :
      (c : Bool) (left right : Option IssuedId × Registry A B)
      → Bounded left.1
      → Bounded right.1
      → Bounded (if c then left else right).1
  if-Bounded true left right f g = f
  if-Bounded false left right f g = g

  run_block-Bounded :
      (alive : ℕ → Bool) (event : LockBlock A B) (registry : Registry A B)
      → Bounded registry
      → Bounded (run_block eq alive event registry).1
  unfolding run_block claim accept
  run_block-Bounded alive (registering owner candidate public intent) registry b =
      register-Bounded alive owner candidate public intent registry b
  run_block-Bounded alive (screening owner id prepared) registry b =
      reclaim-Bounded alive registry b
  run_block-Bounded alive (claiming owner id prepared) registry b =
      if-Bounded registry.claimed _ _ b (
        accept_found-Bounded owner id prepared _ (reclaim_dead alive registry)
          (reclaim-Bounded alive registry b))
  run_block-Bounded alive (finishing id) registry b = finish_accepted-Bounded alive id registry b

  run-Bounded :
      (events : List ((ℕ → Bool) × LockBlock A B)) (used : List IssuedId) (registry : Registry A B)
      → Bounded registry
      → Bounded (run_steps eq events (used, registry)).1
  unfolding run_steps
  run-Bounded [] used registry b = b
  run-Bounded ((alive, event) ∷ events) used registry b =
      run-Bounded events _ (run_block eq alive event registry).1
        (run_block-Bounded alive event registry b)

  -- However registrations, claims and ends of executions are interleaved, the registry never holds more
  -- than 32 preparations and 128 tombstones.
  pub run_steps-Bounded :
      (events : List ((ℕ → Bool) × LockBlock A B))
      → (length (run_steps eq events ([], empty_registry)).1.preparations ≤ 32)
        × (length (run_steps eq events ([], empty_registry)).1.tombstones ≤ 128)
  run_steps-Bounded events =
      let b =
        run-Bounded events [] empty_registry record { active = omega arith; kept = omega arith } in
      (b.active, b.kept)
