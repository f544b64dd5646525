-- ===== src/Persistent/Registry.antt =====
-- g502x_onboard/application/persistent.py, the registry of preparations: `_register`, the blocks of
-- `execute_prepared` that hold the lock, and `_finish_accepted_record`, with the claim of
-- coordinator.py. One block that holds the lock is one step. An owner is a number, and `alive` says
-- which owners are still referenced; an id is the candidate and the serial that its text ends in.
pub mod Once
pub mod Bounds
use g502x_onboard.Base.{
  ℕ, String, zero, suc, ◌+◌, ◌-◌, Bool, true, false, not, ◌&&◌, ◌||◌, Option, none, some, List, [],
  ◌∷◌, ◌++◌, ◌==◌, if◌then◌else◌, ltb, leb, length, drop,
}
use package.text.Mathlib.Text.{◌==◌ as str_eq}

abbrev pub IssuedId : Type 0
IssuedId = String × ℕ

abbrev pub equal_id : IssuedId → IssuedId → Bool
equal_id a b = a.1 == b.1 && str_eq a.0 b.0

-- `_IssuedPreparation`, with what was issued and the intent for the backend.
pub record IssuedPreparation (A B : Type 0) : Type 0 where
  pub owner : ℕ
  pub public : A
  pub intent : B
  pub consumed : Bool
  pub executing : Bool

pub record PreparationTombstone : Type 0 where
  pub owner : ℕ
  pub consumed : Bool

-- The module's dictionaries and counter, and whether the process-wide claim is held.
pub record Registry (A B : Type 0) : Type 0 where
  pub serial : ℕ
  pub preparations : List (IssuedId × IssuedPreparation A B)
  pub tombstones : List (IssuedId × PreparationTombstone)
  pub claimed : Bool

abbrev pub max_active : ℕ
max_active = 32

abbrev pub max_tombstones : ℕ
max_tombstones = 128

unfoldable pub lookup_id : {V : Type 0} → IssuedId → List (IssuedId × V) → Option V
lookup_id id [] = none
lookup_id id ((other, v) ∷ rest) = if equal_id id other then some v else lookup_id id rest

unfoldable pub delete_id : {V : Type 0} → IssuedId → List (IssuedId × V) → List (IssuedId × V)
delete_id id [] = []
delete_id id ((other, v) ∷ rest) =
    if equal_id id other then delete_id id rest else (other, v) ∷ delete_id id rest

unfoldable pub keep_where : {V : Type 0} → (V → Bool) → List (IssuedId × V) → List (IssuedId × V)
keep_where f [] = []
keep_where f ((id, v) ∷ rest) = if f v then (id, v) ∷ keep_where f rest else keep_where f rest

-- `popitem(last=False)` until the limit is kept.
unfoldable pub trim :
    List (IssuedId × PreparationTombstone) → List (IssuedId × PreparationTombstone)
trim tombstones = drop (length tombstones - max_tombstones) tombstones

abbrev pub missing_id : {V : Type 0} → IssuedId → List (IssuedId × V) → Bool
missing_id id entries = elim (lookup_id id entries) [ none ↦ true | some v ↦ false ]

-- Why an execution is refused.
pub data Refusal : Type 0 where
  unknown_preparation tampered_preparation consumed_preparation stale_preparation busy : Refusal

abbrev pub refusal_or : Option Refusal → Refusal → Refusal
refusal_or none other = other
refusal_or (some refusal) other = refusal

module _ {A B : Type 0} where
  abbrev pub retire_found :
      IssuedId → Bool → Option (IssuedPreparation A B) → Registry A B → Registry A B
  retire_found id consumed none registry = registry
  retire_found id consumed (some issued) registry = record registry {
    preparations = delete_id id registry.preparations;
    tombstones = trim (
        delete_id id registry.tombstones
        ++ (id, record { owner = issued.owner; consumed = consumed }) ∷ []);
  }

  -- `_retire_locked` and `_add_tombstone_locked`; a record is the current one while its id is there.
  unfoldable pub retire : IssuedId → Bool → Registry A B → Registry A B
  retire id consumed registry =
      retire_found id consumed (lookup_id id registry.preparations) registry

  unfoldable pub reclaim_dead : (ℕ → Bool) → Registry A B → Registry A B
  reclaim_dead alive registry = record registry {
    preparations =
        keep_where (λ issued. alive issued.owner || issued.executing) registry.preparations;
    tombstones = keep_where (λ tombstone. alive tombstone.owner) registry.tombstones;
  }

  -- The first preparation that is not executing.
  unfoldable pub first_idle :
      List (IssuedId × IssuedPreparation A B) → Option (IssuedId × IssuedPreparation A B)
  first_idle [] = none
  first_idle ((id, issued) ∷ rest) = if issued.executing then first_idle rest else some (id, issued)

  -- The loop of `_make_active_room_locked`; each round retires one preparation.
  unfoldable pub make_room : ℕ → Registry A B → Bool × Registry A B
  make_room zero registry = (ltb (length registry.preparations) max_active, registry)
  make_room (suc rounds) registry =
      let next = λ (entry : IssuedId × IssuedPreparation A B).
        make_room rounds (retire entry.0 entry.1.consumed registry) in
      if ltb (length registry.preparations) max_active
      then (true, registry)
      else elim (first_idle registry.preparations) [
        | none ↦ (false, registry)
        | some entry ↦ next entry
      ]

  abbrev pub issue : ℕ → IssuedId → A → B → Registry A B → Registry A B
  issue owner id public intent registry = record registry {
    preparations =
        registry.preparations
        ++ (
          id,
          record {
            owner = owner;
            public = public;
            intent = intent;
            consumed = false;
            executing = false;
          },
        )
          ∷ [];
  }

  -- `_register`: the id that is issued, or none where it fails.
  unfoldable pub register :
      (ℕ → Bool) → ℕ → String → A → B → Registry A B → Option IssuedId × Registry A B
  register alive owner candidate public intent registry =
      let reclaimed = reclaim_dead alive registry in
      let (room, roomy) = make_room (length reclaimed.preparations) reclaimed in
      let id : IssuedId = (candidate, roomy.serial) in
      let counted = record roomy { serial = suc roomy.serial } in
      if not room
      then (none, roomy)
      else if missing_id id counted.preparations && missing_id id counted.tombstones
      then (some id, issue owner id public intent counted)
      else (none, counted)

  -- `record.consumed = True` and `record.executing = True`.
  unfoldable pub mark :
      IssuedId → List (IssuedId × IssuedPreparation A B) → List (IssuedId × IssuedPreparation A B)
  mark id [] = []
  mark id ((other, issued) ∷ rest) =
      (
        other,
        if equal_id id other then record issued { consumed = true; executing = true } else issued,
      )
      ∷ mark id rest

  -- `_retired_terminal`, where it returns something.
  unfoldable pub retired_refusal : ℕ → IssuedId → Registry A B → Option Refusal
  retired_refusal owner id registry = elim (lookup_id id registry.tombstones) [
    | none ↦ none
    | some tombstone ↦
        if tombstone.owner == owner
        then some (if tombstone.consumed then consumed_preparation else stale_preparation)
        else none
  ]

  -- The block before the claim, of an issued preparation that is presented as `prepared`.
  unfoldable pub screen : (A → A → Bool) → ℕ → IssuedId → A → Registry A B → Option Refusal
  screen eq owner id prepared registry = elim (lookup_id id registry.preparations) [
    | none ↦ some (refusal_or (retired_refusal owner id registry) unknown_preparation)
    | some issued ↦
        if not (issued.owner == owner)
        then some unknown_preparation
        else if not (eq prepared issued.public)
        then some tampered_preparation
        else if issued.consumed
        then some consumed_preparation
        else none
  ]

  abbrev pub accept_found :
      (A → A → Bool)
      → ℕ
      → IssuedId
      → A
      → Option (IssuedPreparation A B)
      → Registry A B
      → Option Refusal × Registry A B
  accept_found eq owner id prepared none registry =
      (some (refusal_or (retired_refusal owner id registry) stale_preparation), registry)
  accept_found eq owner id prepared (some issued) registry =
      if not (issued.owner == owner && eq prepared issued.public)
      then (some stale_preparation, registry)
      else if issued.consumed
      then (some consumed_preparation, registry)
      else (none, record registry { preparations = mark id registry.preparations; claimed = true })

  -- The block under the claim: a refusal, which gives the claim back, or the acceptance.
  unfoldable pub accept :
      (A → A → Bool) → ℕ → IssuedId → A → Registry A B → Option Refusal × Registry A B
  accept eq owner id prepared registry =
      accept_found eq owner id prepared (lookup_id id registry.preparations) registry

  -- `_finish_accepted_record`, and the release of the claim.
  unfoldable pub finish_accepted : (ℕ → Bool) → IssuedId → Registry A B → Registry A B
  finish_accepted alive id registry =
      let retired = reclaim_dead alive (retire id true registry) in
      record retired { tombstones = trim retired.tombstones; claimed = false }

-- A block that holds the lock.
pub data LockBlock (A B : Type 0) : Type 0 where
  registering : (owner : ℕ) (candidate : String) (public : A) (intent : B) → LockBlock A B
  screening : (owner : ℕ) (id : IssuedId) (prepared : A) → LockBlock A B
  claiming : (owner : ℕ) (id : IssuedId) (prepared : A) → LockBlock A B
  finishing : IssuedId → LockBlock A B

abbrev pub accepted_id : IssuedId → Option Refusal → Option IssuedId
accepted_id id none = some id
accepted_id id (some refusal) = none

abbrev pub add_accepted : Option IssuedId → List IssuedId → List IssuedId
add_accepted none used = used
add_accepted (some id) used = id ∷ used

module _ {A B : Type 0} (eq : A → A → Bool) where
  -- The block under the claim, which is refused where another operation holds it.
  unfoldable pub claim :
      (ℕ → Bool) → ℕ → IssuedId → A → Registry A B → Option IssuedId × Registry A B
  claim alive owner id prepared registry =
      let (refusal, after) = accept eq owner id prepared (reclaim_dead alive registry) in
      if registry.claimed then (none, registry) else (accepted_id id refusal, after)

  -- One block: the id whose execution starts, if one does.
  unfoldable pub run_block :
      (ℕ → Bool) → LockBlock A B → Registry A B → Option IssuedId × Registry A B
  run_block alive (registering owner candidate public intent) registry =
      (none, (register alive owner candidate public intent registry).1)
  run_block alive (screening owner id prepared) registry = (none, reclaim_dead alive registry)
  run_block alive (claiming owner id prepared) registry = claim alive owner id prepared registry
  run_block alive (finishing id) registry = (none, finish_accepted alive id registry)

  -- The ids whose execution started, the last one first, and the registry at the end.
  unfoldable pub run_steps :
      List ((ℕ → Bool) × LockBlock A B)
      → List IssuedId × Registry A B
      → List IssuedId × Registry A B
  run_steps [] state = state
  run_steps ((alive, event) ∷ events) (used, registry) =
      let (accepted, after) = run_block alive event registry in
      run_steps events (add_accepted accepted used, after)

-- The registry when the module is loaded.
abbrev pub empty_registry : {A B : Type 0} → Registry A B
empty_registry = record { serial = 0; preparations = []; tombstones = []; claimed = false }
