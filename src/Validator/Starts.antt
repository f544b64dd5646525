-- ===== src/Validator/Starts.antt =====
-- The starts that `validate_images` collects, sorts and walks: none gets lost.
use g502x_onboard.Base.{
  ◌≡◌, refl, sym, subst, true, List, [], ◌∷◌, ◌++◌, arith, All, Bool-cases, inl, inr,
}
use g502x_onboard.Base.Results.{Result, ok, err}
use g502x_onboard.CodecError.{CodecError}
use g502x_onboard.Vm.{Pages, Address, VmInstruction, walk_macro}
use g502x_onboard.Validator.{
  Finding, fine, problem, starts_at, BindingRoute, Starts, problems, add_start, collect_starts,
  before, insert_start, sort_starts, walk_starts, equal_address, Walked, add_walked,
}

-- `walk_macro` accepts the start.
abbrev pub Walks : Pages → Address → Type 0
Walks pages start = (chain : List VmInstruction) × (walk_macro pages start ≡ ok chain)

-- A finding that is no error, now or in the last loop.
abbrev pub Clean : Pages → Finding → Type 0
Clean pages fine = Unit
Clean pages (problem e) = ⊥
Clean pages (starts_at route start) = Walks pages start

equal_address→eq : (a b : Address) → equal_address a b ≡ true → a ≡ b
equal_address→eq (s, o) (t, p) h = ground (arith, h)

add_walked-nil :
    (start : Address) (routes : List BindingRoute) (r : Result CodecError (List VmInstruction))
    (rest : Walked)
    → (add_walked start routes r rest).0 ≡ []
    → ((chain : List VmInstruction) × (r ≡ ok chain)) × (rest.0 ≡ [])
add_walked-nil start routes (ok chain) rest h = ((chain, refl), h)
add_walked-nil start routes (err e) rest h = absurd cc

module _ (pages : Pages) where
  abbrev AllWalk : Starts → Type 0
  AllWalk starts = All (λ entry. Walks pages entry.0) starts

  added :
      (route : BindingRoute) (start : Address) (starts : Starts)
      → AllWalk (add_start route start starts)
      → Walks pages start × AllWalk starts
  unfolding add_start
  added route start [] h = (h.0, tt)
  added route start ((other, routes) ∷ starts) h = elim (Bool-cases (equal_address start other)) [
    | inl e ↦
        let same : AllWalk ((other, routes ++ (route ∷ [])) ∷ starts) = rw e at h in
        (subst (Walks pages) (sym (equal_address→eq start other e)) same.0, same)
    | inr e ↦
        let later : AllWalk ((other, routes) ∷ add_start route start starts) = rw e at h in
        let rest = added route start starts later.1 in (rest.0, (later.0, rest.1))
  ]

  pub collected :
      (findings : List Finding) (starts : Starts)
      → problems findings ≡ []
      → AllWalk (collect_starts findings starts)
      → All (Clean pages) findings × AllWalk starts
  unfolding problems collect_starts
  collected [] starts h w = (tt, w)
  collected (fine ∷ findings) starts h w =
      let rest = collected findings starts h w in ((tt, rest.0), rest.1)
  collected (problem e ∷ findings) starts h w = absurd cc
  collected (starts_at route start ∷ findings) starts h w =
      let rest = collected findings (add_start route start starts) h w in
      let both = added route start starts rest.1 in ((both.0, rest.0), both.1)

  inserted :
      (entry : Address × List BindingRoute) (starts : Starts)
      → AllWalk (insert_start entry starts)
      → AllWalk (entry ∷ starts)
  unfolding insert_start
  inserted entry [] h = h
  inserted entry (other ∷ starts) h = elim (Bool-cases (before entry.0 other.0)) [
    | inl e ↦ (rw e at h)
    | inr e ↦
        let later : AllWalk (other ∷ insert_start entry starts) = rw e at h in
        let rest = inserted entry starts later.1 in (rest.0, (later.0, rest.1))
  ]

  pub sorted : (starts : Starts) → AllWalk (sort_starts starts) → AllWalk starts
  unfolding sort_starts
  sorted [] h = tt
  sorted (entry ∷ starts) h =
      let both = inserted entry (sort_starts starts) h in (both.0, sorted starts both.1)

  pub walked : (starts : Starts) → (walk_starts pages starts).0 ≡ [] → AllWalk starts
  unfolding walk_starts
  walked [] h = tt
  walked ((start, routes) ∷ starts) h =
      let both =
        add_walked-nil start routes (walk_macro pages start) (walk_starts pages starts) h in
      (both.0, walked starts both.1)
