-- ===== src/Locks/Paired.antt =====
-- The program of a handler: every lock has its unlock behind it.
use terraform_provider_azure.Base.{
  ℕ, suc, ◌+◌, ◌-◌, ◌≤◌, ◌≡◌, refl, List, [], ◌∷◌, ◌++◌, map, arith, if◌then◌else◌, str_eq,
  str_eq_self, append_assoc,
}
use terraform_provider_azure.Locks.Handlers.{Key, Op, acquire, release, work, program}

-- How often the key is among those held.
unfoldable pub times_held : Key → List Key → ℕ
times_held k [] = 0
times_held k (j ∷ js) = let rest = times_held k js in if str_eq j k then suc rest else rest

-- The unlocks of the key for which no lock stands before them.
unfoldable pub owed : Key → List Op → ℕ
owed k [] = 0
owed k (acquire j ∷ ops) = let rest = owed k ops in if str_eq j k then rest - 1 else rest
owed k (release j ∷ ops) = let rest = owed k ops in if str_eq j k then suc rest else rest
owed k (work ∷ ops) = owed k ops

-- Every lock has its unlock behind it.
abbrev pub IsPaired : List Op → Type 0
IsPaired [] = Unit
IsPaired (acquire j ∷ ops) = (1 ≤ owed j ops) × IsPaired ops
IsPaired (release j ∷ ops) = IsPaired ops
IsPaired (work ∷ ops) = IsPaired ops

releases-IsPaired : (g : List Key) (ops : List Op) → IsPaired ops → IsPaired (map release g ++ ops)
releases-IsPaired [] ops h = h
releases-IsPaired (k ∷ g) ops h = releases-IsPaired g ops h

owed-releases :
    (k : Key) (g : List Key) (ops : List Op)
    → owed k (map release g ++ ops) ≡ times_held k g + owed k ops
unfolding owed times_held
owed-releases k [] ops = omega arith
owed-releases k (j ∷ g) ops = ground (arith, owed-releases k g ops)

-- The locks of a group, before operations that owe its unlocks.
owed-acquires :
    (k : Key) (g : List Key) (ops : List Op)
    → owed k (map acquire g ++ ops) ≡ owed k ops - times_held k g
unfolding owed times_held
owed-acquires k [] ops = omega arith
owed-acquires k (j ∷ g) ops = ground (arith, owed-acquires k g ops)

acquires-IsPaired :
    (g : List Key) (ops : List Op)
    → ((k : Key) → times_held k g ≤ owed k ops)
    → IsPaired ops
    → IsPaired (map acquire g ++ ops)
unfolding times_held
acquires-IsPaired [] ops owes h = h
acquires-IsPaired (j ∷ g) ops owes h = (
  ground (arith, owes j, str_eq_self j, owed-acquires j g ops),
  acquires-IsPaired g ops (λ k. ground (arith, owes k)) h,
)

pub program-owed :
    (gs : List (List Key)) (ops : List Op) (k : Key) → owed k (program gs ++ ops) ≡ owed k ops
unfolding program owed
program-owed [] ops k = refl
program-owed (g ∷ gs) ops k =
    rw
      (
        append_assoc (map acquire g) (program gs ++ map release g) ops,
        append_assoc (program gs) (map release g) ops,
      )
      (omega (
        arith,
        owed-acquires k g (program gs ++ (map release g ++ ops)),
        program-owed gs (map release g ++ ops) k,
        owed-releases k g ops,
      ))

pub program-IsPaired :
    (gs : List (List Key)) (ops : List Op) → IsPaired ops → IsPaired (program gs ++ ops)
unfolding program
program-IsPaired [] ops h = h
program-IsPaired (g ∷ gs) ops h =
    rw
      (
        append_assoc (map acquire g) (program gs ++ map release g) ops,
        append_assoc (program gs) (map release g) ops,
      )
      (acquires-IsPaired g _
        (λ k. omega (arith, program-owed gs (map release g ++ ops) k, owed-releases k g ops))
        (program-IsPaired gs (map release g ++ ops) (releases-IsPaired g ops h)))
