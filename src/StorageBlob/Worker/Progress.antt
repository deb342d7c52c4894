-- ===== src/StorageBlob/Worker/Progress.antt =====
-- The upload workers never wait for each other, and they end.
use terraform_provider_azure.Base.{
  ℕ, zero, suc, ◌+◌, ◌≤◌, ◌<◌, ◌≡◌, refl, ◌⊎◌, inl, inr, Bool, true, false, List, [], ◌∷◌, ◌++◌,
  length, arith, ap, Bool-cases,
}
use terraform_provider_azure.StorageBlob.Worker.{
  Reading, unread, chunk, Transfer, Job, Pool, Step, start, start_fails, attempt, attempt_fails,
  give_up, finish, Reach,
}
use terraform_provider_azure.StorageBlob.Worker.Settled.{Reach-IsBalanced}

module _ (transfer : Transfer) where
  -- The steps that the items in the channel can still take, and those of the items in hand.
  unfoldable pub queue_steps : List transfer.Item → ℕ
  queue_steps [] = 0
  queue_steps (p ∷ ps) = transfer.attempts + 2 + queue_steps ps

  unfoldable pub busy_steps : List (Job transfer) → ℕ
  busy_steps [] = 0
  busy_steps (job ∷ jobs) = job.left + 1 + busy_steps jobs

  unfoldable pub steps_left : Pool transfer → ℕ
  unfolding queue_steps busy_steps
  steps_left s = queue_steps s.queue + busy_steps s.busy

  busy_steps-append :
      (xs ys : List (Job transfer)) → busy_steps (xs ++ ys) ≡ busy_steps xs + busy_steps ys
  unfolding busy_steps
  busy_steps-append [] ys = omega arith
  busy_steps-append (x ∷ xs) ys = omega (arith, busy_steps-append xs ys)

  busy_steps_at :
      (busy before after : List (Job transfer)) (job : Job transfer)
      → busy ≡ before ++ job ∷ after
      → busy_steps busy ≡ job.left + 1 + busy_steps (before ++ after)
  unfolding busy_steps
  busy_steps_at busy before after job e = omega (
    arith,
    ap busy_steps e,
    busy_steps-append before (job ∷ after),
    busy_steps-append before after,
  )

  step-decreases : (s t : Pool transfer) → Step transfer s t → steps_left t < steps_left s
  unfolding steps_left queue_steps busy_steps
  step-decreases s t (start p queue failing free next reading) = omega (arith, ap queue_steps next)
  step-decreases s t (start_fails p queue free next reading) = omega (arith, ap queue_steps next)
  step-decreases s t (attempt before after job left cloud here more sent) =
      omega (arith, busy_steps_at s.busy before after job here)
  step-decreases s t (attempt_fails before after job left cloud here more sent) = omega (
    arith,
    busy_steps_at s.busy before after job here,
    more,
    busy_steps_at _ before after (record { item = job.item; left = left; failing = true }) refl,
  )
  step-decreases s t (give_up before after job here no_more failing) =
      omega (arith, busy_steps_at s.busy before after job here)
  step-decreases s t (finish before after job here no_more fine) =
      omega (arith, busy_steps_at s.busy before after job here)

  -- An item in hand has a step, whatever the service answers.
  send_step :
      (s : Pool transfer) (job : Job transfer) (rest : List (Job transfer)) (left : ℕ)
      (answer : Bool × transfer.Cloud)
      → s.busy ≡ job ∷ rest
      → job.left ≡ suc left
      → transfer.send job.item s.cloud ≡ answer
      → (t : Pool transfer) × Step transfer s t
  send_step s job rest left (true, cloud) here more sent =
      (_, attempt [] rest job left cloud here more sent)
  send_step s job rest left (false, cloud) here more sent =
      (_, attempt_fails [] rest job left cloud here more sent)

  left-cases : (n : ℕ) → (n ≡ 0) ⊎ ((m : ℕ) × (n ≡ suc m))
  left-cases zero = inl refl
  left-cases (suc m) = inr (m, refl)

  busy_step :
      (s : Pool transfer) (job : Job transfer) (rest : List (Job transfer))
      → s.busy ≡ job ∷ rest
      → (t : Pool transfer) × Step transfer s t
  busy_step s job rest here = elim (left-cases job.left) [
    | inr (m, more) ↦ send_step s job rest m _ here more refl
    | inl no_more ↦ elim (Bool-cases job.failing) [
      | inl failing ↦ (_, give_up [] rest job here no_more failing)
      | inr fine ↦ (_, finish [] rest job here no_more fine)
    ]
  ]

  -- So has a worker with none, where the channel holds an item.
  idle_step :
      (s : Pool transfer) (p : transfer.Item) (rest : List transfer.Item) (reading : Reading)
      → length s.busy < transfer.workers
      → s.queue ≡ p ∷ rest
      → transfer.read p ≡ reading
      → (t : Pool transfer) × Step transfer s t
  idle_step s p rest unread free next reads = (_, start_fails p rest free next reads)
  idle_step s p rest (chunk failing) free next reads = (_, start p rest failing free next reads)

  some_step :
      (s : Pool transfer) (busy : List (Job transfer)) (queue : List transfer.Item)
      → 1 ≤ transfer.workers
      → s.busy ≡ busy
      → s.queue ≡ queue
      → (length s.queue + length s.busy ≡ 0) ⊎ ((t : Pool transfer) × Step transfer s t)
  some_step s (job ∷ rest) queue some_workers here next = inr (busy_step s job rest here)
  some_step s [] (p ∷ rest) some_workers here next =
      inr (idle_step s p rest _ (omega (arith, ap length here)) next refl)
  some_step s [] [] some_workers here next = inl (omega (arith, ap length here, ap length next))

  -- With at least one attempt and one worker, the wait ends: in every state that the workers reach, it is
  -- over or one of them has a step, and every step takes the state closer to the end.
  pub workers-progress :
      (parts : List transfer.Item) (cloud : transfer.Cloud) (s : Pool transfer)
      → 1 ≤ transfer.attempts
      → 1 ≤ transfer.workers
      → Reach transfer parts cloud s
      → ((s.waiting ≡ 0) ⊎ ((t : Pool transfer) × Step transfer s t))
        × ((t : Pool transfer) → Step transfer s t → steps_left t < steps_left s)
  workers-progress parts cloud s some_attempts some_workers reached =
      let h = Reach-IsBalanced transfer parts cloud s some_attempts reached in
      (
        elim (some_step s s.busy s.queue some_workers refl refl) [
          | inl idle ↦ inl (omega (arith, h.waiting, idle))
          | inr next ↦ inr next
        ],
        step-decreases s,
      )
