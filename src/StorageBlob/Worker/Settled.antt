-- ===== src/StorageBlob/Worker/Settled.antt =====
-- What the upload workers have done when the wait is over, and why it ends.
use terraform_provider_azure.Base.{
  All-middle, All-put, ℕ, suc, ◌+◌, ◌≤◌, ◌≡◌, refl, ◌⊎◌, inl, inr, Bool, true, false, List, [], ◌∷◌,
  ◌++◌, length, length-append, if◌then◌else◌, arith, All, ap,
}
use mathlib.Core.Path.{subst}
use terraform_provider_azure.StorageBlob.Worker.{
  Transfer, Job, Pool, initial, Step, start, start_fails, attempt, attempt_fails, give_up, finish,
  Reach, at_start, then_step, has_failed,
}

-- How many items of a list pass the test.
unfoldable pub count {ℓ} : {A : Type ℓ} → (A → Bool) → List A → ℕ
count test [] = 0
count test (x ∷ xs) = let rest = count test xs in if test x then suc rest else rest

count-append {ℓ} :
    {A : Type ℓ} (test : A → Bool) (xs ys : List A)
    → count test (xs ++ ys) ≡ count test xs + count test ys
unfolding count
count-append test [] ys = omega arith
count-append test (x ∷ xs) ys = ground (arith, count-append test xs ys)

count-true {ℓ} : {A : Type ℓ} (xs : List A) → count (λ _. true) xs ≡ length xs
unfolding count
count-true [] = refl
count-true (x ∷ xs) = ap suc (count-true xs)

count-le-length {ℓ} : {A : Type ℓ} (test : A → Bool) (xs : List A) → count test xs ≤ length xs
unfolding count
count-le-length test [] = omega arith
count-le-length test (x ∷ xs) = ground (arith, count-le-length test xs)

module _ (transfer : Transfer) where
  -- A job that ends with no error has been sent.
  abbrev pub IsAlive : Job transfer → Type 0
  IsAlive job = (1 ≤ job.left) ⊎ (job.failing ≡ true)

  unfoldable pub item_test : (transfer.Item → Bool) → Job transfer → Bool
  item_test test job = test job.item

  count-all : (jobs : List (Job transfer)) → count (item_test (λ _. true)) jobs ≡ length jobs
  unfolding item_test
  count-all jobs = count-true jobs

  -- Every part is in the channel, in hand, failed or accepted.
  abbrev pub tally : (transfer.Item → Bool) → Pool transfer → ℕ
  tally test s =
      count test s.queue
      + count (item_test test) s.busy
      + count test s.errors
      + count test s.accepted

  pub record IsBalanced (parts : List transfer.Item) (s : Pool transfer) : Type 0 where
    pub waiting : s.waiting ≡ length s.queue + length s.busy
    pub balance : (test : transfer.Item → Bool) → tally test s ≡ count test parts
    pub alive : All IsAlive s.busy

  IsAlive-at :
      (busy before after : List (Job transfer)) (job : Job transfer)
      → busy ≡ before ++ job ∷ after
      → All IsAlive busy
      → IsAlive job × All IsAlive (before ++ after)
  IsAlive-at busy before after job e h =
      All-middle IsAlive before after job (subst (All IsAlive) e h)

  IsWaiting-at :
      (busy before after : List (Job transfer)) (job : Job transfer)
      → busy ≡ before ++ job ∷ after
      → length busy ≡ suc (length (before ++ after))
  IsWaiting-at busy before after job e =
      omega (arith, ap length e, length-append before (job ∷ after), length-append before after)

  count_at :
      (test : transfer.Item → Bool) (busy before after : List (Job transfer)) (job : Job transfer)
      → busy ≡ before ++ job ∷ after
      → count (item_test test) busy
        ≡ count (item_test test) (before ++ after) + count test (job.item ∷ [])
  unfolding count item_test
  count_at test busy before after job e = ground (
    arith,
    ap (count (item_test test)) e,
    count-append (item_test test) before (job ∷ after),
    count-append (item_test test) before after,
  )

  step-IsBalanced :
      (parts : List transfer.Item) (s t : Pool transfer)
      → 1 ≤ transfer.attempts
      → IsBalanced parts s
      → Step transfer s t
      → IsBalanced parts t
  unfolding count item_test
  step-IsBalanced parts s t some_attempts h (start p queue failing free next reading) = record {
    waiting = omega (arith, h.waiting, ap length next);
    balance = λ test. ground (arith, h.balance test, ap (count test) next);
    alive = (inl some_attempts, h.alive);
  }
  step-IsBalanced parts s t some_attempts h (start_fails p queue free next reading) = record {
    waiting = omega (arith, h.waiting, ap length next);
    balance = λ test.
        ground (arith, h.balance test, ap (count test) next, count-append test s.errors (p ∷ []));
    alive = h.alive;
  }
  step-IsBalanced parts s t some_attempts h (attempt before after job left cloud here more sent) =
      record {
        waiting = omega (arith, h.waiting, IsWaiting-at s.busy before after job here);
        balance = λ test. omega (
          arith,
          h.balance test,
          count_at test s.busy before after job here,
          count-append test s.accepted (job.item ∷ []),
        );
        alive = (IsAlive-at s.busy before after job here h.alive).1;
      }
  step-IsBalanced parts s t some_attempts h
        (attempt_fails before after job left cloud here more sent) =
      record {
        waiting = omega (
          arith,
          h.waiting,
          IsWaiting-at s.busy before after job here,
          IsWaiting-at _ before after (record { item = job.item; left = left; failing = true })
              refl,
        );
        balance = λ test. omega (
          arith,
          h.balance test,
          count_at test s.busy before after job here,
          count_at test _ before after (record { item = job.item; left = left; failing = true })
              refl,
        );
        alive =
            All-put IsAlive before after _ (inr refl)
              (IsAlive-at s.busy before after job here h.alive).1;
      }
  step-IsBalanced parts s t some_attempts h (give_up before after job here no_more failing) =
      record {
        waiting = omega (arith, h.waiting, IsWaiting-at s.busy before after job here);
        balance = λ test. omega (
          arith,
          h.balance test,
          count_at test s.busy before after job here,
          count-append test s.errors (job.item ∷ []),
        );
        alive = (IsAlive-at s.busy before after job here h.alive).1;
      }
  step-IsBalanced parts s t some_attempts h (finish before after job here no_more fine) =
      absurd (elim (IsAlive-at s.busy before after job here h.alive).0 [
        | inl more ↦ omega (arith, no_more, more)
        | inr failing ↦ cc
      ])

  pub Reach-IsBalanced :
      (parts : List transfer.Item) (cloud : transfer.Cloud) (s : Pool transfer)
      → 1 ≤ transfer.attempts
      → Reach transfer parts cloud s
      → IsBalanced parts s
  unfolding initial count
  Reach-IsBalanced parts cloud s some_attempts at_start = record {
    waiting = omega arith;
    balance = λ test. omega arith;
    alive = tt;
  }
  Reach-IsBalanced parts cloud s some_attempts (then_step r t before step) =
      step-IsBalanced parts r t some_attempts (Reach-IsBalanced parts cloud r some_attempts before)
        step

  -- With at least one attempt for an item: where the wait is over, every part is either in the channel of
  -- errors or accepted, as often as it stands in the list of the parts; with no error in the channel, all
  -- parts are accepted.
  pub settled-accounts :
      (parts : List transfer.Item) (cloud : transfer.Cloud) (s : Pool transfer)
      → 1 ≤ transfer.attempts
      → Reach transfer parts cloud s
      → s.waiting ≡ 0
      → ((test : transfer.Item → Bool)
          → count test s.errors + count test s.accepted ≡ count test parts)
        × (has_failed transfer s ≡ false
            → (test : transfer.Item → Bool) → count test s.accepted ≡ count test parts)
  unfolding has_failed
  settled-accounts parts cloud s some_attempts reached over =
      let h = Reach-IsBalanced parts cloud s some_attempts reached in
      let idle : (test : transfer.Item → Bool)
          → count test s.errors + count test s.accepted ≡ count test parts =
        λ test. omega (
          arith,
          over,
          h.waiting,
          count-le-length test s.queue,
          count-le-length (item_test test) s.busy,
          h.balance test,
        ) in
      (idle, λ fine test. ground (arith, idle test, count-le-length test s.errors))

  -- With at least one attempt for an item, the errors and the items still waited for are never more than
  -- the parts: the channel of the errors, which holds as many as there are parts, is never full when a
  -- worker sends to it.
  pub errors-le-parts :
      (parts : List transfer.Item) (cloud : transfer.Cloud) (s : Pool transfer)
      → 1 ≤ transfer.attempts
      → Reach transfer parts cloud s
      → length s.errors + s.waiting ≤ length parts
  errors-le-parts parts cloud s some_attempts reached =
      let h = Reach-IsBalanced parts cloud s some_attempts reached in
      omega (
        arith,
        h.waiting,
        h.balance (λ _. true),
        count-true s.queue,
        count-all s.busy,
        count-true s.errors,
        count-true parts,
      )
