-- ===== src/Handler/Serial.antt =====
-- However handlers interleave, the cloud is as if the handlers that had their effect had run one after the
-- other.
use terraform_provider_azure.Base.{
  ℕ, ◌≡◌, refl, Bool, true, false, none, some, List, [], ◌∷◌, ◌++◌, arith, ap, sym, ◌∙◌, ◌==◌, ◌||◌,
  Str, str_eq_iff,
}
use terraform_provider_azure.Locks.Handlers.{key_of}
use terraform_provider_azure.Handler.Interleaving.{
  Change, Phase, waiting, locked, fetched, finished, returned, Resources, put_at, System, key, Step,
  acquires, reads, misses, writes, refuses, read_fails, write_fails, releases, started, Reach,
  at_start, then_step, apply, run_all,
}

run_all-append :
    {X : Type 0} (ops : ℕ → Change X) (is : List ℕ) (i : ℕ) (c : Resources X)
    → run_all ops (is ++ i ∷ []) c ≡ apply (ops i) (run_all ops is c)
unfolding run_all
run_all-append ops [] i c = refl
run_all-append ops (j ∷ is) i c = run_all-append ops is i (apply (ops j) c)

apply-missing :
    {X : Type 0} (op : Change X) (c : Resources X) → c op.group op.name ≡ none → apply op c ≡ c
unfolding apply
apply-missing op c h = rw (h, apply) refl

apply-refuses :
    {X : Type 0} (op : Change X) (c : Resources X) (x : X)
    → c op.group op.name ≡ some x
    → op.change x ≡ none
    → apply op c ≡ c
unfolding apply
apply-refuses op c x h h' = ground arith

apply-changes :
    {X : Type 0} (op : Change X) (c : Resources X) (x y : X)
    → c op.group op.name ≡ some x
    → op.change x ≡ some y
    → apply op c ≡ put_at op.group op.name y c
unfolding apply
apply-changes op c x y h h' = ground arith

unfoldable pub mem : ℕ → List ℕ → Bool
mem i [] = false
mem i (j ∷ js) = j == i || mem i js

mem-append : (i j : ℕ) (is : List ℕ) → mem i (is ++ j ∷ []) ≡ (mem i is || j == i)
unfolding mem
mem-append i j [] = ground arith
mem-append i j (k ∷ is) = ground (arith, mem-append i j is)

-- The handler is between its lock and its unlock.
abbrev inside : {X : Type 0} → Phase X → Bool
inside waiting = false
inside locked = true
inside (fetched x) = true
inside (finished done) = true
inside (returned done) = false

-- The handler has had its effect.
abbrev pub effective : {X : Type 0} → Phase X → Bool
effective waiting = false
effective locked = false
effective (fetched x) = false
effective (finished done) = done
effective (returned done) = done

module _ {X : Type 0} (kind : Str) (ops : ℕ → Change X) (c : Resources X) where
  record IsSerial (s : System X) : Type 0 where
    owned : (i : ℕ) → inside (s.phase i) ≡ true → s.owner (key kind ops i) ≡ some i
    current : (i : ℕ) (x : X) → s.phase i ≡ fetched x → s.cloud (ops i).group (ops i).name ≡ some x
    serial : s.cloud ≡ run_all ops s.log c
    logged : (i : ℕ) → mem i s.log ≡ effective (s.phase i)

  key-eq : (i j : ℕ) → (ops i).name ≡ (ops j).name → key kind ops i ≡ key kind ops j
  unfolding key
  key-eq i j e = ap (λ n. key_of n kind) e

  -- Two handlers that are inside have different mutexes.
  alone :
      (s : System X) (i j : ℕ)
      → IsSerial s
      → inside (s.phase i) ≡ true
      → inside (s.phase j) ≡ true
      → (ops i).name ≡ (ops j).name
      → i ≡ j
  alone s i j h hi hj same =
      ground (arith, h.owned i hi, h.owned j hj, ap s.owner (key-eq i j same))

  started-IsSerial : IsSerial (started kind ops c)
  unfolding run_all mem
  started-IsSerial = record {
    owned = λ i e. cc;
    current = λ i x e. cc;
    serial = refl;
    logged = λ i. refl;
  }

  logged_serial :
      (s : System X) (i : ℕ) (after : Resources X)
      → IsSerial s
      → apply (ops i) s.cloud ≡ after
      → after ≡ run_all ops (s.log ++ i ∷ []) c
  logged_serial s i after h e =
      sym e ∙ ap (apply (ops i)) h.serial ∙ sym (run_all-append ops s.log i c)

  step-IsSerial : (s u : System X) → IsSerial s → Step kind ops s u → IsSerial u
  step-IsSerial s _ h (acquires i waits free) = record {
    owned = λ j e. ground (
      arith,
      h.owned j,
      ap s.owner {x = key kind ops i} {y = key kind ops j},
      str_eq_iff (key kind ops i) (key kind ops j),
    );
    current = λ j x e. ground (arith, h.current j x);
    serial = h.serial;
    logged = λ j. ground (arith, h.logged j);
  }
  step-IsSerial s _ h (reads i x at_ there) = record {
    owned = λ j e. ground (arith, h.owned j);
    current = λ j y e. ground (arith, h.current j y);
    serial = h.serial;
    logged = λ j. ground (arith, h.logged j);
  }
  step-IsSerial s _ h (misses i at_ gone) = record {
    owned = λ j e. ground (arith, h.owned j);
    current = λ j y e. ground (arith, h.current j y);
    serial = logged_serial s i s.cloud h (apply-missing (ops i) s.cloud gone);
    logged = λ j. ground (arith, h.logged j, mem-append j i s.log);
  }
  step-IsSerial s _ h (writes i x y at_ changes) = record {
    owned = λ j e. ground (arith, h.owned j);
    current =
        λ j z e. ground (arith, h.current j z, alone s i j h, str_eq_iff (ops i).name (ops j).name);
    serial = logged_serial s i _ h (apply-changes (ops i) s.cloud x y (h.current i x at_) changes);
    logged = λ j. ground (arith, h.logged j, mem-append j i s.log);
  }
  step-IsSerial s _ h (refuses i x at_ fails) = record {
    owned = λ j e. ground (arith, h.owned j);
    current = λ j y e. ground (arith, h.current j y);
    serial =
        logged_serial s i s.cloud h (apply-refuses (ops i) s.cloud x (h.current i x at_) fails);
    logged = λ j. ground (arith, h.logged j, mem-append j i s.log);
  }
  step-IsSerial s _ h (read_fails i at_) = record {
    owned = λ j e. ground (arith, h.owned j);
    current = λ j y e. ground (arith, h.current j y);
    serial = h.serial;
    logged = λ j. ground (arith, h.logged j);
  }
  step-IsSerial s _ h (write_fails i x at_) = record {
    owned = λ j e. ground (arith, h.owned j);
    current = λ j y e. ground (arith, h.current j y);
    serial = h.serial;
    logged = λ j. ground (arith, h.logged j);
  }
  step-IsSerial s _ h (releases i done at_) = record {
    owned = λ j e. ground (
      arith,
      h.owned j,
      h.owned i,
      ap s.owner {x = key kind ops i} {y = key kind ops j},
      str_eq_iff (key kind ops i) (key kind ops j),
    );
    current = λ j y e. ground (arith, h.current j y);
    serial = h.serial;
    logged = λ j. ground (arith, h.logged j);
  }

  Reach-IsSerial : (s : System X) → Reach kind ops c s → IsSerial s
  Reach-IsSerial s at_start = started-IsSerial
  Reach-IsSerial s (then_step t u before step) = step-IsSerial t u (Reach-IsSerial t before) step

  -- Whatever handlers run side by side, in whatever order their steps come, and wherever their calls fail: the
  -- cloud is as if the handlers that had their effect had run alone, one after the other, in the order in
  -- which they had it. These are just the handlers that are past a write that the service took, whether or not
  -- its call returned an error, or past the point where they find that they have nothing to write.
  pub handlers-serial :
      (s : System X)
      → Reach kind ops c s
      → (s.cloud ≡ run_all ops s.log c) × ((i : ℕ) → mem i s.log ≡ effective (s.phase i))
  handlers-serial s reached = let h = Reach-IsSerial s reached in (h.serial, h.logged)
