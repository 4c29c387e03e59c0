-- ===== src/Manager/Start.antt =====
-- What comes of starting the workers (`start_workers` of src/mgmt/manager.rs), in the manager and in each
-- process that it forks.
use weldr.Common.{
  ℕ, zero, suc, ◌+◌, ◌≤◌, ◌<◌, String, Option, none, some, List, ◌∷◌, ◌++◌, map, ◌≡◌, refl, ap,
  arith, ◌⊎◌, inl, inr, Option-cases, All,
}
use weldr.Manager.Exec.{worker_command}
use weldr.Manager.{
  IoResult, ok, err, ForkResult, parent, child, Outcome, returns, execs, panics, Manager, ◌>>=◌,
  Worker, ids, start_worker, start_from, extend, start_workers,
}

fork-cases :
    (r : IoResult ForkResult)
    → ((pid : ℕ) × (r ≡ ok (parent pid))) ⊎ (r ≡ ok child) ⊎ ((e : ℕ) × (r ≡ err e))
fork-cases (ok (parent pid)) = inl (pid, refl)
fork-cases (ok child) = inr (inl refl)
fork-cases (err e) = inr (inr (e, refl))

module _ {PathBuf : Type 0} (current_exe : Option PathBuf) (to_str : PathBuf → Option String)
    (fork : ℕ → IoResult ForkResult) where
  -- What can come of starting the worker `id`.
  abbrev pub Started : ℕ → Outcome Worker → Type 0
  Started id (returns (ok w)) = (w.id ≡ id) × (fork id ≡ ok (parent w.pid))
  Started id (returns (err e)) = fork id ≡ err e
  Started id (execs command) =
      (fork id ≡ ok child)
      × (path : PathBuf) × (text : String) × (current_exe ≡ some path)
      × (to_str path ≡ some text)
      × (command ≡ worker_command text id)
  Started id panics =
      (current_exe ≡ none)
      ⊎ ((path : PathBuf) × (current_exe ≡ some path) × (to_str path ≡ none) × (fork id ≡ ok child))

  start_worker-Started : (id : ℕ) → Started id (start_worker current_exe to_str fork id)
  unfolding start_worker
  start_worker-Started id = elim (Option-cases current_exe) [
    | inl lost ↦ rw lost (inl refl)
    | inr (path, found) ↦ elim (fork-cases (fork id)) [
      | inl (pid, made) ↦ rw (found, made) (refl, made)
      | inr (inl forked) ↦ elim (Option-cases (to_str path)) [
        | inl unreadable ↦ rw (found, forked, unreadable) (inr (path, refl, unreadable, forked))
        | inr (text, readable) ↦
            rw (found, forked, readable) (forked, path, text, refl, readable, refl)
      ]
      | inr (inr (e, failed)) ↦ rw (found, failed) failed
    ]
  ]

  -- What can come of starting `count` workers from `id` on.
  abbrev pub AllStarted : ℕ → ℕ → Outcome (List Worker) → Type 0
  AllStarted id count (returns (ok ws)) =
      (map (λ w. w.id) ws ≡ ids id count) × All (λ w. fork w.id ≡ ok (parent w.pid)) ws
  AllStarted id count (returns (err e)) = (k : ℕ) × (id ≤ k) × (k < id + count) × (fork k ≡ err e)
  AllStarted id count (execs command) =
      (k : ℕ) × (id ≤ k) × (k < id + count) × Started k (execs command)
  AllStarted id count panics = (k : ℕ) × (id ≤ k) × (k < id + count) × Started k panics

  later :
      (id count : ℕ) (r : Outcome (List Worker))
      → AllStarted (suc id) count r
      → (w : Worker) → Started id (returns (ok w))
      → AllStarted id (suc count) (r >>= (λ ws. returns (ok (w ∷ ws))))
  later id count (returns (ok ws)) (named, forked) w (same, made) =
      (rw same (ap (◌∷◌ id) named), (rw same made, forked))
  later id count (returns (err e)) (k, above, below, failed) w s =
      (k, omega arith, omega arith, failed)
  later id count (execs command) (k, above, below, run) w s = (k, omega arith, omega arith, run)
  later id count panics (k, above, below, why) w s = (k, omega arith, omega arith, why)

  from_first :
      (id count : ℕ) (first : Outcome Worker) (rest : Outcome (List Worker))
      → Started id first
      → AllStarted (suc id) count rest
      → AllStarted id (suc count) (first >>= (λ w. rest >>= (λ ws. returns (ok (w ∷ ws)))))
  from_first id count (returns (ok w)) rest s all = later id count rest all w s
  from_first id count (returns (err e)) rest s all = (id, omega arith, omega arith, s)
  from_first id count (execs command) rest s all = (id, omega arith, omega arith, s)
  from_first id count panics rest s all = (id, omega arith, omega arith, s)

  start_from-AllStarted :
      (id count : ℕ) → AllStarted id count (start_from current_exe to_str fork id count)
  unfolding start_from
  start_from-AllStarted id zero = (refl, tt)
  start_from-AllStarted id (suc count) =
      from_first id count (start_worker current_exe to_str fork id) _ (start_worker-Started id)
        (start_from-AllStarted (suc id) count)

  module _ {ℓ κ} {C : Type ℓ} {U : Type κ} where
    -- How the call ends: with all workers started and recorded, numbered from 0 in order; with the
    -- error of a fork; in a child, as the program's worker of its number; or with a panic.
    abbrev pub Ended : Manager C U → ℕ → Manager C U × Outcome (Unit {0}) → Type (ℓ ⊔ κ)
    Ended m count ended =
        ((ws : List Worker) × (ended ≡ (record m { workers = m.workers ++ ws }, returns (ok tt)))
          × (map (λ w. w.id) ws ≡ ids 0 count)
          × All (λ w. fork w.id ≡ ok (parent w.pid)) ws)
        ⊎ ((e : ℕ) × (ended ≡ (m, returns (err e))) × (k : ℕ) × (k < count) × (fork k ≡ err e))
        ⊎ ((k : ℕ) × (k < count)
            × (fork k ≡ ok child)
            × (path : PathBuf) × (text : String) × (current_exe ≡ some path)
            × (to_str path ≡ some text)
            × (ended ≡ (m, execs (worker_command text k))))
        ⊎ ((ended ≡ (m, panics)) × (k : ℕ) × (k < count) × Started k panics)

    extend-Ended :
        (m : Manager C U) (count : ℕ) (r : Outcome (List Worker))
        → AllStarted 0 count r
        → Ended m count (extend m r)
    extend-Ended m count (returns (ok ws)) (named, forked) = inl (ws, refl, named, forked)
    extend-Ended m count (returns (err e)) (k, _, below, failed) =
        inr (inl (e, refl, k, omega arith, failed))
    extend-Ended m count (execs command) (k, _, below, run) =
        let (forked, path, text, found, readable, is) = run in
        inr (
          inr
            (inl (k, omega arith, forked, path, text, found, readable, ap (λ c. (m, execs c)) is)))
    extend-Ended m count panics (k, _, below, why) = inr (inr (inr (refl, k, omega arith, why)))

    pub start_workers_lem :
        (m : Manager C U) (count : ℕ)
        → Ended m count (start_workers current_exe to_str fork m count)
    unfolding start_workers
    start_workers_lem m count = extend-Ended m count _ (start_from-AllStarted 0 count)
