-- ===== src/Main/Walk.antt =====
-- The calls that the parts of `main` (src/weldr.rs) make, as scripts that are followed up to the first call
-- that fails.
use weldr.Common.{
  String, Bool, true, Option, none, some, List, [], ◌∷◌, ◌++◌, ◌≡◌, refl, ap, ◌∙◌, Bool-cases, inl,
  inr, if◌then◌else◌, drop,
}
use weldr.Config
use weldr.Config.{Config, Timeout}
use weldr.Main.{
  run_worker, Action, Run, ◌>>=◌, perform, setup_listener, init_logger, new_core, subscribe, new_v4,
  reuse_address, reuse_port, bind, listen, from_listener, serve, run, local_addr, bind_tcp, Future,
  proxying, managing, run_core, start_workers,
}

module _ {Addr : Type 0} where
  -- The calls of a worker, and of the manager, in order.
  abbrev pub worker_script : Addr → Addr → List (Action Addr)
  worker_script internal_addr ip =
      init_logger
      ∷ new_core
      ∷ subscribe internal_addr
      ∷ new_v4
      ∷ reuse_address true
      ∷ reuse_port true
      ∷ bind ip
      ∷ listen 128
      ∷ from_listener ip
      ∷ local_addr
      ∷ run_core (proxying Config.default)
      ∷ []

  abbrev pub manager_script : Addr → Addr → List (Action Addr)
  manager_script internal_addr admin_ip =
      init_logger
      ∷ new_core
      ∷ bind_tcp internal_addr
      ∷ start_workers 5
      ∷ bind_tcp admin_ip
      ∷ local_addr
      ∷ run_core (managing 10_000)
      ∷ []

module _ {Addr : Type 0} (fails : Action Addr → Bool) where
  -- A script up to the first call that fails, which is made too; nothing comes of it then.
  unfoldable pub walk : List (Action Addr) → Run Addr (Unit {0})
  walk [] = ([], some tt)
  walk (a ∷ rest) = let (made, r) = walk rest in if fails a then (a ∷ [], none) else (a ∷ made, r)

  -- One call of a script, and the rest of it
  pub walk-perform :
      (a : Action Addr) (rest : List (Action Addr)) (next : Unit {0} → Run Addr (Unit {0}))
      → next tt ≡ walk rest
      → (perform fails a >>= next) ≡ walk (a ∷ rest)
  unfolding walk
  walk-perform a rest next e = elim (Bool-cases (fails a)) [
    | inl bad ↦ rw (bad, perform) refl
    | inr fine ↦ rw (fine, perform) (ap (λ r. (a ∷ r.0, r.1)) e)
  ]

  pub walk-last : (a : Action Addr) → perform fails a ≡ walk (a ∷ [])
  unfolding walk
  walk-last a = elim (Bool-cases (fails a)) [
    | inl bad ↦ rw (bad, perform) refl
    | inr fine ↦ rw (fine, perform) refl
  ]

  >>=-behind :
      (x : Action Addr) (made : List (Action Addr)) (r : Option (Unit {0}))
      (next : Unit {0} → Run Addr (Unit {0}))
      → ((x ∷ made, r) >>= next) ≡ (x ∷ ((made, r) >>= next).0, ((made, r) >>= next).1)
  >>=-behind x made none next = refl
  >>=-behind x made (some _) next = refl

  -- A panic, once the calls of a script are made
  abbrev pub panics_after : List (Action Addr) → Run Addr (Unit {0})
  panics_after made = ((walk made).0, none)

  pub panics-perform :
      (a : Action Addr) (rest : List (Action Addr)) (next : Unit {0} → Run Addr (Unit {0}))
      → next tt ≡ panics_after rest
      → (perform fails a >>= next) ≡ panics_after (a ∷ rest)
  unfolding walk
  panics-perform a rest next e = elim (Bool-cases (fails a)) [
    | inl bad ↦ rw (bad, perform) refl
    | inr fine ↦ rw (fine, perform) (ap (λ r. (a ∷ r.0, r.1)) e)
  ]

  pub panics-last :
      (a : Action Addr)
      → ◌>>=◌ {B = Unit {0}} (perform fails a) (λ u. ([], none)) ≡ panics_after (a ∷ [])
  unfolding walk
  panics-last a = panics-perform a [] (λ u. ([], none)) refl

  -- Two scripts, one after the other
  walk-append :
      (xs ys : List (Action Addr)) (next : Unit {0} → Run Addr (Unit {0}))
      → next tt ≡ walk ys
      → (walk xs >>= next) ≡ walk (xs ++ ys)
  unfolding walk
  walk-append [] ys next e = e
  walk-append (x ∷ xs) ys next e = elim (Bool-cases (fails x)) [
    | inl bad ↦ rw bad refl
    | inr fine ↦
        let (made, r) = walk xs in
        rw fine (>>=-behind x made r next ∙ ap (λ m. (x ∷ m.0, m.1)) (walk-append xs ys next e))
  ]

  listener-walk :
      (addr : Addr)
      → setup_listener fails addr
        ≡ walk (
            new_v4
            ∷ reuse_address true
            ∷ reuse_port true
            ∷ bind addr
            ∷ listen 128
            ∷ from_listener addr
            ∷ [])
  unfolding setup_listener
  listener-walk addr = walk-perform new_v4 _ _ (
      walk-perform (reuse_address true) _ _ (
        walk-perform (reuse_port true) _ _ (
          walk-perform (bind addr) _ _
            (walk-perform (listen 128) _ _ (walk-last (from_listener addr))))))

  serve-walk :
      (config : Config)
      → (serve fails config >>= (λ srv. perform fails (run_core srv)))
        ≡ walk (local_addr ∷ run_core (proxying config) ∷ [])
  unfolding walk
  serve-walk config = elim (Bool-cases (fails local_addr)) [
    | inl bad ↦ rw (bad, serve, walk) refl
    | inr fine ↦
        rw (fine, serve, walk)
          (ap (λ r. (local_addr ∷ r.0, r.1)) (walk-last (run_core (proxying config))))
  ]

  pub run_worker-walk :
      (internal_addr ip : Addr) (own : String → Option String) (id : String)
      → own "id" ≡ some id
      → run_worker fails internal_addr ip own ≡ walk (drop 2 (worker_script internal_addr ip))
  unfolding run_worker
  run_worker-walk internal_addr ip own id given =
      let last = λ (srv : Future). perform fails (run_core srv) in
      let behind = λ (u : Unit {0}). serve fails Config.default >>= last in
      rw given (
        walk-perform (subscribe internal_addr) _ (λ u. setup_listener fails ip >>= behind)
          (ap (λ r. r >>= behind) (listener-walk ip)
            ∙ walk-append _ _ behind (serve-walk Config.default)))

  pub run-walk :
      (sock : Addr) (config : Config)
      → run fails sock config
        ≡ walk (bind_tcp sock ∷ local_addr ∷ run_core (managing config.health_check.interval) ∷ [])
  unfolding run
  run-walk sock config =
      walk-perform (bind_tcp sock) _ _
        (walk-perform local_addr _ _ (walk-last (run_core (managing config.health_check.interval))))
