-- ===== src/Worker/Status.antt =====
-- What a worker's pool says of each server, and how the handlers of src/mgmt/worker.rs change that.
use weldr.Common.{
  ◌≡◌, ◌≢◌, refl, subst, length, ◌+◌, ◌<◌, ◌^◌, ap, sym, ◌∙◌, true, Option, none, some, List, [],
  ◌∷◌, arith, find, find-holds, All-find, if◌then◌else◌, Bool-cases, Option-cases, inl, inr,
  PartialEq, ◌==◌, ==_eq, ==_ne, String,
}
use mathlib.Core.Option
use mathlib.Core.Path.{fun_ext}
use weldr.Message.{Message}
use weldr.Server
use weldr.Server.{Server, server_eq}
use weldr.Backend
use weldr.Backend.{Backend, Heap, ServerState, active, down}
use weldr.Pool
use weldr.Pool.{Pool, find_backend, find_server}
use weldr.Pool.Get.{IsValid}
use weldr.Pool.Members.{
  add_server-IsValid, IsClosed, find-add_server, add_server-IsClosed, add_server_lem,
}
use weldr.Worker.{
  add_url, mark_url_down, mark_url_active, ok, add_server, mark_server_down, mark_server_active,
}

module _ {ℓ} {U : Type ℓ} ⦃e : PartialEq U⦄ where
  -- The state of the first backend for the server, which is the one that the handlers change.
  abbrev pub status : Pool U → Server U → Option ServerState
  status p s = Option.map (λ b. (p.heap.cell b).state) (find_backend p s)

  -- What a request does to the state of every server, seen as a map.
  unfoldable pub announced :
      (Server U → Option ServerState) → Message U → Server U → Option ServerState
  announced d (Message.add_server url) s =
      if Server.new url true == s then some (elim (d s) [ none ↦ active | some t ↦ t ]) else d s
  announced d (Message.mark_server_down url) s =
      if Server.new url true == s then Option.map (λ _. down) (d s) else d s
  announced d (Message.mark_server_active url) s =
      if Server.new url true == s then Option.map (λ _. active) (d s) else d s

  unfoldable pub handle : Pool U → Message U → Pool U
  unfolding add_url mark_url_down mark_url_active
  handle p (Message.add_server url) = add_url p url
  handle p (Message.mark_server_down url) = mark_url_down p url
  handle p (Message.mark_server_active url) = mark_url_active p url

  pub found_server :
      (p : Pool U) (s : Server U) (b : Backend)
      → find_backend p s ≡ some b
      → Backend.server p.heap b ≡ s
  unfolding find_backend find_server
  found_server p s b f = ==_eq _ _ (find-holds _ p.backends b f)

  pub add-state :
      (p : Pool U) (s t : Server U) (b : Backend)
      → IsClosed p
      → find_backend p t ≡ some b
      → (Pool.add_server p s).0.heap.cell b ≡ p.heap.cell b
  unfolding find_backend find_server
  add-state p s t b c f = All-find _ _ p.backends b (add_server_lem p s c).5 f

  status-add_server :
      (p : Pool U) (s t : Server U)
      → IsClosed p
      → status (Pool.add_server p s).0 t
        ≡ (if s == t then some (elim (status p t) [ none ↦ active | some v ↦ v ]) else status p t)
  status-add_server p s t c =
      let stored : ((Pool.add_server p s).0.heap.cell p.heap.next).state ≡ active =
        ap (λ v. v.state) (add_server_lem p s c).4 in
      elim (Option-cases (find_backend p t)) [
        | inl missing ↦ rw (find-add_server p s t c, missing) (ground (arith, stored))
        | inr (b, found) ↦
            let same = ap (λ v. some v.state) (add-state p s t b c found) in
            rw (find-add_server p s t c, found) (ground (arith, same))
      ]

  -- A pool in which one backend has changed its state.
  abbrev pub changed : Pool U → Backend → ServerState → Pool U
  changed p b t = record p { heap = Backend.write p.heap b (record (p.heap.cell b) { state = t }) }

  server-changed :
      (p : Pool U) (b : Backend) (v : ServerState) (i : Backend)
      → Backend.server (changed p b v).heap i ≡ Backend.server p.heap i
  server-changed p b v i = ground arith

  find-changed :
      (p : Pool U) (b : Backend) (v : ServerState) (t : Server U)
      → find_backend (changed p b v) t ≡ find_backend p t
  unfolding find_backend find_server
  find-changed p b v t =
      ap (λ q. find q p.backends) (fun_ext λ i. ap (λ v. v == t) (server-changed p b v i))

  pub status-changed :
      (p : Pool U) (b : Backend) (v : ServerState) (s t : Server U)
      → find_backend p s ≡ some b
      → status (changed p b v) t ≡ (if s == t then Option.map (λ _. v) (status p t) else status p t)
  status-changed p b v s t found = elim (Option-cases (find_backend p t)) [
    | inl missing ↦ rw (find-changed p b v t, missing) (ground arith)
    | inr (b', found') ↦
        rw (find-changed p b v t, found')
          (elim (Bool-cases (s == t)) [
            | inl same ↦
                let e' : b ≡ b' = cc (sym found ∙ ap (find_backend p) (==_eq s t same) ∙ found') in
                rw same (ground (arith, e'))
            | inr apart ↦
                let ne : b ≢ b' = λ e'. ==_ne s t apart (
                  sym (found_server p s b found)
                  ∙ ap (Backend.server p.heap) e'
                  ∙ found_server p t b' found') in
                rw apart (ground (arith, ne))
          ])
  ]

  -- Both marks.
  abbrev marked : Pool U → Server U → ServerState → Pool U
  marked p s v = elim (find_backend p s) [ some b ↦ changed p b v | none ↦ p ]

  marked_found :
      (p : Pool U) (s : Server U) (v : ServerState) (b : Backend)
      → find_backend p s ≡ some b
      → marked p s v ≡ changed p b v
  marked_found p s v b found = rw (found, marked)

  marked_missing :
      (p : Pool U) (s : Server U) (v : ServerState) → find_backend p s ≡ none → marked p s v ≡ p
  marked_missing p s v missing = rw (missing, marked)

  status-marked :
      (p : Pool U) (s : Server U) (v : ServerState) (t : Server U)
      → status (marked p s v) t ≡ (if s == t then Option.map (λ _. v) (status p t) else status p t)
  status-marked p s v t = elim (Option-cases (find_backend p s)) [
    | inr (b, found) ↦
        ap (λ q. status q t) (marked_found p s v b found) ∙ status-changed p b v s t found
    | inl missing ↦
        ap (λ q. status q t) (marked_missing p s v missing) ∙ elim (Bool-cases (s == t)) [
          | inl same ↦
              let e' : find_backend p t ≡ none =
                ap (find_backend p) (sym (==_eq s t same)) ∙ missing in
              rw same (ground (arith, e'))
          | inr apart ↦ rw apart
        ]
  ]

  marked-IsClosed :
      (p : Pool U) (s : Server U) (v : ServerState) → IsClosed p → IsClosed (marked p s v)
  marked-IsClosed p s v c = elim (Option-cases (find_backend p s)) [
    | inr (b, found) ↦ rw (found, marked) c
    | inl missing ↦ rw (missing, marked) c
  ]

  -- Where no reference of the pool dangles, each of the manager's three requests changes what the
  -- pool says of every server as it tells.
  pub handle-announced :
      (p : Pool U) (m : Message U) (t : Server U)
      → IsClosed p
      → status (handle p m) t ≡ announced (status p) m t
  unfolding handle announced Backend.mark_down Backend.mark_active
  handle-announced p (Message.add_server url) t c = status-add_server p (Server.new url true) t c
  handle-announced p (Message.mark_server_down url) t c =
      status-marked p (Server.new url true) down t
  handle-announced p (Message.mark_server_active url) t c =
      status-marked p (Server.new url true) active t

  pub handle-IsClosed : (p : Pool U) (m : Message U) → IsClosed p → IsClosed (handle p m)
  unfolding handle Backend.mark_down Backend.mark_active
  handle-IsClosed p (Message.add_server url) c = add_server-IsClosed p (Server.new url true) c
  handle-IsClosed p (Message.mark_server_down url) c =
      marked-IsClosed p (Server.new url true) down c
  handle-IsClosed p (Message.mark_server_active url) c =
      marked-IsClosed p (Server.new url true) active c

  marked-inner : (p : Pool U) (s : Server U) (v : ServerState) → (marked p s v).inner ≡ p.inner
  marked-inner p s v = elim (Option-cases (find_backend p s)) [
    | inr (b, found) ↦ rw (found, marked) refl
    | inl missing ↦ rw (missing, marked) refl
  ]

  pub handle-IsValid :
      (p : Pool U) (m : Message U)
      → IsClosed p
      → length p.backends + 1 < 2 ^ 64
      → IsValid p.inner
      → IsValid (handle p m).inner
  unfolding handle add_url Backend.mark_down Backend.mark_active
  handle-IsValid p (Message.add_server url) c room v =
      add_server-IsValid p (Server.new url true) c room v
  handle-IsValid p (Message.mark_server_down url) c room v =
      subst IsValid (sym (marked-inner p (Server.new url true) down)) v
  handle-IsValid p (Message.mark_server_active url) c room v =
      subst IsValid (sym (marked-inner p (Server.new url true) active)) v

  -- The requests that a worker gets, in order.
  unfoldable pub handle_all : Pool U → List (Message U) → Pool U
  unfolding handle
  handle_all p [] = p
  handle_all p (m ∷ ms) = handle_all (handle p m) ms

  unfoldable pub announced_all :
      (Server U → Option ServerState) → List (Message U) → Server U → Option ServerState
  unfolding announced
  announced_all d [] = d
  announced_all d (m ∷ ms) = announced_all (announced d m) ms

  -- Where no reference of the pool dangles, after any requests of the manager the pool says of
  -- every server what they told, in order, on top of what it said before.
  pub handle_all-announced :
      (p : Pool U) (ms : List (Message U)) (t : Server U)
      → IsClosed p
      → status (handle_all p ms) t ≡ announced_all (status p) ms t
  unfolding handle_all announced_all
  handle_all-announced p [] t c = refl
  handle_all-announced p (m ∷ ms) t c =
      handle_all-announced (handle p m) ms t (handle-IsClosed p m c)
      ∙ ap (λ d. announced_all d ms t) (fun_ext λ s. handle-announced p m s c)

  -- With a text that can be read and parsed each of the three handlers does what `handle` does.
  pub handlers-handle :
      (parse : String → Option U) (p : Pool U) (text : String) (url : U)
      → parse text ≡ some url
      → (add_server parse p (some text) ≡ ok (handle p (Message.add_server url)))
        × (mark_server_down parse p (some text) ≡ ok (handle p (Message.mark_server_down url)))
        × (mark_server_active parse p (some text) ≡ ok (handle p (Message.mark_server_active url)))
  unfolding handle add_server mark_server_down mark_server_active
  handlers-handle parse p text url e = (rw e, rw e, rw e)
