-- ===== src/Api/Restore.antt =====
-- A listing of the management API (src/mgmt/api.rs) that is posted to another manager, server by server.
use weldr.Common.{
  true, none, some, List, [], ◌∷◌, ◌++◌, map, append_assoc, append-nil, ◌≡◌, ◌≢◌, refl, ap, sym,
  ◌∙◌, inl, inr, find, All, All-map, All-append, Bool-cases, PartialEq, ◌==◌, ne_==, map_congr,
  map-append, string_partial_eq,
}
use weldr.Server
use weldr.Server.{Server, server_eq}
use weldr.Backend
use weldr.Backend.{Backend, Heap}
use weldr.Pool
use weldr.Pool.{Pool, find_backend, find_server, default}
use weldr.Pool.Members.{IsClosed, has_fresh, has_fresh-find, add_server_lem, add_server-IsClosed}
use weldr.Api.{Mgmt, post, Json, Text, decoded, PoolServer, pool_server, pool_servers, call}
use weldr.Api.Servers.{Names, add_server-Names}

module _ {ℓ} {A : Type ℓ} where
  -- None of them is `s`.
  abbrev pub Lacks : A → List A → Type ℓ
  Lacks s = All (λ x. x ≢ s)

  -- None of them comes twice.
  abbrev pub Unrepeated : List A → Type ℓ
  Unrepeated [] = Unit
  Unrepeated (x ∷ xs) = Lacks x xs × Unrepeated xs

behind-Lacks {ℓ} :
    {A : Type ℓ} (xs : List A) (s : A) (ss : List A)
    → All (λ t. Lacks t xs) ss
    → Lacks s ss
    → All (λ t. Lacks t (xs ++ s ∷ [])) ss
behind-Lacks xs s [] new l = tt
behind-Lacks xs s (t ∷ ss) new l =
    (All-append _ xs _ new.0 ((λ e. l.0 (sym e)), tt), behind-Lacks xs s ss new.1 l.1)

find-Lacks {ℓ κ} :
    {A : Type ℓ} {B : Type κ} ⦃e : PartialEq B⦄ (f : A → B) (s : B) (xs : List A)
    → Lacks s (map f xs)
    → find (λ x. f x == s) xs ≡ none
find-Lacks f s [] l = refl
find-Lacks f s (x ∷ xs) l = let apart = ne_== _ _ l.0 in rw apart (find-Lacks f s xs l.1)

module _ {ℓ} {U : Type ℓ} where
  -- The servers of a pool, in its order
  abbrev pub servers_of : Pool U → List (Server U)
  servers_of p = map (Backend.server p.heap) p.backends

module _ {ℓ} {U : Type ℓ} ⦃e : PartialEq U⦄ where
  missing-Lacks : (p : Pool U) (s : Server U) → Lacks s (servers_of p) → find_backend p s ≡ none
  unfolding find_backend find_server
  missing-Lacks p s l = find-Lacks (Backend.server p.heap) s p.backends l

  servers_of-add_server :
      (p : Pool U) (s : Server U)
      → IsClosed p
      → Lacks s (servers_of p)
      → servers_of (Pool.add_server p s).0 ≡ servers_of p ++ s ∷ []
  servers_of-add_server p s c l = elim (Bool-cases (has_fresh p s)) [
    | inl old ↦
        let found = (has_fresh-find p s old).1 in
        let missing = missing-Lacks p s l in let never = sym found ∙ missing in cc (never)
    | inr new ↦
        let (_, listed, _, _, stored, same) = add_server_lem p s c in
        let q = (Pool.add_server p s).0 in
        let is = rw new at listed in
        let older =
          map_congr _ _ p.backends (All-map (λ b e. ap (λ v. v.server) e) p.backends same) in
        ap (map (Backend.server q.heap)) is
        ∙ map-append (Backend.server q.heap) p.backends (p.heap.next ∷ [])
        ∙ ap (λ l. l ++ Backend.server q.heap p.heap.next ∷ []) older
        ∙ ap (λ v. servers_of p ++ v.server ∷ []) stored
  ]

module _ {ℓ} {U : Type ℓ} {Chunk : Type 0} (json : Json Chunk) (text : Text U) where
  -- The body that a client makes of a server of a listing is read as that server, and the text of
  -- a URL there is read as that URL.
  pub record Reads (body : PoolServer → Chunk) : Type ℓ where
    pub reads : (s : PoolServer) → json.from_slice (body s) ≡ decoded s
    pub parses : (u : U) → text.parse (text.as_ref u) ≡ some u

module _ {ℓ κ} {U : Type ℓ} ⦃e : PartialEq U⦄ {C : Type κ} {Chunk : Type 0} (json : Json Chunk)
    (text : Text U) where
  -- Each body is posted to /servers, one after another.
  unfoldable pub post_all : Mgmt U C → List Chunk → Mgmt U C
  unfolding call
  post_all m [] = m
  post_all m (body ∷ bodies) = post_all (call json text m post "/servers" (some body)).0 bodies

  post-added :
      (body : PoolServer → Chunk) (m : Mgmt U C) (s : Server U)
      → Reads json text body
      → s.map_host ≡ true
      → (call json text m post "/servers" (some (body (pool_server text s)))).0.pool
        ≡ (Pool.add_server m.pool s).0
  unfolding call pool_server Server.new
  post-added body m s reads maps =
      let names : Names json text (some (body (pool_server text s))) s.url = record {
        chunk = body (pool_server text s);
        server = pool_server text s;
        came = refl;
        decodes = reads.reads (pool_server text s);
        parses = reads.parses s.url;
      } in
      ap (λ r. r.0.pool) (add_server-Names json text m _ s.url names)
      ∙ ap (λ t. (Pool.add_server m.pool (record { url = s.url; map_host = t })).0) (sym maps)

  -- What is posted comes behind what is listed, where nothing of that is listed yet.
  post_all-servers_of :
      (body : PoolServer → Chunk) (m : Mgmt U C) (ss : List (Server U))
      → Reads json text body
      → IsClosed m.pool
      → All (λ s. s.map_host ≡ true) ss
      → All (λ s. Lacks s (servers_of m.pool)) ss
      → Unrepeated ss
      → servers_of (post_all m (map body (map (pool_server text) ss))).pool
        ≡ servers_of m.pool ++ ss
  unfolding post_all
  post_all-servers_of body m [] reads c maps new once = sym (append-nil (servers_of m.pool))
  post_all-servers_of body m (s ∷ ss) reads c maps new once =
      let m1 = (call json text m post "/servers" (some (body (pool_server text s)))).0 in
      let pools = post-added body m s reads maps.0 in
      let listed : servers_of m1.pool ≡ servers_of m.pool ++ s ∷ [] =
        ap servers_of pools ∙ servers_of-add_server m.pool s c new.0 in
      let closed : IsClosed m1.pool = rw pools (add_server-IsClosed m.pool s c) in
      let still : All (λ t. Lacks t (servers_of m1.pool)) ss =
        rw listed (behind-Lacks (servers_of m.pool) s ss new.1 once.0) in
      post_all-servers_of body m1 ss reads closed maps.1 still once.1
      ∙ ap (λ l. l ++ ss) listed
      ∙ append_assoc (servers_of m.pool) (s ∷ []) ss

  -- If the body that is made of a listed server is read as that server, the text of a URL as that
  -- URL, every server of a pool maps hosts, and none is listed twice, then after the servers of the
  -- pool's listing are posted one after another to a manager with an empty pool, the listing of
  -- that is the same.
  pub post_all-listing :
      (body : PoolServer → Chunk) (p : Pool U) (m : Mgmt U C) (h : Heap U)
      → Reads json text body
      → All (λ s. s.map_host ≡ true) (servers_of p)
      → Unrepeated (servers_of p)
      → m.pool ≡ default h
      → pool_servers text (post_all m (map body (pool_servers text p).servers)).pool
        ≡ pool_servers text p
  unfolding pool_servers default
  post_all-listing body p m h reads maps once empty =
      let none_listed : servers_of m.pool ≡ [] = ap servers_of empty in
      let closed : IsClosed m.pool = rw empty tt in
      let lacks : All (λ s. Lacks s (servers_of m.pool)) (servers_of p) =
        rw none_listed (All-map (λ s t. tt) (servers_of p) maps) in
      let same =
        post_all-servers_of body m (servers_of p) reads closed maps lacks once
        ∙ ap (λ l. l ++ servers_of p) none_listed in
      ap (λ ss. record { servers = map (pool_server text) ss; links = (pool_servers text p).links })
        same
