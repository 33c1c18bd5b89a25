-- ===== src/Pipeline/Registry.antt =====
-- Source/async_pipeline.cpp: what a round does with the queues, against a map from sockets.
use impact_socket_set.Base.{
  ℕ, ◌+◌, ◌%◌, ◌^◌, false, if◌then◌else◌, ◌==◌, Option, none, some, List, [], ◌∷◌, ◌++◌, All,
  length, ◌≡◌, refl, sym, ap, ◌∙◌, subst, arith,
}
use impact_socket_set.Base.Int.{pos}
use impact_socket_set.Base.Assoc.{lookup}
use impact_socket_set.Pipeline.{
  Tables, Pipeline, done, ◌>>=◌, copy_token, copy_pending, remove_pending, take_work, add_object,
  remove_object,
}
use impact_socket_set.Pipeline.Linked.{IsLinked, copy_token-result, remove_token-result}

module _ {ℓ} {Object : Type ℓ} where
  -- The object that each socket is served by.
  abbrev pub registry : Tables Object → ℕ → Option Object
  registry t socket = lookup socket t.info

  unfoldable pub register : ℕ × Object → (ℕ → Option Object) → ℕ → Option Object
  register (socket, object) r other = if socket == other then some object else r other

  unfoldable pub forget : ℕ → (ℕ → Option Object) → ℕ → Option Object
  forget socket r other = if socket == other then none else r other

  unfoldable pub register_all : List (ℕ × Object) → (ℕ → Option Object) → ℕ → Option Object
  register_all [] r = r
  register_all (token ∷ rest) r = register_all rest (register token r)

  unfoldable pub forget_all : List ℕ → (ℕ → Option Object) → ℕ → Option Object
  forget_all [] r = r
  forget_all (token ∷ rest) r = forget_all rest (forget token r)

  copy_pending-registry :
      (events : ℕ) (tokens : List (ℕ × Object)) (t : Tables Object)
      → IsLinked t
      → IsLinked (copy_pending events tokens t)
        × (registry (copy_pending events tokens t) ≡ register_all tokens (registry t))
  unfolding copy_pending register_all register
  copy_pending-registry events [] t h = (h, refl)
  copy_pending-registry events (token ∷ rest) t h =
      let (linked, found) = copy_token-result events token t h in
      let (all, rest_found) =
        copy_pending-registry events rest (copy_token events token t) linked in
      (all, rest_found ∙ ap (register_all rest) (λ i other. found other i))

  remove_pending-registry :
      (tokens : List ℕ) (t : Tables Object)
      → IsLinked t
      → (u : Tables Object) × (remove_pending tokens t ≡ done u)
        × IsLinked u
        × (registry u ≡ forget_all tokens (registry t))
  unfolding remove_pending forget_all forget
  remove_pending-registry [] t h = (t, refl, h, refl)
  remove_pending-registry (token ∷ rest) t h =
      let (v, one, linked, found) = remove_token-result token t h in
      let (u, all, kept, rest_found) = remove_pending-registry rest v linked in
      (
        u,
        ap (λ o. o >>= remove_pending rest) one ∙ all,
        kept,
        rest_found ∙ ap (forget_all rest) (λ i other. found other i),
      )

  -- On linked tables the locked scope of a round never uses an iterator to a missing key. It leaves
  -- linked tables and empty queues, the socket map is the old one with the queued objects
  -- registered in order and then the queued removals taken out, and nothing else changes.
  pub take_work-refines :
      (events : ℕ) (p : Pipeline Object)
      → IsLinked p.tables
      → (u : Tables Object) × (take_work events p
          ≡ done (
            (length p.pending + length p.removed) % 2 ^ 32,
            record p { tables = u; pending = []; removed = [] },
          ))
        × IsLinked u
        × (registry u ≡ forget_all p.removed (register_all p.pending (registry p.tables)))
  unfolding take_work
  take_work-refines events p h =
      let (copied, found) = copy_pending-registry events p.pending p.tables h in
      let (u, ends, linked, left) = remove_pending-registry p.removed _ copied in
      (u, rw ends refl, linked, left ∙ ap (forget_all p.removed) found)

  pub forget_all-none :
      (tokens : List ℕ) (r : ℕ → Option Object) (socket : ℕ)
      → r socket ≡ none
      → forget_all tokens r socket ≡ none
  unfolding forget_all forget
  forget_all-none [] r socket h = h
  forget_all-none (token ∷ rest) r socket h = forget_all-none rest _ socket (ground (arith, h))

  forget_all-last :
      (tokens : List ℕ) (r : ℕ → Option Object) (socket : ℕ)
      → forget_all (tokens ++ (socket ∷ [])) r socket ≡ none
  unfolding forget_all forget
  forget_all-last [] r socket = ground arith
  forget_all-last (token ∷ rest) r socket = forget_all-last rest _ socket

  -- A socket that is removed and then added again before the worker's next round is not served
  -- after it: the round registers everything that was added before it takes the removals out.
  remove_add-lost :
      (events socket : ℕ) (object : Object) (p q r : Pipeline Object)
      → IsLinked p.tables
      → remove_object (pos socket) p ≡ some q
      → add_object (pos socket) object q ≡ some r
      → (u : Tables Object) × (take_work events r
          ≡ done (
            (length r.pending + length r.removed) % 2 ^ 32,
            record r { tables = u; pending = []; removed = [] },
          ))
        × (registry u socket ≡ none)
  unfolding add_object remove_object
  remove_add-lost events socket object p q r h removed added =
      let queued : record p {
        removed = p.removed ++ (socket ∷ []);
        pending = p.pending ++ ((socket, object) ∷ []);
      }
          ≡ r =
        cc in
      let linked : IsLinked r.tables = subst (λ s. IsLinked s.tables) queued h in
      let (u, ends, _, left) = take_work-refines events r linked in
      let last : r.removed ≡ p.removed ++ (socket ∷ []) = sym (ap (λ s. s.removed) queued) in
      (
        u,
        ends,
        ap (λ f. f socket) left
            ∙ ap (λ ts. forget_all ts (register_all r.pending (registry r.tables)) socket) last
            ∙ forget_all-last p.removed _ socket,
      )

  pub register_all-none :
      (tokens : List (ℕ × Object)) (r : ℕ → Option Object) (socket : ℕ)
      → All (λ token. (token.0 == socket) ≡ false) tokens
      → r socket ≡ none
      → register_all tokens r socket ≡ none
  unfolding register_all register
  register_all-none [] r socket others h = h
  register_all-none (token ∷ rest) r socket others h =
      register_all-none rest _ socket others.1 (ground (arith, others.0, h))
