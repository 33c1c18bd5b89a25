-- ===== src/Pipeline/Counted.antt =====
-- Source/async_pipeline.cpp: what holds between any two steps, and that each kind of step keeps it.
use impact_socket_set.Base.{
  ℕ, suc, ◌+◌, ◌%◌, ◌^◌, ◌≤◌, ◌<◌, ◌==◌, All, All-snoc, Bool, false, some, List, [], ◌∷◌, ◌++◌,
  length, length-append, ◌≡◌, refl, sym, ap, ◌∙◌, subst, arith,
}
use impact_socket_set.Base.Int.{ℤ, pos, negsuc, magnitude}
use impact_socket_set.Probe.{poll}
use impact_socket_set.Pipeline.{
  Host, Tables, Pipeline, Outcome, done, watches, add_object, remove_object, take_work,
  poll_handles, update_handles,
}
use impact_socket_set.Pipeline.Linked.{IsLinked}
use impact_socket_set.Pipeline.Registry.{take_work-refines, forget_all-none, register_all-none}
use impact_socket_set.Pipeline.Agreement.{update_handles-pass}
use impact_socket_set.Pipeline.Kept.{pass-IsLinked, pass-fewer}
use impact_socket_set.Pipeline.Sweeps.{pass, handles_of, all_ignored}
use impact_socket_set.Base.Assoc.{lookup-missing, has-lookup}
use impact_socket_set.Pipeline.Steps.{Phase, taken, polled, swept, System}
use impact_socket_set.Pipeline.Same.{
  KeepsSockets, same_sockets-IsLinked, watches-sockets_of, length-IsDistinct,
}

-- The requests that a round under way has taken but not yet counted off.
abbrev pub satisfied : Phase → ℕ
satisfied (taken n) = n
satisfied (polled n) = n
satisfied (swept has_work n) = n
satisfied _ = 0

-- A socket above every `int` is in no list of tokens.
others {ℓ} :
    {Object : Type ℓ} (socket : ℕ) (tokens : List (ℕ × Object))
    → 2 ^ 31 ≤ socket
    → All (λ token. token.0 < 2 ^ 31) tokens
    → All (λ token. (token.0 == socket) ≡ false) tokens
others socket [] large ints = tt
others socket (token ∷ rest) large ints = (ground (arith, ints.0), others socket rest large ints.1)

module _ {ℓ κ} {Object : Type ℓ} {World : Type κ} where
  -- Handles and objects are in step, every socket is an int, and the count of pending requests and
  -- the callers that have yet to count theirs make up the requests that are queued or taken (modulo
  -- 2^32, as an int does).
  pub record IsCounted (s : System Object World) : Type 0 where
    pub linked : IsLinked s.pipe.tables
    pub ints : (socket : ℕ) → 2 ^ 31 ≤ socket → watches socket s.pipe.tables.handles ≡ false
    pub queued : All (λ token. token.0 < 2 ^ 31) s.pipe.pending
    pub small : s.pipe.thread_pending < 2 ^ 32
    pub round : satisfied s.phase < 2 ^ 32
    pub total :
        (s.pipe.thread_pending + s.callers) % 2 ^ 32
        ≡ (length s.pipe.pending + length s.pipe.removed + satisfied s.phase) % 2 ^ 32

  -- So there are fewer than 2^64 handles.
  pub IsCounted-fits :
      (s : System Object World) → IsCounted s → length s.pipe.tables.handles < 2 ^ 64
  IsCounted-fits s h =
      omega (arith, length-IsDistinct (2 ^ 31) s.pipe.tables.handles h.linked.distinct h.ints)

  -- Steps that leave the tables, the queues, the count and the requests taken as they are.
  pub unmoved :
      (s t : System Object World)
      → t.pipe.tables ≡ s.pipe.tables
      → t.pipe.pending ≡ s.pipe.pending
      → t.pipe.removed ≡ s.pipe.removed
      → t.pipe.thread_pending ≡ s.pipe.thread_pending
      → t.callers ≡ s.callers
      → satisfied t.phase ≡ satisfied s.phase
      → IsCounted s
      → IsCounted t
  unmoved s t tables pending removed count callers round h = record {
    linked = rw tables h.linked;
    ints = rw tables h.ints;
    queued = rw pending h.queued;
    small = rw count h.small;
    round = rw round h.round;
    total = rw (count, callers, pending, removed, round) h.total;
  }

  pub adds-IsCounted :
      (s : System Object World) (socket : ℤ) (object : Object) (p : Pipeline Object)
      → magnitude socket < 2 ^ 31
      → add_object socket object s.pipe ≡ some p
      → IsCounted s
      → IsCounted (record s { pipe = p; callers = suc s.callers })
  unfolding add_object
  adds-IsCounted s (negsuc n) object p int ok h = cc
  adds-IsCounted s (pos n) object p int ok h =
      let q : Pipeline Object = record s.pipe { pending = s.pipe.pending ++ ((n, object) ∷ []) } in
      let same : q ≡ p = cc in
      let counted : IsCounted (record s { pipe = q; callers = suc s.callers }) = record {
        linked = h.linked;
        ints = h.ints;
        queued = All-snoc _ s.pipe.pending (n, object) h.queued int;
        small = h.small;
        round = h.round;
        total = omega (arith, h.total, length-append s.pipe.pending ((n, object) ∷ []));
      } in
      subst (λ q. IsCounted (record s { pipe = q; callers = suc s.callers })) same counted

  pub removes-IsCounted :
      (s : System Object World) (socket : ℤ) (p : Pipeline Object)
      → remove_object socket s.pipe ≡ some p
      → IsCounted s
      → IsCounted (record s { pipe = p; callers = suc s.callers })
  unfolding remove_object
  removes-IsCounted s (negsuc n) p ok h = cc
  removes-IsCounted s (pos n) p ok h =
      let q : Pipeline Object = record s.pipe { removed = s.pipe.removed ++ (n ∷ []) } in
      let same : q ≡ p = cc in
      let counted : IsCounted (record s { pipe = q; callers = suc s.callers }) = record {
        linked = h.linked;
        ints = h.ints;
        queued = h.queued;
        small = h.small;
        round = h.round;
        total = omega (arith, h.total, length-append s.pipe.removed (n ∷ []));
      } in
      subst (λ q. IsCounted (record s { pipe = q; callers = suc s.callers })) same counted

  pub takes-IsCounted :
      (events : ℕ) (s : System Object World) (n : ℕ) (p : Pipeline Object)
      → satisfied s.phase ≡ 0
      → take_work events s.pipe ≡ done (n, p)
      → IsCounted s
      → IsCounted (record s { pipe = p; phase = taken n })
  takes-IsCounted events s n p phase ok h =
      let (u, ends, linked, view) = take_work-refines events s.pipe h.linked in
      let size : ℕ = (length s.pipe.pending + length s.pipe.removed) % 2 ^ 32 in
      let q : Pipeline Object = record s.pipe { tables = u; pending = []; removed = [] } in
      let same : ◌≡◌ {A = Outcome (ℕ × Pipeline Object)} (done (size, q)) (done (n, p)) =
        sym ends ∙ ok in
      let count : size ≡ n = cc in
      let state : q ≡ p = cc in
      let counted : IsCounted (record s { pipe = q; phase = taken n }) = record {
        linked = linked;
        ints = λ socket large.
            let before =
              lookup-missing socket s.pipe.tables.info
                (h.linked.matched socket ∙ h.ints socket large) in
            let after = forget_all-none s.pipe.removed _ socket (
              register_all-none s.pipe.pending _ socket
                (others socket s.pipe.pending large h.queued) before) in
            sym (linked.matched socket)
            ∙ has-lookup socket u.info (ap (λ f. f socket) view ∙ after);
        queued = tt;
        small = h.small;
        round = omega (arith, count);
        total = omega (arith, h.total, count, phase);
      } in
      subst (λ q. IsCounted (record s { pipe = q; phase = taken n })) state counted

  pub polls-IsCounted :
      (host : Host Object World) (s : System Object World) (n : ℕ)
      → KeepsSockets host.system_poll
      → s.phase ≡ taken n
      → IsCounted s
      → IsCounted (record s {
        pipe = (poll_handles host s.pipe s.world).0;
        world = (poll_handles host s.pipe s.world).1;
        phase = polled n;
      })
  unfolding poll_handles poll
  polls-IsCounted host s n keeps phase h =
      let same = keeps s.pipe.tables.handles (pos s.pipe.granularity) s.world in
      let taken_n : satisfied s.phase ≡ n = ap satisfied phase in
      record {
        linked = same_sockets-IsLinked s.pipe.tables _ same refl h.linked;
        ints = λ socket large. watches-sockets_of socket _ _ same ∙ h.ints socket large;
        queued = h.queued;
        small = h.small;
        round = omega (arith, taken_n, h.round);
        total = omega (arith, taken_n, h.total);
      }

  pub sweeps-IsCounted :
      (host : Host Object World) (s : System Object World) (n : ℕ) (ignored b : Bool)
      (t : Tables Object) (w : World)
      → s.phase ≡ polled n
      → update_handles host s.pipe.tables s.world ≡ done (ignored, (t, w))
      → IsCounted s
      → IsCounted (record s { pipe = record s.pipe { tables = t }; world = w; phase = swept b n })
  sweeps-IsCounted host s n ignored b t w phase ok h =
      let error = host.error_code s.world in
      let p = pass host error s.pipe.tables.handles s.pipe.tables.info s.world in
      let u : Tables Object = record { handles = handles_of p.kept; info = p.info } in
      let same : ◌≡◌ {A = Outcome (Bool × (Tables Object × World))}
          (done (all_ignored p.kept, (u, p.world))) (done (ignored, (t, w))) =
        sym (update_handles-pass host s.pipe.tables s.world h.linked (IsCounted-fits s h)) ∙ ok in
      let tables : u ≡ t = cc in
      let polled_n : satisfied s.phase ≡ n = ap satisfied phase in
      record {
        linked = subst IsLinked tables (pass-IsLinked host error s.pipe.tables s.world h.linked);
        ints = λ socket large.
            subst (λ v. watches socket v.handles ≡ false) tables
              (pass-fewer host error s.pipe.tables s.world socket h.linked (h.ints socket large));
        queued = h.queued;
        small = h.small;
        round = omega (arith, polled_n, h.round);
        total = omega (arith, polled_n, h.total);
      }
