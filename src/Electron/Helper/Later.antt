-- ===== src/Electron/Helper/Later.antt =====
-- What each operation keeps of the requests: what is settled, and what is open.
use mozgoslav.Prelude.{
  ◌≡◌, refl, String, Bool, true, not, ◌||◌, some, [], ◌∷◌, ◌==◌, arith, eq_iff, eq_refl, is_some,
  All, All-imp, if_cases, Dict, lookup, insert, lookup-insert, lookup-erase,
}
use mozgoslav.Electron.Helper.{
  Failure, process_gone, reply_of, Reply, rejected, Message, Client, is_event, id_or_empty, settle,
  start, send, write_error, stop, reject_entries, reject_all_pending, dispatch,
}

module _ {R : Type 0} where
  -- a request is open or settled
  abbrev pub is_covered : Client R → String → Bool
  is_covered c id = is_some (lookup id c.pending) || is_some (lookup id c.settled)

  -- every request that was written to the helper is open or settled
  abbrev pub IsAccounted : Client R → Type 0
  IsAccounted c = All (λ id. is_covered c id ≡ true) c.sent

  -- A later state: what is settled stays as it is, and what is covered stays covered.
  pub record IsLater (c c' : Client R) : Type 0 where
    pub kept :
        (id : String) (r : Reply R) → lookup id c.settled ≡ some r → lookup id c'.settled ≡ some r
    pub covered : (id : String) → is_covered c id ≡ true → is_covered c' id ≡ true

  pub IsLater-refl : (c : Client R) → IsLater c c
  IsLater-refl c = record { kept = λ id r e. e; covered = λ id e. e }

  pub IsLater-trans : (a b c : Client R) → IsLater a b → IsLater b c → IsLater a c
  IsLater-trans a b c h k = record {
    kept = λ id r e. k.kept id r (h.kept id r e);
    covered = λ id e. k.covered id (h.covered id e);
  }

  pub lookup-settle :
      (k id : String) (r : Reply R) (settled : Dict (Reply R))
      → is_some (lookup id (settle k r settled)) ≡ (k == id) || is_some (lookup id settled)
  lookup-settle k id r settled = ground (arith, lookup-insert k id r settled, eq_iff k id)

  pub settle_keeps :
      (k id : String) (r s : Reply R) (settled : Dict (Reply R))
      → lookup id settled ≡ some s
      → lookup id (settle k r settled) ≡ some s
  settle_keeps k id r s settled e = ground (arith, lookup-insert k id r settled, eq_iff k id)

  pub lookup-reject_entries :
      (id : String) (entries : Dict String) (settled : Dict (Reply R))
      → is_some (lookup id (reject_entries entries settled))
        ≡ is_some (lookup id entries) || is_some (lookup id settled)
  unfolding reject_entries lookup
  lookup-reject_entries id [] settled = refl
  lookup-reject_entries id ((k, method) ∷ entries) settled = ground (
    arith,
    lookup-reject_entries id entries (settle k (rejected process_gone) settled),
    lookup-settle k id (rejected process_gone) settled,
  )

  pub reject_entries_keeps :
      (id : String) (s : Reply R) (entries : Dict String) (settled : Dict (Reply R))
      → lookup id settled ≡ some s
      → lookup id (reject_entries entries settled) ≡ some s
  unfolding reject_entries
  reject_entries_keeps id s [] settled e = e
  reject_entries_keeps id s ((k, method) ∷ entries) settled e =
      reject_entries_keeps id s entries _ (settle_keeps k id (rejected process_gone) s settled e)

  pub start-IsLater : (c : Client R) → IsLater c (start c)
  unfolding start
  start-IsLater c = record { kept = λ id r e. ground arith; covered = λ id e. ground arith }

  -- a state that sent nothing new
  pub later-IsAccounted :
      (c c' : Client R) → IsLater c c' → c'.sent ≡ c.sent → IsAccounted c → IsAccounted c'
  later-IsAccounted c c' l e h =
      rw e
        (All-imp (λ id. is_covered c id ≡ true) (λ id. is_covered c' id ≡ true) c.sent l.covered h)

  pub reject-IsLater :
      (id : String) (reason : Failure) (c : Client R)
      → IsLater c (record c { settled = settle id (rejected reason) c.settled })
  reject-IsLater id reason c = record {
    kept = λ i r e. settle_keeps id i (rejected reason) r c.settled e;
    covered = λ i e. ground (arith, lookup-settle id i (rejected reason) c.settled);
  }

  pub open-IsLater :
      (id method : String) (c : Client R)
      → IsLater c (record c { pending = insert id method c.pending; sent = id ∷ c.sent })
  open-IsLater id method c = record {
    kept = λ i r e. e;
    covered = λ i e. ground (arith, lookup-insert id i method c.pending);
  }

  pub send-IsAccounted :
      (id method : String) (writable : Bool) (c : Client R)
      → IsAccounted c
      → IsAccounted (send id method writable c)
  unfolding send
  send-IsAccounted id method writable c h =
      if_cases IsAccounted (not (is_some c.process))
        (λ e. later-IsAccounted c _ (reject-IsLater id Failure.not_running c) refl h)
        (λ e.
          if_cases IsAccounted (not writable)
            (λ f. later-IsAccounted c _ (reject-IsLater id Failure.not_writable c) refl h)
            (λ f. (
              ground (arith, lookup-insert id id method c.pending, eq_refl id),
              All-imp (λ i. is_covered c i ≡ true) _ c.sent (open-IsLater id method c).covered h,
            )))

  pub send-IsLater :
      (id method : String) (writable : Bool) (c : Client R) → IsLater c (send id method writable c)
  unfolding send
  send-IsLater id method writable c =
      if_cases (IsLater c) (not (is_some c.process)) (λ e. reject-IsLater id Failure.not_running c)
        (λ e.
          if_cases (IsLater c) (not writable) (λ f. reject-IsLater id Failure.not_writable c)
            (λ f. open-IsLater id method c))

  pub write_error-IsLater : (id : String) (c : Client R) → IsLater c (write_error id c)
  unfolding write_error
  write_error-IsLater id c = record {
    kept = λ i r e. settle_keeps id i (rejected Failure.write_failed) r c.settled e;
    covered = λ i e. ground (
      arith,
      lookup-settle id i (rejected Failure.write_failed) c.settled,
      lookup-erase id i c.pending,
      eq_iff id i,
    );
  }

  pub reject_all-IsLater : (c : Client R) → IsLater c (reject_all_pending c)
  unfolding reject_all_pending
  reject_all-IsLater c = record {
    kept = λ i r e. reject_entries_keeps i r c.pending c.settled e;
    covered = λ i e. ground (arith, lookup-reject_entries i c.pending c.settled);
  }

  pub dispatch-IsLater : (m : Message R) (c : Client R) → IsLater c (dispatch m c)
  unfolding dispatch
  dispatch-IsLater m c =
      let id = id_or_empty m.id in
      if_cases (IsLater c) (is_event m.id) (λ e. record { kept = λ i r f. f; covered = λ i f. f })
        (λ e.
          if_cases (IsLater c) (is_some (lookup id c.pending))
            (λ f. record {
              kept = λ i r g. settle_keeps id i (reply_of m) r c.settled g;
              covered = λ i g. ground (
                arith,
                lookup-settle id i (reply_of m) c.settled,
                lookup-erase id i c.pending,
                eq_iff id i,
              );
            })
            (λ f. IsLater-refl c))

  pub dispatch-sent : (m : Message R) (c : Client R) → (dispatch m c).sent ≡ c.sent
  unfolding dispatch
  dispatch-sent m c = ground arith

  pub stop-IsLater : (id : String) (writable : Bool) (c : Client R) → IsLater c (stop id writable c)
  unfolding stop
  stop-IsLater id writable c =
      let l : IsLater c (send id "shutdown" writable c) = send-IsLater id "shutdown" writable c in
      if_cases (IsLater c) (is_some c.process) (λ e. record { kept = l.kept; covered = l.covered })
        (λ e. IsLater-refl c)

  pub stop-IsAccounted :
      (id : String) (writable : Bool) (c : Client R)
      → IsAccounted c
      → IsAccounted (stop id writable c)
  unfolding stop
  stop-IsAccounted id writable c h =
      if_cases IsAccounted (is_some c.process) (λ e. send-IsAccounted id "shutdown" writable c h)
        (λ e. h)
