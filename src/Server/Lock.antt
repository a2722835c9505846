-- ===== src/Server/Lock.antt =====
-- What the session's lock guards, when it is given back, and who gets a session.
use avme_wallet.Base.{
  if◌then◌else◌, Bool-cases, All, Str, codes, same, same→eq, ◌≡◌, refl, sym, ap, ◌∙◌, ◌≢◌, ◌⊎◌, inl,
  inr, Bool, true, false, List, [], ◌∷◌, ◌++◌,
}
use avme_wallet.Server.{
  Operation, write, close, Session, do_write, close_session, on_closed, no_error,
  closed_or_cancelled, other_error, new_session, Step, accepted, read, writing, closing, wrote,
  closed, dropped, Reach, here, later, Listener, on_connection, accept_all,
}

-- At most one operation is pending, and under the lock only.
abbrev pub IsGuarded : Session → Type 0
IsGuarded s = (s.pending ≡ []) ⊎ ((o : Operation) × (s.pending ≡ o ∷ []) × (s.locked ≡ true))

quiet : (s : Session) → s.locked ≡ false → IsGuarded s → s.pending ≡ []
quiet s free (inl empty) = empty
quiet s free (inr (o, one, held)) = let bad : false ≡ true = sym free ∙ held in cc

do_write-IsGuarded : (s : Session) → s.locked ≡ false → IsGuarded s → IsGuarded (do_write s)
do_write-IsGuarded s free g = elim (Bool-cases s.is_open) [
  | inl y ↦ rw y (inr (write, ap (◌∷◌ write) (quiet s free g), refl))
  | inr n ↦ rw n g
]

close_session-IsGuarded :
    (s : Session) → s.locked ≡ false → IsGuarded s → IsGuarded (close_session s)
close_session-IsGuarded s free g = elim (Bool-cases s.is_open) [
  | inl y ↦ rw y (inr (close, ap (◌∷◌ close) (quiet s free g), refl))
  | inr n ↦ rw n g
]

-- Behind the one that ends, nothing is pending.
none_left :
    (o : Operation) (ops front rest : List Operation)
    → ops ≡ front ++ o ∷ rest
    → (ops ≡ []) ⊎ ((p : Operation) × (ops ≡ p ∷ []))
    → front ++ rest ≡ []
none_left o ops [] rest e (inl empty) = cc
none_left o ops (x ∷ front) rest e (inl empty) = cc
none_left o ops [] rest e (inr (p, one)) = cc
none_left o ops (x ∷ []) rest e (inr (p, one)) = cc
none_left o ops (x ∷ y ∷ front) rest e (inr (p, one)) = cc

ended_first : (o p : Operation) (front rest : List Operation) → o ∷ [] ≡ front ++ p ∷ rest → o ≡ p
ended_first o p [] rest e = cc
ended_first o p (x ∷ []) rest e = cc
ended_first o p (x ∷ y ∷ front) rest e = cc

at_most_one :
    (s : Session) → IsGuarded s → (s.pending ≡ []) ⊎ ((p : Operation) × (s.pending ≡ p ∷ []))
at_most_one s (inl empty) = inl empty
at_most_one s (inr (o, one, _)) = inr (o, one)

Step-IsGuarded : {s t : Session} → Step s t → IsGuarded s → IsGuarded t
Step-IsGuarded (accepted s true) g = g
Step-IsGuarded (accepted s false) g = g
Step-IsGuarded (read s no_error r) g = g
Step-IsGuarded (read s closed_or_cancelled r) g = g
Step-IsGuarded (read s other_error r) g = g
Step-IsGuarded (writing s free) g = do_write-IsGuarded s free g
Step-IsGuarded (closing s free) g = close_session-IsGuarded s free g
Step-IsGuarded (wrote s ec front rest p) g =
    inl (none_left write s.pending front rest p (at_most_one s g))
Step-IsGuarded (closed s true front rest p) g =
    inl (none_left close s.pending front rest p (at_most_one s g))
Step-IsGuarded (closed s false front rest p) g =
    inl (none_left close s.pending front rest p (at_most_one s g))
Step-IsGuarded (dropped s) g = g

-- In every state that a new session reaches, at most one asynchronous write or close is pending, and
-- the lock is held while one is.
pub session_one_operation :
    (garbage : Bool) (s : Session) → Reach (new_session garbage) s → IsGuarded s
session_one_operation garbage s here = inl refl
session_one_operation garbage s (later r step) =
    Step-IsGuarded step (session_one_operation garbage _ r)

-- What a step makes of a session whose only operation is pending and under the lock.
Step-gives_back :
    {s t : Session} (o : Operation)
    → Step s t
    → s.pending ≡ o ∷ []
    → s.locked ≡ true
    → (t.pending ≡ o ∷ [])
      ⊎ (t.locked ≡ false)
      ⊎ ((o ≡ close) × (t ≡ on_closed true (record s { pending = [] })))
Step-gives_back o (accepted s true) one held = inl one
Step-gives_back o (accepted s false) one held = inl one
Step-gives_back o (read s no_error r) one held = inl one
Step-gives_back o (read s closed_or_cancelled r) one held = inl one
Step-gives_back o (read s other_error r) one held = inl one
Step-gives_back o (writing s free) one held = let bad : false ≡ true = sym free ∙ held in cc
Step-gives_back o (closing s free) one held = let bad : false ≡ true = sym free ∙ held in cc
Step-gives_back o (wrote s ec front rest p) one held = inr (inl refl)
Step-gives_back o (closed s true front rest p) one held = inr (
    inr (
      ended_first o close front rest (sym one ∙ p),
      ap (λ x. on_closed true (record s { pending = x }))
          (none_left close s.pending front rest p (inr (o, one))),
    ))
Step-gives_back o (closed s false front rest p) one held = inr (inl refl)
Step-gives_back o (dropped s) one held = inl one

-- In a reachable state with a pending operation, every step leaves it pending or gives the lock back,
-- unless it is the end of a close with an error; and the operation can end with the lock given back.
pub session_lock_returns :
    (garbage : Bool) (s t : Session)
    → Reach (new_session garbage) s
    → s.pending ≢ []
    → Step s t
    → ((t.pending ≡ s.pending)
        ⊎ (t.locked ≡ false)
        ⊎ ((s.pending ≡ close ∷ []) × (t ≡ on_closed true (record s { pending = [] }))))
      × (u : Session) × Step s u
      × (u.locked ≡ false)
      × (u.pending ≡ [])
session_lock_returns garbage s t r busy step = elim (session_one_operation garbage s r) [
  | inl empty ↦ absurd (busy empty)
  | inr (o, one, held) ↦
      let (u, end_step, free, empty) = can_end o one in
      (kept_or_back o one (Step-gives_back o step one held), u, end_step, free, empty)
]
  where
    kept_or_back :
        (o : Operation)
        → s.pending ≡ o ∷ []
        → (t.pending ≡ o ∷ [])
          ⊎ (t.locked ≡ false)
          ⊎ ((o ≡ close) × (t ≡ on_closed true (record s { pending = [] })))
        → (t.pending ≡ s.pending)
          ⊎ (t.locked ≡ false)
          ⊎ ((s.pending ≡ close ∷ []) × (t ≡ on_closed true (record s { pending = [] })))
    kept_or_back o one (inl e) = inl (e ∙ sym one)
    kept_or_back o one (inr (inl e)) = inr (inl e)
    kept_or_back o one (inr (inr (e, failed))) = inr (inr (one ∙ ap (λ x. x ∷ []) e, failed))

    can_end :
        (o : Operation)
        → s.pending ≡ o ∷ []
        → (u : Session) × Step s u × (u.locked ≡ false) × (u.pending ≡ [])
    can_end write one = (_, wrote s false [] [] one, refl, refl)
    can_end close one = (_, closed s false [] [] one, refl, refl)

-- The lock is held and no handler is left that would give it back.
abbrev pub IsStuck : Session → Type 0
IsStuck s = (s.locked ≡ true) × (s.pending ≡ [])

no_middle : (o : Operation) (front rest : List Operation) → [] ≡ front ++ o ∷ rest → true ≡ false
no_middle o [] rest e = cc
no_middle o (x ∷ front) rest e = cc

Step-IsStuck : {s t : Session} → Step s t → IsStuck s → IsStuck t
Step-IsStuck (accepted s true) h = h
Step-IsStuck (accepted s false) h = h
Step-IsStuck (read s no_error r) h = h
Step-IsStuck (read s closed_or_cancelled r) h = h
Step-IsStuck (read s other_error r) h = h
Step-IsStuck (writing s free) (held, empty) = let bad : false ≡ true = sym free ∙ held in cc
Step-IsStuck (closing s free) (held, empty) = let bad : false ≡ true = sym free ∙ held in cc
Step-IsStuck (wrote s ec front rest p) (held, empty) =
    let bad = no_middle write front rest (sym empty ∙ p) in cc
Step-IsStuck (closed s ec front rest p) (held, empty) =
    let bad = no_middle close front rest (sym empty ∙ p) in cc
Step-IsStuck (dropped s) h = h

Reach-IsStuck : {s t : Session} → IsStuck s → Reach s t → IsStuck t
Reach-IsStuck h here = h
Reach-IsStuck h (later r step) = Step-IsStuck step (Reach-IsStuck h r)

-- If a close is the pending operation of a reachable state and it ends with an error, then in every
-- state that is reached from there the lock is held and no operation is pending.
pub session_failed_close_stuck :
    (garbage : Bool) (s t : Session)
    → Reach (new_session garbage) s
    → s.pending ≡ close ∷ []
    → Reach (on_closed true (record s { pending = [] })) t
    → (t.locked ≡ true) × (t.pending ≡ [])
session_failed_close_stuck garbage s t r one further = elim (session_one_operation garbage s r) [
  | inl empty ↦ let bad = no_middle close [] [] (sym empty ∙ one) in cc
  | inr (o, _, held) ↦ Reach-IsStuck (held, refl) further
]

one_local :
    (ec accepting : Bool) (remote : Str) (l : Listener)
    → All (λ a. a ≡ codes "127.0.0.1") l.sessions
    → All
        (λ a. a ≡ codes "127.0.0.1")
        (Listener.sessions (if accepting then on_connection ec remote l else l))
unfolding on_connection
one_local ec false remote l h = h
one_local true true remote l h = h
one_local false true remote l h = elim (Bool-cases (same remote (codes "127.0.0.1"))) [
  | inl y ↦ rw y (same→eq remote (codes "127.0.0.1") y, h)
  | inr n ↦ rw n h
]

-- Every session that the listener makes is for a connection from 127.0.0.1.
pub accept_all_local :
    (connections : List (Bool × Str)) (l : Listener)
    → All (λ a. a ≡ codes "127.0.0.1") l.sessions
    → All (λ a. a ≡ codes "127.0.0.1") (Listener.sessions (accept_all connections l))
unfolding accept_all
accept_all_local [] l h = h
accept_all_local ((ec, remote) ∷ connections) l h =
    accept_all_local connections (if l.is_accepting then on_connection ec remote l else l)
      (one_local ec l.is_accepting remote l h)
