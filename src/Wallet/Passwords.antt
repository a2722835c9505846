-- ===== src/Wallet/Passwords.antt =====
-- core/Wallet.cpp, the stored password: startPassThread, stopPassThread and the threads that
-- storedPassThreadHandler runs in, as steps that interleave. Each statement is a step of its own, and
-- reads and writes of a member are not torn.
use avme_wallet.Base.{
  length, Str, ℕ, suc, ◌+◌, ◌≤◌, ◌<◌, ◌≡◌, refl, ◌≢◌, List, [], ◌∷◌, ◌++◌, arith,
}

-- `storing` are the deadlines of the calls of startPassThread that have stored the password only, and
-- `creating` calls have stored the deadline too; `uncreated` is how many threads could not be created.
-- `waiting` threads are in their loop; `leaving` ones have left it and have not cleared anything yet;
-- `clearing` ones, and calls of stopPassThread, have cleared the password but not the deadline.
pub record State : Type 0 where
  pub stored_pass : Str
  pub stored_pass_deadline : ℕ
  pub storing : List ℕ
  pub creating : ℕ
  pub uncreated : ℕ
  pub waiting : ℕ
  pub leaving : ℕ
  pub clearing : ℕ

abbrev pub initial : State
initial = record {
  stored_pass = [];
  stored_pass_deadline = 0;
  storing = [];
  creating = 0;
  uncreated = 0;
  waiting = 0;
  leaving = 0;
  clearing = 0;
}

-- The three statements of startPassThread; detach changes nothing here.
abbrev pub start_pass_thread : Str → ℕ → State → State
start_pass_thread pass deadline s = record s { stored_pass = pass; storing = deadline ∷ s.storing }

abbrev pub store_deadline : ℕ → List ℕ → State → State
store_deadline deadline others s = record s {
  stored_pass_deadline = deadline;
  storing = others;
  creating = suc s.creating;
}

abbrev pub create_thread : ℕ → State → State
create_thread others s = record s { creating = others; waiting = suc s.waiting }

-- The constructor of boost::thread throws, and the call ends.
abbrev pub fail_thread : ℕ → State → State
fail_thread others s = record s { creating = others; uncreated = suc s.uncreated }

-- The first of stopPassThread's statements; the second is the one that a thread ends with.
abbrev pub stop_pass_thread : State → State
stop_pass_thread s = record s { stored_pass = []; clearing = suc s.clearing }

-- storedPassThreadHandler: a look at the clock ends the loop or not, and then the two assignments.
pub data Step : State → State → Type 0 where
  start : (s : State) (pass : Str) (deadline : ℕ) → Step s (start_pass_thread pass deadline s)
  store :
      (s : State) (front : List ℕ) (deadline : ℕ) (rest : List ℕ)
      → s.storing ≡ front ++ deadline ∷ rest
      → Step s (store_deadline deadline (front ++ rest) s)
  create : (s : State) (n : ℕ) → s.creating ≡ suc n → Step s (create_thread n s)
  create_fails : (s : State) (n : ℕ) → s.creating ≡ suc n → Step s (fail_thread n s)
  stop : (s : State) → Step s (stop_pass_thread s)
  wait : (s : State) (now : ℕ) → 0 < s.waiting → now ≤ s.stored_pass_deadline → Step s s
  leave :
      (s : State) (now n : ℕ)
      → s.waiting ≡ suc n
      → s.stored_pass_deadline < now
      → Step s (record s { waiting = n; leaving = suc s.leaving })
  clear_pass :
      (s : State) (n : ℕ)
      → s.leaving ≡ suc n
      → Step s (record s { stored_pass = []; leaving = n; clearing = suc s.clearing })
  clear_deadline :
      (s : State) (n : ℕ)
      → s.clearing ≡ suc n
      → Step s (record s { stored_pass_deadline = 0; clearing = n })

pub data Reachable : State → Type 0 where
  here : Reachable initial
  next : {s t : State} → Reachable s → Step s t → Reachable t

-- The threads that are still to clear the password, and the calls that are still to create one.
abbrev pub clearers : State → ℕ
clearers s = s.waiting + s.leaving + (length s.storing + s.creating)

-- In every state that is reached and in which no creation of a thread has failed, a password that is
-- stored has a thread that is still to clear it, or a call that is still to create one.
pub stored_pass-thread :
    (s : State) → Reachable s → s.uncreated ≡ 0 → s.stored_pass ≢ [] → 0 < clearers s
stored_pass-thread s here all ne = absurd (ne refl)
stored_pass-thread _ (next r (start s pass deadline)) all ne = omega arith
stored_pass-thread _ (next r (store s front deadline rest e)) all ne = omega arith
stored_pass-thread _ (next r (create s n e)) all ne = omega arith
stored_pass-thread _ (next r (create_fails s n e)) all ne = absurd (omega (arith, all))
stored_pass-thread _ (next r (stop s)) all ne = absurd (ne refl)
stored_pass-thread _ (next r (wait s now w h)) all ne = omega arith
stored_pass-thread _ (next r (leave s now n e h)) all ne = omega arith
stored_pass-thread _ (next r (clear_pass s n e)) all ne = absurd (ne refl)
stored_pass-thread _ (next r (clear_deadline s n e)) all ne = stored_pass-thread s r all ne
